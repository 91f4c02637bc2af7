-- ===== src/Prelude/Family.antt =====
-- Families indexed by a number, and their update at one place.
use Prim.Native.Nat.{ℕ}
use mathlib.Core.Path.{◌≡◌, refl}
use mathlib.Core.Bool.{false}
use bluek.Prelude.Tests.{◌==◌, ==_refl, if◌then◌else◌}

abbrev pub set_at {ℓ} : {A : Type ℓ} → ℕ → A → (ℕ → A) → ℕ → A
set_at i a f j = if j == i then a else f j

pub set_at-same {ℓ} : {A : Type ℓ} (i : ℕ) (a : A) (f : ℕ → A) → set_at i a f i ≡ a
set_at-same i a f = rw (==_refl i) refl

pub set_at-other {ℓ} :
    {A : Type ℓ} (i j : ℕ) (a : A) (f : ℕ → A) → (j == i) ≡ false → set_at i a f j ≡ f j
set_at-other i j a f no_ = rw no_ refl
