-- ===== src/Prelude/Result.antt =====
-- exc.py and the built-in exceptions that the program raises or catches, and the two shapes of a
-- fallible call: a plain result, and a method that changes a state.
use Prim.Native.Nat.{ℕ}
use mathlib.Core.Path.{◌≡◌, refl}
use mathlib.Core.Bool.{Bool, true, false}
use mathlib.Core.Option.{Option, none, some}
use bluek.Prelude.Tests.{Text}

-- Messages are left out. `out_of_fuel` is no Python exception.
pub data Error : Type 0 where
  bleak_error : Error
  device_not_found : Text → Error
  characteristic_not_found : Error
  att_error : ℕ → ℕ → ℕ → Error
  timeout_error : Error
  os_error : ℕ → Error
  value_error index_error key_error struct_error overflow_error runtime_error attribute_error :
      Error
  out_of_fuel : Error

-- isinstance(e, BleakError)
unfoldable pub is_bleak_error : Error → Bool
is_bleak_error bleak_error = true
is_bleak_error (device_not_found _) = true
is_bleak_error characteristic_not_found = true
is_bleak_error (att_error _ _ _) = true
is_bleak_error _ = false

pub data Result {ℓ} (A : Type ℓ) : Type ℓ where
  ok : A → Result A
  err : Error → Result A

infixl 5 ◌>>=◌
abbrev pub ◌>>=◌ {ℓ κ} : {A : Type ℓ} {B : Type κ} → Result A → (A → Result B) → Result B
ok a >>= f = f a
err e >>= f = err e

abbrev pub or_raise {ℓ} : {A : Type ℓ} → Option A → Error → Result A
or_raise none e = err e
or_raise (some a) e = ok a

-- The parts of a chain that returns: its first call returned `a`, and the rest of it `b`.
pub bind_inv {ℓ κ} :
    {B : Type κ} {A : Type ℓ} {b : B} {m : Result A} (f : A → Result B)
    → (m >>= f) ≡ ok b
    → (a : A) × (f a ≡ ok b) × (m ≡ ok a)
bind_inv {m = ok a} f returned = (a, returned, refl)
bind_inv {m = err e} f returned = cc

pub ok-injective {ℓ} : {A : Type ℓ} {a b : A} → ok a ≡ ok b → a ≡ b
ok-injective h = cc
