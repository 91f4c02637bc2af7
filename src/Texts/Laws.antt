-- ===== src/Texts/Laws.antt =====
-- Where the `str` methods change nothing, and what they do on a text with one separator.
use mathlib.Core.List.{reverse-append, reverse-reverse}
use bluek.Prelude.{
  ℕ, ◌≡◌, refl, List, [], ◌∷◌, ◌++◌, reverse, Bool, true, false, ◌||◌, ◌==◌, Text, All, arith, ap,
}
use bluek.Texts.{
  strip, is_space, lstrip, strip_by, lower, lower_char, starts_with, replace_skip, replace, split,
}

pub All-append {ℓ κ} :
    {A : Type ℓ} (P : A → Type κ) (xs ys : List A) → All P xs → All P ys → All P (xs ++ ys)
All-append P [] ys hx hy = hy
All-append P (x ∷ xs) ys hx hy = (hx.0, All-append P xs ys hx.1 hy)

pub All-reverse {ℓ κ} : {A : Type ℓ} (P : A → Type κ) (xs : List A) → All P xs → All P (reverse xs)
All-reverse P [] h = h
All-reverse P (x ∷ xs) h =
    rw (reverse-append (x ∷ []) xs)
      (All-append P (reverse xs) (x ∷ []) (All-reverse P xs h.1) (h.0, tt))

pub All-mono {ℓ κ} :
    {A : Type ℓ} {P Q : A → Type κ} (f : (a : A) → P a → Q a) (xs : List A) → All P xs → All Q xs
All-mono f [] h = tt
All-mono f (x ∷ xs) h = (f x h.0, All-mono f xs h.1)

-- No character of the text passes the test.
abbrev pub NonePass : (ℕ → Bool) → Text → Type 0
NonePass p = All (λ c. p c ≡ false)

lstrip-none : (p : ℕ → Bool) (s : Text) → NonePass p s → lstrip p s ≡ s
unfolding lstrip
lstrip-none p [] h = refl
lstrip-none p (c ∷ s) h = rw h.0

pub strip_by-none : (p : ℕ → Bool) (s : Text) → NonePass p s → strip_by p s ≡ s
unfolding strip_by
strip_by-none p s h =
    rw (lstrip-none p s h, lstrip-none p (reverse s) (All-reverse _ s h)) (reverse-reverse s)

pub strip-none : (s : Text) → NonePass is_space s → strip s ≡ s
unfolding strip
strip-none s h = strip_by-none is_space s h

pub lower-none : (s : Text) → All (λ c. lower_char c ≡ c) s → lower s ≡ s
unfolding lower
lower-none [] h = refl
lower-none (c ∷ s) h = cc (h.0, lower-none s h.1)

-- The character `q` does not occur.
abbrev pub Lacks : ℕ → Text → Type 0
Lacks q = NonePass (λ c. q == c)

abbrev pub contains : ℕ → Text → Bool
contains q [] = false
contains q (c ∷ s) = q == c || contains q s

starts_with-Lacks : (q : ℕ) (p s : Text) → contains q p ≡ true → Lacks q s → starts_with p s ≡ false
unfolding starts_with
starts_with-Lacks q [] s h l = cc
starts_with-Lacks q (a ∷ p) [] h l = refl
starts_with-Lacks q (a ∷ p) (c ∷ s) h l = ground (arith, starts_with-Lacks q p s)

replace_skip-Lacks :
    (q : ℕ) (p r s : Text) → contains q p ≡ true → Lacks q s → replace_skip p r 0 s ≡ s
unfolding replace_skip
replace_skip-Lacks q p r [] h l = refl
replace_skip-Lacks q p r (c ∷ s) h l =
    rw (starts_with-Lacks q p (c ∷ s) h l)
      (ap (λ (t : Text). c ∷ t) (replace_skip-Lacks q p r s h l.1))

-- A text that lacks a character of the pattern has no occurrence to replace.
pub replace-Lacks : (q : ℕ) (p r s : Text) → contains q p ≡ true → Lacks q s → replace p r s ≡ s
unfolding replace
replace-Lacks q p r s h l = replace_skip-Lacks q p r s h l

-- Removing a character: one occurrence behind a part that has none.
pub replace-piece :
    (q : ℕ) (a b : Text)
    → Lacks q a
    → replace (q ∷ []) [] (a ++ (q ∷ b)) ≡ a ++ replace (q ∷ []) [] b
unfolding replace replace_skip starts_with
replace-piece q [] b l = ground arith
replace-piece q (c ∷ a) b l = ground (arith, replace-piece q a b l.1)

pub split-Lacks : (q : ℕ) (s : Text) → Lacks q s → split q s ≡ s ∷ []
unfolding split
split-Lacks q [] l = refl
split-Lacks q (c ∷ s) l = ground (arith, split-Lacks q s l.1)

pub split-piece : (q : ℕ) (a b : Text) → Lacks q a → split q (a ++ (q ∷ b)) ≡ a ∷ split q b
unfolding split
split-piece q [] b l = ground arith
split-piece q (c ∷ a) b l = ground (arith, split-piece q a b l.1)
