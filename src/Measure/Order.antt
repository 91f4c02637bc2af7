-- ===== src/Measure/Order.antt =====
-- Sorting: what it keeps, and the order of its items.
use bluek.Prelude.{
  IsIn, ◌≡◌, refl, subst, ℕ, zero, suc, ◌<◌, ◌≤◌, List, [], ◌∷◌, length, get_elem?, All, some, inl,
  inr, arith, Bool-cases,
}
use bluek.Prelude.Int.{ℤ, ◌≤ℤ◌, leb_ℤ, leb_ℤ→le, leb_ℤ→ge}
use bluek.Measure.Clock.{place, sorted}

abbrev pub IsSorted : List ℤ → Type 0
IsSorted [] = Unit
IsSorted (x ∷ xs) = All (λ y. x ≤ℤ y) xs × IsSorted xs

pub length-place : (x : ℤ) (l : List ℤ) → length (place x l) ≡ suc (length l)
unfolding place
length-place x [] = refl
length-place x (y ∷ ys) = ground (arith, length-place x ys)

pub length-sorted : (l : List ℤ) → length (sorted l) ≡ length l
unfolding sorted
length-sorted [] = refl
length-sorted (x ∷ xs) = omega (arith, length-place x (sorted xs), length-sorted xs)

All-weaken : (x y : ℤ) (l : List ℤ) → x ≤ℤ y → All (λ z. y ≤ℤ z) l → All (λ z. x ≤ℤ z) l
All-weaken x y [] h k = tt
All-weaken x y (z ∷ l) h k = (omega arith, All-weaken x y l h k.1)

All-place : (w x : ℤ) (l : List ℤ) → w ≤ℤ x → All (λ z. w ≤ℤ z) l → All (λ z. w ≤ℤ z) (place x l)
unfolding place
All-place w x [] h k = (h, tt)
All-place w x (y ∷ ys) h k = elim (Bool-cases (leb_ℤ x y)) [
  | inl e ↦ rw e (h, k)
  | inr e ↦ rw e (k.0, All-place w x ys h k.1)
]

place-IsSorted : (x : ℤ) (l : List ℤ) → IsSorted l → IsSorted (place x l)
unfolding place
place-IsSorted x [] h = (tt, tt)
place-IsSorted x (y ∷ ys) h = elim (Bool-cases (leb_ℤ x y)) [
  | inl e ↦ rw e ((leb_ℤ→le x y e, All-weaken x y ys (leb_ℤ→le x y e) h.0), h)
  | inr e ↦ rw e (All-place y x ys (leb_ℤ→ge x y e) h.0, place-IsSorted x ys h.1)
]

pub sorted-IsSorted : (l : List ℤ) → IsSorted (sorted l)
unfolding sorted
sorted-IsSorted [] = tt
sorted-IsSorted (x ∷ xs) = place-IsSorted x (sorted xs) (sorted-IsSorted xs)

IsIn-place : (v x : ℤ) (l : List ℤ) → IsIn v (place x l) → IsIn v (x ∷ l)
unfolding place
IsIn-place v x [] h = h
IsIn-place v x (y ∷ ys) h = elim (Bool-cases (leb_ℤ x y)) [
  | inl e ↦ let h' : IsIn v (x ∷ y ∷ ys) = rw e at h in h'
  | inr e ↦
      let h' : IsIn v (y ∷ place x ys) = rw e at h in
      elim h' [
        | inl same ↦ inr (inl same)
        | inr later ↦ elim (IsIn-place v x ys later) [ inl a ↦ inl a | inr b ↦ inr (inr b) ]
      ]
]

pub IsIn-sorted : (v : ℤ) (l : List ℤ) → IsIn v (sorted l) → IsIn v l
unfolding sorted
IsIn-sorted v [] h = h
IsIn-sorted v (x ∷ xs) h = elim (IsIn-place v x (sorted xs) h) [
  | inl same ↦ inl same
  | inr later ↦ inr (IsIn-sorted v xs later)
]

pub IsIn-item : (l : List ℤ) (i : ℕ) (v : ℤ) → get_elem? l i ≡ some v → IsIn v l
IsIn-item [] i v h = cc
IsIn-item (x ∷ xs) zero v h = inl (cc)
IsIn-item (x ∷ xs) (suc i) v h = inr (IsIn-item xs i v h)

pub item_of_lt : (l : List ℤ) (i : ℕ) → i < length l → (v : ℤ) × (get_elem? l i ≡ some v)
item_of_lt [] i h = absurd (omega arith)
item_of_lt (x ∷ xs) zero h = (x, refl)
item_of_lt (x ∷ xs) (suc i) h = item_of_lt xs i (omega arith)

All_of_item :
    (w : ℤ) (l : List ℤ) (i : ℕ) (v : ℤ) → All (λ z. w ≤ℤ z) l → get_elem? l i ≡ some v → w ≤ℤ v
All_of_item w [] i v k h = cc
All_of_item w (x ∷ xs) zero v k h = subst (λ z. w ≤ℤ z) (cc) k.0
All_of_item w (x ∷ xs) (suc i) v k h = All_of_item w xs i v k.1 h

-- The items of a sorted list grow with their places.
pub item_mono :
    (l : List ℤ) (i j : ℕ) (v w : ℤ)
    → IsSorted l
    → i ≤ j
    → get_elem? l i ≡ some v
    → get_elem? l j ≡ some w
    → v ≤ℤ w
item_mono [] i j v w s le hv hw = cc
item_mono (x ∷ xs) zero zero v w s le hv hw = let e : v ≡ w = cc in rw e (omega arith)
item_mono (x ∷ xs) zero (suc j) v w s le hv hw =
    let e : x ≡ v = cc in subst (λ z. z ≤ℤ w) e (All_of_item x xs j w s.0 hw)
item_mono (x ∷ xs) (suc i) zero v w s le hv hw = absurd (omega arith)
item_mono (x ∷ xs) (suc i) (suc j) v w s le hv hw = item_mono xs i j v w s.1 (omega arith) hv hw
