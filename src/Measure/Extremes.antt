-- ===== src/Measure/Extremes.antt =====
-- The least and the greatest sample, and the ends of the sorted samples.
use bluek.Prelude.{
  IsIn, ◌≡◌, refl, sym, subst, ℕ, suc, ◌<◌, List, [], ◌∷◌, length, get_elem?, some, inl, inr, Bool,
  true, false, arith, Bool-cases, if◌then◌else◌,
}
use bluek.Prelude.Int.{ℤ, ◌≤ℤ◌, leb_ℤ, leb_ℤ→le, leb_ℤ→ge}
use bluek.Measure.Clock.{minimum, maximum, place, sorted}
use bluek.Measure.Order.{IsIn-sorted, IsIn-item}

minimum-le-first : (x : ℤ) (xs : List ℤ) → minimum x xs ≤ℤ x
unfolding minimum
minimum-le-first x [] = omega arith
minimum-le-first x (y ∷ ys) = elim (Bool-cases (leb_ℤ x y)) [
  | inl e ↦ rw e (minimum-le-first x ys)
  | inr e ↦
      let step : minimum y ys ≤ℤ y = minimum-le-first y ys in
      let below : y ≤ℤ x = leb_ℤ→ge x y e in rw e (omega arith)
]

pub minimum-le : (x : ℤ) (xs : List ℤ) (v : ℤ) → IsIn v (x ∷ xs) → minimum x xs ≤ℤ v
unfolding minimum
minimum-le x [] v (inl same) = rw same (omega arith)
minimum-le x [] v (inr never) = absurd never
minimum-le x (y ∷ ys) v (inl same) =
    subst (λ z. minimum x (y ∷ ys) ≤ℤ z) (sym same) (minimum-le-first x (y ∷ ys))
minimum-le x (y ∷ ys) v (inr later) = elim (Bool-cases (leb_ℤ x y)) [
  | inr e ↦ rw e (minimum-le y ys v later)
  | inl e ↦ rw e (elim later [
    | inl same ↦
        let step : minimum x ys ≤ℤ x = minimum-le-first x ys in
        let below : x ≤ℤ y = leb_ℤ→le x y e in
        subst (λ z. minimum x ys ≤ℤ z) (sym same) (omega arith)
    | inr rest ↦ minimum-le x ys v (inr rest)
  ])
]

skip_second : (x y : ℤ) (ys : List ℤ) (v : ℤ) → IsIn v (x ∷ ys) → IsIn v (x ∷ y ∷ ys)
skip_second x y ys v (inl same) = inl same
skip_second x y ys v (inr later) = inr (inr later)

pub minimum-IsIn : (x : ℤ) (xs : List ℤ) → IsIn (minimum x xs) (x ∷ xs)
unfolding minimum
minimum-IsIn x [] = inl refl
minimum-IsIn x (y ∷ ys) =
    let step : (b : Bool) → IsIn (minimum (if b then x else y) ys) (x ∷ y ∷ ys) = λ b.
      elim b as (λ k. IsIn (minimum (if k then x else y) ys) (x ∷ y ∷ ys)) [
        | true ↦ skip_second x y ys (minimum x ys) (minimum-IsIn x ys)
        | false ↦ inr (minimum-IsIn y ys)
      ] in
    step (leb_ℤ x y)

first-le-maximum : (x : ℤ) (xs : List ℤ) → x ≤ℤ maximum x xs
unfolding maximum
first-le-maximum x [] = omega arith
first-le-maximum x (y ∷ ys) = elim (Bool-cases (leb_ℤ y x)) [
  | inl e ↦ rw e (first-le-maximum x ys)
  | inr e ↦
      let step : y ≤ℤ maximum y ys = first-le-maximum y ys in
      let below : x ≤ℤ y = leb_ℤ→ge y x e in rw e (omega arith)
]

pub le-maximum : (x : ℤ) (xs : List ℤ) (v : ℤ) → IsIn v (x ∷ xs) → v ≤ℤ maximum x xs
unfolding maximum
le-maximum x [] v (inl same) = rw same (omega arith)
le-maximum x [] v (inr never) = absurd never
le-maximum x (y ∷ ys) v (inl same) =
    subst (λ z. z ≤ℤ maximum x (y ∷ ys)) (sym same) (first-le-maximum x (y ∷ ys))
le-maximum x (y ∷ ys) v (inr later) = elim (Bool-cases (leb_ℤ y x)) [
  | inr e ↦ rw e (le-maximum y ys v later)
  | inl e ↦ rw e (elim later [
    | inl same ↦
        let step : x ≤ℤ maximum x ys = first-le-maximum x ys in
        let below : y ≤ℤ x = leb_ℤ→le y x e in
        subst (λ z. z ≤ℤ maximum x ys) (sym same) (omega arith)
    | inr rest ↦ le-maximum x ys v (inr rest)
  ])
]

pub maximum-IsIn : (x : ℤ) (xs : List ℤ) → IsIn (maximum x xs) (x ∷ xs)
unfolding maximum
maximum-IsIn x [] = inl refl
maximum-IsIn x (y ∷ ys) =
    let step : (b : Bool) → IsIn (maximum (if b then x else y) ys) (x ∷ y ∷ ys) = λ b.
      elim b as (λ k. IsIn (maximum (if k then x else y) ys) (x ∷ y ∷ ys)) [
        | true ↦ skip_second x y ys (maximum x ys) (maximum-IsIn x ys)
        | false ↦ inr (maximum-IsIn y ys)
      ] in
    step (leb_ℤ y x)

module _ (x : ℤ) (xs : List ℤ) where
  pub item_bounds :
      (i : ℕ) (v : ℤ)
      → get_elem? (sorted (x ∷ xs)) i ≡ some v
      → IsIn v (x ∷ xs) × (minimum x xs ≤ℤ v) × (v ≤ℤ maximum x xs)
  item_bounds i v h =
      let here : IsIn v (x ∷ xs) = IsIn-sorted v (x ∷ xs) (IsIn-item (sorted (x ∷ xs)) i v h) in
      (here, minimum-le x xs v here, le-maximum x xs v here)

swap_first :
    (v x y : ℤ) (l m : List ℤ) → (IsIn v (x ∷ l) → IsIn v m) → IsIn v (x ∷ y ∷ l) → IsIn v (y ∷ m)
swap_first v x y l m f (inl same) = inr (f (inl same))
swap_first v x y l m f (inr (inl same)) = inl same
swap_first v x y l m f (inr (inr later)) = inr (f (inr later))

-- Every sample has a place among the sorted ones.
has_place : (v x : ℤ) (l : List ℤ) → IsIn v (x ∷ l) → IsIn v (place x l)
unfolding place
has_place v x [] h = h
has_place v x (y ∷ ys) h = elim (Bool-cases (leb_ℤ x y)) [
  | inl e ↦ rw e h
  | inr e ↦ rw e (swap_first v x y ys (place x ys) (has_place v x ys) h)
]

pub sorted_has : (v : ℤ) (l : List ℤ) → IsIn v l → IsIn v (sorted l)
unfolding sorted
sorted_has v [] h = h
sorted_has v (x ∷ xs) (inl same) = has_place v x (sorted xs) (inl same)
sorted_has v (x ∷ xs) (inr later) = has_place v x (sorted xs) (inr (sorted_has v xs later))

pub find_item :
    (v : ℤ) (l : List ℤ) → IsIn v l → (i : ℕ) × (i < length l) × (get_elem? l i ≡ some v)
find_item v [] h = elim h [ ]
find_item v (x ∷ xs) (inl same) = (0, omega arith, cc)
find_item v (x ∷ xs) (inr later) =
    let (i, lt, at) = find_item v xs later in (suc i, omega arith, at)
