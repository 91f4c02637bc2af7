-- ===== src/Measure/Mean.antt =====
-- The mean lies between the least and the greatest sample.
use bluek.Prelude.{ℕ, ◌+◌, ◌*◌, ◌<◌, ◌≤◌, List, [], ◌∷◌, length, arith}
use bluek.Prelude.Int.{ℤ, pos, negsuc, pos_part, neg_part, ◌≤ℤ◌, div_ℤ, +ℤ_parts}
use bluek.Measure.Clock.{total}

-- A bound of all samples.
abbrev pub Below : ℤ → List ℤ → Type 0
Below k [] = Unit
Below k (x ∷ xs) = (k ≤ℤ x) × Below k xs

abbrev pub Above : ℤ → List ℤ → Type 0
Above k [] = Unit
Above k (x ∷ xs) = (x ≤ℤ k) × Above k xs

total-ge :
    (k : ℤ) (l : List ℤ)
    → Below k l
    → length l * pos_part k + neg_part (total l) ≤ pos_part (total l) + length l * neg_part k
unfolding total
total-ge k [] h = omega arith
total-ge k (x ∷ xs) h = grind (arith, total-ge k xs h.1, +ℤ_parts x (total xs))

le-div_ℤ :
    (k t : ℤ) (n : ℕ)
    → 0 < n
    → n * pos_part k + neg_part t ≤ pos_part t + n * neg_part k
    → k ≤ℤ div_ℤ t n
unfolding div_ℤ
le-div_ℤ (pos c) (pos a) n h k = grind arith
le-div_ℤ (pos c) (negsuc a) n h k = grind arith
le-div_ℤ (negsuc c) (pos a) n h k = grind arith
le-div_ℤ (negsuc c) (negsuc a) n h k = grind arith

total-le :
    (k : ℤ) (l : List ℤ)
    → Above k l
    → pos_part (total l) + length l * neg_part k ≤ length l * pos_part k + neg_part (total l)
unfolding total
total-le k [] h = omega arith
total-le k (x ∷ xs) h = grind (arith, total-le k xs h.1, +ℤ_parts x (total xs))

div_ℤ-le :
    (k t : ℤ) (n : ℕ)
    → 0 < n
    → pos_part t + n * neg_part k ≤ n * pos_part k + neg_part t
    → div_ℤ t n ≤ℤ k
unfolding div_ℤ
div_ℤ-le (pos c) (pos a) n h k = grind arith
div_ℤ-le (pos c) (negsuc a) n h k = grind arith
div_ℤ-le (negsuc c) (pos a) n h k = grind arith
div_ℤ-le (negsuc c) (negsuc a) n h k = grind arith

pub mean_bounds :
    (low high : ℤ) (l : List ℤ)
    → 0 < length l
    → Below low l
    → Above high l
    → (low ≤ℤ div_ℤ (total l) (length l)) × (div_ℤ (total l) (length l) ≤ℤ high)
mean_bounds low high l h below above = (
  le-div_ℤ low (total l) (length l) h (total-ge low l below),
  div_ℤ-le high (total l) (length l) h (total-le high l above),
)
