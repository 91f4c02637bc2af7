-- ===== src/Measure/Laws.antt =====
-- What a percentile and a summary say of the samples, and that the two versions agree.
use bluek.Prelude.{
  IsIn, ◌≡◌, refl, ap, subst, ◌∙◌, ℕ, suc, ◌<◌, ◌≤◌, List, [], ◌∷◌, length, get_elem?, some, inl,
  inr, false, arith, leb, Bool-cases,
}
use bluek.Prelude.Int.{ℤ, ◌≤ℤ◌, ≤ℤ_antisym}
use bluek.Prelude.Result.{Result, ok, or_raise, index_error}
use bluek.Measure.Clock.{minimum, maximum, sorted, item, rank, percentile, echo_percentile}
use bluek.Measure.Order.{sorted-IsSorted, length-sorted, item_of_lt, item_mono}
use bluek.Measure.Extremes.{
  minimum-le, minimum-IsIn, le-maximum, maximum-IsIn, item_bounds, sorted_has, find_item,
}

module _ (x : ℤ) (xs : List ℤ) where
  -- An index below the number of samples is one of the sorted samples.
  pub item-ok :
      (i : ℕ)
      → i < length (sorted (x ∷ xs))
      → (v : ℤ) × (item (sorted (x ∷ xs)) i ≡ ok v) × (get_elem? (sorted (x ∷ xs)) i ≡ some v)
  unfolding item
  item-ok i lt =
      let (v, at) = item_of_lt (sorted (x ∷ xs)) i lt in
      (v, ap (λ o. or_raise o index_error) at, at)

  item_first : item (sorted (x ∷ xs)) 0 ≡ ok (minimum x xs)
  item_first =
      let (v, ok_v, at) = item-ok 0 (omega (arith, length-sorted (x ∷ xs))) in
      let (here, low, high) = item_bounds x xs 0 v at in
      let (j, lt, at_j) =
        find_item (minimum x xs) (sorted (x ∷ xs))
          (sorted_has (minimum x xs) (x ∷ xs) (minimum-IsIn x xs)) in
      let below : v ≤ℤ minimum x xs =
        item_mono (sorted (x ∷ xs)) 0 j v (minimum x xs) (sorted-IsSorted (x ∷ xs)) (omega arith) at
          at_j in
      ok_v ∙ ap ok (≤ℤ_antisym v (minimum x xs) below low)

  item_last : item (sorted (x ∷ xs)) (length xs) ≡ ok (maximum x xs)
  item_last =
      let (v, ok_v, at) = item-ok (length xs) (omega (arith, length-sorted (x ∷ xs))) in
      let (here, low, high) = item_bounds x xs (length xs) v at in
      let (j, lt, at_j) =
        find_item (maximum x xs) (sorted (x ∷ xs))
          (sorted_has (maximum x xs) (x ∷ xs) (maximum-IsIn x xs)) in
      let above : maximum x xs ≤ℤ v =
        item_mono (sorted (x ∷ xs)) j (length xs) (maximum x xs) v (sorted-IsSorted (x ∷ xs))
          (omega (arith, length-sorted (x ∷ xs))) at_j at in
      ok_v ∙ ap ok (≤ℤ_antisym v (maximum x xs) high above)

-- What a call that returns `v` says of the samples.
abbrev pub IsSample : Result ℤ → ℤ → List ℤ → Type 0
IsSample r x xs = (v : ℤ) × (r ≡ ok v) × IsIn v (x ∷ xs) × (minimum x xs ≤ℤ v) × (v ≤ℤ maximum x xs)

module _ (scaled : ℕ → ℕ → ℕ) where
  pub rank-lt : (p n : ℕ) → 0 < n → rank scaled p n < n
  unfolding rank
  rank-lt p n h = omega arith

  echo-IsSample : (x : ℤ) (xs : List ℤ) (p : ℕ) → IsSample (echo_percentile scaled (x ∷ xs) p) x xs
  unfolding echo_percentile
  echo-IsSample x xs p =
      let (v, ok_v, at) =
        item-ok x xs (rank scaled p (length (sorted (x ∷ xs))))
          (rank-lt p (length (sorted (x ∷ xs))) (omega (arith, length-sorted (x ∷ xs)))) in
      let (here, low, high) = item_bounds x xs (rank scaled p (length (sorted (x ∷ xs)))) v at in
      (v, ok_v, here, low, high)

  -- Whatever the rounding, the percentile of samples that are not empty is one of them, so it lies
  -- between the least and the greatest, and no index is out of range.
  pub percentile-IsSample :
      (x : ℤ) (xs : List ℤ) (p : ℕ) → IsSample (percentile scaled (x ∷ xs) p) x xs
  unfolding percentile echo_percentile
  percentile-IsSample x xs p = elim (Bool-cases (leb p 0)) [
    | inl low ↦ rw low (
      minimum x xs,
      refl,
      minimum-IsIn x xs,
      minimum-le x xs _ (minimum-IsIn x xs),
      le-maximum x xs _ (minimum-IsIn x xs),
    )
    | inr above ↦ elim (Bool-cases (leb 100 p)) [
      | inl high ↦
          rw (above, high)
            (
              maximum x xs,
              refl,
              maximum-IsIn x xs,
              minimum-le x xs _ (maximum-IsIn x xs),
              le-maximum x xs _ (maximum-IsIn x xs),
            )
      | inr below ↦ rw (above, below) (echo-IsSample x xs p)
    ]
  ]

  -- Between 0 and 100 a percentile is the item at the rank.
  pub percentile_middle :
      (x : ℤ) (xs : List ℤ) (p : ℕ) (v : ℤ)
      → 0 < p
      → p < 100
      → percentile scaled (x ∷ xs) p ≡ ok v
      → (i : ℕ) × (i ≡ rank scaled p (length (sorted (x ∷ xs))))
        × (get_elem? (sorted (x ∷ xs)) i ≡ some v)
  unfolding percentile
  percentile_middle x xs p v low high h =
      let (w, ok_w, at) =
        item-ok x xs (rank scaled p (length (sorted (x ∷ xs))))
          (rank-lt p (length (sorted (x ∷ xs))) (omega (arith, length-sorted (x ∷ xs)))) in
      let above : leb p 0 ≡ false = ground arith in
      let below : leb 100 p ≡ false = ground arith in
      let h' : item (sorted (x ∷ xs)) (rank scaled p (length (sorted (x ∷ xs)))) ≡ ok v =
        rw (above, below) at h in
      let same : w ≡ v = cc in
      (
        rank scaled p (length (sorted (x ∷ xs))),
        refl,
        subst (λ z. get_elem? (sorted (x ∷ xs)) (rank scaled p (length (sorted (x ∷ xs)))) ≡ some z)
            same at,
      )

  -- If the rounding gives 0 at 0 and the number of samples at 100, the percentile of the echo bench
  -- is that of the measures, for every list of samples and every p up to 100.
  pub echo_percentile-eq-percentile :
      (samples : List ℤ) (p : ℕ)
      → ((n : ℕ) → scaled 0 n ≡ 0)
      → ((n : ℕ) → scaled 100 n ≡ n)
      → p ≤ 100
      → echo_percentile scaled samples p ≡ percentile scaled samples p
  unfolding percentile echo_percentile rank
  echo_percentile-eq-percentile [] p at_0 at_100 h = refl
  echo_percentile-eq-percentile (x ∷ xs) p at_0 at_100 h =
      let n : length (sorted (x ∷ xs)) ≡ suc (length xs) = length-sorted (x ∷ xs) in
      elim (Bool-cases (leb p 0)) [
        | inl low ↦
            let e : p ≡ 0 = ground arith in
            let first : rank scaled p (length (sorted (x ∷ xs))) ≡ 0 =
              rw e (omega (arith, at_0 (length (sorted (x ∷ xs))))) in
            rw (low, first) (item_first x xs)
        | inr above ↦ elim (Bool-cases (leb 100 p)) [
          | inl high ↦
              let e : p ≡ 100 = ground arith in
              let last : rank scaled p (length (sorted (x ∷ xs))) ≡ length xs =
                rw e (omega (arith, at_100 (length (sorted (x ∷ xs))))) in
              rw (above, high, last) (item_last x xs)
          | inr below ↦ rw (above, below) refl
        ]
      ]
