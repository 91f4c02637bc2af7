-- ===== src/Measure/Summaries.antt =====
-- The order of the numbers of a summary.
use bluek.Prelude.{IsIn, ◌≡◌, refl, ap, ℕ, ◌<◌, ◌≤◌, List, [], ◌∷◌, length, inl, inr, arith, Text}
use bluek.Prelude.Int.{ℤ, ◌≤ℤ◌}
use bluek.Prelude.Result.{Result, ok, ok-injective}
use bluek.Measure.Clock.{
  minimum, maximum, sorted, rank, percentile, echo_percentile, Summary, summary_of, summarize,
  echo_summarize,
}
use bluek.Measure.Order.{sorted-IsSorted, item_mono}
use bluek.Measure.Extremes.{minimum-le, le-maximum}
use bluek.Measure.Laws.{percentile_middle, percentile-IsSample}
use bluek.Measure.Mean.{Below, Above, mean_bounds}

IsIn-Below : (k : ℤ) (l : List ℤ) → ((v : ℤ) → IsIn v l → k ≤ℤ v) → Below k l
IsIn-Below k [] h = tt
IsIn-Below k (x ∷ xs) h = (h x (inl refl), IsIn-Below k xs (λ v there. h v (inr there)))

IsIn-Above : (k : ℤ) (l : List ℤ) → ((v : ℤ) → IsIn v l → v ≤ℤ k) → Above k l
IsIn-Above k [] h = tt
IsIn-Above k (x ∷ xs) h = (h x (inl refl), IsIn-Above k xs (λ v there. h v (inr there)))

-- The numbers of a summary of `n` samples, in their order.
pub record IsOrdered (n : ℕ) (s : Summary) : Type 0 where
  pub counted : s.n ≡ n
  pub first : s.lowest ≤ℤ s.p50
  pub second : s.p50 ≤ℤ s.p95
  pub third : s.p95 ≤ℤ s.p99
  pub fourth : s.p99 ≤ℤ s.highest
  pub mean_low : s.lowest ≤ℤ s.mean
  pub mean_high : s.mean ≤ℤ s.highest

module _ (scaled : ℕ → ℕ → ℕ) (x : ℤ) (xs : List ℤ) where
  -- Percentiles between 0 and 100 grow with p, if the rounding does.
  percentile_mono :
      (p q : ℕ) (v w : ℤ)
      → 0 < p
      → p ≤ q
      → q < 100
      → ((n : ℕ) → scaled p n ≤ scaled q n)
      → percentile scaled (x ∷ xs) p ≡ ok v
      → percentile scaled (x ∷ xs) q ≡ ok w
      → v ≤ℤ w
  unfolding rank
  percentile_mono p q v w pos_p le lt grows hv hw =
      let (i, i_rank, at_i) = percentile_middle scaled x xs p v pos_p (omega arith) hv in
      let (j, j_rank, at_j) = percentile_middle scaled x xs q w (omega arith) lt hw in
      let order : i ≤ j = ground (arith, grows (length (sorted (x ∷ xs)))) in
      item_mono (sorted (x ∷ xs)) i j v w (sorted-IsSorted (x ∷ xs)) order at_i at_j

  -- If the rounding grows with p, a summary of samples that are not empty is returned, counts them,
  -- and has its numbers in order: least, p50, p95, p99, greatest; the mean lies between the least
  -- and the greatest.
  pub summarize-IsOrdered :
      ((p q n : ℕ) → p ≤ q → scaled p n ≤ scaled q n)
      → (s : Summary) × (summarize scaled (x ∷ xs) ≡ ok s) × IsOrdered (length (x ∷ xs)) s
  unfolding summarize
  summarize-IsOrdered grows =
      let (a, ok_a, in_a, low_a, high_a) = percentile-IsSample scaled x xs 50 in
      let (b, ok_b, in_b, low_b, high_b) = percentile-IsSample scaled x xs 95 in
      let (c, ok_c, in_c, low_c, high_c) = percentile-IsSample scaled x xs 99 in
      let (low_m, high_m) =
        mean_bounds (minimum x xs) (maximum x xs) (x ∷ xs) (omega arith)
          (IsIn-Below (minimum x xs) (x ∷ xs) (minimum-le x xs))
          (IsIn-Above (maximum x xs) (x ∷ xs) (le-maximum x xs)) in
      (
        summary_of x xs a b c,
        rw (ok_a, ok_b, ok_c) refl,
        record {
          counted = refl;
          first = low_a;
          second =
              percentile_mono 50 95 a b (omega arith) (omega arith) (omega arith)
                (λ n. grows 50 95 n (omega arith)) ok_a ok_b;
          third =
              percentile_mono 95 99 b c (omega arith) (omega arith) (omega arith)
                (λ n. grows 95 99 n (omega arith)) ok_b ok_c;
          fourth = high_c;
          mean_low = low_m;
          mean_high = high_m;
        },
      )

  -- For any rounding the echo bench summarises samples that are not empty as the measures do, under
  -- their name and payload size.
  pub echo_summarize-eq-summarize :
      (name : Text) (payload : ℕ) (s : Summary)
      → summarize scaled (x ∷ xs) ≡ ok s
      → echo_summarize scaled name payload (x ∷ xs)
        ≡ ok (record { name = name; payload_size = payload; summary = s; samples = x ∷ xs })
  unfolding summarize echo_summarize percentile echo_percentile
  echo_summarize-eq-summarize name payload s h =
      let (a, ok_a, _, _, _) = percentile-IsSample scaled x xs 50 in
      let (b, ok_b, _, _, _) = percentile-IsSample scaled x xs 95 in
      let (c, ok_c, _, _, _) = percentile-IsSample scaled x xs 99 in
      let same : Path (Result Summary) (ok (summary_of x xs a b c)) (ok s) =
        rw (ok_a, ok_b, ok_c) at h in
      rw (ok_a, ok_b, ok_c)
        (ap
          (λ z. ok (record { name = name; payload_size = payload; summary = z; samples = x ∷ xs }))
          (ok-injective same))
