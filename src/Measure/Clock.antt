-- ===== src/Measure/Clock.antt =====
-- bench/measure/clock.py, and the percentile and summary of bench/microbench/echo.py.
--
-- Samples are integers, for a difference of two times may be negative. The rank of a percentile is
-- computed in floating point: `scaled p n` stands for `int((p / 100.0) * n)`, a parameter. The
-- percentage `p` is a float in the source and a whole number here, as every caller's (50, 95, 99)
-- is.
use bluek.Prelude.{
  ℕ, ◌-◌, List, [], ◌∷◌, length, get_elem?, if◌then◌else◌, leb, ◌==◌, min, max, Text,
}
use bluek.Prelude.Int.{ℤ, pos, leb_ℤ, ◌+ℤ◌, div_ℤ}
use bluek.Prelude.Result.{Result, ok, err, or_raise, index_error, value_error, ◌>>=◌}

-- min(samples) and max(samples) of a list that is not empty
unfoldable pub minimum : ℤ → List ℤ → ℤ
minimum x [] = x
minimum x (y ∷ ys) = minimum (if leb_ℤ x y then x else y) ys

unfoldable pub maximum : ℤ → List ℤ → ℤ
maximum x [] = x
maximum x (y ∷ ys) = maximum (if leb_ℤ y x then x else y) ys

-- sum(samples)
unfoldable pub total : List ℤ → ℤ
total [] = pos 0
total (x ∷ xs) = x +ℤ total xs

-- sorted(samples)
unfoldable pub place : ℤ → List ℤ → List ℤ
place x [] = x ∷ []
place x (y ∷ ys) = let rest = place x ys in if leb_ℤ x y then x ∷ y ∷ ys else y ∷ rest

unfoldable pub sorted : List ℤ → List ℤ
sorted [] = []
sorted (x ∷ xs) = place x (sorted xs)

-- s[i], for an index that is not negative
unfoldable pub item : List ℤ → ℕ → Result ℤ
item s i = or_raise (get_elem? s i) index_error

pub record Summary : Type 0 where
  pub n : ℕ
  pub lowest : ℤ
  pub p50 : ℤ
  pub p95 : ℤ
  pub p99 : ℤ
  pub highest : ℤ
  pub mean : ℤ

abbrev pub summary_of : ℤ → List ℤ → ℤ → ℤ → ℤ → Summary
summary_of x xs a b c = record {
  n = length (x ∷ xs);
  lowest = minimum x xs;
  p50 = a;
  p95 = b;
  p99 = c;
  highest = maximum x xs;
  mean = div_ℤ (total (x ∷ xs)) (length (x ∷ xs));
}

-- What the echo bench keeps of a run.
pub record EchoSummary : Type 0 where
  pub name : Text
  pub payload_size : ℕ
  pub summary : Summary
  pub samples : List ℤ

module _ (scaled : ℕ → ℕ → ℕ) where
  -- max(0, min(n - 1, scaled - (1 if p == 100 else 0))): at 0, `-` stops where `max` cuts
  unfoldable pub rank : ℕ → ℕ → ℕ
  rank p n = max 0 (min (n - 1) (scaled p n - (if p == 100 then 1 else 0)))

  unfoldable pub percentile : List ℤ → ℕ → Result ℤ
  percentile [] p = ok (pos 0)
  percentile (x ∷ xs) p =
      if leb p 0
      then ok (minimum x xs)
      else if leb 100 p
      then ok (maximum x xs)
      else item (sorted (x ∷ xs)) (rank p (length (sorted (x ∷ xs))))

  unfoldable pub summarize : List ℤ → Result Summary
  summarize [] = ok (record {
    n = 0;
    lowest = pos 0;
    p50 = pos 0;
    p95 = pos 0;
    p99 = pos 0;
    highest = pos 0;
    mean = pos 0;
  })
  summarize (x ∷ xs) = do
    a ← percentile (x ∷ xs) 50
    b ← percentile (x ∷ xs) 95
    c ← percentile (x ∷ xs) 99
    ok (summary_of x xs a b c)

  -- bench/microbench/echo.py: the percentile without the tests on `p`, and a summary that raises
  -- on no samples
  unfoldable pub echo_percentile : List ℤ → ℕ → Result ℤ
  echo_percentile [] p = ok (pos 0)
  echo_percentile (x ∷ xs) p = item (sorted (x ∷ xs)) (rank p (length (sorted (x ∷ xs))))

  unfoldable pub echo_summarize : Text → ℕ → List ℤ → Result EchoSummary
  echo_summarize name payload [] = err value_error
  echo_summarize name payload (x ∷ xs) = do
    a ← echo_percentile (x ∷ xs) 50
    b ← echo_percentile (x ∷ xs) 95
    c ← echo_percentile (x ∷ xs) 99
    ok (record {
      name = name;
      payload_size = payload;
      summary = summary_of x xs a b c;
      samples = x ∷ xs;
    })
