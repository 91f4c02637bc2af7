-- ===== src/Measure/Recorder.antt =====
-- bench/measure/recorder.py: latencies, and the rate of events.
--
-- Floating point is a parameter, see `Rounded`; `record`, a method of both, is a word of the language
-- and reads `record_times` and `record_event`.
use bluek.Prelude.{ℕ, ◌-◌, ◌*◌, List, [], ◌∷◌, ◌++◌, length, Text, if◌then◌else◌}
use bluek.Prelude.Int.{ℤ, pos, ◌-ℤ◌, ltb_ℤ}
use bluek.Prelude.Result.{Result, ok, ◌>>=◌}
use bluek.Measure.Clock.{Summary, summarize}

-- round(a / b, 3) for integers and a positive b, and 0.0.
pub record Rounded (W : Type 0) : Type 0 where
  pub nought : W
  pub ratio3 : ℤ → ℤ → W

pub record LatencyRecorder : Type 0 where
  pub name : Text
  pub samples : List ℤ

unfoldable pub record_times : ℤ → ℤ → LatencyRecorder → LatencyRecorder
record_times t_start_ns t_end_ns r = record r {
  samples = r.samples ++ ((t_end_ns -ℤ t_start_ns) ∷ []);
}

unfoldable pub add : ℤ → LatencyRecorder → LatencyRecorder
add latency_ns r = record r { samples = r.samples ++ (latency_ns ∷ []) }

pub record LatencyDict : Type 0 where
  pub name : Text
  pub summary_ns : Summary
  pub samples_ns : List ℤ

unfoldable pub latency_dict : (ℕ → ℕ → ℕ) → LatencyRecorder → Result LatencyDict
latency_dict scaled r = do
  s ← summarize scaled r.samples
  ok (record { name = r.name; summary_ns = s; samples_ns = r.samples })

pub record EventRateRecorder : Type 0 where
  pub name : Text
  pub timestamps_ns : List ℤ

unfoldable pub record_event : ℤ → EventRateRecorder → EventRateRecorder
record_event t_ns r = record r { timestamps_ns = r.timestamps_ns ++ (t_ns ∷ []) }

pub record RateDict (W : Type 0) : Type 0 where
  pub name : Text
  pub count : ℕ
  pub duration_ns : ℤ
  pub rate_per_s : W
  pub inter_arrival_ns : Summary

-- ts[-1] of a list that begins with `t`
unfoldable pub last_of : ℤ → List ℤ → ℤ
last_of t [] = t
last_of t (u ∷ us) = last_of u us

-- [ts[i] - ts[i - 1] for i in range(1, len(ts))]
unfoldable pub intervals : ℤ → List ℤ → List ℤ
intervals t [] = []
intervals t (u ∷ us) = (u -ℤ t) ∷ intervals u us

module _ {W : Type 0} (scaled : ℕ → ℕ → ℕ) (floats : Rounded W) where
  abbrev pub too_few : Text → ℕ → Summary → RateDict W
  too_few name count s = record {
    name = name;
    count = count;
    duration_ns = pos 0;
    rate_per_s = floats.nought;
    inter_arrival_ns = s;
  }

  abbrev pub measured : Text → ℕ → ℤ → Summary → RateDict W
  measured name count duration_ns s = record {
    name = name;
    count = count;
    duration_ns = duration_ns;
    rate_per_s =
        if ltb_ℤ (pos 0) duration_ns
        then floats.ratio3 (pos ((count - 1) * 1000000000)) duration_ns
        else floats.nought;
    inter_arrival_ns = s;
  }

  unfoldable pub rate_of : Text → List ℤ → Result (RateDict W)
  rate_of name [] = do s ← summarize scaled []; ok (too_few name 0 s)
  rate_of name (t ∷ []) = do s ← summarize scaled []; ok (too_few name 1 s)
  rate_of name (t ∷ u ∷ us) = do
    s ← summarize scaled (intervals t (u ∷ us))
    ok (measured name (length (t ∷ u ∷ us)) (last_of t (u ∷ us) -ℤ t) s)

  unfoldable pub rate_dict : EventRateRecorder → Result (RateDict W)
  unfolding rate_of
  rate_dict r = rate_of r.name r.timestamps_ns
