-- ===== src/Bench/Scenario/Served.antt =====
-- A run over a stack that serves: no call raises, and the run has a result.
use bluek.Prelude.{◌≡◌, refl, sym, ap, subst, ℕ, zero, suc, List, [], ◌∷◌, none, Text, codes}
use bluek.Prelude.Int.{ℤ}
use bluek.Prelude.Result
use bluek.Prelude.Result.{Result, ok, err}
use bluek.Bytes.{Bytes}
use bluek.Measure.Clock.{Summary, summarize, summary_of}
use bluek.Measure.Laws.{percentile-IsSample}
use bluek.Measure.Recorder.{LatencyRecorder, LatencyDict, latency_dict}
use bluek.Measure.Cpu.{CpuTracker}
use bluek.Bench.Peripheral.{ramp}
use bluek.Bench.Runner.{BenchConfig}
use bluek.Bench.Scenario.{
  ReadWrite, Run, lift, next, Stack, Machine, Measured, Out, new_recorder, warm_up, timed, measure,
  attempt, finish, base_result, fill, note, behind_setup, run,
}

-- The call returns, and what holds of the value and the world behind it.
abbrev pub Sure : {W A : Type 0} → (A → W → Type 0) → Result A × W → Type 0
Sure P (ok a, w) = P a w
Sure P (err e, w) = ⊥

next-Sure :
    {W A B : Type 0} (P : A → W → Type 0) (Q : B → W → Type 0) (f : A → Run W B) (z : Result A × W)
    → Sure P z
    → ((a : A) (w : W) → P a w → Sure Q (f a w))
    → Sure Q (next f z)
next-Sure P Q f (ok a, w) h k = k a w h
next-Sure P Q f (err e, w) h k = absurd h

summarize-ok : (scaled : ℕ → ℕ → ℕ) (l : List ℤ) → (s : Summary) × (summarize scaled l ≡ ok s)
unfolding summarize
summarize-ok scaled [] = (_, refl)
summarize-ok scaled (x ∷ xs) =
    let (a, ok_a, _, _, _) = percentile-IsSample scaled x xs 50 in
    let (b, ok_b, _, _, _) = percentile-IsSample scaled x xs 95 in
    let (c, ok_c, _, _, _) = percentile-IsSample scaled x xs 99 in
    (summary_of x xs a b c, rw (ok_a, ok_b, ok_c) refl)

-- The calls of a scenario keep an invariant of the handle and the world, and return.
pub record Serves {F H W : Type 0} (machine : Machine F W) (stack : Stack H W) (cfg : BenchConfig F)
    (handle : H) (payload : Bytes) (Ready : W → Type 0) : Type 0 where
  pub reads : (w : W) → Ready w → Sure (λ v u. Ready u) (stack.read handle cfg.char_read_uuid w)
  pub writes :
      (w : W) → Ready w → Sure (λ v u. Ready u) (stack.write handle cfg.char_write_uuid payload w)
  pub ticks : (w : W) → Ready w → Ready (machine.perf_ns w).1

module _ {F H W : Type 0} {machine : Machine F W} {stack : Stack H W} {cfg : BenchConfig F}
    {handle : H} {payload : Bytes} {Ready : W → Type 0}
    (serves : Serves machine stack cfg handle payload Ready) where
  warm_up-Sure :
      (n : ℕ) (w : W)
      → Ready w
      → Sure (λ v u. Ready u) (warm_up machine stack cfg handle payload n w)
  unfolding warm_up
  warm_up-Sure zero w ready = ready
  warm_up-Sure (suc n) w ready =
      next-Sure (λ v u. Ready u) (λ v u. Ready u) _ (stack.read handle cfg.char_read_uuid w)
        (serves.reads w ready)
        (λ v w₁ ready₁.
          next-Sure (λ v u. Ready u) (λ v u. Ready u)
            (λ _. warm_up machine stack cfg handle payload n)
            (stack.write handle cfg.char_write_uuid payload w₁) (serves.writes w₁ ready₁)
            (λ v' w₂ ready₂. warm_up-Sure n w₂ ready₂))

  timed-Sure :
      {A : Type 0} (m : Run W A) (r : LatencyRecorder) (w : W)
      → ((u : W) → Ready u → Sure (λ v u. Ready u) (m u))
      → Ready w
      → Sure (λ v u. Ready u) (timed machine stack cfg handle payload m r w)
  timed-Sure m r w m_sure ready =
      next-Sure (λ v u. Ready u) (λ v u. Ready u) _ (m (machine.perf_ns w).1)
        (m_sure (machine.perf_ns w).1 (serves.ticks w ready))
        (λ v w₁ ready₁. serves.ticks w₁ ready₁)

  measure-Sure :
      (n : ℕ) (r r' : LatencyRecorder) (w : W)
      → Ready w
      → Sure (λ v u. Ready u) (measure machine stack cfg handle payload n r r' w)
  unfolding measure
  measure-Sure zero r r' w ready = ready
  measure-Sure (suc n) r r' w ready =
      next-Sure (λ v u. Ready u) (λ v u. Ready u) _
        (timed machine stack cfg handle payload (stack.read handle cfg.char_read_uuid) r w)
        (timed-Sure (stack.read handle cfg.char_read_uuid) r w serves.reads ready)
        (λ v w₁ ready₁.
          next-Sure (λ v u. Ready u) (λ v u. Ready u)
            (λ t. measure machine stack cfg handle payload n v t)
            (timed machine stack cfg handle payload (stack.write handle cfg.char_write_uuid payload)
              r' w₁)
            (timed-Sure (stack.write handle cfg.char_write_uuid payload) r' w₁ serves.writes ready₁)
            (λ v' w₂ ready₂. measure-Sure n v v' w₂ ready₂))

  dict-Sure :
      (r : LatencyRecorder) (w : W)
      → Sure (λ d u. Unit {0}) (lift (latency_dict machine.scaled r) w)
  unfolding latency_dict
  dict-Sure r w =
      let (s, e) = summarize-ok machine.scaled r.samples in
      subst
        (λ z.
          Sure {W = W} (λ (d : LatencyDict) u. Unit {0})
            (
              Result.◌>>=◌ z
                  (λ t. ok (record { name = r.name; summary_ns = t; samples_ns = r.samples })),
              w,
            ))
        (sym e) tt

  finish-Sure :
      (recs : LatencyRecorder × LatencyRecorder) (cpu : CpuTracker) (w : W)
      → Sure (λ d u. Unit {0}) (finish machine stack cfg handle payload cpu recs w)
  finish-Sure recs cpu w =
      next-Sure (λ d u. Unit {0}) (λ d u. Unit {0}) _
        (lift (latency_dict machine.scaled recs.0) (machine.perf_ns w).1)
        (dict-Sure recs.0 (machine.perf_ns w).1)
        (λ d w₁ _.
          next-Sure (λ d u. Unit {0}) (λ d u. Unit {0}) _
            (lift (latency_dict machine.scaled recs.1) w₁) (dict-Sure recs.1 w₁) (λ d' w₂ _. tt))

  -- Over a stack that serves, the `try` block returns.
  pub attempt-Sure :
      (w : W) → Ready w → Sure (λ d u. Unit {0}) (attempt machine stack cfg handle payload w)
  unfolding attempt
  attempt-Sure w ready =
      next-Sure (λ v u. Ready u) (λ d u. Unit {0}) _
        (warm_up machine stack cfg handle payload cfg.warmup_iters w)
        (warm_up-Sure cfg.warmup_iters w ready)
        (λ v w₁ ready₁.
          next-Sure (λ r u. Ready u) (λ d u. Unit {0}) _
            (measure machine stack cfg handle payload cfg.rtt_iters
              (new_recorder (codes "read_rtt_ns")) (new_recorder (codes "write_rtt_ns"))
              (machine.perf_ns w₁).1)
            (measure-Sure cfg.rtt_iters (new_recorder (codes "read_rtt_ns"))
              (new_recorder (codes "write_rtt_ns")) (machine.perf_ns w₁).1 (serves.ticks w₁ ready₁))
            (λ recs w₂ ready₂. finish-Sure recs _ w₂))

module _ {F H W : Type 0} (machine : Machine F W) (stack : Stack H W) (cfg : BenchConfig F) where
  -- The dict of a run, from how its `try` block ends.
  abbrev pub out_of : H → Result (Measured F) × W → Out ReadWrite F
  out_of handle (r, w) =
      note (fill machine stack (base_result cfg (codes "read_write") stack.name) r)
        (stack.teardown handle w).0

  error-filled :
      (out : Out ReadWrite F) (r : Result (Measured F)) (w : W) (t : Result (Unit {0}))
      → Sure (λ d u. Unit {0}) (r, w)
      → out.error ≡ none
      → (note (fill machine stack out r) t).error ≡ none
  error-filled out (ok d) w (ok u) h e = e
  error-filled out (ok d) w (err x) h e = e
  error-filled out (err x) w t h e = absurd h

  -- A run whose set-up returns a handle and whose `try` block returns has no error.
  pub run-no_error :
      (target : Text) (w w₁ : W) (handle : H)
      → stack.setup_gatt target w ≡ (ok handle, w₁)
      → Sure (λ d u. Unit {0}) (attempt machine stack cfg handle (ramp cfg.payload_size 0) w₁)
      → (out : Out ReadWrite F) × ((run machine stack cfg target w).0 ≡ ok out) × (out.error ≡ none)
  unfolding run base_result
  run-no_error target w w₁ handle at_ sure =
      let (r, w₂) = attempt machine stack cfg handle (ramp cfg.payload_size 0) w₁ in
      (
        out_of handle (r, w₂),
        ap (λ z. (behind_setup machine stack cfg z).0) at_,
        error-filled (base_result cfg (codes "read_write") stack.name) r w₂
            (stack.teardown handle w₂).0 sure refl,
      )
