-- ===== src/Bench/Scenario/Ends.antt =====
-- How a run of the read/write scenario ends.
use bluek.Prelude.{
  ◌≡◌, refl, ap, ◌∙◌, ℕ, zero, suc, ◌+◌, [], ◌∷◌, length, length-append, none, some, Text, arith,
  codes,
}
use bluek.Prelude.Int.{ℤ, ◌-ℤ◌}
use bluek.Prelude.Result
use bluek.Prelude.Result.{Result, ok, err, Error}
use bluek.Bytes.{Bytes}
use bluek.Measure.Clock.{Summary, summarize}
use bluek.Measure.Recorder.{LatencyRecorder, record_times, LatencyDict, latency_dict}
use bluek.Measure.Cpu.{CpuTracker, tracker_dict}
use bluek.Bench.Peripheral.{ramp}
use bluek.Bench.Runner.{BenchConfig}
use bluek.Bench.Scenario.{
  ReadWrite, Run, pure, lift, next, ◌>>=◌, Stack, Machine, Measured, Out, base_result, new_recorder,
  clock, make_cpu_tracker, start_cpu, stop_cpu, warm_up, timed, measure, attempt, finish,
  measure_all, with_dicts, start_and_measure, fill, note, behind_setup, run,
}

-- What holds of a result, if there is one.
abbrev pub Holds : {W A : Type 0} → (A → Type 0) → Result A × W → Type 0
Holds P (ok a, w) = P a
Holds P (err e, w) = Unit

abbrev pub Post : {W A : Type 0} → Run W A → (A → Type 0) → Type 0
Post {W} m P = (w : W) → Holds P (m w)

next-Holds :
    {W A B : Type 0} (P : A → Type 0) (Q : B → Type 0) (f : A → Run W B) (z : Result A × W)
    → Holds P z
    → ((a : A) → P a → Post (f a) Q)
    → Holds Q (next f z)
next-Holds P Q f (ok a, w) h k = k a h w
next-Holds P Q f (err e, w) h k = tt

abbrev Any : {A : Type 0} → A → Type 0
Any a = Unit

Any-Holds : {W A : Type 0} (z : Result A × W) → Holds Any z
Any-Holds (ok a, w) = tt
Any-Holds (err e, w) = tt

-- A call whose result says nothing.
pass-Post :
    {W A B : Type 0} (Q : B → Type 0) (m : Run W A) (f : A → Run W B)
    → ((a : A) → Post (f a) Q)
    → Post (m >>= f) Q
pass-Post Q m f k w = next-Holds Any Q f (m w) (Any-Holds (m w)) (λ a _. k a)

module _ {F H W : Type 0} (machine : Machine F W) (stack : Stack H W) (cfg : BenchConfig F) where
  module _ (handle : H) (payload : Bytes) where
    timed-Post :
        {A : Type 0} (m : Run W A) (r : LatencyRecorder)
        → Post
            (timed machine stack cfg handle payload m r)
            (λ r'. length r'.samples ≡ suc (length r.samples))
    unfolding record_times
    timed-Post m r =
        let ended = λ (t0 t1 : ℤ). pure {W = W} (record_times t0 t1 r) in
        let longer = λ (r' : LatencyRecorder). length r'.samples ≡ suc (length r.samples) in
        pass-Post longer (clock machine stack)
          (λ t0. m >>= λ _. clock machine stack >>= λ t1. ended t0 t1)
          (λ t0.
            pass-Post longer m (λ _. clock machine stack >>= λ t1. ended t0 t1)
              (λ _.
                pass-Post longer (clock machine stack) (λ t1. ended t0 t1)
                  (λ t1 w. omega (arith, length-append r.samples ((t1 -ℤ t0) ∷ [])))))

    -- Both recorders have as many samples as there were rounds.
    measure-Post :
        (n : ℕ) (r w : LatencyRecorder) (a b : ℕ)
        → length r.samples + n ≡ a
        → length w.samples + n ≡ b
        → Post
            (measure machine stack cfg handle payload n r w)
            (λ p. (length p.0.samples ≡ a) × (length p.1.samples ≡ b))
    unfolding measure
    measure-Post zero r w a b e f u = omega arith
    measure-Post (suc n) r w a b e f u =
        next-Holds (λ r'. length r'.samples ≡ suc (length r.samples)) _ _
          (timed machine stack cfg handle payload (stack.read handle cfg.char_read_uuid) r u)
          (timed-Post (stack.read handle cfg.char_read_uuid) r u)
          (λ r' one. λ v.
            next-Holds (λ w'. length w'.samples ≡ suc (length w.samples)) _ _
              (timed machine stack cfg handle payload
                (stack.write handle cfg.char_write_uuid payload) w v)
              (timed-Post (stack.write handle cfg.char_write_uuid payload) w v)
              (λ w' other. measure-Post n r' w' a b (omega arith) (omega arith)))

    Full : Measured F → Type 0
    Full d =
        (length d.0.read.samples_ns ≡ cfg.rtt_iters) × (length d.0.write.samples_ns ≡ cfg.rtt_iters)

    dict-Post :
        (r : LatencyRecorder)
        → Post {W = W} (lift (latency_dict machine.scaled r)) (λ d. d.samples_ns ≡ r.samples)
    unfolding latency_dict
    dict-Post r w = of_summary (summarize machine.scaled r.samples)
      where
        of_summary :
            (z : Result Summary)
            → Holds {W = W}
                (λ (d : LatencyDict). d.samples_ns ≡ r.samples)
                (
                  (Result.◌>>=◌ z
                      (λ s. ok (record { name = r.name; summary_ns = s; samples_ns = r.samples }))),
                  w,
                )
        of_summary (ok s) = refl
        of_summary (err e) = tt

    with_dicts-Post :
        (recs : LatencyRecorder × LatencyRecorder) (cpu : CpuTracker)
        → length recs.0.samples ≡ cfg.rtt_iters
        → length recs.1.samples ≡ cfg.rtt_iters
        → Post (with_dicts machine stack cfg handle payload recs cpu) Full
    unfolding Full
    with_dicts-Post recs cpu e f w =
        let ended = λ (d d' : LatencyDict).
          pure {W = W} (record { read = d; write = d' }, tracker_dict machine.floats cpu) in
        next-Holds (λ d. d.samples_ns ≡ recs.0.samples) Full
          (λ d. lift (latency_dict machine.scaled recs.1) >>= ended d)
          (lift (latency_dict machine.scaled recs.0) w) (dict-Post recs.0 w)
          (λ d same v.
            next-Holds (λ d'. d'.samples_ns ≡ recs.1.samples) Full (ended d)
              (lift (latency_dict machine.scaled recs.1) v) (dict-Post recs.1 v)
              (λ d' same' x. (ap length same ∙ e, ap length same' ∙ f)))

    measure_all-Post :
        (cpu : CpuTracker) → Post (measure_all machine stack cfg handle payload cpu) Full
    measure_all-Post cpu w =
        next-Holds
          (λ p. (length p.0.samples ≡ cfg.rtt_iters) × (length p.1.samples ≡ cfg.rtt_iters)) Full
          (finish machine stack cfg handle payload cpu)
          (measure machine stack cfg handle payload cfg.rtt_iters
            (new_recorder (codes "read_rtt_ns")) (new_recorder (codes "write_rtt_ns")) w)
          (measure-Post cfg.rtt_iters (new_recorder (codes "read_rtt_ns"))
            (new_recorder (codes "write_rtt_ns")) cfg.rtt_iters cfg.rtt_iters (omega arith)
            (omega arith) w)
          (λ recs counted.
            pass-Post Full (stop_cpu machine stack cpu)
              (with_dicts machine stack cfg handle payload recs)
              (λ cpu'. with_dicts-Post recs cpu' counted.0 counted.1))

    attempt-Post : Post (attempt machine stack cfg handle payload) Full
    unfolding attempt
    attempt-Post =
        pass-Post Full (warm_up machine stack cfg handle payload cfg.warmup_iters)
          (λ _.
            make_cpu_tracker machine stack >>= start_and_measure machine stack cfg handle payload)
          (λ _.
            pass-Post Full (make_cpu_tracker machine stack)
              (start_and_measure machine stack cfg handle payload)
              (λ fresh.
                pass-Post Full (start_cpu machine stack fresh)
                  (measure_all machine stack cfg handle payload) measure_all-Post))

  -- What the dict of a run says: a result with a sample for every round, or the error and no result.
  pub data Outcome (out : Out ReadWrite F) : Type 0 where
    measured :
        (d : Measured F)
        → out.error ≡ none
        → out.result ≡ some d.0
        → out.cpu ≡ some d.1
        → length d.0.read.samples_ns ≡ cfg.rtt_iters
        → length d.0.write.samples_ns ≡ cfg.rtt_iters
        → Outcome out
    raised : (e : Error) → out.error ≡ some e → out.result ≡ none → out.cpu ≡ none → Outcome out

  -- How a run ends: a set-up that raises is not caught; behind one that returns, a teardown of its
  -- handle is the last that is done.
  pub data Ends (target : Text) (w : W) (r : Result (Out ReadWrite F) × W) : Type 0 where
    no_handle :
        (e : Error) (w' : W)
        → stack.setup_gatt target w ≡ (err e, w')
        → r ≡ (err e, w')
        → Ends target w r
    torn :
        (h : H) (w₁ w₂ : W) (out : Out ReadWrite F)
        → stack.setup_gatt target w ≡ (ok h, w₁)
        → r ≡ (ok out, (stack.teardown h w₂).1)
        → Outcome out
        → Ends target w r

  fill-Outcome :
      (handle : H) (payload : Bytes) (r : Result (Measured F)) (w : W) (torn_ : Result (Unit {0}))
      → Holds (Full handle payload) (r, w)
      → Outcome
          (note (fill machine stack (base_result cfg (codes "read_write") stack.name) r) torn_)
  unfolding base_result Full
  fill-Outcome handle payload (ok d) w (ok u) h = measured d refl refl refl h.0 h.1
  fill-Outcome handle payload (ok d) w (err e) h = measured d refl refl refl h.0 h.1
  fill-Outcome handle payload (err e) w (ok u) h = raised e refl refl refl
  fill-Outcome handle payload (err e) w (err x) h = raised e refl refl refl

  behind_setup-Ends :
      (target : Text) (w : W) (z : Result H × W)
      → stack.setup_gatt target w ≡ z
      → Ends target w (behind_setup machine stack cfg z)
  behind_setup-Ends target w (err e, w₁) at_ = no_handle e w₁ at_ refl
  behind_setup-Ends target w (ok h, w₁) at_ =
      let (r, w₂) = attempt machine stack cfg h (ramp cfg.payload_size 0) w₁ in
      let last = stack.teardown h w₂ in
      torn h w₁ w₂
        (note (fill machine stack (base_result cfg (codes "read_write") stack.name) r)
          (stack.teardown h w₂).0)
        at_ refl
        (fill-Outcome h (ramp cfg.payload_size 0) r w₂ (stack.teardown h w₂).0
          (attempt-Post h (ramp cfg.payload_size 0) w₁))

  -- For every stack and machine a run of the read/write scenario ends in one of these ways: the
  -- set-up raised, and so does the run; or the run returns, a teardown is the last that it did, and its
  -- dict has either no error and a result with rtt_iters samples of reads and as many of writes, or
  -- an error and no result.
  pub run-Ends : (target : Text) (w : W) → Ends target w (run machine stack cfg target w)
  unfolding run
  run-Ends target w = behind_setup-Ends target w (stack.setup_gatt target w) refl
