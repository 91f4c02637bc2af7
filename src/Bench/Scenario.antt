-- ===== src/Bench/Scenario.antt =====
-- The read/write scenario of bench/scenarios, over the interface of bench/stacks/base.py.
--
-- A stack and the machine under it are parameters on a world. `perf_ns` reads the clock; `cpu_of` and
-- `resolve` are what bench/measure/cpu.py reads of /proc; a message is left out beside its exception.
pub mod Ends
pub mod Served
use bluek.Prelude.{
  ℕ, zero, suc, List, [], ◌∷◌, ◌++◌, Bool, Option, none, some, Text, codes, if◌then◌else◌,
}
use bluek.Prelude.Dict.{Dict}
use bluek.Prelude.Int.{ℤ}
use bluek.Prelude.Result.{Result, ok, err, Error}
use bluek.Bytes.{Bytes}
use bluek.Measure.Recorder.{Rounded, LatencyRecorder, record_times, LatencyDict, latency_dict}
use bluek.Measure.Cpu.{CpuTracker, for_default_pids, Usage, tracker_dict}
use bluek.Measure.Cpu
use bluek.Bench.Runner.{BenchConfig}
use bluek.Bench.Peripheral.{ramp}

-- A coroutine on a world: it returns or raises.
abbrev pub Run : Type 0 → Type 0 → Type 0
Run W A = W → Result A × W

abbrev pub pure : {W A : Type 0} → A → Run W A
pure a w = (ok a, w)

abbrev pub lift : {W A : Type 0} → Result A → Run W A
lift r w = (r, w)

abbrev pub next : {W A B : Type 0} → (A → Run W B) → Result A × W → Result B × W
next f (ok a, w) = f a w
next f (err e, w) = (err e, w)

infixl 5 ◌>>=◌ ◌>>◌
abbrev pub ◌>>=◌ : {W A B : Type 0} → Run W A → (A → Run W B) → Run W B
◌>>=◌ m f w = next f (m w)

abbrev pub ◌>>◌ : {W A B : Type 0} → Run W A → Run W B → Run W B
m >> k = m >>= λ _. k

pub record Stack (H W : Type 0) : Type 0 where
  pub name : Text
  pub setup_gatt : Text → Run W H
  pub teardown : H → Run W (Unit {0})
  pub read : H → Text → Run W Bytes
  pub write : H → Text → Bytes → Run W (Unit {0})

pub record Machine (F W : Type 0) : Type 0 where
  pub perf_ns : W → ℤ × W
  pub cpu_of : W → ℕ → Option ℤ
  pub resolve : W → Text → Option ℕ
  pub self : ℕ
  pub floats : Rounded F
  pub scaled : ℕ → ℕ → ℕ

pub record Params (F : Type 0) : Type 0 where
  pub duration_s : F
  pub rtt_iters : ℕ
  pub warmup_iters : ℕ
  pub warmup_s : F
  pub notify_rate_hz : ℕ
  pub payload_size : ℕ
  -- the key that the notify scenario adds
  pub target_rate_hz : Option ℕ

pub record ReadWrite : Type 0 where
  pub read : LatencyDict
  pub write : LatencyDict

-- A note: what the advert scenario says of two stacks, or a teardown that raised.
pub data Note : Type 0 where
  deduplicates : Note
  teardown_error : Error → Note

-- The dict that a scenario fills, with its own kind of result.
pub record Out (R F : Type 0) : Type 0 where
  pub scenario : Text
  pub stack : Text
  pub mode : Text
  pub coexistence : Text
  pub bluetoothd_paused : Bool
  pub params : Params F
  pub result : Option R
  pub cpu : Option (ℤ × Dict Text (Usage F))
  pub notes : List Note
  pub error : Option Error

-- base_result
unfoldable pub base_result : {R F : Type 0} → BenchConfig F → Text → Text → Out R F
base_result cfg scenario stack_name = record {
  scenario = scenario;
  stack = stack_name;
  mode = cfg.mode;
  coexistence = cfg.coexistence;
  bluetoothd_paused = cfg.isolate_adapter;
  params = record {
    duration_s = cfg.duration_s;
    rtt_iters = cfg.rtt_iters;
    warmup_iters = cfg.warmup_iters;
    warmup_s = cfg.warmup_s;
    notify_rate_hz = cfg.notify_rate_hz;
    payload_size = cfg.payload_size;
    target_rate_hz = none;
  };
  result = none;
  cpu = none;
  notes = [];
  error = none;
}

-- What a teardown that raises leaves in the notes.
abbrev pub note : {R F : Type 0} → Out R F → Result (Unit {0}) → Out R F
note out (ok _) = out
note out (err e) = record out { notes = out.notes ++ (teardown_error e ∷ []) }

abbrev pub new_recorder : Text → LatencyRecorder
new_recorder name = record { name = name; samples = [] }

-- The two entries that a run fills.
abbrev pub Measured : Type 0 → Type 0
Measured F = ReadWrite × (ℤ × Dict Text (Usage F))

module _ {F H W : Type 0} (machine : Machine F W) (stack : Stack H W) where
  abbrev pub clock : Run W ℤ
  clock w = let (t, w') = machine.perf_ns w in (ok t, w')

  -- make_cpu_tracker
  abbrev pub make_cpu_tracker : Run W CpuTracker
  make_cpu_tracker w = (ok (for_default_pids machine.self (machine.resolve w)), w)

  -- cpu.start() and cpu.stop()
  abbrev pub start_cpu : CpuTracker → Run W CpuTracker
  start_cpu t w =
      let (now, w') = machine.perf_ns w in (ok (Cpu.start now (machine.cpu_of w') t), w')

  abbrev pub stop_cpu : CpuTracker → Run W CpuTracker
  stop_cpu t w = let (now, w') = machine.perf_ns w in (ok (Cpu.stop now (machine.cpu_of w') t), w')

  module _ (cfg : BenchConfig F) (handle : H) (payload : Bytes) where
    unfoldable pub warm_up : ℕ → Run W (Unit {0})
    warm_up zero = pure tt
    warm_up (suc n) = do
      stack.read handle cfg.char_read_uuid
      stack.write handle cfg.char_write_uuid payload
      warm_up n

    -- A call between two readings of the clock.
    abbrev pub timed : {A : Type 0} → Run W A → LatencyRecorder → Run W LatencyRecorder
    timed m r = do t0 ← clock; m; t1 ← clock; pure (record_times t0 t1 r)

    -- The measured loop.
    unfoldable pub measure :
        ℕ → LatencyRecorder → LatencyRecorder → Run W (LatencyRecorder × LatencyRecorder)
    measure zero read_rec write_rec = pure (read_rec, write_rec)
    measure (suc n) read_rec write_rec = do
      r ← timed (stack.read handle cfg.char_read_uuid) read_rec
      w ← timed (stack.write handle cfg.char_write_uuid payload) write_rec
      measure n r w

    -- The dicts of the two recorders, and that of the tracker.
    abbrev pub with_dicts : LatencyRecorder × LatencyRecorder → CpuTracker → Run W (Measured F)
    with_dicts recs cpu = do
      read_dict ← lift (latency_dict machine.scaled recs.0)
      write_dict ← lift (latency_dict machine.scaled recs.1)
      pure (record { read = read_dict; write = write_dict }, tracker_dict machine.floats cpu)

    abbrev pub finish : CpuTracker → LatencyRecorder × LatencyRecorder → Run W (Measured F)
    finish cpu recs = stop_cpu cpu >>= with_dicts recs

    abbrev pub measure_all : CpuTracker → Run W (Measured F)
    measure_all cpu =
        measure cfg.rtt_iters (new_recorder (codes "read_rtt_ns"))
          (new_recorder (codes "write_rtt_ns"))
        >>= finish cpu

    abbrev pub start_and_measure : CpuTracker → Run W (Measured F)
    start_and_measure fresh = start_cpu fresh >>= measure_all

    -- The `try` block.
    unfoldable pub attempt : Run W (Measured F)
    unfolding warm_up measure
    attempt = warm_up cfg.warmup_iters >>= λ _. make_cpu_tracker >>= start_and_measure

  -- What the `try` block leaves in the dict.
  abbrev pub fill : Out ReadWrite F → Result (Measured F) → Out ReadWrite F
  fill out (ok (rw_, cpu)) = record out { result = some rw_; cpu = some cpu }
  fill out (err e) = record out { error = some e }

  abbrev pub torn_down : Out ReadWrite F → Result (Unit {0}) × W → Result (Out ReadWrite F) × W
  torn_down out (r, w) = (ok (note out r), w)

  abbrev pub behind_setup : BenchConfig F → Result H × W → Result (Out ReadWrite F) × W
  behind_setup cfg (err e, w) = (err e, w)
  behind_setup cfg (ok handle, w) =
      let (r, w') = attempt cfg handle (ramp cfg.payload_size 0) w in
      torn_down (fill (base_result cfg (codes "read_write") stack.name) r)
        (stack.teardown handle w')

  -- run of bench/scenarios/read_write.py
  unfoldable pub run : BenchConfig F → Text → Run W (Out ReadWrite F)
  unfolding attempt
  run cfg target_mac w = behind_setup cfg (stack.setup_gatt target_mac w)
