-- ===== src/Bench/Stream.antt =====
-- The advert and notify scenarios of bench/scenarios.
--
-- An asynchronous iterator is a tree: it ends, it raises, or it yields the time of an event and goes on
-- from the world that the body of the loop leaves. It ends at some time, as `duration_s` asks of it.
-- The numbers of seconds are floating point: their sum, and their nanoseconds, are parameters.
pub mod Loop
pub mod Kept
mod Tests
use bluek.Prelude.{
  ℕ, [], ◌∷◌, ◌++◌, Bool, true, false, ◌||◌, Option, none, some, Text, codes, text_eq,
  if◌then◌else◌,
}
use bluek.Prelude.Int.{ℤ, ◌+ℤ◌, ◌-ℤ◌, ltb_ℤ}
use bluek.Prelude.Result.{Result, ok, err, Error}
use bluek.Measure.Recorder.{EventRateRecorder, record_event, RateDict, rate_dict}
use bluek.Measure.Cpu.{CpuTracker, for_default_pids, tracker_dict}
use bluek.Measure.Cpu
use bluek.Bench.Runner.{BenchConfig}
use bluek.Bench.Scenario.{Run, Machine, Note, deduplicates, Out, base_result, note}

pub data Events (W : Type 0) : Type 0 where
  over : W → Events W
  raises : Error → W → Events W
  yields : ℤ → W → (W → Events W) → Events W

-- The part of a stack that these scenarios use.
pub record Source (F H W : Type 0) : Type 0 where
  pub name : Text
  pub scan_iter : F → W → Events W
  pub setup_gatt : Text → Run W H
  pub teardown : H → Run W (Unit {0})
  pub notify_iter : H → Text → F → W → Events W

pub record Seconds (F : Type 0) : Type 0 where
  pub plus : F → F → F
  -- int(s * 1_000_000_000)
  pub to_ns : F → ℤ

-- The variables of the loop. The notify scenario does not read the first device's time.
pub record Listening : Type 0 where
  pub rec : EventRateRecorder
  pub first_device_ns : Option ℤ
  pub cpu : CpuTracker
  pub cpu_started : Bool

abbrev pub first_of : ℤ → ℤ → Option ℤ → Option ℤ
first_of deadline t none = some (t -ℤ deadline)
first_of deadline t (some first) = some first

-- The result of the advert scenario: the recorder's dict, with one key more.
pub record Adverts (F : Type 0) : Type 0 where
  pub summary : RateDict F
  pub time_to_first_device_ns : Option ℤ

abbrev pub adverts_of : {F : Type 0} → Option ℤ → RateDict F → Adverts F
adverts_of first d = record { summary = d; time_to_first_device_ns = first }

module _ {F W : Type 0} (machine : Machine F W) where
  -- `if not cpu_started: cpu.start()`
  abbrev pub start_once : Bool → CpuTracker → W → CpuTracker × W
  start_once true cpu w = (cpu, w)
  start_once false cpu w =
      let (now, w') = machine.perf_ns w in (Cpu.start now (machine.cpu_of w') cpu, w')

  abbrev pub keep : ℤ → ℤ → Listening → W → Listening × W
  keep deadline t s w =
      let (cpu, w') = start_once s.cpu_started s.cpu w in
      (
        record {
          rec = record_event t s.rec;
          first_device_ns = first_of deadline t s.first_device_ns;
          cpu = cpu;
          cpu_started = true;
        },
        w',
      )

  -- The body of the loop.
  unfoldable pub take_event : ℤ → ℤ → Listening → W → Listening × W
  take_event deadline t s w =
      let kept = keep deadline t s w in if ltb_ℤ t deadline then (s, w) else kept

  -- `async for`, and `except Exception`
  unfoldable pub listen : ℤ → Events W → Listening → Option Error × Listening × W
  unfolding take_event
  listen deadline (over w) s = (none, s, w)
  listen deadline (raises e w) s = (some e, s, w)
  listen deadline (yields t w more) s =
      let (s', w') = take_event deadline t s w in listen deadline (more w') s'

  -- `finally`: the tracker of a run that had an event is stopped.
  abbrev pub stop_started : {R : Type 0} → Bool → CpuTracker → Out R F → W → Out R F × W
  stop_started false cpu out w = (out, w)
  stop_started true cpu out w =
      let (now, w') = machine.perf_ns w in
      (
        record out {
          cpu = some (tracker_dict machine.floats (Cpu.stop now (machine.cpu_of w') cpu));
        },
        w',
      )

  abbrev pub listening : Text → W → Listening
  listening name w = record {
    rec = record { name = name; timestamps_ns = [] };
    first_device_ns = none;
    cpu = for_default_pids machine.self (machine.resolve w);
    cpu_started = false;
  }

  abbrev pub rate_result : Listening → Result (RateDict F)
  rate_result s = rate_dict machine.scaled machine.floats s.rec

  abbrev pub with_result : {A R : Type 0} → (A → R) → Out R F → Result A → Result (Out R F)
  with_result f out (err e) = err e
  with_result f out (ok a) = ok (record out { result = some (f a) })

  -- What follows the loop in both scenarios.
  abbrev pub after_loop :
      {R : Type 0} → Out R F → Option Error × Listening × W → Out R F × Listening × W
  after_loop out (e, s, w) =
      let (out', w') = stop_started s.cpu_started s.cpu (record out { error = e }) w in
      (out', s, w')

  module _ {H : Type 0} (seconds : Seconds F) (source : Source F H W) where
    -- A machine's clock, read once, and the seconds of the warm-up.
    abbrev pub deadline_of : BenchConfig F → ℤ → ℤ
    deadline_of cfg now = now +ℤ seconds.to_ns cfg.warmup_s

    abbrev pub coalesced : {R : Type 0} → Out R F → Out R F
    coalesced out =
        if text_eq out.stack (codes "raw_dbus") || text_eq out.stack (codes "lib_bleak")
        then record out { notes = out.notes ++ (deduplicates ∷ []) }
        else out

    abbrev pub finish_adverts : Out (Adverts F) F × Listening × W → Result (Out (Adverts F) F) × W
    finish_adverts (out, s, w) = (with_result (adverts_of s.first_device_ns) out (rate_result s), w)

    -- run of bench/scenarios/advert.py
    unfoldable pub run_advert : BenchConfig F → Run W (Out (Adverts F) F)
    unfolding listen
    run_advert cfg w =
        let out = coalesced (base_result cfg (codes "advert") source.name) in
        let (now, w₁) = machine.perf_ns w in
        let events = source.scan_iter (seconds.plus cfg.warmup_s cfg.duration_s) w₁ in
        finish_adverts
          (after_loop out (listen (deadline_of cfg now) events (listening (codes "adverts") w₁)))

    abbrev pub with_target : BenchConfig F → Out (RateDict F) F → Out (RateDict F) F
    with_target cfg out = record out {
      params = record out.params { target_rate_hz = some cfg.notify_rate_hz };
    }

    abbrev pub end_notify :
        Listening → Out (RateDict F) F → Result (Unit {0}) × W → Result (Out (RateDict F) F) × W
    end_notify s out (r, w) = (with_result (λ d. d) (note out r) (rate_result s), w)

    abbrev pub teardown_notify :
        H → Out (RateDict F) F × Listening × W → Result (Out (RateDict F) F) × W
    teardown_notify handle (out, s, w) = end_notify s out (source.teardown handle w)

    abbrev pub notify_set_up : BenchConfig F → Result H × W → Result (Out (RateDict F) F) × W
    notify_set_up cfg (err e, w) = (err e, w)
    notify_set_up cfg (ok handle, w) =
        let out = with_target cfg (base_result cfg (codes "notify") source.name) in
        let (now, w₁) = machine.perf_ns w in
        let total = seconds.plus cfg.warmup_s cfg.duration_s in
        let events = source.notify_iter handle cfg.char_notify_uuid total w₁ in
        teardown_notify handle
          (after_loop out (listen (deadline_of cfg now) events (listening (codes "notify") w₁)))

    -- run of bench/scenarios/notify.py
    unfoldable pub run_notify : BenchConfig F → Text → Run W (Out (RateDict F) F)
    unfolding listen
    run_notify cfg target_mac w = notify_set_up cfg (source.setup_gatt target_mac w)
