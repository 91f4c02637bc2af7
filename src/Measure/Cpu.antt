-- ===== src/Measure/Cpu.antt =====
-- bench/measure/cpu.py and bench/measure/memory.py: what they make of the texts of /proc.
--
-- A file that cannot be read is `none`. `hz` is what `_hz` gives. The tracker's readings are the
-- results of `read_proc_cpu_ns` at the time, an argument of `start` and `stop`.
use bluek.Prelude.{
  ℕ, List, [], ◌∷◌, get_elem?, min, Text, text_eq, Option, none, some, if◌then◌else◌, codes, map,
}
use bluek.Prelude.Dict.{Dict, text_keys, lookup, insert}
use bluek.Prelude.Int.{ℤ, pos, pos_part, ◌+ℤ◌, ◌-ℤ◌, scale_ℤ, div_ℤ, ltb_ℤ}
use bluek.Prelude.Result.{Result, ok, err, or_raise, index_error, value_error, ◌>>=◌}
use bluek.Texts.{strip, starts_with}
use bluek.Texts.Decimal.{int10, isdigit, split_words, after_last}
use bluek.Measure.Recorder.{Rounded}

-- _ticks_to_ns
unfoldable pub ticks_to_ns : ℕ → ℤ → ℤ
ticks_to_ns hz ticks = div_ℤ (scale_ℤ ticks 1000000000) hz

-- The process of an entry of /proc, if its comm reads `comm`.
unfoldable pub matching : (Text → Option Text) → Text → Text → Option ℕ
matching comm_of comm entry =
    let found : Option ℕ = elim (comm_of entry) [
      | none ↦ none
      | some text ↦
          if text_eq (strip text) comm
          then elim (int10 entry) [ ok n ↦ some (pos_part n) | err e ↦ none ]
          else none
    ] in
    if isdigit entry then found else none

abbrev pub smaller : Option ℕ → Option ℕ → Option ℕ
smaller none o = o
smaller (some n) none = some n
smaller (some n) (some m) = some (min n m)

unfoldable pub least_match : (Text → Option Text) → Text → List Text → Option ℕ
unfolding matching
least_match comm_of comm [] = none
least_match comm_of comm (entry ∷ entries) =
    smaller (matching comm_of comm entry) (least_match comm_of comm entries)

unfoldable pub resolve_pid_by_comm : Option (List Text) → (Text → Option Text) → Text → Option ℕ
unfolding least_match
resolve_pid_by_comm none comm_of comm = none
resolve_pid_by_comm (some entries) comm_of comm = least_match comm_of comm entries

abbrev pub field_int : List Text → ℕ → Result ℤ
field_int fields i = or_raise (get_elem? fields i) index_error >>= int10

-- IndexError and ValueError of either field are caught.
abbrev pub add_times : ℕ → Result ℤ → Result ℤ → Option ℤ
add_times hz (ok utime) (ok stime) = some (ticks_to_ns hz (utime +ℤ stime))
add_times hz (ok utime) (err e) = none
add_times hz (err e) stime = none

unfoldable pub cpu_fields : ℕ → List Text → Option ℤ
cpu_fields hz fields = add_times hz (field_int fields 11) (field_int fields 12)

abbrev pub behind_comm : ℕ → Option Text → Option ℤ
behind_comm hz none = none
behind_comm hz (some rest) = cpu_fields hz (split_words rest)

unfoldable pub read_proc_cpu_ns : ℕ → Option Text → Option ℤ
read_proc_cpu_ns hz none = none
read_proc_cpu_ns hz (some text) = behind_comm hz (after_last b')' text)

pub record CpuTracker : Type 0 where
  pub pids : Dict Text ℕ
  pub start_ns : Dict Text (Option ℤ)
  pub stop_ns : Dict Text (Option ℤ)
  pub wall_start : ℤ
  pub wall_stop : ℤ

-- CpuTracker(pids): the process itself is added, unless the name is taken
unfoldable pub new_tracker : ℕ → Dict Text ℕ → CpuTracker
new_tracker self pids = record {
  pids = elim (lookup (codes "python") pids) [
    | some pid ↦ pids
    | none ↦ insert (codes "python") self pids
  ];
  start_ns = [];
  stop_ns = [];
  wall_start = pos 0;
  wall_stop = pos 0;
}

unfoldable pub default_pids : (Text → Option ℕ) → List Text → Dict Text ℕ → Dict Text ℕ
default_pids resolve [] pids = pids
default_pids resolve (comm ∷ comms) pids =
    default_pids resolve comms
      (elim (resolve comm) [ none ↦ pids | some pid ↦ insert comm pid pids ])

abbrev pub default_comms : List Text
default_comms = codes "bluetoothd" ∷ codes "dbus-broker" ∷ codes "dbus-daemon" ∷ []

unfoldable pub for_default_pids : ℕ → (Text → Option ℕ) → CpuTracker
unfolding new_tracker default_pids
for_default_pids self resolve = new_tracker self (default_pids resolve default_comms [])

-- A snapshot of every process.
unfoldable pub readings : (ℕ → Option ℤ) → Dict Text ℕ → Dict Text (Option ℤ)
readings cpu_of = map (λ (e : Text × ℕ). (e.0, cpu_of e.1))

unfoldable pub start : ℤ → (ℕ → Option ℤ) → CpuTracker → CpuTracker
start now cpu_of t = record t { wall_start = now; start_ns = readings cpu_of t.pids }

unfoldable pub stop : ℤ → (ℕ → Option ℤ) → CpuTracker → CpuTracker
stop now cpu_of t = record t { wall_stop = now; stop_ns = readings cpu_of t.pids }

pub record Usage (W : Type 0) : Type 0 where
  pub pid : ℕ
  pub cpu_ns : Option ℤ
  pub cpu_pct : Option W

-- d.get(name), where a value may itself be None
abbrev pub known : Dict Text (Option ℤ) → Text → Option ℤ
known d name = elim (lookup name d) [ none ↦ none | some r ↦ r ]

module _ {W : Type 0} (floats : Rounded W) where
  abbrev pub used : ℕ → ℤ → Option ℤ → Option ℤ → Usage W
  used pid wall_ns (some a) (some b) = record {
    pid = pid;
    cpu_ns = some (b -ℤ a);
    cpu_pct = some (
        if ltb_ℤ (pos 0) wall_ns
        then floats.ratio3 (scale_ℤ (b -ℤ a) 100) wall_ns
        else floats.nought);
  }
  used pid wall_ns none b = record { pid = pid; cpu_ns = none; cpu_pct = none }
  used pid wall_ns (some a) none = record { pid = pid; cpu_ns = none; cpu_pct = none }

  -- The two entries of the dict: "wall_ns" and "per_pid".
  unfoldable pub tracker_dict : CpuTracker → ℤ × Dict Text (Usage W)
  tracker_dict t = (
    t.wall_stop -ℤ t.wall_start,
    map
        (λ (e : Text × ℕ). (
          e.0,
          used e.1 (t.wall_stop -ℤ t.wall_start) (known t.start_ns e.0) (known t.stop_ns e.0),
        ))
        t.pids,
  )

-- The lines of /proc/PID/status; a line without a number raises IndexError.
unfoldable pub vm_rss : List Text → Result ℤ
vm_rss [] = ok (pos 0)
vm_rss (line ∷ lines) =
    let rest = vm_rss lines in
    if starts_with (codes "VmRSS:") line then field_int (split_words line) 1 else rest

abbrev pub or_zero : Result ℤ → Result ℤ
or_zero (ok n) = ok n
or_zero (err value_error) = ok (pos 0)
or_zero (err e) = err e

unfoldable pub rss_kib : Option (List Text) → Result ℤ
unfolding vm_rss
rss_kib none = ok (pos 0)
rss_kib (some lines) = or_zero (vm_rss lines)
