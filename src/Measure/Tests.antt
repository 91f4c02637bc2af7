-- ===== src/Measure/Tests.antt =====
-- Percentiles with exact rounding, a line of /proc, and the theorems on them.
use bluek.Prelude.{◌≡◌, refl, ℕ, ◌*◌, ◌/◌, ◌≤◌, List, [], ◌∷◌, Text, some, codes, text_eq, arith}
use bluek.Prelude.Int.{ℤ, pos, negsuc, ◌+ℤ◌, div_ℤ, scale_ℤ}
use bluek.Prelude.Result.{ok}
use bluek.Texts.{strip, strip_by, lstrip, is_space, starts_with}
use bluek.Texts.Decimal.{int10, digits10, split_words, words_from, isdigit}
use bluek.Measure.Clock.{
  minimum, maximum, total, place, sorted, item, rank, percentile, echo_percentile, Summary,
  summary_of, summarize, echo_summarize,
}
use bluek.Measure.Laws.{echo_percentile-eq-percentile}
use bluek.Measure.Summaries.{IsOrdered, summarize-IsOrdered, echo_summarize-eq-summarize}
use bluek.Measure.Recorder.{Rounded, RateDict, rate_dict, intervals}
use bluek.Measure.Rates.{rate_dict-intervals}
use bluek.Measure.Cpu.{ticks_to_ns, field_int, read_proc_cpu_ns, rss_kib, resolve_pid_by_comm}
use bluek.Measure.Stat.{stat_line, read_proc_cpu_ns-stat_line}

abbrev exact : ℕ → ℕ → ℕ
exact p n = p * n / 100

exact_grows : (p q n : ℕ) → p ≤ q → exact p n ≤ exact q n
exact_grows p q n h = grind arith

exact_zero : (n : ℕ) → exact 0 n ≡ 0
exact_zero n = omega arith

exact_all : (n : ℕ) → exact 100 n ≡ n
exact_all n = omega arith

abbrev later : List ℤ
later = pos 10 ∷ negsuc 1 ∷ pos 20 ∷ []

-- The nearest rank of the median of two is the first; the code takes the second.
median_of_two : percentile exact (pos 1 ∷ pos 2 ∷ []) 50 ≡ ok (pos 2)
unfolding percentile sorted place item rank minimum maximum
median_of_two = refl

echo_percentile-eq-percentile_example :
    echo_percentile exact (pos 30 ∷ later) 100 ≡ percentile exact (pos 30 ∷ later) 100
echo_percentile-eq-percentile_example =
    echo_percentile-eq-percentile exact (pos 30 ∷ later) 100 exact_zero exact_all (omega arith)

summarize-IsOrdered_example :
    (s : Summary) × (summarize exact (pos 30 ∷ later) ≡ ok s) × IsOrdered 4 s
summarize-IsOrdered_example = summarize-IsOrdered exact (pos 30) later exact_grows

summary :
    summarize exact (pos 30 ∷ later) ≡ ok (summary_of (pos 30) later (pos 20) (pos 30) (pos 30))
unfolding summarize percentile sorted place item rank minimum maximum total div_ℤ ◌+ℤ◌
summary = refl

echo_summary :
    echo_summarize exact (codes "dbus") 20 (pos 30 ∷ later)
    ≡ ok (record {
      name = codes "dbus";
      payload_size = 20;
      summary = summary_of (pos 30) later (pos 20) (pos 30) (pos 30);
      samples = pos 30 ∷ later;
    })
echo_summary =
    echo_summarize-eq-summarize exact (pos 30) later (codes "dbus") 20
      (summary_of (pos 30) later (pos 20) (pos 30) (pos 30)) summary

-- Whole events in a second.
abbrev whole : Rounded ℤ
whole = record { nought = pos 0; ratio3 = λ a b. pos 5 }

three_events :
    (d : RateDict ℤ) × (rate_dict exact whole
        (record { name = codes "adv"; timestamps_ns = pos 3 ∷ pos 10 ∷ pos 12 ∷ [] })
      ≡ ok d)
    × (d.count ≡ 3)
    × (summarize exact (intervals (pos 3) (pos 10 ∷ pos 12 ∷ [])) ≡ ok d.inter_arrival_ns)
    × IsOrdered 2 d.inter_arrival_ns
    × (total (intervals (pos 3) (pos 10 ∷ pos 12 ∷ [])) ≡ d.duration_ns)
three_events =
    rate_dict-intervals exact whole (codes "adv") (pos 3) (pos 10) (pos 12 ∷ []) exact_grows

abbrev fields : List Text
fields =
    codes "S"
    ∷ codes "1"
    ∷ codes "2"
    ∷ codes "3"
    ∷ codes "0"
    ∷ codes "-1"
    ∷ codes "4"
    ∷ codes "5"
    ∷ codes "6"
    ∷ codes "7"
    ∷ codes "8"
    ∷ codes "70"
    ∷ codes "30"
    ∷ codes "0"
    ∷ []

utime : field_int fields 11 ≡ ok (pos 70)
unfolding int10 is_space strip strip_by lstrip digits10
utime = refl

stime : field_int fields 12 ≡ ok (pos 30)
unfolding int10 is_space strip strip_by lstrip digits10
stime = refl

busy_second :
    read_proc_cpu_ns 100 (some (stat_line (codes "77") (codes "a) b") fields))
    ≡ some (ticks_to_ns 100 (pos 70 +ℤ pos 30))
unfolding is_space
busy_second =
    read_proc_cpu_ns-stat_line 100 (codes "77") (codes "a) b") fields (pos 70) (pos 30)
      (ground arith) (ground arith) utime stime

one_second : ticks_to_ns 100 (pos 70 +ℤ pos 30) ≡ pos 1000000000
unfolding ticks_to_ns scale_ℤ div_ℤ ◌+ℤ◌
one_second = refl

resident : rss_kib (some (codes "Name:  x" ∷ codes "VmRSS:   120 kB" ∷ [])) ≡ ok (pos 120)
unfolding rss_kib starts_with split_words words_from int10 is_space strip strip_by lstrip digits10
resident = refl

lowest_pid :
    resolve_pid_by_comm
      (some (codes "acpi" ∷ codes "90" ∷ codes "17" ∷ []))
      (λ e. some (codes "d "))
      (codes "d")
    ≡ some 17
unfolding text_eq resolve_pid_by_comm isdigit int10 is_space strip strip_by lstrip digits10
lowest_pid = refl
