-- ===== src/Measure/Stat.antt =====
-- What is read of a line of /proc/PID/stat.
use bluek.Prelude.{◌≡◌, refl, ap, ◌∙◌, ℕ, List, [], ◌∷◌, ◌++◌, All, Text, some, false, codes, ◌==◌}
use bluek.Prelude.Int.{ℤ, ◌+ℤ◌}
use bluek.Prelude.Result.{ok}
use bluek.Texts.{join}
use bluek.Texts.Laws.{Lacks, All-append}
use bluek.Texts.Decimal.{split_words}
use bluek.Texts.Words.{IsWord, split_words-join, split_words_space, after_last_lem}
use bluek.Measure.Cpu.{ticks_to_ns, field_int, add_times, cpu_fields, behind_comm, read_proc_cpu_ns}

Lacks-join :
    (q : ℕ) (ws : List Text) → (q == 32) ≡ false → All (Lacks q) ws → Lacks q (join (codes " ") ws)
unfolding join
Lacks-join q [] space h = tt
Lacks-join q (w ∷ []) space h = h.0
Lacks-join q (w ∷ v ∷ ws) space h =
    All-append (λ c. (q == c) ≡ false) w (32 ∷ join (codes " ") (v ∷ ws)) h.0
      (space, Lacks-join q (v ∷ ws) space h.1)

-- The line of a process: its number, its name in parentheses, and the fields from the state on.
abbrev pub stat_line : Text → Text → List Text → Text
stat_line pid comm fields =
    (pid ++ (codes " (" ++ comm)) ++ b')' ∷ 32 ∷ (join (codes " ") fields ++ (10 ∷ []))

-- Of a line of /proc/PID/stat the sum of the 12th and the 13th field behind the name is read, in
-- nanoseconds, whatever the name is, parentheses and spaces included. The fields are words
-- without a closing parenthesis, and those two are decimal numbers.
pub read_proc_cpu_ns-stat_line :
    (hz : ℕ) (pid comm : Text) (fields : List Text) (utime stime : ℤ)
    → All IsWord fields
    → All (Lacks b')') fields
    → field_int fields 11 ≡ ok utime
    → field_int fields 12 ≡ ok stime
    → read_proc_cpu_ns hz (some (stat_line pid comm fields))
      ≡ some (ticks_to_ns hz (utime +ℤ stime))
unfolding read_proc_cpu_ns cpu_fields
read_proc_cpu_ns-stat_line hz pid comm fields utime stime words plain has_utime has_stime =
    let lacks : Lacks b')' (join (codes " ") fields ++ (10 ∷ [])) =
      All-append (λ c. (b')' == c) ≡ false) (join (codes " ") fields) (10 ∷ [])
        (Lacks-join b')' fields refl plain) (refl, tt) in
    let behind : split_words (32 ∷ (join (codes " ") fields ++ (10 ∷ []))) ≡ fields =
      split_words_space (join (codes " ") fields ++ (10 ∷ [])) ∙ split_words-join fields words in
    ap (behind_comm hz) (
      after_last_lem b')' (pid ++ (codes " (" ++ comm))
        (32 ∷ (join (codes " ") fields ++ (10 ∷ []))) (refl, lacks))
    ∙ ap (cpu_fields hz) behind
    ∙ (ap (λ r. add_times hz r (field_int fields 12)) has_utime
        ∙ ap (add_times hz (ok utime)) has_stime)
