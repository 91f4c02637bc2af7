-- ===== src/Report.antt =====
-- bench/report.py: the Markdown table of the runs.
--
-- A JSON object is a record whose fields may be missing; an object that is missing reads as one whose
-- fields are, as `.get(key, {})` does. Floating point and the texts of numbers are a parameter.
pub mod Cells
mod Tests
use bluek.Prelude.{
  ℕ, List, [], ◌∷◌, ◌++◌, map, Bool, true, false, ◌||◌, Option, none, some, Text, codes, text_eq,
  if◌then◌else◌,
}
use bluek.Prelude.Dict.{Dict, text_keys, lookup}
use bluek.Prelude.Int.{ℤ, pos, ltb_ℤ}
use bluek.Texts.{replace, join}

-- The numbers of a summary.
pub record Numbers : Type 0 where
  pub p50 : Option ℤ
  pub p95 : Option ℤ
  pub p99 : Option ℤ
  pub n : Option ℤ

pub record ResultObject (F : Type 0) : Type 0 where
  -- result["read"]["summary_ns"]
  pub read_summary_ns : Numbers
  pub rate_per_s : Option F
  pub count : Option ℤ
  pub inter_arrival_ns : Numbers

-- One entry of run["results"].
pub record Entry (F : Type 0) : Type 0 where
  pub scenario : Option Text
  pub stack : Option Text
  pub error : Option Text
  pub result : Option (ResultObject F)
  -- cpu["per_pid"], with the `cpu_pct` of each
  pub per_pid : Dict Text (Option F)

pub record RunObject (F : Type 0) : Type 0 where
  pub run_id : Option Text
  pub host : Option Text
  pub kernel : Option Text
  pub mode : Option Text
  pub results : List (Entry F)

pub record Row (F : Type 0) : Type 0 where
  pub run_id : Text
  pub host : Text
  pub kernel : Text
  pub mode : Text
  pub scenario : Text
  pub stack : Text
  pub p50_ns : Option ℤ
  pub p95_ns : Option ℤ
  pub p99_ns : Option ℤ
  pub rate : Option F
  pub n : Option ℤ
  pub py_cpu_pct : Option F
  pub btd_cpu_pct : Option F
  pub dbus_cpu_pct : Option F
  pub error : Option Text

pub record Formats (F : Type 0) : Type 0 where
  -- whether a float is 0.0, which counts as false
  pub is_zero : F → Bool
  -- str(v), and the formats of v / 1000, v / 1_000_000, a percentage and a rate
  pub str : ℤ → Text
  pub us : ℤ → Text
  pub ms : ℤ → Text
  pub pct : F → Text
  pub per_s : F → Text

abbrev pub or_unknown : Option Text → Text
or_unknown none = codes "?"
or_unknown (some t) = t

abbrev pub no_numbers : Numbers
no_numbers = record { p50 = none; p95 = none; p99 = none; n = none }

-- r.get("result") or {}
abbrev pub result_of : {F : Type 0} → Option (ResultObject F) → ResultObject F
result_of (some r) = r
result_of none = record {
  read_summary_ns = no_numbers;
  rate_per_s = none;
  count = none;
  inter_arrival_ns = no_numbers;
}

-- scenario in ("advert", "notify"), for a scenario that may be missing
abbrev pub is_scenario : Option Text → Text → Bool
is_scenario none name = false
is_scenario (some s) name = text_eq s name

abbrev pub cpu_pct : {F : Type 0} → Option (Option F) → Option F
cpu_pct none = none
cpu_pct (some v) = v

module _ {F : Type 0} (formats : Formats F) where
  -- x or y
  abbrev pub or_else : Option F → Option F → Option F
  or_else none y = y
  or_else (some x) y = if formats.is_zero x then y else some x

  abbrev pub with_numbers : Numbers → Option ℤ → Option F → Row F → Row F
  with_numbers s n rate row = record row {
    p50_ns = s.p50;
    p95_ns = s.p95;
    p99_ns = s.p99;
    n = n;
    rate = rate;
  }

  abbrev pub fill_numbers : Option Text → ResultObject F → Row F → Row F
  fill_numbers scenario res row =
      if is_scenario scenario (codes "read_write")
      then with_numbers res.read_summary_ns res.read_summary_ns.n none row
      else if is_scenario scenario (codes "advert") || is_scenario scenario (codes "notify")
      then with_numbers res.inter_arrival_ns res.count res.rate_per_s row
      else row

  abbrev pub pct_of : Entry F → Text → Option F
  pct_of r name = cpu_pct (lookup name r.per_pid)

  -- _row
  unfoldable pub row_of : RunObject F → Entry F → Row F
  row_of run r = fill_numbers r.scenario (result_of r.result) (record {
    run_id = or_unknown run.run_id;
    host = or_unknown run.host;
    kernel = or_unknown run.kernel;
    mode = or_unknown run.mode;
    scenario = or_unknown r.scenario;
    stack = or_unknown r.stack;
    p50_ns = none;
    p95_ns = none;
    p99_ns = none;
    rate = none;
    n = none;
    py_cpu_pct = pct_of r (codes "python");
    btd_cpu_pct = pct_of r (codes "bluetoothd");
    dbus_cpu_pct = or_else (pct_of r (codes "dbus-broker")) (pct_of r (codes "dbus-daemon"));
    error = r.error;
  })

  abbrev pub dash : Text
  dash = codes "—"

  -- _fmt_ns
  unfoldable pub fmt_ns : Option ℤ → Text
  fmt_ns none = dash
  fmt_ns (some v) =
      if ltb_ℤ v (pos 10000)
      then formats.str v ++ codes "ns"
      else if ltb_ℤ v (pos 10000000)
      then formats.us v ++ codes "us"
      else formats.ms v ++ codes "ms"

  -- _fmt_pct
  unfoldable pub fmt_pct : Option F → Text
  fmt_pct none = dash
  fmt_pct (some v) = formats.pct v ++ codes "%"

  unfoldable pub fmt_rate : Option F → Text
  fmt_rate none = dash
  fmt_rate (some v) = formats.per_s v ++ codes "/s"

  unfoldable pub fmt_n : Option ℤ → Text
  fmt_n none = dash
  fmt_n (some v) = formats.str v

  -- (row["error"] or "").replace("|", "/")
  unfoldable pub error_cell : Option Text → Text
  error_cell none = []
  error_cell (some e) = replace (codes "|") (codes "/") e

  -- The f-string of a line, cell by cell.
  abbrev pub line_of_cells : List Text → Text
  line_of_cells [] = codes "|"
  line_of_cells (c ∷ cs) = codes "| " ++ (c ++ (codes " " ++ line_of_cells cs))

  abbrev pub cells_of : Row F → List Text
  cells_of row =
      row.scenario
      ∷ row.stack
      ∷ row.mode
      ∷ row.host
      ∷ fmt_ns row.p50_ns
      ∷ fmt_ns row.p95_ns
      ∷ fmt_ns row.p99_ns
      ∷ fmt_rate row.rate
      ∷ fmt_n row.n
      ∷ fmt_pct row.py_cpu_pct
      ∷ fmt_pct row.btd_cpu_pct
      ∷ fmt_pct row.dbus_cpu_pct
      ∷ error_cell row.error
      ∷ []

  unfoldable pub line : Row F → Text
  unfolding error_cell fmt_ns fmt_pct fmt_rate fmt_n
  line row = line_of_cells (cells_of row)

  abbrev pub header : Text
  header =
      codes
        "| scenario | stack | mode | host | p50 | p95 | p99 | rate | n | py-cpu | btd-cpu | dbus-cpu | error |"

  abbrev pub sep : Text
  sep = codes "|---|---|---|---|---|---|---|---|---|---|---|---|---|"

  -- The lines that `render` joins.
  unfoldable pub lines : List (Row F) → List Text
  unfolding line
  lines rows = header ∷ sep ∷ map line rows

  unfoldable pub render : List (Row F) → Text
  unfolding lines
  render rows = join (codes "\n") (lines rows)

  -- The rows of the files that can be read.
  unfoldable pub rows_of : List (Option (RunObject F)) → List (Row F)
  rows_of [] = []
  rows_of (none ∷ files) = rows_of files
  rows_of (some run ∷ files) = map (row_of run) run.results ++ rows_of files

  abbrev pub printed : List (Row F) → ℕ × List Text
  printed [] = (1, [])
  printed (r ∷ rs) = (0, render (r ∷ rs) ∷ [])

  -- main: what it returns, and prints
  unfoldable pub report_main : List (Option (RunObject F)) → ℕ × List Text
  unfolding render rows_of row_of
  report_main files = printed (rows_of files)
