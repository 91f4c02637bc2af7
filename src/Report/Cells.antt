-- ===== src/Report/Cells.antt =====
-- The lines of the report's table, and the number of cells in each.
use bluek.Prelude.{
  ℕ, suc, ◌+◌, ◌≡◌, refl, List, [], ◌∷◌, ◌++◌, map, Option, none, some, Text, codes, All, arith,
  ◌==◌, ◌||◌, Bool-cases, inl, inr, if◌then◌else◌, length, ap, ◌∙◌, false,
}
use bluek.Prelude.Int.{ℤ, pos, ltb_ℤ}
use bluek.Texts.{replace, replace_skip, starts_with, split, join}
use bluek.Texts.Laws.{NonePass, Lacks, contains, All-append, All-mono, split-Lacks, split-piece}
use bluek.Report.{
  Row, Formats, fmt_ns, fmt_pct, fmt_rate, fmt_n, error_cell, line_of_cells, cells_of, line, lines,
  render, header, sep,
}

-- The bars of a text.
unfoldable pub bars : Text → ℕ
bars [] = 0
bars (c ∷ s) = let rest = bars s in if c == 124 then suc rest else rest

bars-append : (a b : Text) → bars (a ++ b) ≡ bars a + bars b
unfolding bars
bars-append [] b = omega arith
bars-append (c ∷ a) b = ground (arith, bars-append a b)

-- A text that fits in a cell: it has no bar and no line break.
abbrev pub IsCell : Text → Type 0
IsCell = NonePass (λ c. c == 124 || c == 10)

bars-IsCell : (t : Text) → IsCell t → bars t ≡ 0
unfolding bars
bars-IsCell [] h = refl
bars-IsCell (c ∷ t) h = ground (arith, bars-IsCell t h.1)

IsCell-Lacks : (t : Text) → IsCell t → Lacks 10 t
IsCell-Lacks = All-mono (λ c h. ground arith)

replace_skip-IsCell : (s : Text) → Lacks 10 s → IsCell (replace_skip (codes "|") (codes "/") 0 s)
unfolding replace_skip starts_with
replace_skip-IsCell [] h = tt
replace_skip-IsCell (c ∷ s) h = elim (Bool-cases (124 == c)) [
  | inl bar ↦ rw bar (refl, replace_skip-IsCell s h.1)
  | inr other ↦ rw other (ground arith, replace_skip-IsCell s h.1)
]

-- The text of an error, if there is one, is one line.
abbrev pub IsOneLine : Option Text → Type 0
IsOneLine none = Unit
IsOneLine (some e) = Lacks 10 e

error_cell-IsCell :
    {F : Type 0} (formats : Formats F) (e : Option Text)
    → IsOneLine e
    → IsCell (error_cell formats e)
unfolding error_cell replace
error_cell-IsCell formats none h = tt
error_cell-IsCell formats (some e) h = replace_skip-IsCell e h

bars-line_of_cells :
    {F : Type 0} (formats : Formats F) (cells : List Text)
    → All IsCell cells
    → bars (line_of_cells formats cells) ≡ suc (length cells)
unfolding bars
bars-line_of_cells formats [] h = refl
bars-line_of_cells formats (c ∷ cs) h = grind (
  arith,
  bars-append (codes "| ") (c ++ (codes " " ++ line_of_cells formats cs)),
  bars-append c (codes " " ++ line_of_cells formats cs),
  bars-append (codes " ") (line_of_cells formats cs),
  bars-line_of_cells formats cs h.1,
  bars-IsCell c h.0,
)

line_of_cells-Lacks :
    {F : Type 0} (formats : Formats F) (cells : List Text)
    → All IsCell cells
    → Lacks 10 (line_of_cells formats cells)
line_of_cells-Lacks formats [] h = (refl, tt)
line_of_cells-Lacks formats (c ∷ cs) h =
    (refl, (refl, All-append _ c _ (IsCell-Lacks c h.0) (refl, line_of_cells-Lacks formats cs h.1)))

-- Joined lines are split again.
split-join :
    (q : ℕ) (l : Text) (ls : List Text)
    → All (Lacks q) (l ∷ ls)
    → split q (join (q ∷ []) (l ∷ ls)) ≡ l ∷ ls
unfolding join
split-join q l [] h = split-Lacks q l h.0
split-join q l (k ∷ ls) h =
    split-piece q l (join (q ∷ []) (k ∷ ls)) h.0 ∙ ap (λ t. l ∷ t) (split-join q k ls h.1)

-- Numbers are printed without bars and line breaks.
pub record IsPlain {F : Type 0} (formats : Formats F) : Type 0 where
  pub str : (v : ℤ) → IsCell (formats.str v)
  pub us : (v : ℤ) → IsCell (formats.us v)
  pub ms : (v : ℤ) → IsCell (formats.ms v)
  pub pct : (v : F) → IsCell (formats.pct v)
  pub per_s : (v : F) → IsCell (formats.per_s v)

-- The names in a row fit in cells, and the text of its error is one line.
abbrev pub IsPrintable : {F : Type 0} → Row F → Type 0
IsPrintable row =
    IsCell row.scenario × IsCell row.stack × IsCell row.mode × IsCell row.host × IsOneLine row.error

with_unit : (t u : Text) → IsCell t → IsCell u → IsCell (t ++ u)
with_unit t u h k = All-append _ t u h k

-- A text that a Boolean test finds to lack a character.
contains-Lacks : (q : ℕ) (t : Text) → contains q t ≡ false → Lacks q t
contains-Lacks q [] h = tt
contains-Lacks q (c ∷ t) h = (ground arith, contains-Lacks q t (ground arith))

module _ {F : Type 0} (formats : Formats F) (plain : IsPlain formats) where
  fmt_ns-IsCell : (v : Option ℤ) → IsCell (fmt_ns formats v)
  unfolding fmt_ns
  fmt_ns-IsCell none = (refl, tt)
  fmt_ns-IsCell (some v) =
      let ns = with_unit (formats.str v) (codes "ns") (plain.str v) (refl, (refl, tt)) in
      let us = with_unit (formats.us v) (codes "us") (plain.us v) (refl, (refl, tt)) in
      let ms = with_unit (formats.ms v) (codes "ms") (plain.ms v) (refl, (refl, tt)) in
      elim (Bool-cases (ltb_ℤ v (pos 10000))) [
        | inl small ↦ rw small ns
        | inr large ↦ rw large (elim (Bool-cases (ltb_ℤ v (pos 10000000))) [
          | inl middle ↦ rw middle us
          | inr huge ↦ rw huge ms
        ])
      ]

  fmt_pct-IsCell : (v : Option F) → IsCell (fmt_pct formats v)
  unfolding fmt_pct
  fmt_pct-IsCell none = (refl, tt)
  fmt_pct-IsCell (some v) = with_unit (formats.pct v) (codes "%") (plain.pct v) (refl, tt)

  fmt_rate-IsCell : (v : Option F) → IsCell (fmt_rate formats v)
  unfolding fmt_rate
  fmt_rate-IsCell none = (refl, tt)
  fmt_rate-IsCell (some v) =
      with_unit (formats.per_s v) (codes "/s") (plain.per_s v) (refl, (refl, tt))

  fmt_n-IsCell : (v : Option ℤ) → IsCell (fmt_n formats v)
  unfolding fmt_n
  fmt_n-IsCell none = (refl, tt)
  fmt_n-IsCell (some v) = plain.str v

  cells_of-IsCell : (row : Row F) → IsPrintable row → All IsCell (cells_of formats row)
  cells_of-IsCell row (scenario, stack, mode, host, error) =
      let p50 = fmt_ns-IsCell row.p50_ns in
      let p95 = fmt_ns-IsCell row.p95_ns in
      let p99 = fmt_ns-IsCell row.p99_ns in
      let rate = fmt_rate-IsCell row.rate in
      let n = fmt_n-IsCell row.n in
      let py = fmt_pct-IsCell row.py_cpu_pct in
      let btd = fmt_pct-IsCell row.btd_cpu_pct in
      let dbus = fmt_pct-IsCell row.dbus_cpu_pct in
      let last = error_cell-IsCell formats row.error error in
      (
        scenario,
        (stack, (mode, (host, (p50, (p95, (p99, (rate, (n, (py, (btd, (dbus, (last, tt)))))))))))),
      )

  -- A line of the table: it has 14 bars and no line break.
  abbrev IsRow : Text → Type 0
  IsRow l = (bars l ≡ 14) × Lacks 10 l

  line-IsRow : (row : Row F) → IsPrintable row → IsRow (line formats row)
  unfolding line
  line-IsRow row h =
      let cells = cells_of-IsCell row h in
      (
        bars-line_of_cells formats (cells_of formats row) cells,
        line_of_cells-Lacks formats (cells_of formats row) cells,
      )

  map-IsRow : (rows : List (Row F)) → All IsPrintable rows → All IsRow (map (line formats) rows)
  map-IsRow [] h = tt
  map-IsRow (r ∷ rs) h = (line-IsRow r h.0, map-IsRow rs h.1)

  length-map : (rows : List (Row F)) → length (map (line formats) rows) ≡ length rows
  length-map [] = refl
  length-map (r ∷ rs) = ap suc (length-map rs)

  split-render :
      (rows : List (Row F))
      → All IsPrintable rows
      → split 10 (render formats rows) ≡ lines formats rows
  unfolding render lines
  split-render rows h = split-join 10 _ _ (
    contains-Lacks 10 (header formats) refl,
    (contains-Lacks 10 (sep formats) refl, All-mono (λ l k. k.1) _ (map-IsRow rows h)),
  )

  -- If numbers are printed without bars and line breaks, the names in the rows have none, and the
  -- text of an error has no line break, then the printed text splits at its line breaks into one
  -- line for each row behind two for the head of the table, and every line has 14 bars, also if the
  -- text of an error has bars.
  pub render-cells :
      (rows : List (Row F))
      → All IsPrintable rows
      → (length (split 10 (render formats rows)) ≡ 2 + length rows)
        × All (λ l. bars l ≡ 14) (split 10 (render formats rows))
  unfolding lines bars
  render-cells rows h =
      rw (split-render rows h)
        (omega (arith, length-map rows), (refl, (refl, All-mono (λ l k. k.0) _ (map-IsRow rows h))))
