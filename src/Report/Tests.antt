-- ===== src/Report/Tests.antt =====
-- A run with an error that has a bar, and one of adverts.
use bluek.Prelude.{◌≡◌, refl, ℕ, [], ◌∷◌, none, some, codes, text_eq, ◌==◌, All, length}
use bluek.Prelude.Dict.{lookup}
use bluek.Texts.{split}
use bluek.Report.{Entry, RunObject, Formats, row_of, render, report_main, rows_of}
use bluek.Report.Cells.{bars, IsPlain, IsPrintable, render-cells}

-- Every number is printed as one digit.
abbrev formats : Formats ℕ
formats = record {
  is_zero = λ v. v == 0;
  str = λ v. codes "7";
  us = λ v. codes "7.0";
  ms = λ v. codes "7.0";
  pct = λ v. codes "7.00";
  per_s = λ v. codes "7.0";
}

plain : IsPlain formats
plain = record {
  str = λ v. (refl, tt);
  us = λ v. (refl, (refl, (refl, tt)));
  ms = λ v. (refl, (refl, (refl, tt)));
  pct = λ v. (refl, (refl, (refl, (refl, tt))));
  per_s = λ v. (refl, (refl, (refl, tt)));
}

abbrev failed_entry : Entry ℕ
failed_entry = record {
  scenario = some (codes "notify");
  stack = some (codes "raw_dbus");
  error = some (codes "a|b");
  result = none;
  per_pid = (codes "dbus-broker", some 0) ∷ (codes "dbus-daemon", some 3) ∷ [];
}

abbrev failed_run : RunObject ℕ
failed_run = record {
  run_id = none;
  host = some (codes "h");
  kernel = none;
  mode = some (codes "micro");
  results = failed_entry ∷ [];
}

failed_row : (row_of formats failed_run failed_entry).dbus_cpu_pct ≡ some 3
unfolding row_of lookup text_eq
failed_row = refl

nothing_found : report_main formats (none ∷ []) ≡ (1, [])
unfolding report_main rows_of
nothing_found = refl

printable : IsPrintable (row_of formats failed_run failed_entry)
unfolding row_of text_eq
printable = (
  (refl, (refl, (refl, (refl, (refl, (refl, tt)))))),
  (refl, (refl, (refl, (refl, (refl, (refl, (refl, (refl, tt)))))))),
  (refl, (refl, (refl, (refl, (refl, tt))))),
  (refl, tt),
  (refl, (refl, (refl, tt))),
)

render-cells_example :
    (length (split 10 (render formats (row_of formats failed_run failed_entry ∷ []))) ≡ 3)
    × All
        (λ l. bars l ≡ 14)
        (split 10 (render formats (row_of formats failed_run failed_entry ∷ [])))
render-cells_example =
    render-cells formats plain (row_of formats failed_run failed_entry ∷ []) (printable, tt)
