-- ===== src/Bench/Runner/Cells.antt =====
-- How many cells a run has, and when its exit code is 0.
use bluek.Prelude.{
  ◌≡◌, refl, ap, ℕ, suc, ◌+◌, List, [], ◌∷◌, All, length, length-append, false, Text, arith,
  Bool-cases, inl, inr, ◌↔◌,
}
use bluek.Prelude.Result.{Result, ok, err}
use bluek.Bench.Runner.{
  BenchConfig, Bench, Cell, resolve_stacks, run_scenario, run_scenarios, loaded, run_stacks,
  run_matrix, has_error, any_error, exit_code,
}

module _ {F S R W : Type 0} (bench : Bench F S R W) (cfg : BenchConfig F) where
  length-run_scenarios :
      (stack_name : Text) (stack : S) (names : List Text) (w : W)
      → length (run_scenarios bench stack_name stack cfg names w).0 ≡ length names
  unfolding run_scenarios
  length-run_scenarios stack_name stack [] w = refl
  length-run_scenarios stack_name stack (name ∷ names) w =
      ap suc (length-run_scenarios stack_name stack names (run_scenario bench name stack cfg w).1)

  -- The cells that a stack has, from how its import ends.
  abbrev pub cells_of : Result S → ℕ
  cells_of (ok stack) = length cfg.scenarios
  cells_of (err e) = 1

  abbrev pub sum_cells : (Text → Result S) → List Text → ℕ
  sum_cells outcome [] = 0
  sum_cells outcome (name ∷ names) = cells_of (outcome name) + sum_cells outcome names

  length-loaded :
      (name : Text) (r : Result S) (w : W) → length (loaded bench name cfg (r, w)).0 ≡ cells_of r
  unfolding loaded
  length-loaded name (err e) w = refl
  length-loaded name (ok stack) w = length-run_scenarios name stack cfg.scenarios w

  any_error-none :
      (cells : List (Cell R))
      → (any_error bench cells ≡ false) ↔ All (λ c. has_error bench c.error ≡ false) cells
  unfolding any_error
  any_error-none [] = (λ _. tt, λ _. refl)
  any_error-none (c ∷ cs) = elim (Bool-cases (has_error bench c.error)) [
    | inl bad ↦ rw bad (λ h. cc, λ h. cc)
    | inr good ↦ rw good (λ h. (refl, (any_error-none cs).0 h), λ h. (any_error-none cs).1 h.1)
  ]

  exit_code-zero :
      (cells : List (Cell R))
      → (exit_code bench cells ≡ 0) ↔ All (λ c. has_error bench c.error ≡ false) cells
  unfolding exit_code
  exit_code-zero cells = elim (Bool-cases (any_error bench cells)) [
    | inl bad ↦ rw bad (λ h. absurd (omega arith), λ h. cc ((any_error-none cells).1 h))
    | inr good ↦ rw good (λ h. (any_error-none cells).0 good, λ h. refl)
  ]

  module _ (outcome : Text → Result S)
      (same : (n : Text) (w : W) → (bench.load n cfg w).0 ≡ outcome n) where
    length-run_stacks :
        (names : List Text) (w : W)
        → length (run_stacks bench cfg names w).0 ≡ sum_cells outcome names
    unfolding run_stacks
    length-run_stacks [] w = refl
    length-run_stacks (name ∷ names) w =
        let (r, w') = bench.load name cfg w in
        let (cells, w'') = loaded bench name cfg (r, w') in
        omega (
          arith,
          length-append cells (run_stacks bench cfg names w'').0,
          length-loaded name r w',
          ap cells_of (same name w),
          length-run_stacks names w'',
        )

    -- If the import of a stack ends the same way in every world, a run has a cell for each scenario of
    -- each stack that loads and one for each stack that does not, whatever the scenarios do or raise;
    -- and its exit code is 0 exactly if no cell has an error.
    pub run_matrix_complete :
        (w : W)
        → (length (run_matrix bench cfg w).0 ≡ sum_cells outcome (resolve_stacks cfg))
          × ((exit_code bench (run_matrix bench cfg w).0 ≡ 0)
              ↔ All (λ c. has_error bench c.error ≡ false) (run_matrix bench cfg w).0)
    unfolding run_matrix
    run_matrix_complete w =
        (length-run_stacks (resolve_stacks cfg) w, exit_code-zero (run_matrix bench cfg w).0)
