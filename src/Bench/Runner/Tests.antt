-- ===== src/Bench/Runner/Tests.antt =====
-- Two stacks, one of which does not load.
use bluek.Prelude.{
  ◌≡◌, refl, ℕ, ◌+◌, [], ◌∷◌, All, length, true, false, none, some, Text, text_eq, codes,
  if◌then◌else◌, ◌↔◌,
}
use bluek.Prelude.Result.{Result, ok, err, runtime_error, attribute_error}
use bluek.Bench.Runner.{
  BenchConfig, Namespace, cfg_from_args, Bench, scenario_failed, load_failed, no_target,
  resolve_stacks, run_scenario, run_matrix, has_error, exit_code, main_async, system_exit,
}
use bluek.Bench.Runner.Cells.{sum_cells, run_matrix_complete}

abbrev args : Namespace ℕ
args = record {
  mode = codes "integration";
  target = none;
  adapter = codes "hci0";
  peripheral_adapter = none;
  use_mock_peripheral = true;
  duration = 10;
  rtt_iters = 3;
  warmup_iters = 1;
  warmup_s = 2;
  notify_rate = 200;
  payload_size = 20;
  scenarios = codes "advert" ∷ codes "notify" ∷ [];
  stacks = codes "raw_l2cap" ∷ codes "raw_dbus" ∷ [];
  isolate_adapter = false;
  results_dir = codes "out";
  run_id = none;
}

abbrev cfg : BenchConfig ℕ
unfolding cfg_from_args
cfg = cfg_from_args args

abbrev outcome : Text → Result ℕ
outcome name = if text_eq name (codes "raw_dbus") then err attribute_error else ok 7

-- The advert scenario raises; the world counts the scenarios.
abbrev bench : Bench ℕ ℕ ℕ ℕ
bench = record {
  load = λ name c w. (outcome name, w);
  name_of = λ s. codes "raw_l2cap";
  run = λ name s c t w. (err runtime_error, w + 1);
  supervise = λ a w. (ok (codes "AA"), w);
}

cells :
    (run_matrix bench cfg 0).0
    ≡ record {
      scenario = codes "advert";
      stack = codes "raw_l2cap";
      error = some (scenario_failed runtime_error);
      result = none;
    }
      ∷ record {
        scenario = codes "notify";
        stack = codes "raw_l2cap";
        error = some no_target;
        result = none;
      }
      ∷ record {
        scenario = codes "*";
        stack = codes "raw_dbus";
        error = some (load_failed attribute_error);
        result = none;
      }
      ∷ []
unfolding run_matrix run_scenario resolve_stacks text_eq cfg_from_args
cells = refl

-- The mock peripheral needs an adapter.
needs_adapter : (main_async bench (codes "r") cfg 0).0 ≡ system_exit
unfolding main_async text_eq cfg_from_args
needs_adapter = refl

two_cells :
    (length (run_matrix bench cfg 0).0 ≡ sum_cells bench cfg outcome (resolve_stacks cfg))
    × ((exit_code bench (run_matrix bench cfg 0).0 ≡ 0)
        ↔ All (λ c. has_error bench c.error ≡ false) (run_matrix bench cfg 0).0)
two_cells = run_matrix_complete bench cfg outcome (λ n w. refl) 0
