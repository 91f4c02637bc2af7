-- ===== src/Bench/Runner.antt =====
-- bench/runner.py and bench/config.py: the matrix of scenarios and stacks.
--
-- What a stack and a scenario do is a parameter, on a world: `load` imports a stack, `run` runs a
-- scenario, and `supervise` starts the mock peripheral and gives its address. Floating-point settings
-- are values of a type. The environment of a run, which is only written out, and printing are left
-- out, and so is the message of a failure; the run's id is an argument.
pub mod Cells
mod Tests
use bluek.Prelude.{
  ℕ, List, [], ◌∷◌, ◌++◌, Bool, true, false, ◌&&◌, not, Option, none, some, Text, text_eq, codes,
  if◌then◌else◌,
}
use bluek.Prelude.Result.{Result, ok, err, Error, key_error}

pub record BenchConfig (F : Type 0) : Type 0 where
  pub target : Option Text
  pub adapter : Text
  pub peripheral_adapter : Option Text
  pub mode : Text
  pub use_mock_peripheral : Bool
  pub duration_s : F
  pub rtt_iters : ℕ
  pub warmup_iters : ℕ
  pub warmup_s : F
  pub notify_rate_hz : ℕ
  pub payload_size : ℕ
  pub scenarios : List Text
  pub stacks : List Text
  pub isolate_adapter : Bool
  pub coexistence : Text
  pub results_dir : Text
  pub run_id : Option Text
  pub char_read_uuid : Text
  pub char_write_uuid : Text
  pub char_notify_uuid : Text

-- The parsed arguments of the command line.
pub record Namespace (F : Type 0) : Type 0 where
  pub mode : Text
  pub target : Option Text
  pub adapter : Text
  pub peripheral_adapter : Option Text
  pub use_mock_peripheral : Bool
  pub duration : F
  pub rtt_iters : ℕ
  pub warmup_iters : ℕ
  pub warmup_s : F
  pub notify_rate : ℕ
  pub payload_size : ℕ
  pub scenarios : List Text
  pub stacks : List Text
  pub isolate_adapter : Bool
  pub results_dir : Text
  pub run_id : Option Text

abbrev pub chr_read_uuid : Text
chr_read_uuid = codes "0000fbe1-0000-1000-8000-00805f9b34fb"

abbrev pub chr_write_uuid : Text
chr_write_uuid = codes "0000fbe2-0000-1000-8000-00805f9b34fb"

abbrev pub chr_notify_uuid : Text
chr_notify_uuid = codes "0000fbe3-0000-1000-8000-00805f9b34fb"

-- cfg_from_args
unfoldable pub cfg_from_args : {F : Type 0} → Namespace F → BenchConfig F
cfg_from_args ns = record {
  target = ns.target;
  adapter = ns.adapter;
  peripheral_adapter = ns.peripheral_adapter;
  mode = ns.mode;
  use_mock_peripheral = ns.use_mock_peripheral;
  duration_s = ns.duration;
  rtt_iters = ns.rtt_iters;
  warmup_iters = ns.warmup_iters;
  warmup_s = ns.warmup_s;
  notify_rate_hz = ns.notify_rate;
  payload_size = ns.payload_size;
  scenarios = ns.scenarios;
  stacks = ns.stacks;
  isolate_adapter = ns.isolate_adapter;
  coexistence = if ns.isolate_adapter then codes "isolated" else codes "default";
  results_dir = ns.results_dir;
  run_id = ns.run_id;
  char_read_uuid = chr_read_uuid;
  char_write_uuid = chr_write_uuid;
  char_notify_uuid = chr_notify_uuid;
}

-- The value of "error" in a cell.
pub data Failure : Type 0 where
  load_failed scenario_failed : Error → Failure
  no_target : Failure
  reported : Text → Failure

-- The dict of a cell: a scenario's own dict has the result, and may report an error.
pub record Cell (R : Type 0) : Type 0 where
  pub scenario : Text
  pub stack : Text
  pub error : Option Failure
  pub result : Option R

abbrev pub failed_cell : {R : Type 0} → Text → Text → Failure → Cell R
failed_cell scenario stack why = record {
  scenario = scenario;
  stack = stack;
  error = some why;
  result = none;
}

-- not text, where None counts too
abbrev pub is_missing : Option Text → Bool
is_missing none = true
is_missing (some []) = true
is_missing (some (c ∷ s)) = false

-- _resolve_stacks
unfoldable pub resolve_stacks : {F : Type 0} → BenchConfig F → List Text
resolve_stacks cfg =
    if text_eq cfg.mode (codes "micro") then codes "micro_fake" ∷ [] else cfg.stacks

pub record Bench (F S R W : Type 0) : Type 0 where
  pub load : Text → BenchConfig F → W → Result S × W
  -- getattr(stack, "NAME", "?")
  pub name_of : S → Text
  pub run : Text → S → BenchConfig F → Option Text → W → Result (Cell R) × W
  pub supervise : Text → W → Result Text × W

abbrev pub in_map : Text → Bool
in_map name =
    if text_eq name (codes "advert")
    then true
    else if text_eq name (codes "read_write")
    then true
    else text_eq name (codes "notify")

module _ {F S R W : Type 0} (bench : Bench F S R W) where
  -- _run_scenario
  unfoldable pub run_scenario : Text → S → BenchConfig F → W → Result (Cell R) × W
  run_scenario name stack cfg w =
      if not (in_map name)
      then (err key_error, w)
      else if text_eq name (codes "advert")
      then bench.run name stack cfg none w
      else if is_missing cfg.target
      then (ok (failed_cell name (bench.name_of stack) no_target), w)
      else bench.run name stack cfg cfg.target w

  -- `except Exception` around a scenario
  abbrev pub as_cell : Text → Text → Result (Cell R) → Cell R
  as_cell scenario stack (ok c) = c
  as_cell scenario stack (err e) = failed_cell scenario stack (scenario_failed e)

  -- The inner loop.
  unfoldable pub run_scenarios : Text → S → BenchConfig F → List Text → W → List (Cell R) × W
  run_scenarios stack_name stack cfg [] w = ([], w)
  run_scenarios stack_name stack cfg (name ∷ names) w =
      let (r, w') = run_scenario name stack cfg w in
      let (cells, w'') = run_scenarios stack_name stack cfg names w' in
      (as_cell name stack_name r ∷ cells, w'')

  -- The cells of a stack, from how its import ended.
  unfoldable pub loaded : Text → BenchConfig F → Result S × W → List (Cell R) × W
  unfolding run_scenarios
  loaded stack_name cfg (err e, w) = (failed_cell (codes "*") stack_name (load_failed e) ∷ [], w)
  loaded stack_name cfg (ok stack, w) = run_scenarios stack_name stack cfg cfg.scenarios w

  unfoldable pub run_stacks : BenchConfig F → List Text → W → List (Cell R) × W
  unfolding loaded
  run_stacks cfg [] w = ([], w)
  run_stacks cfg (name ∷ names) w =
      let (cells, w') = loaded name cfg (bench.load name cfg w) in
      let (more, w'') = run_stacks cfg names w' in (cells ++ more, w'')

  -- _run_matrix
  unfoldable pub run_matrix : BenchConfig F → W → List (Cell R) × W
  unfolding run_stacks
  run_matrix cfg w = run_stacks cfg (resolve_stacks cfg) w

  -- What a run writes; SystemExit is left without a payload.
  pub record Payload : Type 0 where
    pub run_id : Text
    pub config : BenchConfig F
    pub results : List (Cell R)

  pub data RunEnd : Type 0 where
    wrote : Payload → RunEnd
    system_exit : RunEnd
    crashed : Error → RunEnd

  -- cfg.run_id or make_run_id()
  abbrev pub id_or : Option Text → Text → Text
  id_or none made = made
  id_or (some []) made = made
  id_or (some (c ∷ s)) made = c ∷ s

  abbrev pub payload_of : Text → BenchConfig F → List (Cell R) × W → RunEnd × W
  payload_of made cfg (cells, w) =
      (wrote (record { run_id = id_or cfg.run_id made; config = cfg; results = cells }), w)

  abbrev pub supervised : Text → BenchConfig F → Result Text × W → RunEnd × W
  supervised made cfg (err e, w) = (crashed e, w)
  supervised made cfg (ok mac, w) =
      let cfg' = record cfg { target = some mac } in payload_of made cfg' (run_matrix cfg' w)

  abbrev pub with_peripheral : Text → BenchConfig F → Option Text → W → RunEnd × W
  with_peripheral made cfg none w = (system_exit, w)
  with_peripheral made cfg (some []) w = (system_exit, w)
  with_peripheral made cfg (some (c ∷ s)) w = supervised made cfg (bench.supervise (c ∷ s) w)

  -- main_async
  unfoldable pub main_async : Text → BenchConfig F → W → RunEnd × W
  unfolding run_matrix
  main_async made cfg w =
      if cfg.use_mock_peripheral && text_eq cfg.mode (codes "integration")
      then with_peripheral made cfg cfg.peripheral_adapter w
      else payload_of made cfg (run_matrix cfg w)

  -- any(r.get("error") for r in results): a reported error may be the empty text
  abbrev pub has_error : Option Failure → Bool
  has_error none = false
  has_error (some (reported [])) = false
  has_error (some (reported (c ∷ s))) = true
  has_error (some (load_failed e)) = true
  has_error (some (scenario_failed e)) = true
  has_error (some no_target) = true

  unfoldable pub any_error : List (Cell R) → Bool
  any_error [] = false
  any_error (c ∷ cs) = let rest = any_error cs in if has_error c.error then true else rest

  -- The exit code of `main`, behind the write of the payload.
  unfoldable pub exit_code : List (Cell R) → ℕ
  unfolding any_error
  exit_code cells = if any_error cells then 1 else 0
