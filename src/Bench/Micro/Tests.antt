-- ===== src/Bench/Micro/Tests.antt =====
-- Runs of the micro stack with a payload of five bytes.
use bluek.Prelude.{◌≡◌, refl, ℕ, suc, [], ◌∷◌, map, false, none, some, text_eq, codes, arith}
use bluek.Prelude.Int.{pos}
use bluek.Prelude.Dict.{lookup}
use bluek.Prelude.Result.{ok, err, key_error}
use bluek.Att.Request.{World}
use bluek.Bench.Peripheral.{FakePeripheral}
use bluek.Bench.Runner.{BenchConfig, cfg_from_args}
use bluek.Bench.Scenario.{ReadWrite, Out, run}
use bluek.Bench.Scenario.Ends.{Ends, run-Ends}
use bluek.Bench.Micro.{setup_gatt, micro_read, micro_stack}
use bluek.Bench.Micro.Serves.{peripheral_table, setup_gatt-IsReady}
use bluek.Bench.Micro.Complete.{Host, on_host, run_micro-no_error}
use bluek.Bench.Micro.Store.{
  read_value, write_value, store_ops, view, micro_ops, micro_ops-store_ops,
}

abbrev cfg : BenchConfig ℕ
unfolding cfg_from_args
cfg = cfg_from_args (record {
  mode = codes "micro";
  target = some (codes "AA");
  adapter = codes "hci0";
  peripheral_adapter = none;
  use_mock_peripheral = false;
  duration = 1;
  rtt_iters = 3;
  warmup_iters = 1;
  warmup_s = 0;
  notify_rate = 200;
  payload_size = 5;
  scenarios = codes "read_write" ∷ [];
  stacks = [];
  isolate_adapter = false;
  results_dir = codes "out";
  run_id = none;
})

-- A clock that ticks at each reading, and no /proc.
abbrev host : Host ℕ ℕ
host = record {
  clock = λ n. (pos n, suc n);
  cpu_of = λ n pid. none;
  resolve = λ n comm. none;
  self = 1;
  floats = record { nought = 0; ratio3 = λ a b. 1 };
  scaled = λ p n. n;
}

abbrev before : World FakePeripheral
before = (setup_gatt 0 0).1

no_such_characteristic : (micro_read peripheral_table (codes "2a00") before).0 ≡ err key_error
unfolding micro_read lookup text_eq
no_such_characteristic = refl

micro_ops-store_ops_example :
    ((micro_ops (write_value (9 ∷ []) ∷ read_value ∷ []) (setup_gatt 5 200).1).0
      ≡ map ok (store_ops (write_value (9 ∷ []) ∷ read_value ∷ []) (view (setup_gatt 5 200).1)).0)
    × (view (micro_ops (write_value (9 ∷ []) ∷ read_value ∷ []) (setup_gatt 5 200).1).1
        ≡ (store_ops (write_value (9 ∷ []) ∷ read_value ∷ []) (view (setup_gatt 5 200).1)).1)
micro_ops-store_ops_example =
    micro_ops-store_ops 5 (write_value (9 ∷ []) ∷ read_value ∷ []) (setup_gatt 5 200).1
      (omega arith) (setup_gatt-IsReady 5 200).1

run_micro-no_error_example :
    (out : Out ReadWrite ℕ) × ((run (on_host host) (micro_stack cfg) cfg (codes "AA") (before, 0)).0
      ≡ ok out)
    × (out.error ≡ none)
unfolding cfg_from_args
run_micro-no_error_example =
    run_micro-no_error host cfg refl refl (omega arith) (codes "AA") (before, 0)

run-Ends_example :
    Ends
      (on_host host)
      (micro_stack cfg)
      cfg
      (codes "AA")
      (before, 0)
      (run (on_host host) (micro_stack cfg) cfg (codes "AA") (before, 0))
run-Ends_example = run-Ends (on_host host) (micro_stack cfg) cfg (codes "AA") (before, 0)
