-- ===== src/Bench/Stream/Tests.antt =====
-- A stack with four adverts, two of them in the warm-up, on a machine whose clock counts its readings.
use bluek.Prelude.{◌≡◌, refl, ℕ, suc, ◌*◌, ◌/◌, ◌≤◌, List, [], ◌∷◌, false, none, some, codes, arith}
use bluek.Prelude.Int.{ℤ, pos, ◌+ℤ◌}
use bluek.Prelude.Result.{ok, os_error}
use bluek.Measure.Recorder.{RateDict, rate_dict}
use bluek.Bench.Runner.{BenchConfig, cfg_from_args}
use bluek.Bench.Scenario.{pure, Machine, Out}
use bluek.Bench.Stream.{Events, raises, yields, Source, Seconds, Adverts, adverts_of, run_advert}
use bluek.Bench.Stream.Loop.{Tells, kept, first_behind, is_some, is_nonempty}
use bluek.Bench.Stream.Kept.{run_advert-kept}

abbrev exact : ℕ → ℕ → ℕ
exact p n = p * n / 100

exact_grows : (p q n : ℕ) → p ≤ q → exact p n ≤ exact q n
exact_grows p q n h = grind arith

abbrev host : Machine ℕ ℕ
host = record {
  perf_ns = λ w. (pos w, suc w);
  cpu_of = λ w pid. none;
  resolve = λ w comm. none;
  self = 7;
  floats = record { nought = 0; ratio3 = λ a b. 1 };
  scaled = exact;
}

abbrev seconds : Seconds ℕ
seconds = record { plus = λ a b. a; to_ns = λ s. pos s }

-- The last pull raises.
abbrev adverts : ℕ → Events ℕ
adverts w = yields (pos 3) w (λ w.
    yields (pos 9) w (λ w. yields (pos 14) w (λ w. yields (pos 20) w (λ w. raises (os_error 5) w))))

abbrev radio : Source ℕ ℕ ℕ
radio = record {
  name = codes "raw_dbus";
  scan_iter = λ total w. adverts w;
  setup_gatt = λ target. pure 0;
  teardown = λ handle. pure tt;
  notify_iter = λ handle uuid total w. adverts w;
}

abbrev times : List ℤ
times = pos 3 ∷ pos 9 ∷ pos 14 ∷ pos 20 ∷ []

abbrev cfg : BenchConfig ℕ
cfg = cfg_from_args (record {
  mode = codes "host";
  target = none;
  adapter = codes "hci0";
  peripheral_adapter = none;
  use_mock_peripheral = false;
  duration = 100;
  rtt_iters = 3;
  warmup_iters = 1;
  warmup_s = 5;
  notify_rate = 200;
  payload_size = 5;
  scenarios = codes "advert" ∷ [];
  stacks = [];
  isolate_adapter = false;
  results_dir = codes "out";
  run_id = none;
})

adverts-Tells : (w : ℕ) → Tells (adverts w) times (some (os_error 5))
adverts-Tells w = (refl, λ w. (refl, λ w. (refl, λ w. (refl, λ w. refl))))

run_advert-kept_example :
    (out : Out (Adverts ℕ) ℕ) × (d : RateDict ℕ) × ((run_advert host seconds radio cfg 5).0
      ≡ ok out)
    × (rate_dict exact host.floats
          (record { name = codes "adverts"; timestamps_ns = kept (pos 10) times })
        ≡ ok d)
    × (out.result ≡ some (adverts_of (first_behind (pos 10) (kept (pos 10) times)) d))
    × (out.error ≡ some (os_error 5))
    × (is_some out.cpu ≡ is_nonempty (kept (pos 10) times))
unfolding cfg_from_args ◌+ℤ◌
run_advert-kept_example =
    run_advert-kept host seconds radio cfg times (some (os_error 5)) 5 exact_grows (adverts-Tells 6)

two_kept : kept (pos 10) times ≡ pos 14 ∷ pos 20 ∷ []
unfolding kept
two_kept = refl
