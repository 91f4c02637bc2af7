-- ===== src/Bench/Micro/Complete.antt =====
-- The read/write scenario in the micro mode.
use bluek.Prelude.{
  ◌≡◌, sym, ap, subst, ◌∙◌, ℕ, ◌-◌, ◌<◌, length, Option, none, Text, arith, leb, false,
}
use bluek.Prelude.Int.{ℤ}
use bluek.Prelude.Result.{ok}
use bluek.Bytes.{Bytes}
use bluek.Measure.Recorder.{Rounded}
use bluek.Att.Request.{World}
use bluek.Bench.Peripheral.{FakePeripheral, ramp}
use bluek.Bench.Runner.{BenchConfig, chr_read_uuid, chr_write_uuid}
use bluek.Bench.Scenario.{ReadWrite, Machine, Out, run}
use bluek.Bench.Scenario.Served.{Sure, Serves, attempt-Sure, run-no_error}
use bluek.Bench.Micro.{setup_gatt, micro_read, micro_write, micro_stack}
use bluek.Bench.Micro.Serves.{
  peripheral_table, IsReady, setup_gatt-IsReady, read-ready, write-ready, asked-keeps, length-ramp,
}

-- A machine whose clock, and what it says of processes, are beside the client and the peripheral.
pub record Host (F E : Type 0) : Type 0 where
  pub clock : E → ℤ × E
  pub cpu_of : E → ℕ → Option ℤ
  pub resolve : E → Text → Option ℕ
  pub self : ℕ
  pub floats : Rounded F
  pub scaled : ℕ → ℕ → ℕ

abbrev pub on_host : {F E : Type 0} → Host F E → Machine F (World FakePeripheral × E)
on_host host = record {
  perf_ns = λ w. let (t, e) = host.clock w.1 in (t, (w.0, e));
  cpu_of = λ w. host.cpu_of w.1;
  resolve = λ w. host.resolve w.1;
  self = host.self;
  floats = host.floats;
  scaled = host.scaled;
}

module _ {F E : Type 0} (host : Host F E) (cfg : BenchConfig F)
    (reads : cfg.char_read_uuid ≡ chr_read_uuid) (writes : cfg.char_write_uuid ≡ chr_write_uuid)
    (small : cfg.payload_size < 246) where
  abbrev Ready : World FakePeripheral × E → Type 0
  Ready w = IsReady cfg.payload_size w.0

  read-Sure :
      (w : World FakePeripheral) (e : E)
      → IsReady cfg.payload_size w
      → Sure (λ v u. Ready u) ((micro_stack cfg).read peripheral_table cfg.char_read_uuid (w, e))
  unfolding micro_stack
  read-Sure w e ready =
      let short : leb (w.client.mtu - 1) (length w.peer.read_value) ≡ false =
        rw (ready.mtu, ready.value, length-ramp cfg.payload_size 0) (ground arith) in
      let (same_peer, same_mtu) = asked-keeps w in
      subst
        (λ u.
          Sure (λ (v : Bytes) u. Ready u)
            (let (r, w') = micro_read peripheral_table u w in (r, (w', e))))
        (sym reads)
        (subst (λ z. Sure (λ (v : Bytes) u. Ready u) (z.0, (z.1, e))) (sym (read-ready w short))
          (record {
            value = ap (λ p. p.read_value) same_peer ∙ ready.value;
            mtu = same_mtu ∙ ready.mtu;
          }))

  write-Sure :
      (value : Bytes) (w : World FakePeripheral) (e : E)
      → IsReady cfg.payload_size w
      → Sure
          (λ v u. Ready u)
          ((micro_stack cfg).write peripheral_table cfg.char_write_uuid value (w, e))
  unfolding micro_stack
  write-Sure value w e ready =
      let (returns, written, same_value, same_mtu) = write-ready value w in
      subst
        (λ u.
          Sure (λ (v : Unit {0}) u. Ready u)
            (let (r, w') = micro_write peripheral_table u value w in (r, (w', e))))
        (sym writes)
        (subst
          (λ r.
            Sure (λ (v : Unit {0}) u. Ready u)
              (r, ((micro_write peripheral_table chr_write_uuid value w).1, e)))
          (sym returns) (record { value = same_value ∙ ready.value; mtu = same_mtu ∙ ready.mtu }))

  micro-Serves :
      Serves (on_host host) (micro_stack cfg) cfg peripheral_table (ramp cfg.payload_size 0) Ready
  micro-Serves = record {
    reads = λ w ready. read-Sure w.0 w.1 ready;
    writes = λ w ready. write-Sure (ramp cfg.payload_size 0) w.0 w.1 ready;
    ticks = λ w ready. ready;
  }

  -- In the micro mode, with the default characteristics and a payload below 246 bytes, the read/write
  -- scenario returns a dict without an error, for every machine, target and number of rounds.
  pub run_micro-no_error :
      (target : Text) (w : World FakePeripheral × E)
      → (out : Out ReadWrite F) × ((run (on_host host) (micro_stack cfg) cfg target w).0 ≡ ok out)
        × (out.error ≡ none)
  unfolding micro_stack
  run_micro-no_error target w =
      let (table, ready) = setup_gatt-IsReady cfg.payload_size cfg.notify_rate_hz in
      let w₁ : World FakePeripheral × E =
        ((setup_gatt cfg.payload_size cfg.notify_rate_hz).1, w.1) in
      run-no_error (on_host host) (micro_stack cfg) cfg target w w₁ peripheral_table
        (ap (λ r. (r, w₁)) table) (attempt-Sure micro-Serves w₁ ready)
