-- ===== src/Bench/Micro/Store.antt =====
-- The micro stack as a store: a value that is read, and the last value that was written.
use bluek.Prelude.{
  ◌≡◌, refl, ap, ◌∙◌, ℕ, ◌-◌, ◌<◌, List, [], ◌∷◌, map, length, Option, some, leb, false, arith,
}
use bluek.Prelude.Result.{Result, ok, err}
use bluek.Bytes.{Bytes}
use bluek.Att.Request.{World}
use bluek.Bench.Peripheral.{FakePeripheral}
use bluek.Bench.Runner.{chr_read_uuid, chr_write_uuid}
use bluek.Bench.Micro.{micro_read, micro_write}
use bluek.Bench.Micro.Serves.{
  peripheral_table, IsReady, read-ready, write-ready, asked, asked-keeps, length-ramp,
}

pub data Op : Type 0 where
  read_value : Op
  write_value : Bytes → Op

pub data Reply : Type 0 where
  got : Bytes → Reply
  done : Reply

-- The abstract device.
pub record Store : Type 0 where
  pub value : Bytes
  pub last : Option Bytes

abbrev pub store_ops : List Op → Store → List Reply × Store
store_ops [] s = ([], s)
store_ops (read_value ∷ ops) s = let (rs, s') = store_ops ops s in (got s.value ∷ rs, s')
store_ops (write_value v ∷ ops) s =
    let (rs, s') = store_ops ops (record s { last = some v }) in (done ∷ rs, s')

-- What the store forgets of the client and the peripheral.
abbrev pub view : World FakePeripheral → Store
view w = record { value = w.peer.read_value; last = w.peer.last_written }

abbrev pub as_reply : {A : Type 0} → (A → Reply) → Result A → Result Reply
as_reply f (ok a) = ok (f a)
as_reply f (err e) = err e

-- The calls of the stack on the two characteristics, in a row.
abbrev pub micro_ops : List Op → World FakePeripheral → List (Result Reply) × World FakePeripheral
micro_ops [] w = ([], w)
micro_ops (read_value ∷ ops) w =
    let (r, w') = micro_read peripheral_table chr_read_uuid w in
    let (rs, w'') = micro_ops ops w' in (as_reply got r ∷ rs, w'')
micro_ops (write_value v ∷ ops) w =
    let (r, w') = micro_write peripheral_table chr_write_uuid v w in
    let (rs, w'') = micro_ops ops w' in (as_reply (λ _. done) r ∷ rs, w'')

-- Behind a set-up with a payload below 246 bytes, any reads and writes in a row through the micro
-- stack return what the store returns, and leave what it leaves.
pub micro_ops-store_ops :
    (n : ℕ) (ops : List Op) (w : World FakePeripheral)
    → n < 246
    → IsReady n w
    → ((micro_ops ops w).0 ≡ map ok (store_ops ops (view w)).0)
      × (view (micro_ops ops w).1 ≡ (store_ops ops (view w)).1)
micro_ops-store_ops n [] w small ready = (refl, refl)
micro_ops-store_ops n (read_value ∷ ops) w small ready =
    let short : leb (w.client.mtu - 1) (length w.peer.read_value) ≡ false =
      rw (ready.mtu, ready.value, length-ramp n 0) (ground arith) in
    let (same_peer, same_mtu) = asked-keeps w in
    let step = read-ready w short in
    let (results, left) = micro_ops-store_ops n ops (asked w) small (record {
      value = ap (λ p. p.read_value) same_peer ∙ ready.value;
      mtu = same_mtu ∙ ready.mtu;
    }) in
    let same_view : view (asked w) ≡ view w =
      ap (λ p. record { value = p.read_value; last = p.last_written }) same_peer in
    (
      ap (λ z. as_reply got z.0 ∷ (micro_ops ops z.1).0) step
          ∙ ap (λ l. ok (got w.peer.read_value) ∷ l)
              (results ∙ ap (λ s. map ok (store_ops ops s).0) same_view),
      ap (λ z. view (micro_ops ops z.1).1) step ∙ (left ∙ ap (λ s. (store_ops ops s).1) same_view),
    )
micro_ops-store_ops n (write_value v ∷ ops) w small ready =
    let (returns, written, same_value, same_mtu) = write-ready v w in
    let w' = (micro_write peripheral_table chr_write_uuid v w).1 in
    let (results, left) =
      micro_ops-store_ops n ops w' small
        (record { value = same_value ∙ ready.value; mtu = same_mtu ∙ ready.mtu }) in
    let same_view : view w' ≡ record { value = w.peer.read_value; last = some v } =
      cc (same_value, written) in
    (
      ap (λ r. as_reply (λ _. done) r ∷ (micro_ops ops w').0) returns
          ∙ ap (λ l. ok done ∷ l) (results ∙ ap (λ s. map ok (store_ops ops s).0) same_view),
      left ∙ ap (λ s. (store_ops ops s).1) same_view,
    )
