-- ===== src/Att/Lock/Tests.antt =====
-- Two callers at a time: a read and a write, with a stray reply in between.
use bluek.Prelude.{ℕ, ◌≡◌, ◌≢◌, refl, [], ◌∷◌, false, some, ◌==◌, if◌then◌else◌, arith}
use bluek.Prelude.Result.{ok}
use bluek.Att.State.{
  Client, new_client, received, handle_event, on_data, deliver, adopt_peer_mtu, dispatch_notify,
}
use bluek.Att.Request.{check_response}
use bluek.Att.Request.Outcomes.{IsReply}
use bluek.Att.Lock.{
  Shared, awaiting, handle, acquire, release, Reach, here, next, lock, sent, event, reply, begin,
}
use bluek.Att.Lock.Futures.{IsActive}
use bluek.Att.Lock.Serial.{Reach-excludes}
use bluek.Att.Lock.Origin.{IsFrom, Reach-IsFrom}
use bluek.Prelude.Family.{set_at}

abbrev expected_by : ℕ → ℕ
expected_by i = if i == 0 then 0x0B else 0x13

abbrev client : Client
client = new_client false

abbrev locked : Shared
locked = acquire 0 0x0B (begin client)

abbrev in_wait : Shared
in_wait = record locked { phases = set_at 0 awaiting locked.phases }

abbrev strayed : Shared
strayed = handle (received (0x13 ∷ [])) in_wait

abbrev replied : Shared
replied = handle (received (0x0B ∷ 0x41 ∷ [])) strayed

abbrev first_done : Shared
first_done = release 0 (check_response 0x0B (0x0B ∷ 0x41 ∷ [])) false replied

abbrev second_locked : Shared
second_locked = acquire 1 0x13 first_done

to_second : Reach expected_by (begin client) second_locked
unfolding acquire release handle handle_event on_data deliver adopt_peer_mtu dispatch_notify
to_second =
    let r₁ = next here (lock 0 refl refl) in
    let r₂ = next r₁ (sent 0 refl) in
    let r₃ = next r₂ (event (received (0x13 ∷ []))) in
    let r₄ = next r₃ (event (received (0x0B ∷ 0x41 ∷ []))) in
    let r₅ = next r₄ (reply 0 (0x0B ∷ 0x41 ∷ []) refl refl) in next r₅ (lock 1 refl refl)

one_not_zero : ◌≢◌ {A = ℕ} 0 1
one_not_zero h = ground arith

Reach-excludes_example :
    (¬ IsActive (second_locked.phases 0)) × (second_locked.client.pending_opcode ≡ some 0x13)
unfolding acquire
Reach-excludes_example =
    Reach-excludes expected_by client second_locked to_second 1 0 tt one_not_zero

Reach-IsFrom_example :
    IsReply 0x0B (ok (0x0B ∷ 0x41 ∷ []))
    × IsFrom expected_by client 0 (ok (0x0B ∷ 0x41 ∷ [])) second_locked
unfolding acquire release handle check_response
Reach-IsFrom_example =
    Reach-IsFrom expected_by client second_locked to_second refl 0 (ok (0x0B ∷ 0x41 ∷ [])) refl
