-- ===== src/L2cap/Senders/Tests.antt =====
-- Two senders that have to wait, and one.
use bluek.Prelude.{ℕ, ◌≡◌, ◌≢◌, refl, Option, some, arith}
use bluek.L2cap.Senders.{
  Senders, begin, trying, move_to, wait_writable, call_writer, leave_wait, accept, starts, blocks,
  writable, resumes, accepts, Sends, here, next,
}
use bluek.L2cap.Senders.Wakeups.{IsDoomed, IsLost-IsDoomed}
use bluek.L2cap.Senders.Alone.{NoneBusy, sends-watched}

abbrev AnyTime : Senders → Type 0
AnyTime s = Unit

-- Both senders block: the second's callback replaces the first's.
abbrev both_wait : Senders
both_wait = wait_writable 2 (move_to trying 2 (wait_writable 1 (move_to trying 1 begin)))

-- The socket is writable: the second sends, and takes the writer out.
abbrev second_sent : Senders
second_sent = accept 2 (leave_wait trying 2 (call_writer 2 both_wait))

both_wait-Sends : Sends AnyTime begin both_wait
unfolding wait_writable
both_wait-Sends =
    let r₁ = next here (starts 1 refl tt) in
    let r₂ = next r₁ (blocks 1 refl) in
    let r₃ = next r₂ (starts 2 refl tt) in next r₃ (blocks 2 refl)

second_sends : Sends AnyTime both_wait second_sent
unfolding wait_writable call_writer leave_wait
second_sends =
    let r₁ = next here (writable 2 refl) in
    let r₂ = next r₁ (resumes 2 refl) in next r₂ (accepts 2 refl)

two_not_one : ◌≢◌ {A = Option ℕ} (some 2) (some 1)
two_not_one h = let same : ◌≡◌ {A = ℕ} 2 1 = cc in ground arith

IsLost-IsDoomed_example : IsDoomed 1 second_sent
unfolding wait_writable
IsLost-IsDoomed_example =
    IsLost-IsDoomed AnyTime 1 both_wait second_sent (refl, two_not_one) second_sends

abbrev one_waits : Senders
one_waits = wait_writable 1 (move_to trying 1 begin)

one_waits-Sends : Sends NoneBusy begin one_waits
unfolding wait_writable
one_waits-Sends = next (next here (starts 1 refl (λ i busy. busy))) (blocks 1 refl)

sends-watched_example : one_waits.writer ≡ some 1
unfolding wait_writable
sends-watched_example = sends-watched one_waits one_waits-Sends 1 refl
