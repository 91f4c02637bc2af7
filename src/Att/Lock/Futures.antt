-- ===== src/Att/Lock/Futures.antt =====
-- What the future of a request may hold while the event loop handles events.
use bluek.Prelude.{
  ℕ, ◌≡◌, refl, inl, inr, Bool, true, false, ◌||◌, Option, none, some, arith, Bool-cases, ==_refl,
}
use bluek.Prelude.Result.{Error}
use bluek.Bytes.{Bytes}
use bluek.Att.State.{
  Client, Future, waiting, resolved, failed, Event, received, closed, handle_event,
}
use bluek.Att.State.Demux.{
  answers, answer_data, on_data_awaiting, on_close_awaiting, handle_event-done,
}
use bluek.Att.Request.{check_response}
use bluek.Att.Request.Outcomes.{IsReply, check_response-IsReply}
use bluek.Att.Lock.{Phase, queued, sending, awaiting, finished, write_back, is_closed}

-- Whether a caller is between the lock and its release.
abbrev pub IsActive : Phase → Type 0
IsActive queued = ⊥
IsActive sending = Unit
IsActive awaiting = Unit
IsActive (finished _) = ⊥

-- What the future of a request for `q` may hold: nothing yet, an answer to it, or an exception,
-- which only a fault brings.
abbrev pub Settles : ℕ → Bool → Future → Type 0
Settles q faults waiting = Unit
Settles q faults (resolved b) = IsReply q (check_response q b)
Settles q faults (failed e) = faults ≡ true

abbrev pub AllSettle : ℕ → Bool → Option Future → Type 0
AllSettle q faults none = ⊥
AllSettle q faults (some f) = Settles q faults f

Settles-received :
    (q : ℕ) (b : Bytes) (faults : Bool) (c : Client) (f : Future)
    → c.pending ≡ some f
    → c.pending_opcode ≡ some q
    → Settles q faults f
    → AllSettle q faults (handle_event (received b) c).pending
unfolding handle_event
Settles-received q b faults c waiting h k ok_ = elim (Bool-cases (answers q b)) [
  | inl hit ↦
      let now : (handle_event (received b) c).pending ≡ some (resolved (answer_data b)) =
        rw hit at (on_data_awaiting q b c (h, k)).0 in
      rw now (check_response-IsReply q b hit)
  | inr miss ↦
      let now : (handle_event (received b) c).pending ≡ some waiting =
        rw miss at (on_data_awaiting q b c (h, k)).0 in
      rw now tt
]
Settles-received q b faults c (resolved r) h k ok_ =
    rw (handle_event-done (received b) c (rw h refl), h) ok_
Settles-received q b faults c (failed e) h k ok_ =
    rw (handle_event-done (received b) c (rw h refl), h) ok_

pub Settles-fault :
    (q : ℕ) (faults more : Bool) (f : Future) → Settles q faults f → Settles q (faults || more) f
Settles-fault q faults more waiting h = tt
Settles-fault q faults more (resolved b) h = h
Settles-fault q faults more (failed e) h = rw h refl

Settles-closed :
    (q : ℕ) (exc : Option Error) (faults : Bool) (c : Client) (f : Future)
    → c.pending ≡ some f
    → c.pending_opcode ≡ some q
    → faults ≡ true
    → Settles q faults f
    → AllSettle q faults (handle_event (closed exc) c).pending
unfolding handle_event
Settles-closed q exc faults c waiting h k fault ok_ = rw (on_close_awaiting q exc c (h, k)) fault
Settles-closed q exc faults c (resolved r) h k fault ok_ =
    rw (handle_event-done (closed exc) c (rw h refl), h) ok_
Settles-closed q exc faults c (failed e) h k fault ok_ =
    rw (handle_event-done (closed exc) c (rw h refl), h) ok_

-- An event leaves a future that settles right.
pub handle_event-Settles :
    (q : ℕ) (e : Event) (faults : Bool) (c : Client) (f : Future)
    → c.pending ≡ some f
    → c.pending_opcode ≡ some q
    → Settles q faults f
    → AllSettle q (faults || is_closed e) (handle_event e c).pending
handle_event-Settles q (received b) faults c f h k ok_ =
    Settles-received q b (faults || false) c f h k (Settles-fault q faults false f ok_)
handle_event-Settles q (closed exc) faults c f h k ok_ =
    Settles-closed q exc (faults || true) c f h k (grind arith) (Settles-fault q faults true f ok_)

pub write_back-Settles :
    (q i : ℕ) (faults : Bool) (p : Option Future) (futures : ℕ → Future)
    → AllSettle q faults p
    → Settles q faults (write_back (some i) p futures i)
write_back-Settles q i faults none futures h = absurd h
write_back-Settles q i faults (some f) futures h = rw (==_refl i) h
