-- ===== src/Att/State/Demux.antt =====
-- Which event settles the pending transaction.
use bluek.Prelude.{
  ℕ, ◌≡◌, refl, inl, inr, List, [], ◌∷◌, Bool, true, false, ◌||◌, Option, some, ◌==◌, arith,
  Bool-cases, ◌∙◌, if◌then◌else◌,
}
use bluek.Prelude.Result.{Error}
use bluek.Bytes.{Bytes, slice, le_bytes, from_bytes}
use bluek.Att.Codes.{
  error_rsp, exchange_mtu_req, exchange_mtu_rsp, handle_value_ntf, handle_value_ind,
}
use bluek.Att.State.{
  Future, waiting, resolved, failed, Client, Event, received, closed, reason, on_data, on_close,
  handle_event, handle_events,
}

-- Whether a PDU answers a transaction that waits for `q`: its response, an Error Response, or the
-- peer's own MTU request while the client's is pending.
abbrev pub answers : ℕ → Bytes → Bool
answers q [] = false
answers q (opcode ∷ _) =
    if opcode == handle_value_ntf || opcode == handle_value_ind
    then false
    else if opcode == exchange_mtu_req
    then exchange_mtu_rsp == q
    else opcode == q || opcode == error_rsp

-- What the transaction then gets: the PDU, or a response made from the peer's MTU request.
abbrev pub answer_data : Bytes → Bytes
answer_data [] = []
answer_data (opcode ∷ rest) =
    if opcode == exchange_mtu_req
    then exchange_mtu_rsp ∷ le_bytes 2 (from_bytes (slice 1 3 (opcode ∷ rest)))
    else opcode ∷ rest

-- The future of a transaction that waits for `q`, decided by the first event that answers it.
abbrev pub outcome : ℕ → List Event → Future
outcome q [] = waiting
outcome q (received b ∷ es) = if answers q b then resolved (answer_data b) else outcome q es
outcome q (closed exc ∷ es) = failed (reason exc)

abbrev pub Awaits : ℕ → Client → Type 0
Awaits q c = (c.pending ≡ some waiting) × (c.pending_opcode ≡ some q)

pub on_data_awaiting :
    (q : ℕ) (b : Bytes) (c : Client)
    → Awaits q c
    → ((on_data b c).pending ≡ some (if answers q b then resolved (answer_data b) else waiting))
      × ((on_data b c).pending_opcode ≡ some q)
unfolding on_data
on_data_awaiting q [] c h = h
on_data_awaiting q (opcode ∷ rest) c h = ground arith

abbrev pub is_done : Option Future → Bool
is_done (some (resolved _)) = true
is_done (some (failed _)) = true
is_done _ = false

pub handle_event-done :
    (e : Event) (c : Client) → is_done c.pending ≡ true → (handle_event e c).pending ≡ c.pending
unfolding handle_event
handle_event-done (received []) c h = refl
handle_event-done (received (opcode ∷ rest)) c h = ground arith
handle_event-done (closed exc) c h = ground arith

handle_events-done :
    (es : List Event) (c : Client)
    → is_done c.pending ≡ true
    → (handle_events es c).pending ≡ c.pending
unfolding handle_events
handle_events-done [] c h = refl
handle_events-done (e ∷ es) c h =
    let kept = handle_event-done e c h in
    handle_events-done es (handle_event e c) (rw kept h) ∙ kept

pub on_close_awaiting :
    (q : ℕ) (exc : Option Error) (c : Client)
    → Awaits q c
    → (on_close exc c).pending ≡ some (failed (reason exc))
unfolding on_close
on_close_awaiting q exc c h = ground arith

-- The first event that answers the transaction decides its future, whatever comes before and after.
pub handle_events-outcome :
    (q : ℕ) (es : List Event) (c : Client)
    → c.pending ≡ some waiting
    → c.pending_opcode ≡ some q
    → (handle_events es c).pending ≡ some (outcome q es)
unfolding handle_events
handle_events-outcome q [] c h k = h
handle_events-outcome q (closed exc ∷ es) c h k =
    let failed_now = on_close_awaiting q exc c (h, k) in
    handle_events-done es _ (rw failed_now refl) ∙ failed_now
handle_events-outcome q (received b ∷ es) c h k =
    let now = on_data_awaiting q b c (h, k) in
    elim (Bool-cases (answers q b)) [
      | inl yes_ ↦
          let settled : (on_data b c).pending ≡ some (resolved (answer_data b)) =
            rw yes_ at now.0 in
          rw yes_ (handle_events-done es _ (rw settled refl) ∙ settled)
      | inr no_ ↦
          let still : (on_data b c).pending ≡ some waiting = rw no_ at now.0 in
          rw no_ (handle_events-outcome q es (on_data b c) still now.1)
    ]

on_data_opcode : (b : Bytes) (c : Client) → (on_data b c).pending_opcode ≡ c.pending_opcode
unfolding on_data
on_data_opcode [] c = refl
on_data_opcode (opcode ∷ rest) c = ground arith

-- No event changes what the transaction waits for.
pub handle_event-pending_opcode :
    (e : Event) (c : Client) → (handle_event e c).pending_opcode ≡ c.pending_opcode
unfolding handle_event
handle_event-pending_opcode (received b) c = on_data_opcode b c
handle_event-pending_opcode (closed exc) c = ground arith
