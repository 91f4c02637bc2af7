-- ===== src/Att/Request/Outcomes.antt =====
-- What a transaction and the MTU exchange return, for every peer and every order of events.
use bluek.Prelude.{ℕ, ◌≡◌, refl, List, [], ◌∷◌, true, none, some, arith, Bool-cases, inl, inr}
use bluek.Prelude.Result.{Result, ok, err, timeout_error, att_error}
use bluek.Bytes.{Bytes}
use bluek.Att.State.{Event, received, closed}
use bluek.Prelude.{All}
use bluek.Prelude.Result.{struct_error}
use bluek.Att.State.Demux.{answers, answer_data, outcome, handle_events-outcome}
use bluek.Att.Request.{
  Answer, World, Round, check_response, await_future, set_pending, send, request, raise_error_rsp,
}

-- A result that a transaction for `q` may have while the link is open: a response with the opcode
-- that was asked for, an ATT error, a malformed Error Response, or the timeout.
abbrev pub IsReply : ℕ → Result Bytes → Type 0
IsReply q (ok []) = ⊥
IsReply q (ok (opcode ∷ _)) = opcode ≡ q
IsReply q (err (att_error _ _ _)) = Unit
IsReply q (err struct_error) = Unit
IsReply q (err timeout_error) = Unit
IsReply q (err _) = ⊥

raise_error_rsp-IsReply : (q : ℕ) (b : Bytes) → IsReply q (raise_error_rsp b)
unfolding raise_error_rsp
raise_error_rsp-IsReply q [] = tt
raise_error_rsp-IsReply q (a ∷ []) = tt
raise_error_rsp-IsReply q (a ∷ b ∷ []) = tt
raise_error_rsp-IsReply q (a ∷ b ∷ c ∷ []) = tt
raise_error_rsp-IsReply q (a ∷ b ∷ c ∷ d ∷ []) = tt
raise_error_rsp-IsReply q (a ∷ b ∷ c ∷ d ∷ e ∷ rest) = tt

pub check_response-IsReply :
    (q : ℕ) (b : Bytes) → answers q b ≡ true → IsReply q (check_response q (answer_data b))
unfolding check_response
check_response-IsReply q [] h = cc
check_response-IsReply q (opcode ∷ rest) h =
    grind (arith, raise_error_rsp-IsReply q (opcode ∷ rest))

abbrev pub StaysOpen : List Event → Type 0
StaysOpen = All (λ e. elim e [ received _ ↦ Unit {0} | closed _ ↦ ⊥ ])

outcome-IsReply :
    (q : ℕ) (es : List Event) → StaysOpen es → IsReply q (await_future q (some (outcome q es)))
unfolding await_future
outcome-IsReply q [] h = tt
outcome-IsReply q (received b ∷ es) h = elim (Bool-cases (answers q b)) [
  | inl hit ↦ rw hit (check_response-IsReply q b hit)
  | inr miss ↦ rw miss (outcome-IsReply q es h.1)
]
outcome-IsReply q (closed exc ∷ es) h = absurd h.0

module _ {P : Type 0} (answer : Answer P) where
  abbrev pub round_of : Bytes → World P → Round
  round_of payload w = (answer w.peer payload).1

  -- A request returns what the first answering event says: its response or Error Response, the
  -- reason of a closed link, or the timeout if no event answers. If the send raised, it raises that.
  pub request-outcome :
      (payload : Bytes) (q : ℕ) (w : World P)
      → (request answer payload q w).0 ≡ elim (round_of payload w).send_error [
        | some e ↦ err e
        | none ↦ await_future q (some (outcome q (round_of payload w).events))
      ]
  unfolding request send
  request-outcome payload q w = ground (
    arith,
    handle_events-outcome q (round_of payload w).events (set_pending q w.client) refl refl,
  )

  -- Between transactions nothing is pending.
  pub request-clear :
      (payload : Bytes) (q : ℕ) (w : World P)
      → ((request answer payload q w).1.client.pending ≡ none)
        × ((request answer payload q w).1.client.pending_opcode ≡ none)
  unfolding request
  request-clear payload q w = (refl, refl)

  -- While the link is open no inbound PDU, stray or malformed, makes a request return a PDU of
  -- another opcode or raise anything but an ATT error, a malformed Error Response or the timeout.
  pub request-IsReply :
      (payload : Bytes) (q : ℕ) (w : World P)
      → (round_of payload w).send_error ≡ none
      → StaysOpen (round_of payload w).events
      → IsReply q (request answer payload q w).0
  request-IsReply payload q w sent open_ =
      rw (request-outcome payload q w, sent) (outcome-IsReply q (round_of payload w).events open_)
