-- ===== src/Att/Request/Mtu.antt =====
-- The MTU exchange: its result for every order of events, and the range of the MTU.
use bluek.Prelude.{
  ℕ, ◌↔◌, ◌≡◌, ◌<◌, ◌^◌, refl, ◌∙◌, List, [], ◌∷◌, false, none, some, min, max, arith, sym, ◌≢◌, ap,
  Bool-cases, inl, inr,
}
use bluek.Prelude.Result.{Result, ok, err, Error, att_error, timeout_error}
use bluek.Bytes.{Bytes, to_bytes-le_bytes, le_bytes, from_bytes, slice}
use bluek.Att.Codes.{exchange_mtu_req, exchange_mtu_rsp, default_mtu}
use bluek.Att.State.{waiting, Client, Event, received, closed, on_data, handle_events}
use bluek.Att.State.Demux.{answers, answer_data, outcome}
use bluek.Att.Request.{
  Answer, World, check_response, raise_error_rsp, await_future, set_pending, clear_pending, send,
  request, exchange_mtu, catch, update, gets, ◌>>=◌, ◌>>◌, mtu_refused,
}
use bluek.Att.Request.Outcomes.{round_of, StaysOpen, request-outcome}

on_data-peer_initiated_mtu :
    (b : Bytes) (c : Client)
    → answers exchange_mtu_rsp b ≡ false
    → (on_data b c).peer_initiated_mtu ≡ c.peer_initiated_mtu
unfolding on_data
on_data-peer_initiated_mtu [] c h = refl
on_data-peer_initiated_mtu (opcode ∷ rest) c h = ground arith

-- An MTU request of the peer would have answered the transaction.
unanswered_flag :
    (es : List Event) (c : Client)
    → StaysOpen es
    → outcome exchange_mtu_rsp es ≡ waiting
    → (handle_events es c).peer_initiated_mtu ≡ c.peer_initiated_mtu
unfolding handle_events
unanswered_flag [] c open_ h = refl
unanswered_flag (closed exc ∷ es) c open_ h = absurd open_.0
unanswered_flag (received b ∷ es) c open_ h = elim (Bool-cases (answers exchange_mtu_rsp b)) [
  | inl hit ↦ let resolved_now = rw hit at h in cc
  | inr miss ↦
      unanswered_flag es (on_data b c) open_.1 (rw miss at h) ∙ on_data-peer_initiated_mtu b c miss
]

raise_error_rsp-ne_timeout : (b : Bytes) → raise_error_rsp b ≢ err timeout_error
unfolding raise_error_rsp
raise_error_rsp-ne_timeout [] h = cc
raise_error_rsp-ne_timeout (a ∷ []) h = cc
raise_error_rsp-ne_timeout (a ∷ b ∷ []) h = cc
raise_error_rsp-ne_timeout (a ∷ b ∷ c ∷ []) h = cc
raise_error_rsp-ne_timeout (a ∷ b ∷ c ∷ d ∷ []) h = cc
raise_error_rsp-ne_timeout (a ∷ b ∷ c ∷ d ∷ e ∷ rest) h = cc

check_response-ne_timeout : (q : ℕ) (b : Bytes) → check_response q b ≢ err timeout_error
unfolding check_response
check_response-ne_timeout q [] h = cc
check_response-ne_timeout q (opcode ∷ rest) h =
    ground (arith, raise_error_rsp-ne_timeout (opcode ∷ rest))

-- On an open link a timeout means that no event answered.
pub timeout-waiting :
    (q : ℕ) (es : List Event)
    → StaysOpen es
    → await_future q (some (outcome q es)) ≡ err timeout_error
    → outcome q es ≡ waiting
unfolding await_future
timeout-waiting q [] open_ h = refl
timeout-waiting q (closed exc ∷ es) open_ h = absurd open_.0
timeout-waiting q (received b ∷ es) open_ h = elim (Bool-cases (answers q b)) [
  | inl hit ↦ absurd (check_response-ne_timeout q (answer_data b) (rw hit at h))
  | inr miss ↦ rw miss (timeout-waiting q es open_.1 (rw miss at h))
]

-- The result of `exchange_mtu mtu` from the response, where `m` is the MTU in effect.
abbrev pub mtu_result : ℕ → ℕ → Result Bytes → Result ℕ
mtu_result mtu m (ok b) = ok (max default_mtu (min mtu (from_bytes (slice 1 3 b))))
mtu_result mtu m (err (att_error _ _ _)) = ok m
mtu_result mtu m (err e) = err e

module _ {P : Type 0} (answer : Answer P) where
  request-client :
      (payload : Bytes) (q : ℕ) (w : World P)
      → (round_of answer payload w).send_error ≡ none
      → (request answer payload q w).1.client
        ≡ clear_pending (handle_events (round_of answer payload w).events (set_pending q w.client))
  unfolding request send
  request-client payload q w h = ground arith

  abbrev pub unset : World P → World P
  unset w = record w { client = record w.client { peer_initiated_mtu = false } }

  abbrev pub mtu_request : ℕ → Bytes
  mtu_request mtu = exchange_mtu_req ∷ le_bytes 2 mtu

  abbrev pub mtu_events : ℕ → World P → List Event
  mtu_events mtu w = (round_of answer (mtu_request mtu) w).events

  -- The client behind those events.
  abbrev pub mtu_client : ℕ → World P → Client
  mtu_client mtu w =
      handle_events (mtu_events mtu w) (set_pending exchange_mtu_rsp (unset w).client)

  refused_result :
      (e : Error) (w : World P) (mtu : ℕ)
      → (e ≡ timeout_error → w.client.peer_initiated_mtu ≡ false)
      → (mtu_refused answer e w).0 ≡ mtu_result mtu w.client.mtu (err e)
  refused_result timeout_error w mtu h = rw (h refl)
  refused_result (att_error _ _ _) w mtu h = refl
  refused_result _ w mtu h = refl

  -- What `exchange_mtu` does with the end of its request.
  exchange_end :
      (mtu : ℕ) (r : Result Bytes) (w : World P)
      → (r ≡ err timeout_error → w.client.peer_initiated_mtu ≡ false)
      → (catch
          (do
            b ← (λ (_ : World P). (r, w))
            update (λ c. record c { mtu = max default_mtu (min mtu (from_bytes (slice 1 3 b))) })
            gets (λ c. c.mtu))
          (mtu_refused answer)
          w).0
        ≡ mtu_result mtu w.client.mtu r
  exchange_end mtu (ok b) w h = refl
  exchange_end mtu (err e) w h = refused_result e w mtu (λ t. h (ap err t))

  -- On an open link, and for an MTU of two bytes that is sent, the exchange returns the response's
  -- MTU within 23 and the one asked for, or the MTU in effect on an ATT error, and raises otherwise,
  -- by the first event that answers: a response, an Error Response or the peer's own request.
  pub exchange_mtu-result :
      (mtu : ℕ) (w : World P)
      → mtu < 2 ^ 16
      → (round_of answer (mtu_request mtu) w).send_error ≡ none
      → StaysOpen (mtu_events mtu w)
      → (exchange_mtu answer mtu w).0
        ≡ mtu_result mtu
            (mtu_client mtu w).mtu
            (await_future exchange_mtu_rsp (some (outcome exchange_mtu_rsp (mtu_events mtu w))))
  unfolding exchange_mtu
  exchange_mtu-result mtu w h sent open_ =
      let (r, w') = request answer (mtu_request mtu) exchange_mtu_rsp (unset w) in
      let result : r
          ≡ await_future exchange_mtu_rsp (some (outcome exchange_mtu_rsp (mtu_events mtu w))) =
        rw (request-outcome answer (mtu_request mtu) exchange_mtu_rsp (unset w), sent) refl in
      let left : w'.client ≡ clear_pending (mtu_client mtu w) =
        request-client (mtu_request mtu) exchange_mtu_rsp (unset w) sent in
      let silent : r ≡ err timeout_error → w'.client.peer_initiated_mtu ≡ false = λ t.
        ap (λ (c : Client). c.peer_initiated_mtu) left
        ∙ unanswered_flag (mtu_events mtu w) _ open_
            (timeout-waiting exchange_mtu_rsp (mtu_events mtu w) open_ (sym result ∙ t)) in
      rw (to_bytes-le_bytes mtu 2 h) (exchange_end mtu r w' silent ∙ rw (result, left) refl)

  mtu_result-timeout :
      (mtu m : ℕ) (r : Result Bytes)
      → mtu_result mtu m r ≡ err timeout_error
      → r ≡ err timeout_error
  mtu_result-timeout mtu m (ok b) h = cc
  mtu_result-timeout mtu m (err timeout_error) h = refl
  mtu_result-timeout mtu m (err (att_error _ _ _)) h = cc
  mtu_result-timeout mtu m (err _) h = cc

  -- On an open link the exchange times out exactly if no event answers it, neither a response nor
  -- an MTU request of the peer.
  pub exchange_mtu-timeout :
      (mtu : ℕ) (w : World P)
      → mtu < 2 ^ 16
      → (round_of answer (mtu_request mtu) w).send_error ≡ none
      → StaysOpen (mtu_events mtu w)
      → ((exchange_mtu answer mtu w).0 ≡ err timeout_error)
        ↔ (outcome exchange_mtu_rsp (mtu_events mtu w) ≡ waiting)
  exchange_mtu-timeout mtu w h sent open_ = (
    λ t.
        timeout-waiting exchange_mtu_rsp (mtu_events mtu w) open_
          (mtu_result-timeout mtu _ _ (sym (exchange_mtu-result mtu w h sent open_) ∙ t)),
    λ e. rw (exchange_mtu-result mtu w h sent open_, e) (unfold await_future in refl),
  )
