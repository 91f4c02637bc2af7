-- ===== src/Att/Lock/Origin.antt =====
-- Where the result of a caller of `_request` comes from.
use bluek.Prelude.{
  ℕ, ◌≡◌, refl, sym, ap, subst, ◌∙◌, inl, inr, true, false, ◌||◌, some, ◌==◌, Bool, arith,
  Bool-cases, if◌then◌else◌, ==_iff,
}
use bluek.Prelude.Result.{Result, err, timeout_error}
use bluek.Prelude.Family.{set_at, set_at-same, set_at-other}
use bluek.Bytes.{Bytes}
use bluek.Att.State.{Client, waiting, resolved, Event, received, handle_event}
use bluek.Att.State.Demux.{answers, answer_data}
use bluek.Att.Request.{check_response}
use bluek.Att.Request.Outcomes.{IsReply}
use bluek.Att.Lock.{
  sending, awaiting, finished, Shared, Step, lock, sent, not_sent, reply, broken, timeout,
  cancel_wait, cancel_queued, event, Reach, here, next, begin, pointed, write_back, handle, acquire,
  release,
}
use bluek.Att.Lock.Futures.{IsActive, Settles}
use bluek.Att.Lock.Invariant.{no_holder, waits, broke, some_inj}
use bluek.Att.Lock.Causes.{Cause, kept, fresh, event-Cause, ended_before}
use bluek.Att.Lock.Serial.{Reach-IsSerial}

module _ (expected : ℕ → ℕ) (c : Client) where
  -- While the caller was between the lock and its release, the client received a PDU that answers
  -- its request and gives the data.
  pub record Received (i : ℕ) (b : Bytes) (s : Shared) : Type 0 where
    pub before : Shared
    pub pdu : Bytes
    pub reached : Reach expected (begin c) before
    pub busy : IsActive (before.phases i)
    pub answering : answers (expected i) pdu ≡ true
    pub data_of : answer_data pdu ≡ b
    pub since : Reach expected (handle (received pdu) before) s

  -- The result of a caller is the timeout, or made from such a PDU.
  pub data IsFrom (i : ℕ) (r : Result Bytes) (s : Shared) : Type 0 where
    timed_out : r ≡ err timeout_error → IsFrom i r s
    answered : (b : Bytes) → r ≡ check_response (expected i) b → Received i b s → IsFrom i r s

  record IsTraced (s : Shared) : Type 0 where
    settled : (i : ℕ) (b : Bytes) → s.holder ≡ some i → s.futures i ≡ resolved b → Received i b s
    done : (i : ℕ) (r : Result Bytes) → s.phases i ≡ finished r → s.faults ≡ false → IsFrom i r s

  Received-step :
      {i : ℕ} {b : Bytes} {s t : Shared} → Step expected s t → Received i b s → Received i b t
  Received-step step got = record {
    before = got.before;
    pdu = got.pdu;
    reached = got.reached;
    busy = got.busy;
    answering = got.answering;
    data_of = got.data_of;
    since = next got.since step;
  }

  IsFrom-step :
      {i : ℕ} {r : Result Bytes} {s t : Shared} → Step expected s t → IsFrom i r s → IsFrom i r t
  IsFrom-step step (timed_out h) = timed_out h
  IsFrom-step step (answered b h got) = answered b h (Received-step step got)

  release-IsTraced :
      (i : ℕ) (r : Result Bytes) (fault : Bool) (s : Shared)
      → Step expected s (release i r fault s)
      → IsTraced s
      → ((s.faults || fault) ≡ false → IsFrom i r s)
      → IsTraced (release i r fault s)
  unfolding release
  release-IsTraced i r fault s step w from = record {
    settled = λ j b h k. absurd (no_holder h);
    done = λ j r' h quiet. IsFrom-step step (elim (Bool-cases (j == i)) [
      | inl same ↦
          let is_r : finished r ≡ finished r' =
            sym (ap (λ b. if b then finished r else s.phases j) same) ∙ h in
          let r≡r' : r ≡ r' = cc in
          subst (λ k. IsFrom k r' s) (sym ((==_iff j i).0 same))
            (subst (λ k. IsFrom i k s) r≡r' (from quiet))
      | inr other ↦
          w.done j r' (sym (set_at-other i j (finished r) s.phases other) ∙ h) (grind arith)
    ]);
  }

  acquire-IsTraced :
      (i : ℕ) (s : Shared)
      → Step expected s (acquire i (expected i) s)
      → IsTraced s
      → IsTraced (acquire i (expected i) s)
  unfolding acquire
  acquire-IsTraced i s step w = record {
    settled = λ j b h k.
        let i≡j = some_inj h in
        let empty : waiting ≡ resolved b =
          sym (set_at-same i waiting s.futures) ∙ ap (set_at i waiting s.futures) i≡j ∙ k in
        cc;
    done = λ j r h quiet.
        IsFrom-step step (w.done j r (ended_before i j sending s.phases r (λ e. cc) h) quiet);
  }

  sent-IsTraced :
      (i : ℕ) (s : Shared)
      → Step expected s (record s { phases = set_at i awaiting s.phases })
      → IsTraced s
      → IsTraced (record s { phases = set_at i awaiting s.phases })
  sent-IsTraced i s step w = record {
    settled = λ j b h k. Received-step step (w.settled j b h k);
    done = λ j r h quiet.
        IsFrom-step step (w.done j r (ended_before i j awaiting s.phases r (λ e. cc) h) quiet);
  }

  cause-Received :
      (i : ℕ) (b : Bytes) (e : Event) (s : Shared)
      → Reach expected (begin c) s
      → IsActive (s.phases i)
      → (s.futures i ≡ resolved b → Received i b s)
      → Cause (expected i) e (s.futures i) b
      → Received i b (handle e s)
  cause-Received i b e s r busy was (kept h) = Received-step (event e) (was h)
  cause-Received i b e s r busy was (fresh pdu is_pdu hit same) = record {
    before = s;
    pdu = pdu;
    reached = r;
    busy = busy;
    answering = hit;
    data_of = same;
    since = subst (λ k. Reach expected (handle (received pdu) s) (handle k s)) (sym is_pdu) here;
  }

  handle-IsTraced :
      (e : Event) (s : Shared) → Reach expected (begin c) s → IsTraced s → IsTraced (handle e s)
  handle-IsTraced e s r w = record {
    settled = λ i b h k.
        let serial = Reach-IsSerial expected c r in
        let held : s.holder ≡ some i = unfold handle in h in
        let at_i = serial.points ∙ held in
        let client = record s.client { pending = pointed s.current s.futures } in
        let now : write_back (some i) (handle_event e client).pending s.futures i ≡ resolved b =
          subst (λ o. write_back o (handle_event e client).pending s.futures i ≡ resolved b) at_i
            (unfold handle in k) in
        cause-Received i b e s r (serial.active i held) (w.settled i b held) (
          event-Cause (expected i) i e client s.futures b (s.futures i) (rw at_i refl)
            (serial.opcode i held) now);
    done = λ i res h quiet.
        IsFrom-step (event e) (w.done i res (unfold handle in h) (unfold handle in grind arith));
  }

  Step-IsTraced :
      {s t : Shared} → Reach expected (begin c) s → IsTraced s → Step expected s t → IsTraced t
  Step-IsTraced r w (lock i idle free) = acquire-IsTraced i _ (lock i idle free) w
  Step-IsTraced r w (sent i busy) = sent-IsTraced i _ (sent i busy) w
  Step-IsTraced r w (not_sent i e busy) =
      release-IsTraced i (err e) true _ (not_sent i e busy) w (λ quiet. absurd (grind arith))
  Step-IsTraced r w (reply i b busy got) =
      let held = (Reach-IsSerial expected c r).alone i (subst IsActive (sym busy) tt) in
      release-IsTraced i (check_response (expected i) b) false _ (reply i b busy got) w
        (λ quiet. answered b refl (w.settled i b held got))
  Step-IsTraced r w (broken i e busy got) =
      let serial = Reach-IsSerial expected c r in
      let held = serial.alone i (subst IsActive (sym busy) tt) in
      let fault = subst (Settles (expected i) _) got (serial.settles i held) in
      release-IsTraced i (err e) false _ (broken i e busy got) w (λ quiet. absurd (grind arith))
  Step-IsTraced r w (timeout i busy unset) =
      release-IsTraced i (err timeout_error) false _ (timeout i busy unset) w
        (λ quiet. timed_out refl)
  Step-IsTraced r w (cancel_wait i e busy) =
      release-IsTraced i (err e) true _ (cancel_wait i e busy) w (λ quiet. absurd (grind arith))
  Step-IsTraced r w (cancel_queued i e idle) = record {
    settled = λ j b h k. Received-step (cancel_queued i e idle) (w.settled j b h k);
    done = λ j res h quiet. absurd (broke quiet);
  }
  Step-IsTraced r w (event e) = handle-IsTraced e _ r w

  begin-IsTraced : IsTraced (begin c)
  begin-IsTraced = record {
    settled = λ i b h k. absurd (no_holder h);
    done = λ i r h quiet. absurd (waits h);
  }

  Reach-IsTraced : {s : Shared} → Reach expected (begin c) s → IsTraced s
  Reach-IsTraced here = begin-IsTraced
  Reach-IsTraced (next r step) = Step-IsTraced r (Reach-IsTraced r) step

  -- Whatever any number of callers and the peer do: as long as the link is open, no send raises and
  -- no caller is cancelled, a caller that is done has the timeout, or what `_request` makes of a PDU
  -- that answers its request and that the client received while the caller was between the lock and
  -- its release: a response with its opcode, an ATT error or a malformed Error Response. That PDU
  -- may be a late answer to an earlier request, if it is an Error Response or has that opcode.
  pub Reach-IsFrom :
      (s : Shared)
      → Reach expected (begin c) s
      → s.faults ≡ false
      → (i : ℕ) (r : Result Bytes) → s.phases i ≡ finished r
      → IsReply (expected i) r × IsFrom i r s
  Reach-IsFrom s r quiet i result h = (
    (Reach-IsSerial expected c r).done i result h quiet,
    (Reach-IsTraced r).done i result h quiet,
  )
