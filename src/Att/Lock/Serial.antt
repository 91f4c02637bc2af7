-- ===== src/Att/Lock/Serial.antt =====
-- What the lock of `_request` keeps for any number of callers, whatever their steps.
use bluek.Prelude.{ℕ, ◌≡◌, ◌≢◌, refl, sym, subst, ◌∙◌, true, false, some, arith}
use bluek.Prelude.Result.{err, timeout_error}
use bluek.Att.State.{Client}
use bluek.Att.Request.{check_response}
use bluek.Att.Lock.{
  Shared, Step, lock, sent, not_sent, reply, broken, timeout, cancel_wait, cancel_queued, event,
  Reach, here, next, begin,
}
use bluek.Att.Lock.Futures.{IsActive, Settles}
use bluek.Att.Lock.Invariant.{
  no_holder, some_inj, waits, IsSerial, handle-IsSerial, release-IsSerial, acquire-IsSerial,
  sent-IsSerial, cancel_queued-IsSerial,
}

module _ (expected : ℕ → ℕ) where
  Step-IsSerial : {s t : Shared} → IsSerial expected s → Step expected s t → IsSerial expected t
  Step-IsSerial w (lock i idle free) = acquire-IsSerial expected i _ w free
  Step-IsSerial w (sent i busy) = sent-IsSerial expected i _ w busy
  Step-IsSerial w (not_sent i e busy) =
      release-IsSerial expected i (err e) true _ w (subst IsActive (sym busy) tt)
        (λ quiet. absurd (grind arith))
  Step-IsSerial w (reply i b busy got) =
      let active = subst IsActive (sym busy) tt in
      release-IsSerial expected i (check_response (expected i) b) false _ w active
        (λ quiet. subst (Settles (expected i) _) got (w.settles i (w.alone i active)))
  Step-IsSerial w (broken i e busy got) =
      let active = subst IsActive (sym busy) tt in
      let fault = subst (Settles (expected i) _) got (w.settles i (w.alone i active)) in
      release-IsSerial expected i (err e) false _ w active (λ quiet. absurd (grind arith))
  Step-IsSerial w (timeout i busy unset) =
      release-IsSerial expected i (err timeout_error) false _ w (subst IsActive (sym busy) tt)
        (λ quiet. tt)
  Step-IsSerial w (cancel_wait i e busy) =
      release-IsSerial expected i (err e) true _ w (subst IsActive (sym busy) tt)
        (λ quiet. absurd (grind arith))
  Step-IsSerial w (cancel_queued i e idle) = cancel_queued-IsSerial expected i e _ w idle
  Step-IsSerial w (event e) = handle-IsSerial expected e _ w

  begin-IsSerial : (c : Client) → IsSerial expected (begin c)
  begin-IsSerial c = record {
    points = refl;
    alone = λ i h. absurd h;
    active = λ i h. absurd (no_holder h);
    opcode = λ i h. absurd (no_holder h);
    settles = λ i h. absurd (no_holder h);
    done = λ i r h quiet. absurd (waits h);
  }

  pub Reach-IsSerial : (c : Client) {s : Shared} → Reach expected (begin c) s → IsSerial expected s
  Reach-IsSerial c here = begin-IsSerial c
  Reach-IsSerial c (next r s) = Step-IsSerial (Reach-IsSerial c r) s

  -- Whatever any number of callers, the peer and the kernel do: while a caller is between the lock
  -- and its release, no other caller is, and the client waits for the opcode of that caller.
  pub Reach-excludes :
      (c : Client) (s : Shared)
      → Reach expected (begin c) s
      → (i j : ℕ) → IsActive (s.phases i)
      → j ≢ i
      → (¬ IsActive (s.phases j)) × (s.client.pending_opcode ≡ some (expected i))
  Reach-excludes c s r i j a other =
      let w = Reach-IsSerial c r in
      let held = w.alone i a in
      (λ b. other (sym (some_inj (sym held ∙ w.alone j b))), w.opcode i held)
