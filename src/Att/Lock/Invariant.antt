-- ===== src/Att/Lock/Invariant.antt =====
-- What holds between the steps of the callers of `_request`, and that each step keeps it.
use bluek.Prelude.{
  ℕ, ◌≡◌, refl, sym, ap, subst, ◌∙◌, inl, inr, Bool, true, false, ◌||◌, Option, none, some, ◌==◌,
  if◌then◌else◌, arith, Bool-cases, ==_iff,
}
use bluek.Prelude.Result.{Result, err, Error}
use bluek.Bytes.{Bytes}
use bluek.Att.State.{Future, waiting, resolved, failed, Event, handle_event}
use bluek.Att.State.Demux.{handle_event-pending_opcode}
use bluek.Att.Request.Outcomes.{IsReply}
use bluek.Att.Lock.{
  queued, sending, awaiting, finished, Shared, pointed, write_back, is_closed, handle, acquire,
  release,
}
use bluek.Att.Lock.Futures.{IsActive, Settles, handle_event-Settles, write_back-Settles}
use bluek.Prelude.Family.{set_at, set_at-same, set_at-other}

pub no_holder : {i : ℕ} → none ≡ some i → ⊥
no_holder h = cc

pub some_inj : {i j : ℕ} → some i ≡ some j → i ≡ j
some_inj h = cc

one_holder :
    (i j : ℕ) (holder : Option ℕ) → holder ≡ some i → holder ≡ some j → (j == i) ≡ false → ⊥
one_holder i j holder h k other = let same : i ≡ j = cc in grind arith

finished_inj : {r r' : Result Bytes} → finished r ≡ finished r' → r ≡ r'
finished_inj h = cc

not_finished : {r : Result Bytes} → sending ≡ finished r → ⊥
not_finished h = cc

awaits : {r : Result Bytes} → awaiting ≡ finished r → ⊥
awaits h = cc

pub waits : {r : Result Bytes} → queued ≡ finished r → ⊥
waits h = cc

pub broke : true ≡ false → ⊥
broke h = cc

Settles-any : (q : ℕ) (faults : Bool) (f : Future) → Settles q faults f → Settles q true f
Settles-any q faults waiting h = tt
Settles-any q faults (resolved b) h = h
Settles-any q faults (failed e) h = refl

module _ (expected : ℕ → ℕ) where
  -- What holds between any two steps.
  pub record IsSerial (s : Shared) : Type 0 where
    pub points : s.current ≡ s.holder
    pub alone : (i : ℕ) → IsActive (s.phases i) → s.holder ≡ some i
    pub active : (i : ℕ) → s.holder ≡ some i → IsActive (s.phases i)
    pub opcode : (i : ℕ) → s.holder ≡ some i → s.client.pending_opcode ≡ some (expected i)
    pub settles : (i : ℕ) → s.holder ≡ some i → Settles (expected i) s.faults (s.futures i)
    pub done :
        (i : ℕ) (r : Result Bytes)
        → s.phases i ≡ finished r
        → s.faults ≡ false
        → IsReply (expected i) r

  pub handle-IsSerial : (e : Event) (s : Shared) → IsSerial s → IsSerial (handle e s)
  unfolding handle
  handle-IsSerial e s w = record {
    points = w.points;
    alone = w.alone;
    active = w.active;
    opcode = λ i h. handle_event-pending_opcode e _ ∙ w.opcode i h;
    settles = λ i h.
        let c = record s.client { pending = pointed s.current s.futures } in
        let at_i = w.points ∙ h in
        let held : c.pending ≡ some (s.futures i) = rw at_i refl in
        let now =
          handle_event-Settles (expected i) e s.faults c (s.futures i) held (w.opcode i h)
            (w.settles i h) in
        subst
          (λ o.
            Settles (expected i) (s.faults || is_closed e)
              (write_back o (handle_event e c).pending s.futures i))
          (sym at_i)
          (write_back-Settles (expected i) i (s.faults || is_closed e) (handle_event e c).pending
            s.futures now);
    done = λ i r h quiet. w.done i r h (grind arith);
  }

  -- A caller that holds the lock lets go of it, with a result that a request may have.
  pub release-IsSerial :
      (i : ℕ) (r : Result Bytes) (fault : Bool) (s : Shared)
      → IsSerial s
      → IsActive (s.phases i)
      → ((s.faults || fault) ≡ false → IsReply (expected i) r)
      → IsSerial (release i r fault s)
  unfolding release
  release-IsSerial i r fault s w busy answered = record {
    points = refl;
    alone = λ j h. elim (Bool-cases (j == i)) [
      | inl same ↦ absurd (subst IsActive (ap (λ b. if b then finished r else s.phases j) same) h)
      | inr other ↦
          let h' = subst IsActive (set_at-other i j (finished r) s.phases other) h in
          absurd (one_holder i j s.holder (w.alone i busy) (w.alone j h') other)
    ];
    active = λ j h. absurd (no_holder h);
    opcode = λ j h. absurd (no_holder h);
    settles = λ j h. absurd (no_holder h);
    done = λ j r' h quiet. elim (Bool-cases (j == i)) [
      | inl same ↦
          let is_r : finished r ≡ finished r' =
            sym (ap (λ b. if b then finished r else s.phases j) same) ∙ h in
          subst (λ k. IsReply (expected k) r') (sym ((==_iff j i).0 same))
            (subst (IsReply (expected i)) (finished_inj is_r) (answered quiet))
      | inr other ↦
          w.done j r' (sym (set_at-other i j (finished r) s.phases other) ∙ h) (grind arith)
    ];
  }

  pub acquire-IsSerial :
      (i : ℕ) (s : Shared) → IsSerial s → s.holder ≡ none → IsSerial (acquire i (expected i) s)
  unfolding acquire
  acquire-IsSerial i s w free = record {
    points = refl;
    alone = λ j h. elim (Bool-cases (j == i)) [
      | inl same ↦ ap some (sym ((==_iff j i).0 same))
      | inr other ↦
          let h' = subst IsActive (set_at-other i j sending s.phases other) h in
          absurd (no_holder (sym free ∙ w.alone j h'))
    ];
    active = λ j h.
        subst (λ k. IsActive (set_at i sending s.phases k)) (some_inj h)
          (subst IsActive (sym (set_at-same i sending s.phases)) tt);
    opcode = λ j h. ap (λ k. some (expected k)) (some_inj h);
    settles = λ j h.
        subst (λ k. Settles (expected k) s.faults (set_at i waiting s.futures k)) (some_inj h)
          (subst (Settles (expected i) s.faults) (sym (set_at-same i waiting s.futures)) tt);
    done = λ j r h quiet. elim (Bool-cases (j == i)) [
      | inl same ↦
          absurd (not_finished (sym (ap (λ b. if b then sending else s.phases j) same) ∙ h))
      | inr other ↦ w.done j r (sym (set_at-other i j sending s.phases other) ∙ h) quiet
    ];
  }

  pub sent-IsSerial :
      (i : ℕ) (s : Shared)
      → IsSerial s
      → s.phases i ≡ sending
      → IsSerial (record s { phases = set_at i awaiting s.phases })
  sent-IsSerial i s w busy = record {
    points = w.points;
    alone = λ j h. elim (Bool-cases (j == i)) [
      | inl same ↦
          subst (λ k. s.holder ≡ some k) (sym ((==_iff j i).0 same))
            (w.alone i (subst IsActive (sym busy) tt))
      | inr other ↦ w.alone j (subst IsActive (set_at-other i j awaiting s.phases other) h)
    ];
    active = λ j h. elim (Bool-cases (j == i)) [
      | inl same ↦ subst IsActive (sym (ap (λ b. if b then awaiting else s.phases j) same)) tt
      | inr other ↦ subst IsActive (sym (set_at-other i j awaiting s.phases other)) (w.active j h)
    ];
    opcode = w.opcode;
    settles = w.settles;
    done = λ j r h quiet. elim (Bool-cases (j == i)) [
      | inl same ↦ absurd (awaits (sym (ap (λ b. if b then awaiting else s.phases j) same) ∙ h))
      | inr other ↦ w.done j r (sym (set_at-other i j awaiting s.phases other) ∙ h) quiet
    ];
  }

  pub cancel_queued-IsSerial :
      (i : ℕ) (e : Error) (s : Shared)
      → IsSerial s
      → s.phases i ≡ queued
      → IsSerial (record s { phases = set_at i (finished (err e)) s.phases; faults = true })
  cancel_queued-IsSerial i e s w idle = record {
    points = w.points;
    alone = λ j h. elim (Bool-cases (j == i)) [
      | inl same ↦
          absurd (subst IsActive (ap (λ b. if b then finished (err e) else s.phases j) same) h)
      | inr other ↦
          w.alone j (subst IsActive (set_at-other i j (finished (err e)) s.phases other) h)
    ];
    active = λ j h. elim (Bool-cases (j == i)) [
      | inl same ↦ absurd (subst IsActive (ap s.phases ((==_iff j i).0 same) ∙ idle) (w.active j h))
      | inr other ↦
          subst IsActive (sym (set_at-other i j (finished (err e)) s.phases other)) (w.active j h)
    ];
    opcode = w.opcode;
    settles = λ j h. Settles-any (expected j) s.faults (s.futures j) (w.settles j h);
    done = λ j r h quiet. absurd (broke quiet);
  }
