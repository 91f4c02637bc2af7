-- ===== src/Att/Lock/Causes.antt =====
-- Why the future of a request holds data behind an event, and which calls have ended.
use bluek.Prelude.{
  ℕ, ◌≡◌, ◌≢◌, refl, sym, ap, ◌∙◌, inl, inr, true, Option, some, ◌==◌, Bool-cases, if◌then◌else◌,
}
use bluek.Prelude.Result.{Result}
use bluek.Prelude.Family.{set_at, set_at-same, set_at-other}
use bluek.Bytes.{Bytes}
use bluek.Att.State.{
  Client, Future, waiting, resolved, failed, Event, received, closed, handle_event,
}
use bluek.Att.State.Demux.{
  answers, answer_data, on_data_awaiting, on_close_awaiting, handle_event-done,
}
use bluek.Att.Lock.{Phase, finished, write_back}

-- Why a future holds the data `b` behind an event: it did before, or the event is a PDU that answers.
pub data Cause (q : ℕ) (e : Event) (f : Future) (b : Bytes) : Type 0 where
  kept : f ≡ resolved b → Cause q e f b
  fresh :
      (pdu : Bytes) → e ≡ received pdu → answers q pdu ≡ true → answer_data pdu ≡ b → Cause q e f b

written :
    (i : ℕ) (p : Option Future) (g : Future) (futures : ℕ → Future) (b : Bytes)
    → p ≡ some g
    → write_back (some i) p futures i ≡ resolved b
    → g ≡ resolved b
written i p g futures b h k =
    let now : write_back (some i) p futures i ≡ g =
      ap (λ o. write_back (some i) o futures i) h ∙ set_at-same i g futures in
    sym now ∙ k

resolved_inj : {a b : Bytes} → resolved a ≡ resolved b → a ≡ b
resolved_inj h = cc

pub event-Cause :
    (q i : ℕ) (e : Event) (c : Client) (futures : ℕ → Future) (b : Bytes) (f : Future)
    → c.pending ≡ some f
    → c.pending_opcode ≡ some q
    → write_back (some i) (handle_event e c).pending futures i ≡ resolved b
    → Cause q e f b
unfolding handle_event
event-Cause q i (received pdu) c futures b waiting h k now =
    let (behind, _) = on_data_awaiting q pdu c (h, k) in
    elim (Bool-cases (answers q pdu)) [
      | inl hit ↦ fresh pdu refl hit (resolved_inj (written i _ _ futures b (rw hit at behind) now))
      | inr miss ↦ kept (written i _ _ futures b (rw miss at behind) now)
    ]
event-Cause q i (closed exc) c futures b waiting h k now =
    let failed_now = written i _ _ futures b (on_close_awaiting q exc c (h, k)) now in cc
event-Cause q i e c futures b (resolved d) h k now =
    kept (written i _ _ futures b (handle_event-done e c (rw h refl) ∙ h) now)
event-Cause q i e c futures b (failed d) h k now =
    kept (written i _ _ futures b (handle_event-done e c (rw h refl) ∙ h) now)

-- A phase that is written and is not the end of a call leaves the calls that have ended.
pub ended_before :
    (i j : ℕ) (p : Phase) (phases : ℕ → Phase) (r : Result Bytes)
    → p ≢ finished r
    → set_at i p phases j ≡ finished r
    → phases j ≡ finished r
ended_before i j p phases r ne h = elim (Bool-cases (j == i)) [
  | inl same ↦ absurd (ne (sym (ap (λ b. if b then p else phases j) same) ∙ h))
  | inr other ↦ sym (set_at-other i j p phases other) ∙ h
]
