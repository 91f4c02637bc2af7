-- ===== src/Mgmt/Socket/Futures.antt =====
-- A reply settles the future of its opcode and no other.
use bluek.Prelude.{
  ◌≡◌, ◌≢◌, refl, sym, ap, ◌∙◌, ℕ, true, false, Option, none, some, arith, ◌==◌, Bool-cases, inl,
  inr,
}
use bluek.Prelude.Dict.{Dict, nat_eq, lookup, erase, lookup-insert, lookup-erase}
use bluek.Bytes.{Bytes}
use bluek.Mgmt.Socket.{MgmtSocket, settle, set_once, resolve}

-- The future `fut` of the opcode waits, and no other opcode has it.
pub record Awaits (opcode fut : ℕ) (s : MgmtSocket) : Type 0 where
  pub waits : lookup opcode s.pending ≡ some fut
  pub open_ : lookup fut s.results ≡ none
  pub alone : (op : ℕ) → lookup op s.pending ≡ some fut → op ≡ opcode

abbrev pub IsDone : ℕ → ℕ × Bytes → MgmtSocket → Type 0
IsDone fut reply s = lookup fut s.results ≡ some reply

set_once-done :
    (k fut : ℕ) (reply new : ℕ × Bytes) (results : Dict ℕ (ℕ × Bytes)) (r : Option (ℕ × Bytes))
    → lookup k results ≡ r
    → lookup fut results ≡ some reply
    → lookup fut (set_once k new results r) ≡ some reply
set_once-done k fut reply new results (some done) e h = h
set_once-done k fut reply new results none e h =
    rw (lookup-insert k fut new results) (elim (Bool-cases (k == fut)) [
      | inl same ↦
          let k≡fut : k ≡ fut = ground arith in
          let clash : none ≡ some reply = sym e ∙ ap (λ n. lookup n results) k≡fut ∙ h in cc
      | inr other ↦ rw other h
    ])

-- A future that is done is left alone.
pub settle-done :
    (found : Option ℕ) (fut : ℕ) (reply new : ℕ × Bytes) (results : Dict ℕ (ℕ × Bytes))
    → lookup fut results ≡ some reply
    → lookup fut (settle found new results) ≡ some reply
settle-done none fut reply new results h = h
settle-done (some k) fut reply new results h =
    set_once-done k fut reply new results (lookup k results) refl h

set_once-other :
    (k fut : ℕ) (new : ℕ × Bytes) (results : Dict ℕ (ℕ × Bytes)) (r : Option (ℕ × Bytes))
    → (k == fut) ≡ false
    → lookup fut results ≡ none
    → lookup fut (set_once k new results r) ≡ none
set_once-other k fut new results (some done) ne h = h
set_once-other k fut new results none ne h = rw (lookup-insert k fut new results, ne) h

-- A reply to another opcode settles another future.
pub settle-other :
    (found : Option ℕ) (fut : ℕ) (new : ℕ × Bytes) (results : Dict ℕ (ℕ × Bytes))
    → found ≢ some fut
    → lookup fut results ≡ none
    → lookup fut (settle found new results) ≡ none
settle-other none fut new results ne h = h
settle-other (some k) fut new results ne h =
    set_once-other k fut new results (lookup k results) (apart k fut (λ e. ne (ap some e))) h
  where
    apart : (k fut : ℕ) → k ≢ fut → (k == fut) ≡ false
    apart k fut ne = ground arith

pub lookup_erased :
    (op k fut : ℕ) (d : Dict ℕ ℕ) → lookup k (erase op d) ≡ some fut → lookup k d ≡ some fut
lookup_erased op k fut d e = elim (Bool-cases (op == k)) [
  | inl same ↦ let gone : none ≡ some fut = rw same at (sym (lookup-erase op k d) ∙ e) in cc
  | inr other ↦ rw other at (sym (lookup-erase op k d) ∙ e)
]

pub resolve-Awaits :
    (opcode fut op status : ℕ) (raw : Bytes) (s : MgmtSocket)
    → (op == opcode) ≡ false
    → Awaits opcode fut s
    → Awaits opcode fut (resolve op status raw s)
unfolding resolve
resolve-Awaits opcode fut op status raw s ne h = record {
  waits = rw (lookup-erase op opcode s.pending, ne) h.waits;
  open_ =
      settle-other (lookup op s.pending) fut (status, raw) s.results
        (λ e. let same = h.alone op e in absurd (ground arith)) h.open_;
  alone = λ k e. h.alone k (lookup_erased op k fut s.pending e);
}

pub resolve-IsDone :
    (opcode fut status : ℕ) (raw : Bytes) (s : MgmtSocket)
    → Awaits opcode fut s
    → IsDone fut (status, raw) (resolve opcode status raw s)
unfolding resolve
resolve-IsDone opcode fut status raw s h =
    let same : (fut == fut) ≡ true = ground arith in
    rw (h.waits, h.open_, lookup-insert fut fut (status, raw) s.results, same) refl
