-- ===== src/Att/Database/Single.antt =====
-- A server that answers with one attribute at a time serves the ranges of its attributes.
use bluek.Prelude.{
  ◌≡◌, refl, sym, ap, subst, ◌∙◌, ℕ, ◌<◌, ◌≤◌, List, [], ◌∷◌, true, false, All, arith, leb, length,
  ==_refl, Bool-cases, inl, inr, ◌&&◌, ◌||◌, ◌==◌,
}
use mathlib.Core.List.{append-nil}
use bluek.Prelude.Result.{ok}
use bluek.Bytes.{Bytes, from_bytes}
use bluek.Att.Codes.{
  error_rsp, attribute_not_found, handle_value_ntf, handle_value_ind, exchange_mtu_req,
}
use bluek.Att.State.Demux.{answers, answer_data}
use bluek.Att.Request.{Answer, World, request, check_response, raise_error_rsp}
use bluek.Att.Discovery.{Walk, decode_all}
use bluek.Att.Discovery.Ranges.{within}
use bluek.Att.Discovery.Pages.{IsPage}
use bluek.Att.Discovery.Complete.{ServesRange, range_pdu}

-- How an entry is written: its bytes, and the second byte of a response that has it.
pub record Writing (A : Type 0) : Type 0 where
  pub entry : A → Bytes
  pub code : A → ℕ

-- An entry that is read back as it was written.
abbrev pub Encodes : {A : Type 0} → Walk A → Writing A → A → Type 0
Encodes walk writing a =
    (walk.decode (writing.entry a) ≡ ok a)
    × (length (writing.entry a) ≡ walk.entry_length (writing.code a))
    × (0 < walk.entry_length (writing.code a))

-- The response to a request for a range with these entries.
abbrev pub one : {A : Type 0} → Walk A → Writing A → List A → Bytes
one walk writing [] = error_rsp ∷ walk.request_opcode ∷ 0 ∷ 0 ∷ attribute_not_found ∷ []
one walk writing (a ∷ _) = walk.response_opcode ∷ writing.code a ∷ (writing.entry a)

one-IsPage :
    {A : Type 0} (walk : Walk A) (writing : Writing A) (a : A) (more : List A)
    → Encodes walk writing a
    → IsPage walk (a ∷ []) (one walk writing (a ∷ more))
unfolding decode_all
one-IsPage walk writing a more (decoded, size, positive) = record {
  code = writing.code a;
  entries = writing.entry a ∷ [];
  bytes =
      ap (λ (l : Bytes). walk.response_opcode ∷ writing.code a ∷ l)
        (sym (append-nil (writing.entry a)));
  positive = positive;
  sized = (size, tt);
  decoded = rw decoded refl;
}

All-within :
    {A : Type 0} (Q : A → Type 0) (first last : A → ℕ) (s e : ℕ) (db : List A)
    → All Q db
    → All Q (within first last s e db)
All-within Q first last s e [] h = tt
All-within Q first last s e (a ∷ db) h =
    let rest = All-within Q first last s e db h.1 in
    elim (Bool-cases (leb s (first a) && leb (first a) e)) [
      | inl hit ↦ rw hit (h.0, rest)
      | inr miss ↦ rw miss rest
    ]

module _ {P A : Type 0} (answer : Answer P) (walk : Walk A) (writing : Writing A) (first : A → ℕ)
    (db : List A) (encodes : All (Encodes walk writing) db) (stop : ℕ) where
  abbrev here : ℕ → List A
  here start = within first walk.last_handle start stop db

  -- A server that answers each request with `one` serves the range.
  pub one_by_one :
      ((w : World P) (start : ℕ)
        → start ≤ stop
        → (request answer (range_pdu walk start stop) walk.response_opcode w).0
          ≡ check_response walk.response_opcode (one walk writing (here start)))
      → (walk.response_opcode == error_rsp) ≡ false
      → ServesRange answer walk first db stop
  unfolding check_response raise_error_rsp from_bytes
  one_by_one replies differs = record {
    not_found = λ w start h e. (
      walk.request_opcode,
      0,
      replies w start h ∙ ap (λ l. check_response walk.response_opcode (one walk writing l)) e,
    );
    page = λ w start a more h e.
        let good =
          (subst (All (Encodes walk writing)) e
            (All-within (Encodes walk writing) first walk.last_handle start stop db encodes)).0 in
        (
          [],
          more,
          one walk writing (a ∷ more),
          refl,
          replies w start h
              ∙ ap (λ l. check_response walk.response_opcode (one walk writing l)) e
              ∙ rw (differs, ==_refl walk.response_opcode) refl,
          one-IsPage walk writing a more good,
        );
  }

pub one-answers :
    {A : Type 0} (walk : Walk A) (writing : Writing A) (l : List A)
    → (walk.response_opcode == handle_value_ntf || walk.response_opcode == handle_value_ind) ≡ false
    → (walk.response_opcode == exchange_mtu_req) ≡ false
    → answers walk.response_opcode (one walk writing l) ≡ true
one-answers walk writing [] quiet no_mtu = ground arith
one-answers walk writing (a ∷ more) quiet no_mtu =
    rw (quiet, no_mtu, ==_refl walk.response_opcode) refl

pub answer_data-one :
    {A : Type 0} (walk : Walk A) (writing : Writing A) (l : List A)
    → (walk.response_opcode == exchange_mtu_req) ≡ false
    → answer_data (one walk writing l) ≡ one walk writing l
answer_data-one walk writing [] no_mtu = refl
answer_data-one walk writing (a ∷ more) no_mtu = rw no_mtu refl
