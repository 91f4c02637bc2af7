-- ===== src/Att/Discovery/Complete.antt =====
-- A discovery primitive finds every attribute of its range, from every server that answers a
-- request with the first attributes of the range it asks for.
use bluek.Prelude.{
  ◌≡◌, refl, sym, ap, ◌∙◌, ℕ, zero, suc, ◌+◌, ◌<◌, ◌≤◌, ◌^◌, min, List, [], ◌∷◌, ◌++◌, Option, none,
  some, arith, leb, ltb, leb→lt, leb→le, Bool-cases, inl, inr, ◌||◌,
}
use mathlib.Core.List.{append_assoc, append-nil}
use bluek.Prelude.Result.{ok, err, att_error}
use bluek.Bytes.{Bytes, le_bytes, to_bytes-le_bytes}
use bluek.Att.Codes.{attribute_not_found}
use bluek.Att.Request.{Answer, World, Exec, request, pure, catch, ◌>>=◌}
use bluek.Att.Request.Steps.{bind-eq-ok, bind-eq-err, catch-eq-ok, catch-eq-err}
use bluek.Att.Discovery.{
  Walk, last_of, end_of_attributes, decode_response, walk_page, next_round, walk_loop, walk_fuel,
  run_walk,
}
use bluek.Att.Discovery.Pages.{IsPage, parse_page-IsPage}
use bluek.Att.Discovery.Ranges.{IsOrdered, within, within_none, within-page}

abbrev pub range_pdu : {A : Type 0} → Walk A → ℕ → ℕ → Bytes
range_pdu walk start stop =
    walk.request_opcode ∷ (le_bytes 2 start ++ (le_bytes 2 stop ++ walk.suffix))

-- A server of the attributes `db`: to a request for a range it answers with attribute-not-found if
-- it has none there, and otherwise with a page of at least one, the first of the range.
pub record ServesRange {P A : Type 0} (answer : Answer P) (walk : Walk A) (first : A → ℕ)
    (db : List A) (stop : ℕ) : Type 0 where
  pub not_found :
      (w : World P) (start : ℕ)
      → start ≤ stop
      → within first walk.last_handle start stop db ≡ []
      → (op : ℕ) × (h : ℕ) × ((request answer (range_pdu walk start stop) walk.response_opcode w).0
          ≡ err (att_error op h attribute_not_found))
  pub page :
      (w : World P) (start : ℕ) (a : A) (more : List A)
      → start ≤ stop
      → within first walk.last_handle start stop db ≡ a ∷ more
      → (found : List A) × (rest : List A) × (b : Bytes) × (more ≡ found ++ rest)
        × ((request answer (range_pdu walk start stop) walk.response_opcode w).0 ≡ ok b)
        × IsPage walk (a ∷ found) b

module _ {P A : Type 0} (answer : Answer P) (walk : Walk A) (stop : ℕ) (bound : stop < 2 ^ 16) where
  abbrev range_request : ℕ → Exec P Bytes
  range_request start = request answer (range_pdu walk start stop) walk.response_opcode

  abbrev range_response : ℕ → Exec P (Option Bytes)
  range_response start = catch (range_request start >>= (λ b. pure (some b))) end_of_attributes

  walk_page-request :
      (start : ℕ) (w : World P)
      → start ≤ stop
      → walk_page answer walk start stop w
        ≡ (range_response start >>= decode_response answer walk) w
  unfolding walk_page
  walk_page-request start w h =
      let small : start < 2 ^ 16 = omega arith in
      rw (to_bytes-le_bytes start 2 small, to_bytes-le_bytes stop 2 bound)

  walk_page-page :
      (start : ℕ) (w : World P) (page : List A) (b : Bytes)
      → start ≤ stop
      → (range_request start w).0 ≡ ok b
      → IsPage walk page b
      → (walk_page answer walk start stop w).0 ≡ ok (some page)
  walk_page-page start w page b h e is_page =
      let response : (range_response start w).0 ≡ ok (some b) =
        catch-eq-ok (range_request start >>= (λ b. pure (some b))) end_of_attributes w
          (ap (λ z. z.0) (bind-eq-ok (range_request start) (λ b. pure (some b)) w e)) in
      rw (walk_page-request start w h) (
        ap (λ z. z.0) (bind-eq-ok (range_response start) (decode_response answer walk) w response)
        ∙ rw (parse_page-IsPage walk page b is_page) refl)

  walk_page-end :
      (start : ℕ) (w : World P) (op k : ℕ)
      → start ≤ stop
      → (range_request start w).0 ≡ err (att_error op k attribute_not_found)
      → (walk_page answer walk start stop w).0 ≡ ok none
  walk_page-end start w op k h e =
      let response : (range_response start w).0 ≡ ok none =
        ap (λ z. z.0)
          (catch-eq-err (range_request start >>= (λ b. pure (some b))) end_of_attributes w
            (bind-eq-err (range_request start) (λ b. pure (some b)) w e)) in
      rw (walk_page-request start w h)
        (ap (λ z. z.0) (bind-eq-ok (range_response start) (decode_response answer walk) w response))

  module _ (first : A → ℕ) (db : List A) (ordered : IsOrdered first walk.last_handle db)
      (serves : ServesRange answer walk first db stop) where
    abbrev left : ℕ → List A
    left start = within first walk.last_handle start stop db

    -- Behind the last handle nothing is left, or the loop goes on.
    next_round-page :
        (loop : ℕ → List A → Exec P (List A)) (start : ℕ) (results : List A) (a : A)
        (found rest : List A) (w : World P)
        → left start ≡ a ∷ (found ++ rest)
        → ((n : ℕ) (more : List A) (w' : World P)
            → start < n
            → n ≤ 65535
            → (loop n more w').0 ≡ ok (more ++ left n))
        → (next_round answer walk loop start results (some (a ∷ found)) w).0
          ≡ ok (results ++ (a ∷ (found ++ rest)))
    next_round-page loop start results a found rest w e k =
        let last = last_of walk.last_handle (walk.last_handle a) found in
        let (low, behind) =
          within-page first walk.last_handle start stop db a found rest ordered e in
        let joined : (results ++ (a ∷ found)) ++ rest ≡ results ++ (a ∷ (found ++ rest)) =
          append_assoc results (a ∷ found) rest in
        elim (Bool-cases (leb 0xFFFF last || ltb last start)) [
          | inl stops ↦
              let over : stop < last + 1 = ground arith in
              let none_left : rest ≡ [] =
                sym behind ∙ within_none first walk.last_handle (last + 1) stop db over in
              rw stops (
                ap ok (
                  sym (append-nil (results ++ (a ∷ found)))
                  ∙ ap (λ t. (results ++ (a ∷ found)) ++ t) (sym none_left)
                  ∙ joined))
          | inr goes ↦
              let above : last + 1 ≤ 65535 = ground arith in
              rw goes (
                k (last + 1) (results ++ (a ∷ found)) w (omega arith) above
                ∙ ap ok (ap (λ t. (results ++ (a ∷ found)) ++ t) behind ∙ joined))
        ]

    -- A round, from what the rounds behind it return.
    round_within :
        (loop : ℕ → List A → Exec P (List A)) (start : ℕ) (results : List A) (w : World P)
        → start ≤ stop
        → ((n : ℕ) (more : List A) (w' : World P)
            → start < n
            → n ≤ 65535
            → (loop n more w').0 ≡ ok (more ++ left n))
        → (here : List A) → left start ≡ here
        → ((walk_page answer walk start stop >>= next_round answer walk loop start results) w).0
          ≡ ok (results ++ here)
    round_within loop start results w h k [] e =
        let (op, handle, refused) = serves.not_found w start h e in
        ap (λ z. z.0)
          (bind-eq-ok (walk_page answer walk start stop) (next_round answer walk loop start results)
            w (walk_page-end start w op handle h refused))
        ∙ ap ok (sym (append-nil results))
    round_within loop start results w h k (a ∷ more) e =
        let (found, rest, b, split, response, is_page) = serves.page w start a more h e in
        let here : left start ≡ a ∷ (found ++ rest) = e ∙ ap (λ t. a ∷ t) split in
        ap (λ z. z.0)
          (bind-eq-ok (walk_page answer walk start stop) (next_round answer walk loop start results)
            w (walk_page-page start w (a ∷ found) b h response is_page))
        ∙ next_round-page loop start results a found rest _ here k
        ∙ ap (λ t. ok (results ++ (a ∷ t))) (sym split)

    walk_loop-within :
        (fuel start : ℕ) (results : List A) (w : World P)
        → 65537 ≤ fuel + min start 65536
        → (walk_loop answer walk fuel start stop results w).0 ≡ ok (results ++ left start)
    unfolding walk_loop
    walk_loop-within zero start results w enough = absurd (omega arith)
    walk_loop-within (suc fuel) start results w enough = elim (Bool-cases (leb start stop)) [
      | inr over ↦
          rw (over, within_none first walk.last_handle start stop db (leb→lt start stop over))
            (ap ok (sym (append-nil results)))
      | inl inside ↦ rw inside (
          round_within (λ next more. walk_loop answer walk fuel next stop more) start results w
            (leb→le start stop inside)
            (λ n more w' above small. walk_loop-within fuel n more w' (omega arith)) (left start)
            refl)
    ]

    -- From a server that answers with the first attributes of a range, a walk returns the whole range.
    pub run_walk-within :
        (start : ℕ) (w : World P)
        → (run_walk answer walk start stop w).0 ≡ ok (within first walk.last_handle start stop db)
    unfolding run_walk
    run_walk-within start w = walk_loop-within walk_fuel start [] w (omega arith)
