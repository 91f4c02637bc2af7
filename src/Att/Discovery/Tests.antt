-- ===== src/Att/Discovery/Tests.antt =====
-- A server that gives one attribute at a time, and the theorem on walks at it.
use bluek.Prelude.{
  ◌≡◌, ◌≢◌, refl, sym, subst, ◌∙◌, ℕ, ◌+◌, ◌*◌, ◌%◌, ◌/◌, ◌≤◌, ◌<◌, List, [], ◌∷◌, ◌++◌, false,
  none, arith, leb, leb→le, leb→lt, Bool-cases, inl, inr, if◌then◌else◌,
}
use bluek.Prelude.Result.{ok, err, att_error, out_of_fuel}
use bluek.Bytes.{Bytes, slice, from_bytes, le_bytes}
use bluek.Att.Codes.{characteristic, attribute_not_found}
use bluek.Att.State.{new_client, received, handle_events}
use bluek.Att.Request.{Answer, World, request, send, await_future, check_response, raise_error_rsp}
use bluek.Att.Discovery.{decode_all, run_walk}
use bluek.Att.Discovery.Pages.{IsPage}
use bluek.Att.Discovery.Ranges.{within}
use bluek.Att.Discovery.Complete.{ServesRange, range_pdu, run_walk-within}
use bluek.Att.Services.{Attribute, type_walk, discover}
use bluek.Att.Fuel.Loops.{read-total}
use bluek.Att.Fuel.Discover.{discover-total}
use bluek.Att.Reading.{read}

abbrev low : Attribute
low = record { handle = 2; value = 7 ∷ [] }

abbrev high : Attribute
high = record { handle = 5; value = 8 ∷ 9 ∷ [] }

abbrev low_response : Bytes
low_response = 0x09 ∷ 3 ∷ 2 ∷ 0 ∷ 7 ∷ []

abbrev high_response : Bytes
high_response = 0x09 ∷ 4 ∷ 5 ∷ 0 ∷ 8 ∷ 9 ∷ []

abbrev reply : ℕ → Bytes
reply start =
    if leb start 2
    then low_response
    else if leb start 5
    then high_response
    else 0x01 ∷ 8 ∷ 0 ∷ 0 ∷ 0x0a ∷ []

abbrev answer_start : Answer (Unit {0})
answer_start p pdu =
    (p, record { send_error = none; events = received (reply (from_bytes (slice 1 3 pdu))) ∷ [] })

first-IsPage : IsPage (type_walk characteristic) (low ∷ []) low_response
unfolding decode_all from_bytes
first-IsPage = record {
  code = 3;
  entries = (2 ∷ 0 ∷ 7 ∷ []) ∷ [];
  bytes = refl;
  positive = omega arith;
  sized = (refl, tt);
  decoded = refl;
}

second-IsPage : IsPage (type_walk characteristic) (high ∷ []) high_response
unfolding decode_all from_bytes
second-IsPage = record {
  code = 4;
  entries = (5 ∷ 0 ∷ 8 ∷ 9 ∷ []) ∷ [];
  bytes = refl;
  positive = omega arith;
  sized = (refl, tt);
  decoded = refl;
}

answers_low :
    (w : World (Unit {0})) (start : ℕ)
    → start ≤ 2
    → (request answer_start (range_pdu (type_walk characteristic) start 6) 0x09 w).0
      ≡ ok low_response
unfolding request send await_future check_response raise_error_rsp handle_events from_bytes le_bytes
answers_low w start h =
    let answered : reply (start % 256 + 256 * (start / 256 % 256 + 0)) ≡ low_response =
      ground arith in
    rw answered

answers_high :
    (w : World (Unit {0})) (start : ℕ)
    → 2 < start
    → start ≤ 5
    → (request answer_start (range_pdu (type_walk characteristic) start 6) 0x09 w).0
      ≡ ok high_response
unfolding request send await_future check_response raise_error_rsp handle_events from_bytes le_bytes
answers_high w start h k =
    let answered : reply (start % 256 + 256 * (start / 256 % 256 + 0)) ≡ high_response =
      ground arith in
    rw answered

answers_end :
    (w : World (Unit {0})) (start : ℕ)
    → 5 < start
    → start ≤ 6
    → (request answer_start (range_pdu (type_walk characteristic) start 6) 0x09 w).0
      ≡ err (att_error 8 0 attribute_not_found)
unfolding request send await_future check_response raise_error_rsp handle_events from_bytes le_bytes
answers_end w start h k =
    let answered : reply (start % 256 + 256 * (start / 256 % 256 + 0))
        ≡ 0x01 ∷ 8 ∷ 0 ∷ 0 ∷ 0x0a ∷ [] =
      ground arith in
    rw answered

abbrev db : List Attribute
db = low ∷ high ∷ []

abbrev left : ℕ → List Attribute
left start = within (λ a. a.handle) (λ a. a.handle) start 6 db

left-low : (start : ℕ) → start ≤ 2 → left start ≡ low ∷ high ∷ []
left-low start h = ground arith

left-high : (start : ℕ) → 2 < start → start ≤ 5 → left start ≡ high ∷ []
left-high start h k = ground arith

left-end : (start : ℕ) → 5 < start → left start ≡ []
left-end start h = ground arith

answer-IsPage :
    (w : World (Unit {0})) (start : ℕ) (a : Attribute) (more : List Attribute)
    → start ≤ 6
    → left start ≡ a ∷ more
    → (found : List Attribute) × (rest : List Attribute) × (b : Bytes) × (more ≡ found ++ rest)
      × ((request answer_start (range_pdu (type_walk characteristic) start 6) 0x09 w).0 ≡ ok b)
      × IsPage (type_walk characteristic) (a ∷ found) b
answer-IsPage w start a more h e = elim (Bool-cases (leb start 2)) [
  | inl is_low ↦
      let small = leb→le start 2 is_low in
      let at_low : Path (List Attribute) (low ∷ high ∷ []) (a ∷ more) =
        sym (left-low start small) ∙ e in
      let same : low ≡ a = cc in
      let others : high ∷ [] ≡ more = cc in
      (
        [],
        more,
        _,
        refl,
        answers_low w start small,
        subst (λ t. IsPage (type_walk characteristic) (t ∷ []) low_response) same first-IsPage,
      )
  | inr not_low ↦ elim (Bool-cases (leb start 5)) [
    | inl is_high ↦
        let above = leb→lt start 2 not_low in
        let small = leb→le start 5 is_high in
        let at_high : Path (List Attribute) (high ∷ []) (a ∷ more) =
          sym (left-high start above small) ∙ e in
        let same : high ≡ a = cc in
        (
          [],
          more,
          _,
          refl,
          answers_high w start above small,
          subst (λ t. IsPage (type_walk characteristic) (t ∷ []) high_response) same second-IsPage,
        )
    | inr beyond ↦
        let nothing : Path (List Attribute) [] (a ∷ more) =
          sym (left-end start (leb→lt start 5 beyond)) ∙ e in
        cc
  ]
]

answer_end :
    (w : World (Unit {0})) (start : ℕ)
    → start ≤ 6
    → left start ≡ []
    → (op : ℕ) × (h : ℕ) × ((request answer_start
          (range_pdu (type_walk characteristic) start 6)
          0x09
          w).0
        ≡ err (att_error op h attribute_not_found))
answer_end w start h e = elim (Bool-cases (leb start 5)) [
  | inl is_high ↦ absurd (ground arith)
  | inr beyond ↦ (8, 0, answers_end w start (leb→lt start 5 beyond) h)
]

serves : ServesRange answer_start (type_walk characteristic) (λ a. a.handle) db 6
serves = record { not_found = answer_end; page = answer-IsPage }

abbrev start_world : World (Unit {0})
start_world = record { client = new_client false; sent = []; peer = tt }

run_walk-within_example :
    (run_walk answer_start (type_walk characteristic) 1 6 start_world).0 ≡ ok (low ∷ high ∷ [])
run_walk-within_example =
    run_walk-within answer_start (type_walk characteristic) 6 (omega arith) (λ a. a.handle) db
      (omega arith, (omega arith, tt), (omega arith, tt, tt)) serves 1 start_world

read-total_example : (read answer_start 3 start_world).0 ≢ err out_of_fuel
read-total_example = read-total answer_start (λ p pdu. ((λ h. cc), (tt, tt))) 3 start_world

discover-total_example : (discover answer_start start_world).0 ≢ err out_of_fuel
discover-total_example = discover-total answer_start (λ p pdu. ((λ h. cc), (tt, tt))) start_world
