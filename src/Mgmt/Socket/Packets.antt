-- ===== src/Mgmt/Socket/Packets.antt =====
-- Which packets are replies, and what reading one does to the futures.
use bluek.Prelude.{
  ◌≡◌, refl, ℕ, List, [], ◌∷◌, drop, length, Option, none, some, ltb, ◌==◌, Bool-cases, inl, inr,
  if◌then◌else◌,
}
use bluek.Prelude.Dict.{nat_eq}
use bluek.Prelude.Result.{Result, ok, err}
use bluek.Bytes.{Bytes}
use bluek.Mgmt.Codec.{
  mgmt_ev_cmd_complete, mgmt_ev_cmd_status, mgmt_ev_device_found, parse_packet, parse_device_found,
  DeviceFound,
}
use bluek.Mgmt.Socket.{
  MgmtSocket, resolve, unpack_status, resolve_unpacked, dispatch_found, handle_packet, read_ready,
}

abbrev pub Reply : Type 0
Reply = ℕ × ℕ × Bytes

abbrev reply_of_status : Bytes → Result (ℕ × ℕ) → Option Reply
reply_of_status raw (err e) = none
reply_of_status raw (ok (opcode, status)) = some (opcode, status, raw)

-- The reply that an event is: its opcode, status and data.
abbrev reply_of_event : Result (ℕ × ℕ × Bytes) → Option Reply
reply_of_event (err e) = none
reply_of_event (ok (event, index, params)) =
    if event == mgmt_ev_device_found
    then none
    else if event == mgmt_ev_cmd_complete
    then reply_of_status (drop 3 params) (unpack_status params)
    else if event == mgmt_ev_cmd_status
    then reply_of_status [] (unpack_status params)
    else none

abbrev pub reply_of : Bytes → Option Reply
reply_of raw = if ltb (length raw) 6 then none else reply_of_event (parse_packet raw)

abbrev pub reply_to : ℕ → Option Reply → Option (ℕ × Bytes) → Option (ℕ × Bytes)
reply_to opcode none later = later
reply_to opcode (some (op, status, raw)) later = if op == opcode then some (status, raw) else later

-- The first of the packets that is a reply to the opcode.
abbrev pub first_reply : ℕ → List Bytes → Option (ℕ × Bytes)
first_reply opcode [] = none
first_reply opcode (b ∷ bs) = reply_to opcode (reply_of b) (first_reply opcode bs)

abbrev pub apply_reply : Option Reply → MgmtSocket → MgmtSocket
apply_reply none s = s
apply_reply (some (op, status, raw)) s = resolve op status raw s

abbrev pub SameBooks : MgmtSocket → MgmtSocket → Type 0
SameBooks s t =
    (s.pending ≡ t.pending)
    × (s.results ≡ t.results)
    × (s.next_future ≡ t.next_future)
    × (s.closed ≡ t.closed)

dispatch_found-SameBooks :
    (index : ℕ) (r : Result DeviceFound) (s : MgmtSocket) → SameBooks (dispatch_found index r s).1 s
unfolding dispatch_found
dispatch_found-SameBooks index (err e) s = (refl, refl, refl, refl)
dispatch_found-SameBooks index (ok df) s = (refl, refl, refl, refl)

resolve_unpacked-SameBooks :
    (raw : Bytes) (r : Result (ℕ × ℕ)) (s : MgmtSocket)
    → SameBooks (resolve_unpacked raw r s).1 (apply_reply (reply_of_status raw r) s)
unfolding resolve_unpacked
resolve_unpacked-SameBooks raw (err e) s = (refl, refl, refl, refl)
resolve_unpacked-SameBooks raw (ok (opcode, status)) s = (refl, refl, refl, refl)

handle_packet-SameBooks :
    (r : Result (ℕ × ℕ × Bytes)) (s : MgmtSocket)
    → SameBooks (handle_packet r s).1 (apply_reply (reply_of_event r) s)
unfolding handle_packet
handle_packet-SameBooks (err e) s = (refl, refl, refl, refl)
handle_packet-SameBooks (ok (event, index, params)) s =
    elim (Bool-cases (event == mgmt_ev_device_found)) [
      | inl found ↦ rw found (dispatch_found-SameBooks index (parse_device_found params) s)
      | inr other ↦ elim (Bool-cases (event == mgmt_ev_cmd_complete)) [
        | inl complete ↦
            rw (other, complete)
              (resolve_unpacked-SameBooks (drop 3 params) (unpack_status params) s)
        | inr not_complete ↦ elim (Bool-cases (event == mgmt_ev_cmd_status)) [
          | inl status ↦
              rw (other, not_complete, status)
                (resolve_unpacked-SameBooks [] (unpack_status params) s)
          | inr unknown ↦ rw (other, not_complete, unknown) (refl, refl, refl, refl)
        ]
      ]
    ]

pub read_ready-SameBooks :
    (raw : Bytes) (s : MgmtSocket) → SameBooks (read_ready raw s).1 (apply_reply (reply_of raw) s)
unfolding read_ready
read_ready-SameBooks raw s = elim (Bool-cases (ltb (length raw) 6)) [
  | inl short ↦ rw short (refl, refl, refl, refl)
  | inr whole ↦ rw whole (handle_packet-SameBooks (parse_packet raw) s)
]
