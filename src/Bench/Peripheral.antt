-- ===== src/Bench/Peripheral.antt =====
-- bench/fixtures/fake_peripheral.py: the in-memory ATT server of the benchmark's micro mode. The
-- task that pumps notifications is a round of its loop; the sleeps between are left out.
use bluek.Prelude.{
  ℕ, zero, suc, ◌+◌, ◌%◌, List, [], ◌∷◌, ◌++◌, Bool, true, false, ◌&&◌, ◌||◌, Option, none, some,
  leb, ltb, ◌==◌, text_eq, drop, take, if◌then◌else◌,
}
use bluek.Prelude.Result.{Result, ok, err, index_error, struct_error, ◌>>=◌}
use bluek.Bytes.{Bytes, le_bytes, from_bytes}
use bluek.Att.Codes.{
  error_rsp, exchange_mtu_req, exchange_mtu_rsp, find_info_req, find_info_rsp, read_by_type_req,
  read_by_type_rsp, read_req, read_rsp, read_by_group_type_req, read_by_group_type_rsp, write_req,
  write_rsp, write_cmd, handle_value_ntf, attribute_not_found,
}
use bluek.Att.State.{received}
use bluek.Att.Request.{Answer}

abbrev pub svc_uuid16 : ℕ
svc_uuid16 = 0xFBE0

abbrev pub chr_read_uuid16 : ℕ
chr_read_uuid16 = 0xFBE1

abbrev pub chr_write_uuid16 : ℕ
chr_write_uuid16 = 0xFBE2

abbrev pub chr_notify_uuid16 : ℕ
chr_notify_uuid16 = 0xFBE3

abbrev pub cccd_uuid16 : ℕ
cccd_uuid16 = 0x2902

abbrev pub invalid_handle : ℕ
invalid_handle = 0x01

pub record FakePeripheral : Type 0 where
  pub read_value : Bytes
  pub last_written : Option Bytes
  pub writes : List (ℕ × Bytes)
  pub notify_enabled : Bool
  pub notify_payload : Bytes
  pub notify_rate_hz : ℕ
  -- whether there is a task that pumps
  pub has_notify_task : Bool

-- bytes((i % 256 for i in range(n))), from i on
abbrev pub ramp : ℕ → ℕ → Bytes
ramp zero i = []
ramp (suc n) i = (i % 256) ∷ ramp n (i + 1)

-- FakePeripheral.__init__
unfoldable pub new_peripheral : ℕ → FakePeripheral
new_peripheral payload_size = record {
  read_value = ramp payload_size 0;
  last_written = none;
  writes = [];
  notify_enabled = false;
  notify_payload = ramp payload_size 0;
  notify_rate_hz = 0;
  has_notify_task = false;
}

-- _err
abbrev pub error_pdu : ℕ → ℕ → ℕ → Bytes
error_pdu req_op handle code = error_rsp ∷ req_op ∷ (le_bytes 2 handle ++ (code ∷ []))

-- struct.unpack_from("<H", req, i)
abbrev pub unpack_h : ℕ → Bytes → Result ℕ
unpack_h i b = elim (drop i b) [
  | [] ↦ err struct_error
  | x ∷ xs ↦ elim xs [ [] ↦ err struct_error | y ∷ _ ↦ ok (from_bytes (x ∷ y ∷ [])) ]
]

abbrev pub in_range : ℕ → ℕ → ℕ → Bool
in_range start stop h = leb start h && leb h stop

-- One declaration of the table in the branch for READ_BY_TYPE_REQ, if it is in range.
abbrev pub declaration : ℕ → ℕ → ℕ → ℕ → ℕ → ℕ → Bytes
declaration start stop decl value_handle uuid16 props =
    if in_range start stop decl
    then le_bytes 2 decl ++ (props ∷ (le_bytes 2 value_handle ++ le_bytes 2 uuid16))
    else []

abbrev pub declarations : ℕ → ℕ → Bytes
declarations start stop =
    declaration start stop 2 3 chr_read_uuid16 0x02
    ++ (declaration start stop 4 5 chr_write_uuid16 0x08
        ++ declaration start stop 6 7 chr_notify_uuid16 0x10)

abbrev pub or_not_found : ℕ → ℕ → Bytes → Bytes → Bytes
or_not_found op start head [] = error_pdu op start attribute_not_found
or_not_found op start head (b ∷ body) = head ++ (b ∷ body)

abbrev pub Reply : Type 0
Reply = Result (Option Bytes × FakePeripheral)

-- The branches for the three discovery requests, from the opcode and the handle range.
unfoldable pub answer_range : ℕ → ℕ → ℕ → Bytes
unfolding le_bytes
answer_range op start stop =
    if op == read_by_group_type_req
    then or_not_found op start (read_by_group_type_rsp ∷ 6 ∷ []) (
        if in_range start stop 1
        then le_bytes 2 1 ++ (le_bytes 2 8 ++ le_bytes 2 svc_uuid16)
        else [])
    else if op == read_by_type_req
    then or_not_found op start (read_by_type_rsp ∷ 7 ∷ []) (declarations start stop)
    else or_not_found op start (find_info_rsp ∷ 1 ∷ [])
        (if in_range start stop 8 then le_bytes 2 8 ++ le_bytes 2 cccd_uuid16 else [])

unfoldable pub answer_read : ℕ → FakePeripheral → Bytes
unfolding le_bytes
answer_read handle p =
    if handle == 3
    then read_rsp ∷ p.read_value
    else if handle == 8
    then read_rsp ∷ (if p.notify_enabled then 1 ∷ 0 ∷ [] else 0 ∷ 0 ∷ [])
    else error_pdu read_req handle invalid_handle

unfoldable pub answer_write : ℕ → Bytes → FakePeripheral → Bytes × FakePeripheral
unfolding le_bytes text_eq
answer_write handle value p =
    if handle == 8
    then (write_rsp ∷ [], record p { notify_enabled = text_eq (take 2 value) (1 ∷ 0 ∷ []) })
    else if handle == 5
    then (
      write_rsp ∷ [],
      record p { last_written = some value; writes = p.writes ++ ((handle, value) ∷ []) },
    )
    else (error_pdu write_req handle invalid_handle, p)

abbrev with_reply : FakePeripheral → Bytes → Reply
with_reply p b = ok (some b, p)

-- _handle
unfoldable pub handle : Bytes → FakePeripheral → Reply
unfolding answer_range answer_read answer_write
handle [] p = err index_error
handle (op ∷ rest) p =
    let req = op ∷ rest in
    if op == exchange_mtu_req
    then with_reply p (exchange_mtu_rsp ∷ le_bytes 2 247)
    else if op == read_by_group_type_req || op == read_by_type_req || op == find_info_req
    then (do
      start ← unpack_h 1 req
      stop ← unpack_h 3 req
      with_reply p (answer_range op start stop))
    else if op == read_req
    then (do h ← unpack_h 1 req; with_reply p (answer_read h p))
    else if op == write_req
    then (do h ← unpack_h 1 req; let (b, p') = answer_write h (drop 3 req) p; with_reply p' b)
    else if op == write_cmd
    then (do
      h ← unpack_h 1 req
      ok (none, record p { writes = p.writes ++ ((h, drop 3 req) ∷ []) }))
    else with_reply p (error_pdu op 0 invalid_handle)

-- FakePeripheral.send, as the client's socket: the reply is handed to `_on_data` by the event loop.
unfoldable pub peripheral_answer : Answer FakePeripheral
unfolding handle
peripheral_answer p pdu = elim (handle pdu p) [
  | err e ↦ (p, record { send_error = some e; events = [] })
  | ok reply ↦ (
    reply.1,
    record { send_error = none; events = elim reply.0 [ none ↦ [] | some b ↦ received b ∷ [] ] },
  )
]

-- close
abbrev pub close : FakePeripheral → FakePeripheral
close p = record p { has_notify_task = false }

-- start_notify_pump
abbrev pub start_notify_pump : ℕ → FakePeripheral → FakePeripheral
start_notify_pump rate_hz p = record p { notify_rate_hz = rate_hz; has_notify_task = true }

-- The packet that _pump hands to `_on_data`.
unfoldable pub notification : FakePeripheral → Bytes
unfolding le_bytes
notification p = handle_value_ntf ∷ (le_bytes 2 7 ++ p.notify_payload)

-- A round of _pump, for a peripheral with a reader: the packet that it hands over, if any.
unfoldable pub pump_round : FakePeripheral → Option Bytes
unfolding notification
pump_round p = if p.notify_enabled && ltb 0 p.notify_rate_hz then some (notification p) else none
