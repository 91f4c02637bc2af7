-- ===== src/Mgmt/Codec.antt =====
-- The packet codecs of bluek/_mgmt.py.
use bluek.Prelude.{
  ℕ, zero, suc, ◌+◌, ◌-◌, [], ◌∷◌, ◌++◌, ◌||◌, Option, none, some, Text, ltb, ◌==◌, if◌then◌else◌,
  length, take, drop,
}
use bluek.Prelude.Int.{ℤ, pos, negsuc}
use bluek.Prelude.Dict.{Dict, nat_eq, lookup, insert}
use bluek.Prelude.Result.{Result, ok, ◌>>=◌}
use bluek.Bytes.{Bytes, slice, byte_at, pack, unpack}
use bluek.Util.{bdaddr_to_str}
use bluek.Mgmt.Utf8.{decode_utf8}

abbrev pub mgmt_op_read_controller_info : ℕ
mgmt_op_read_controller_info = 0x0004

abbrev pub mgmt_op_start_discovery : ℕ
mgmt_op_start_discovery = 0x0023

abbrev pub mgmt_op_stop_discovery : ℕ
mgmt_op_stop_discovery = 0x0024

abbrev pub mgmt_ev_cmd_complete : ℕ
mgmt_ev_cmd_complete = 0x0001

abbrev pub mgmt_ev_cmd_status : ℕ
mgmt_ev_cmd_status = 0x0002

abbrev pub mgmt_ev_device_found : ℕ
mgmt_ev_device_found = 0x0012

abbrev pub scan_type_le : ℕ
scan_type_le = 0x06

abbrev pub mgmt_status_success : ℕ
mgmt_status_success = 0x00

abbrev pub mgmt_status_busy : ℕ
mgmt_status_busy = 0x0A

-- encode_command
unfoldable pub encode_command : ℕ → ℕ → Bytes → Result Bytes
encode_command opcode index params = do
  o ← pack opcode 2
  i ← pack index 2
  n ← pack (length params) 2
  ok (o ++ (i ++ (n ++ params)))

-- parse_packet: the header has to be whole, and a packet shorter than it says is cut.
unfoldable pub parse_packet : Bytes → Result (ℕ × ℕ × Bytes)
parse_packet b = do
  event ← unpack 0 2 (take 6 b)
  index ← unpack 2 2 (take 6 b)
  n ← unpack 4 2 (take 6 b)
  ok (event, index, slice 6 (6 + n) b)

abbrev pub Eir : Type 0
Eir = Dict ℕ Bytes

-- The loop of `parse_eir`, at eir[i:]. A round takes a byte or more.
unfoldable pub eir_loop : ℕ → Bytes → Eir → Eir
eir_loop zero rest out = out
eir_loop (suc fuel) [] out = out
eir_loop (suc fuel) (n ∷ []) out = out
eir_loop (suc fuel) (n ∷ ad_type ∷ tail) out =
    let next = eir_loop fuel (drop (n - 1) tail) (insert ad_type (take (n - 1) tail) out) in
    if n == 0 || ltb (suc (length tail)) n then out else next

-- parse_eir
unfoldable pub parse_eir : Bytes → Eir
parse_eir eir = eir_loop (length eir) eir []

-- `a or b` for values of a dict: an empty one counts as missing.
abbrev pub or_else : Option Bytes → Option Bytes → Option Bytes
or_else (some (x ∷ xs)) other = some (x ∷ xs)
or_else _ other = other

abbrev pub decode_name : Option Bytes → Option Text
decode_name none = none
decode_name (some raw) = some (decode_utf8 raw)

-- eir_name
unfoldable pub eir_name : Eir → Option Text
eir_name eir = decode_name (or_else (lookup 0x09 eir) (lookup 0x08 eir))

pub record DeviceFound : Type 0 where
  pub address : Text
  pub address_type : ℕ
  pub rssi : ℤ
  pub flags : ℕ
  pub eir : Eir

-- A byte as a signed number.
abbrev pub signed_byte : ℕ → ℤ
signed_byte n = if ltb n 128 then pos n else negsuc (255 - n)

-- parse_device_found
unfoldable pub parse_device_found : Bytes → Result DeviceFound
parse_device_found params = do
  address ← bdaddr_to_str (slice 0 6 params)
  address_type ← byte_at params 6
  rssi ← unpack 7 1 params
  flags ← unpack 8 4 params
  eir_len ← unpack 12 2 params
  ok (record {
    address = address;
    address_type = address_type;
    rssi = signed_byte rssi;
    flags = flags;
    eir = parse_eir (slice 14 (14 + eir_len) params);
  })
