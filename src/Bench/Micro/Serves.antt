-- ===== src/Bench/Micro/Serves.antt =====
-- The micro stack reads what the peripheral holds, and writes what it is given.
use bluek.Prelude.{
  ◌≡◌, refl, ap, ◌∙◌, ℕ, zero, suc, ◌+◌, ◌-◌, [], ◌∷◌, length, none, some, leb, text_eq, Bool,
  false, if◌then◌else◌,
}
use bluek.Prelude.Dict.{text_keys, lookup, insert}
use bluek.Prelude.Result.{Result, ok}
use bluek.Bytes.{Bytes, to_bytes, le_bytes, from_bytes}
use bluek.Texts.{replace, lower, strip, hex_fixed, hex_char, int16, format_hex}
use bluek.Uuids.{
  uuid_from_bytes, normalize_uuid_16, normalize_uuid_str, parse_uuid, widen, uuid_digits, uuid_text,
  is_brace,
}
use bluek.Att.Codes.{read_req, read_rsp}
use bluek.Att.State.{handle_events}
use bluek.Att.Request.{
  World, pure, request, send, await_future, check_response, raise_error_rsp, exchange_mtu, write,
}
use bluek.Att.Reading.{read, read_fuel, read_loop}
use bluek.Att.Discovery.{chunks, decode_all, parse_page, walk_page, walk_loop, run_walk}
use bluek.Att.Services.{
  discover, discover_each, discover_characteristics, complete, find_descriptors, find_information,
  read_by_type, read_by_group_type, decode_services, decode_characteristics,
}
use bluek.Bench.Peripheral.{FakePeripheral, new_peripheral, peripheral_answer, ramp}
use bluek.Bench.Micro.{Handle, chars_table, setup_gatt, micro_read, micro_write}
use bluek.Bench.Runner.{chr_read_uuid, chr_write_uuid, chr_notify_uuid}

-- The table of the peripheral's characteristics.
abbrev pub peripheral_table : Handle
peripheral_table =
    (chr_read_uuid, record { value_handle = 3; cccd_handle = none })
    ∷ (chr_write_uuid, record { value_handle = 5; cccd_handle = none })
    ∷ (chr_notify_uuid, record { value_handle = 7; cccd_handle = some 8 })
    ∷ []

-- What a set-up leaves: the peripheral with its value, and the client with the MTU of 247.
pub record IsReady (n : ℕ) (w : World FakePeripheral) : Type 0 where
  pub value : w.peer.read_value ≡ ramp n 0
  pub mtu : w.client.mtu ≡ 247

pub setup_gatt-IsReady :
    (n rate : ℕ) → ((setup_gatt n rate).0 ≡ ok peripheral_table) × IsReady n (setup_gatt n rate).1
unfolding setup_gatt exchange_mtu discover discover_each discover_characteristics complete
    find_descriptors find_information read_by_type read_by_group_type decode_services
    decode_characteristics chunks decode_all parse_page walk_page walk_loop run_walk request send
    await_future check_response handle_events peripheral_answer uuid_from_bytes normalize_uuid_16
    normalize_uuid_str parse_uuid widen uuid_digits uuid_text is_brace replace lower strip hex_fixed
    hex_char int16 format_hex to_bytes le_bytes from_bytes new_peripheral insert text_eq chars_table
    raise_error_rsp
setup_gatt-IsReady n rate = (refl, record { value = refl; mtu = refl })

pub length-ramp : (n i : ℕ) → length (ramp n i) ≡ n
length-ramp zero i = refl
length-ramp (suc n) i = ap suc (length-ramp n (i + 1))

if_false :
    (m k : World FakePeripheral → Result Bytes × World FakePeripheral) (w : World FakePeripheral)
    (b : Bool)
    → b ≡ false
    → (if b then m else k) w ≡ k w
if_false m k w b h = ap (λ c. (if c then m else k) w) h

read_loop-short :
    (fuel handle mtu : ℕ) (value : Bytes) (w : World FakePeripheral)
    → leb (mtu - 1) (length value) ≡ false
    → read_loop peripheral_answer (suc fuel) handle mtu value w ≡ (ok value, w)
unfolding read_loop
read_loop-short fuel handle mtu value w short =
    if_false _ (pure value) w (leb (mtu - 1) (length value)) short

-- The world behind the request of a read.
abbrev pub asked : World FakePeripheral → World FakePeripheral
asked w = (request peripheral_answer (read_req ∷ 3 ∷ 0 ∷ []) read_rsp w).1

read-asked :
    (w : World FakePeripheral)
    → micro_read peripheral_table chr_read_uuid w
      ≡ read_loop peripheral_answer read_fuel 3 w.client.mtu w.peer.read_value (asked w)
unfolding micro_read read request send handle_events await_future check_response peripheral_answer
    to_bytes le_bytes from_bytes lookup text_eq
read-asked w = refl

pub asked-keeps :
    (w : World FakePeripheral) → ((asked w).peer ≡ w.peer) × ((asked w).client.mtu ≡ w.client.mtu)
unfolding request send handle_events peripheral_answer from_bytes
asked-keeps w = (refl, refl)

-- A value below the limit of a part is read as a whole.
pub read-ready :
    (w : World FakePeripheral)
    → leb (w.client.mtu - 1) (length w.peer.read_value) ≡ false
    → micro_read peripheral_table chr_read_uuid w ≡ (ok w.peer.read_value, asked w)
read-ready w short =
    read-asked w ∙ read_loop-short 65536 3 w.client.mtu w.peer.read_value (asked w) short

pub write-ready :
    (value : Bytes) (w : World FakePeripheral)
    → ((micro_write peripheral_table chr_write_uuid value w).0 ≡ ok tt)
      × ((micro_write peripheral_table chr_write_uuid value w).1.peer.last_written ≡ some value)
      × ((micro_write peripheral_table chr_write_uuid value w).1.peer.read_value
          ≡ w.peer.read_value)
      × ((micro_write peripheral_table chr_write_uuid value w).1.client.mtu ≡ w.client.mtu)
unfolding micro_write write request send handle_events await_future check_response peripheral_answer
    to_bytes le_bytes from_bytes lookup text_eq
write-ready value w = (refl, refl, refl, refl)
