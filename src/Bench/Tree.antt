-- ===== src/Bench/Tree.antt =====
-- Discovery against the in-memory peripheral.
use bluek.Prelude.{◌≡◌, refl, List, [], ◌∷◌, codes}
use bluek.Prelude.Int.{pos}
use bluek.Prelude.Result.{ok}
use bluek.Bytes.{to_bytes, le_bytes, from_bytes}
use bluek.Texts.{replace, lower, strip, hex_fixed, hex_char, int16, format_hex}
use bluek.Uuids.{
  uuid_from_bytes, normalize_uuid_16, normalize_uuid_str, parse_uuid, widen, uuid_digits, uuid_text,
  is_brace,
}
use bluek.Att.Gatt.{GattService}
use bluek.Att.State.{handle_events}
use bluek.Att.Request.{World, request, send, await_future, check_response, raise_error_rsp}
use bluek.Att.Discovery.{chunks, decode_all, parse_page, walk_page, walk_loop, run_walk}
use bluek.Att.Services.{
  discover, discover_each, discover_characteristics, complete, find_descriptors, find_information,
  read_by_type, read_by_group_type, decode_services, decode_characteristics,
}
use bluek.Bench.Peripheral.{FakePeripheral, peripheral_answer}

-- The tree that the peripheral serves.
abbrev pub peripheral_tree : List GattService
peripheral_tree =
    record {
      handle = 1;
      end_handle = 8;
      uuid = codes "0000fbe0-0000-1000-8000-00805f9b34fb";
      characteristics =
          record {
            handle = 2;
            value_handle = 3;
            uuid = codes "0000fbe1-0000-1000-8000-00805f9b34fb";
            properties = 0x02;
            end_handle = pos 3;
            descriptors = [];
          }
          ∷ record {
            handle = 4;
            value_handle = 5;
            uuid = codes "0000fbe2-0000-1000-8000-00805f9b34fb";
            properties = 0x08;
            end_handle = pos 5;
            descriptors = [];
          }
          ∷ record {
            handle = 6;
            value_handle = 7;
            uuid = codes "0000fbe3-0000-1000-8000-00805f9b34fb";
            properties = 0x10;
            end_handle = pos 8;
            descriptors =
                record { handle = 8; uuid = codes "00002902-0000-1000-8000-00805f9b34fb" } ∷ [];
          }
          ∷ [];
    }
    ∷ []

-- Discovery of the peripheral, whatever its state and that of the client, returns the tree.
pub discover-peripheral :
    (w : World FakePeripheral) → (discover peripheral_answer w).0 ≡ ok peripheral_tree
unfolding discover discover_each discover_characteristics complete find_descriptors find_information
    read_by_type read_by_group_type decode_services decode_characteristics run_walk walk_loop
    walk_page parse_page chunks decode_all send await_future check_response raise_error_rsp
    handle_events request peripheral_answer to_bytes le_bytes from_bytes uuid_from_bytes
    normalize_uuid_16 normalize_uuid_str parse_uuid widen uuid_digits uuid_text is_brace replace
    format_hex lower strip hex_fixed hex_char int16
discover-peripheral w = refl
