-- ===== src/Att/Database/Tests.antt =====
-- A tree of two services, one with a characteristic that has a descriptor, and a server of it.
use bluek.Prelude.{◌≡◌, refl, List, [], ◌∷◌, All, false, codes, arith}
use bluek.Prelude.Int.{pos}
use bluek.Prelude.Result.{ok}
use bluek.Bytes.{to_bytes, le_bytes, from_bytes}
use bluek.Texts.{replace, lower, strip, hex_fixed, hex_char, int16, format_hex}
use bluek.Uuids.{
  uuid_from_bytes, uuid_to_bytes, normalize_uuid_16, normalize_uuid_str, parse_uuid, widen,
  uuid_digits, uuid_text, is_brace,
}
use bluek.Att.Codes.{primary_service, characteristic}
use bluek.Att.Gatt.{GattService}
use bluek.Att.State.{new_client}
use bluek.Att.Services.{group_walk, type_walk, info_walk, discover}
use bluek.Att.Database.{wire, HasWire, groups, declarations, attributes, AreServices}
use bluek.Att.Database.Found.{discover-tree}
use bluek.Att.Database.Completed.{ServesTree}
use bluek.Att.Database.Single.{Encodes}
use bluek.Att.Database.Server.{
  group_writing, type_writing, info_writing, tree_answer, tree_answer-ServesTree,
}

abbrev tree : List GattService
tree =
    record {
      handle = 1;
      end_handle = 5;
      uuid = codes "0000180f-0000-1000-8000-00805f9b34fb";
      characteristics =
          record {
            handle = 2;
            value_handle = 3;
            uuid = codes "00002a19-0000-1000-8000-00805f9b34fb";
            properties = 0x12;
            end_handle = pos 5;
            descriptors =
                record { handle = 5; uuid = codes "00002902-0000-1000-8000-00805f9b34fb" } ∷ [];
          }
          ∷ [];
    }
    ∷ record {
      handle = 9;
      end_handle = 9;
      uuid = codes "0000fbe0-0000-1000-8000-00805f9b34fb";
      characteristics = [];
    }
    ∷ []

battery_wire : HasWire (codes "0000180f-0000-1000-8000-00805f9b34fb")
unfolding wire uuid_to_bytes uuid_from_bytes normalize_uuid_16 normalize_uuid_str parse_uuid widen
    uuid_digits uuid_text is_brace replace format_hex lower strip hex_fixed hex_char int16 to_bytes
    le_bytes from_bytes
battery_wire = refl

level_wire : HasWire (codes "00002a19-0000-1000-8000-00805f9b34fb")
unfolding wire uuid_to_bytes uuid_from_bytes normalize_uuid_16 normalize_uuid_str parse_uuid widen
    uuid_digits uuid_text is_brace replace format_hex lower strip hex_fixed hex_char int16 to_bytes
    le_bytes from_bytes
level_wire = refl

other_wire : HasWire (codes "0000fbe0-0000-1000-8000-00805f9b34fb")
unfolding wire uuid_to_bytes uuid_from_bytes normalize_uuid_16 normalize_uuid_str parse_uuid widen
    uuid_digits uuid_text is_brace replace format_hex lower strip hex_fixed hex_char int16 to_bytes
    le_bytes from_bytes
other_wire = refl

tree-AreServices : AreServices 0 tree
tree-AreServices = (
  omega arith,
  omega arith,
  battery_wire,
  (
    omega arith,
    omega arith,
    omega arith,
    refl,
    level_wire,
    (omega arith, omega arith, tt),
    omega arith,
  ),
  (omega arith, omega arith, other_wire, omega arith, omega arith),
)

groups_written : All (Encodes (group_walk primary_service) group_writing) (groups tree)
unfolding wire uuid_to_bytes normalize_uuid_str parse_uuid widen uuid_digits uuid_text is_brace
    replace lower strip hex_fixed hex_char int16 to_bytes le_bytes from_bytes
groups_written = ((refl, refl, omega arith), ((refl, refl, omega arith), tt))

declarations_written : All (Encodes (type_walk characteristic) type_writing) (declarations tree)
unfolding wire uuid_to_bytes normalize_uuid_str parse_uuid widen uuid_digits uuid_text is_brace
    replace lower strip hex_fixed hex_char int16 to_bytes le_bytes from_bytes
declarations_written = ((refl, refl, omega arith), tt)

attributes_written : All (Encodes info_walk info_writing) (attributes tree)
unfolding wire uuid_to_bytes uuid_from_bytes normalize_uuid_16 normalize_uuid_str parse_uuid widen
    uuid_digits uuid_text is_brace replace format_hex lower strip hex_fixed hex_char int16 to_bytes
    le_bytes from_bytes
attributes_written = (
  (refl, refl, omega arith),
  (
    (refl, refl, omega arith),
    ((refl, refl, omega arith), ((refl, refl, omega arith), ((refl, refl, omega arith), tt))),
  ),
)

tree_served : ServesTree (tree_answer tree) tree
tree_served = tree_answer-ServesTree tree groups_written declarations_written attributes_written

discover-tree_example :
    (discover (tree_answer tree) (record { client = new_client false; sent = []; peer = tt })).0
    ≡ ok tree
discover-tree_example =
    discover-tree (tree_answer tree) tree tree-AreServices tree_served
      (record { client = new_client false; sent = []; peer = tt })
