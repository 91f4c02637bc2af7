-- ===== src/Att/Database.antt =====
-- A GATT database: the attributes of a tree of services as a server holds them, and the trees that
-- the handles of a server can form. `discover` of bluek/_att.py is to find such a tree.
pub mod Ranges
pub mod Bounds
pub mod Order
pub mod Decoded
pub mod Completed
pub mod Found
pub mod Single
pub mod Server
mod Tests
use bluek.Prelude.{ℕ, ◌-◌, ◌<◌, ◌≤◌, ◌≡◌, List, [], ◌∷◌, ◌++◌, Text, codes}
use bluek.Prelude.Int.{ℤ, pos}
use bluek.Prelude.Result.{Result, ok, err}
use bluek.Bytes.{Bytes, le_bytes}
use bluek.Uuids.{uuid_to_bytes, uuid_from_bytes}
use bluek.Att.Gatt.{GattDescriptor, GattCharacteristic, GattService}
use bluek.Att.Services.{Group, Attribute}

abbrev pub or_nothing : Result Bytes → Bytes
or_nothing (ok b) = b
or_nothing (err e) = []

-- The bytes of a UUID on the wire, as the program itself makes them.
unfoldable pub wire : Text → Bytes
wire uuid = or_nothing (uuid_to_bytes uuid)

abbrev pub HasWire : Text → Type 0
HasWire uuid = uuid_from_bytes (wire uuid) ≡ ok uuid

-- What READ_BY_GROUP_TYPE reads of a service, and READ_BY_TYPE of a characteristic.
abbrev pub group_of : GattService → Group
group_of s = record { start = s.handle; stop = s.end_handle; value = wire s.uuid }

abbrev pub declaration : GattCharacteristic → Attribute
declaration c = record {
  handle = c.handle;
  value = c.properties ∷ (le_bytes 2 c.value_handle ++ wire c.uuid);
}

abbrev pub groups : List GattService → List Group
groups [] = []
groups (s ∷ ss) = group_of s ∷ groups ss

abbrev pub char_declarations : List GattCharacteristic → List Attribute
char_declarations [] = []
char_declarations (c ∷ cs) = declaration c ∷ char_declarations cs

abbrev pub declarations : List GattService → List Attribute
declarations [] = []
declarations (s ∷ ss) = char_declarations s.characteristics ++ declarations ss

abbrev pub decl_type : GattCharacteristic → GattDescriptor
decl_type c = record { handle = c.handle; uuid = codes "00002803-0000-1000-8000-00805f9b34fb" }

abbrev pub value_type : GattCharacteristic → GattDescriptor
value_type c = record { handle = c.value_handle; uuid = c.uuid }

abbrev pub service_type : GattService → GattDescriptor
service_type s = record { handle = s.handle; uuid = codes "00002800-0000-1000-8000-00805f9b34fb" }

-- What FIND_INFORMATION tells: all attributes with their types, a declaration, a value and the
-- descriptors for a characteristic.
abbrev pub char_attributes : List GattCharacteristic → List GattDescriptor
char_attributes [] = []
char_attributes (c ∷ cs) = decl_type c ∷ value_type c ∷ (c.descriptors ++ char_attributes cs)

abbrev pub attributes : List GattService → List GattDescriptor
attributes [] = []
attributes (s ∷ ss) = service_type s ∷ (char_attributes s.characteristics ++ attributes ss)

-- Descriptors with rising handles above `n` and up to `stop`.
abbrev pub AreDescriptors : ℕ → ℕ → List GattDescriptor → Type 0
AreDescriptors n stop [] = Unit
AreDescriptors n stop (d ∷ ds) =
    (n < d.handle) × (d.handle ≤ stop) × AreDescriptors d.handle stop ds

-- The last handle of a characteristic that `rest` follows in a service that ends at `stop`.
abbrev pub char_stop : List GattCharacteristic → ℕ → ℕ
char_stop [] stop = stop
char_stop (next ∷ _) stop = next.handle - 1

abbrev pub AreCharacteristics : ℕ → ℕ → List GattCharacteristic → Type 0
AreCharacteristics n stop [] = n ≤ stop
AreCharacteristics n stop (c ∷ rest) =
    (n < c.handle)
    × (c.handle < c.value_handle)
    × (c.value_handle ≤ char_stop rest stop)
    × (c.end_handle ≡ pos (char_stop rest stop))
    × HasWire c.uuid
    × AreDescriptors c.value_handle (char_stop rest stop) c.descriptors
    × AreCharacteristics (char_stop rest stop) stop rest

-- Services one behind the other above `n`, each with its characteristics.
abbrev pub AreServices : ℕ → List GattService → Type 0
AreServices n [] = n ≤ 65535
AreServices n (s ∷ rest) =
    (n < s.handle)
    × (s.handle ≤ s.end_handle)
    × HasWire s.uuid
    × AreCharacteristics s.handle s.end_handle s.characteristics
    × AreServices s.end_handle rest
