-- ===== src/Characteristic.antt =====
-- bluek/characteristic.py: the wrappers of the GATT objects, and the collection of services.
-- The wrapped `obj` of each is left out.
pub mod Lookups
mod Tests
use bluek.Prelude.{
  ℕ, Bool, List, [], ◌∷◌, ◌++◌, map, Option, none, some, Text, text_eq, ◌==◌, ◌||◌, if◌then◌else◌,
}
use bluek.Prelude.Dict.{Dict, nat_eq, text_keys, lookup, insert}
use bluek.Prelude.Result.{Result, ok, ◌>>=◌}
use bluek.Uuids.{normalize_uuid_str}
use bluek.Att.Codes.{properties_to_strings}
use bluek.Att.Gatt.{GattDescriptor, GattCharacteristic, GattService}

pub record BleakGattDescriptor : Type 0 where
  pub handle : ℕ
  pub uuid : Text
  pub characteristic_uuid : Text

pub record BleakGattCharacteristic : Type 0 where
  pub handle : ℕ
  pub value_handle : ℕ
  pub uuid : Text
  pub properties : List Text
  pub service_uuid : Text
  pub descriptors : List BleakGattDescriptor

pub record BleakGattService : Type 0 where
  pub handle : ℕ
  pub uuid : Text
  pub characteristics : List BleakGattCharacteristic

-- BleakGATTDescriptor.__init__
abbrev pub wrap_descriptor : Text → GattDescriptor → BleakGattDescriptor
wrap_descriptor uuid d = record { handle = d.handle; uuid = d.uuid; characteristic_uuid = uuid }

-- BleakGATTCharacteristic.__init__
abbrev pub wrap_characteristic : Text → GattCharacteristic → BleakGattCharacteristic
wrap_characteristic service_uuid c = record {
  handle = c.handle;
  value_handle = c.value_handle;
  uuid = c.uuid;
  properties = properties_to_strings c.properties;
  service_uuid = service_uuid;
  descriptors = map (wrap_descriptor c.uuid) c.descriptors;
}

-- BleakGATTService.__init__
abbrev pub wrap_service : GattService → BleakGattService
wrap_service s = record {
  handle = s.handle;
  uuid = s.uuid;
  characteristics = map (wrap_characteristic s.uuid) s.characteristics;
}

-- What a lookup is given: a handle, or a text.
pub data Specifier : Type 0 where
  by_handle : ℕ → Specifier
  by_uuid : Text → Specifier

abbrev pub names_descriptor : Specifier → BleakGattDescriptor → Bool
names_descriptor (by_handle h) d = d.handle == h
names_descriptor (by_uuid u) d = text_eq d.uuid u

abbrev pub first_descriptor : Specifier → List BleakGattDescriptor → Option BleakGattDescriptor
first_descriptor spec [] = none
first_descriptor spec (d ∷ ds) =
    let rest = first_descriptor spec ds in if names_descriptor spec d then some d else rest

-- BleakGATTCharacteristic.get_descriptor
unfoldable pub get_descriptor : Specifier → BleakGattCharacteristic → Option BleakGattDescriptor
get_descriptor spec c = first_descriptor spec c.descriptors

pub record BleakGattServiceCollection : Type 0 where
  pub services : List BleakGattService
  pub by_char_handle : Dict ℕ BleakGattCharacteristic
  pub by_char_uuid : Dict Text BleakGattCharacteristic
  pub by_desc_handle : Dict ℕ BleakGattDescriptor

abbrev pub empty_collection : List BleakGattService → BleakGattServiceCollection
empty_collection services = record {
  services = services;
  by_char_handle = [];
  by_char_uuid = [];
  by_desc_handle = [];
}

-- dict.setdefault
abbrev pub set_default :
    Text
    → BleakGattCharacteristic
    → Dict Text BleakGattCharacteristic
    → Option BleakGattCharacteristic
    → Dict Text BleakGattCharacteristic
set_default uuid c d none = insert uuid c d
set_default uuid c d (some _) = d

abbrev pub add_descriptors :
    List BleakGattDescriptor → Dict ℕ BleakGattDescriptor → Dict ℕ BleakGattDescriptor
add_descriptors [] d = d
add_descriptors (x ∷ xs) d = add_descriptors xs (insert x.handle x d)

unfoldable pub add_characteristic :
    BleakGattCharacteristic → BleakGattServiceCollection → BleakGattServiceCollection
add_characteristic c t = record t {
  by_char_handle = insert c.handle c t.by_char_handle;
  by_char_uuid = set_default c.uuid c t.by_char_uuid (lookup c.uuid t.by_char_uuid);
  by_desc_handle = add_descriptors c.descriptors t.by_desc_handle;
}

unfoldable pub add_characteristics :
    List BleakGattCharacteristic → BleakGattServiceCollection → BleakGattServiceCollection
add_characteristics [] t = t
add_characteristics (c ∷ cs) t = add_characteristics cs (add_characteristic c t)

unfoldable pub add_services :
    List BleakGattService → BleakGattServiceCollection → BleakGattServiceCollection
unfolding add_characteristics add_characteristic
add_services [] t = t
add_services (s ∷ ss) t = add_services ss (add_characteristics s.characteristics t)

-- BleakGATTServiceCollection.__init__
unfoldable pub collection : List BleakGattService → BleakGattServiceCollection
unfolding add_services
collection services = add_services services (empty_collection services)

abbrev pub first_service :
    (BleakGattService → Bool) → List BleakGattService → Option BleakGattService
first_service matches [] = none
first_service matches (s ∷ ss) =
    let rest = first_service matches ss in if matches s then some s else rest

unfoldable pub get_service :
    Specifier → BleakGattServiceCollection → Result (Option BleakGattService)
get_service (by_handle h) t = ok (first_service (λ s. s.handle == h) t.services)
get_service (by_uuid u) t = do
  uuid ← normalize_uuid_str u
  ok (first_service (λ s. text_eq s.uuid uuid) t.services)

unfoldable pub get_characteristic :
    Specifier → BleakGattServiceCollection → Result (Option BleakGattCharacteristic)
get_characteristic (by_handle h) t = ok (lookup h t.by_char_handle)
get_characteristic (by_uuid u) t = do uuid ← normalize_uuid_str u; ok (lookup uuid t.by_char_uuid)

-- BleakGATTServiceCollection.get_descriptor
unfoldable pub find_descriptor : ℕ → BleakGattServiceCollection → Option BleakGattDescriptor
find_descriptor h t = lookup h t.by_desc_handle
