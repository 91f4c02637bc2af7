-- ===== src/Characteristic/Tests.antt =====
-- A collection in which a UUID and a handle stand twice.
use bluek.Prelude.{◌≡◌, refl, ℕ, List, [], ◌∷◌, none, get_elem?, codes, Text}
use bluek.Prelude.Dict.{lookup, nat_eq, text_keys}
use bluek.Prelude.Int.{pos}
use bluek.Att.Codes.{properties_to_strings}
use bluek.Att.Gatt.{GattCharacteristic}
use bluek.Characteristic.{BleakGattService, wrap_service, collection}
use bluek.Characteristic.Lookups.{
  last_with, first_with, all_characteristics, all_descriptors, collection-lookup,
}

abbrev declared : ℕ → Text → GattCharacteristic
declared handle uuid = record {
  handle = handle;
  value_handle = 3;
  uuid = uuid;
  properties = 2;
  end_handle = pos 4;
  descriptors = record { handle = 4; uuid = codes "c" } ∷ [];
}

abbrev services : List BleakGattService
services =
    wrap_service (record {
      handle = 1;
      end_handle = 4;
      uuid = codes "s";
      characteristics =
          declared 2 (codes "a") ∷ declared 2 (codes "b") ∷ declared 5 (codes "a") ∷ [];
    })
    ∷ []

collection-lookup_example :
    ((h : ℕ)
      → lookup h (collection services).by_char_handle
        ≡ last_with (λ c. c.handle) h (all_characteristics services) none)
    × ((u : Text)
        → lookup u (collection services).by_char_uuid
          ≡ first_with u (all_characteristics services) none)
    × ((h : ℕ)
        → lookup h (collection services).by_desc_handle
          ≡ last_with (λ d. d.handle) h (all_descriptors (all_characteristics services)) none)
collection-lookup_example = collection-lookup services

last_wins :
    last_with (λ c. c.handle) 2 (all_characteristics services) none
    ≡ get_elem? (all_characteristics services) 1
unfolding properties_to_strings
last_wins = refl
