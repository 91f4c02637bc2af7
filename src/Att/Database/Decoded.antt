-- ===== src/Att/Database/Decoded.antt =====
-- What the client reads of the groups and declarations of a tree.
use bluek.Prelude.{◌≡◌, refl, ℕ, ◌<◌, ◌≤◌, List, [], ◌∷◌, arith}
use bluek.Prelude.Int.{pos}
use bluek.Prelude.Result.{ok}
use bluek.Bytes.{le_bytes, from_bytes-le_bytes}
use bluek.Att.Gatt.{GattCharacteristic, GattService}
use bluek.Att.Services.{decode_characteristic, decode_characteristics, decode_services}
use bluek.Att.Database.{
  HasWire, declaration, groups, char_declarations, char_stop, AreCharacteristics, AreServices,
}
use bluek.Att.Database.Bounds.{AreCharacteristics-le}

-- A service before its characteristics, and these before their ends and descriptors are known.
abbrev pub shell : GattService → GattService
shell s = record s { characteristics = [] }

abbrev pub shells : List GattService → List GattService
shells [] = []
shells (s ∷ ss) = shell s ∷ shells ss

abbrev pub bare : GattCharacteristic → GattCharacteristic
bare c = record c { end_handle = pos 0; descriptors = [] }

abbrev pub bares : List GattCharacteristic → List GattCharacteristic
bares [] = []
bares (c ∷ cs) = bare c ∷ bares cs

pub decode_services-groups :
    (n : ℕ) (ss : List GattService)
    → AreServices n ss
    → decode_services (groups ss) ≡ ok (shells ss)
unfolding decode_services
decode_services-groups n [] h = refl
decode_services-groups n (s ∷ rest) (_, _, known, _, more) =
    rw (known, decode_services-groups s.end_handle rest more) refl

decode_declaration :
    (c : GattCharacteristic)
    → c.value_handle < 65536
    → HasWire c.uuid
    → decode_characteristic (declaration c) ≡ ok (bare c)
unfolding le_bytes
decode_declaration c small known =
    let value = from_bytes-le_bytes 2 c.value_handle small in rw (known, value) refl

pub decode_characteristics-declarations :
    (n e : ℕ) (cs : List GattCharacteristic)
    → e ≤ 65535
    → AreCharacteristics n e cs
    → decode_characteristics (char_declarations cs) ≡ ok (bares cs)
unfolding decode_characteristics
decode_characteristics-declarations n e [] small h = refl
decode_characteristics-declarations n e (c ∷ rest) small (_, _, stop, _, known, _, more) =
    let up = AreCharacteristics-le (char_stop rest e) e rest more in
    rw
      (
        decode_declaration c (omega arith) known,
        decode_characteristics-declarations (char_stop rest e) e rest small more,
      )
      refl
