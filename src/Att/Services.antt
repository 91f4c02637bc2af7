-- ===== src/Att/Services.antt =====
-- `read_by_group_type`, `read_by_type` and `find_information` of bluek/_att.py as walks, and
-- `discover`, which builds the tree of services, characteristics and descriptors.
use bluek.Prelude.{ℕ, ◌+◌, List, [], ◌∷◌, drop, ◌==◌, if◌then◌else◌}
use bluek.Prelude.Int.{ℤ, pos, sub_ℕ, pos_part, ltb_ℤ}
use bluek.Prelude.Result
use bluek.Prelude.Result.{Result, ok}
use bluek.Bytes.{Bytes, slice, byte_at, from_bytes}
use bluek.Uuids.{uuid_from_bytes}
use bluek.Att.Codes.{
  find_info_req, find_info_rsp, read_by_type_req, read_by_type_rsp, read_by_group_type_req,
  read_by_group_type_rsp, primary_service, characteristic,
}
use bluek.Att.Gatt.{GattDescriptor, GattCharacteristic, GattService}
use bluek.Att.Request.{Answer, Exec, pure, lift, ◌>>=◌}
use bluek.Att.Discovery.{Walk, run_walk}

pub record Group : Type 0 where
  pub start : ℕ
  pub stop : ℕ
  pub value : Bytes

pub record Attribute : Type 0 where
  pub handle : ℕ
  pub value : Bytes

abbrev pub decode_group : Bytes → Result Group
decode_group e =
    ok (record {
      start = from_bytes (slice 0 2 e);
      stop = from_bytes (slice 2 4 e);
      value = drop 4 e;
    })

abbrev pub decode_attribute : Bytes → Result Attribute
decode_attribute e = ok (record { handle = from_bytes (slice 0 2 e); value = drop 2 e })

abbrev pub decode_descriptor : Bytes → Result GattDescriptor
decode_descriptor e =
    Result.◌>>=◌ (uuid_from_bytes (drop 2 e))
      (λ uuid. ok (record { handle = from_bytes (slice 0 2 e); uuid = uuid }))

abbrev pub group_walk : Bytes → Walk Group
group_walk uuid = record {
  request_opcode = read_by_group_type_req;
  response_opcode = read_by_group_type_rsp;
  suffix = uuid;
  entry_length = λ n. n;
  decode = decode_group;
  last_handle = λ g. g.stop;
}

abbrev pub type_walk : Bytes → Walk Attribute
type_walk uuid = record {
  request_opcode = read_by_type_req;
  response_opcode = read_by_type_rsp;
  suffix = uuid;
  entry_length = λ n. n;
  decode = decode_attribute;
  last_handle = λ a. a.handle;
}

-- The second byte is a format: 1 for 16-bit UUIDs, and anything else counts as 128-bit.
abbrev pub info_walk : Walk GattDescriptor
info_walk = record {
  request_opcode = find_info_req;
  response_opcode = find_info_rsp;
  suffix = [];
  entry_length = λ fmt. if fmt == 1 then 4 else 18;
  decode = decode_descriptor;
  last_handle = λ d. d.handle;
}

-- A characteristic from its declaration, before its end is known.
abbrev pub decode_characteristic : Attribute → Result GattCharacteristic
decode_characteristic a = Result.◌>>=◌ (byte_at a.value 0) (λ properties.
    Result.◌>>=◌ (uuid_from_bytes (drop 3 a.value)) (λ uuid. ok (record {
      handle = a.handle;
      value_handle = from_bytes (slice 1 3 a.value);
      uuid = uuid;
      properties = properties;
      end_handle = pos 0;
      descriptors = [];
    })))

unfoldable pub decode_characteristics : List Attribute → Result (List GattCharacteristic)
decode_characteristics [] = ok []
decode_characteristics (a ∷ rest) =
    Result.◌>>=◌ (decode_characteristic a)
      (λ c. Result.◌>>=◌ (decode_characteristics rest) (λ cs. ok (c ∷ cs)))

-- chars[i + 1].handle - 1, or the service's end
abbrev pub end_before : List GattCharacteristic → ℕ → ℤ
end_before [] service_end = pos service_end
end_before (next ∷ _) service_end = sub_ℕ next.handle 1

unfoldable pub decode_services : List Group → Result (List GattService)
decode_services [] = ok []
decode_services (g ∷ rest) = Result.◌>>=◌ (uuid_from_bytes g.value) (λ uuid.
    Result.◌>>=◌ (decode_services rest) (λ ss.
      ok
        (record { handle = g.start; end_handle = g.stop; uuid = uuid; characteristics = [] } ∷ ss)))

module _ {P : Type 0} (answer : Answer P) where
  unfoldable pub read_by_group_type : ℕ → ℕ → Bytes → Exec P (List Group)
  read_by_group_type start stop uuid = run_walk answer (group_walk uuid) start stop

  unfoldable pub read_by_type : ℕ → ℕ → Bytes → Exec P (List Attribute)
  read_by_type start stop uuid = run_walk answer (type_walk uuid) start stop

  unfoldable pub find_information : ℕ → ℕ → Exec P (List GattDescriptor)
  find_information start stop = run_walk answer info_walk start stop

  -- Descriptors live between the value handle and the end of the characteristic.
  unfoldable pub find_descriptors : GattCharacteristic → Exec P (List GattDescriptor)
  find_descriptors c =
      if ltb_ℤ (pos c.value_handle) c.end_handle
      then find_information (c.value_handle + 1) (pos_part c.end_handle)
      else pure []

  -- The loop over the characteristics of a service.
  unfoldable pub complete : ℕ → List GattCharacteristic → Exec P (List GattCharacteristic)
  complete service_end [] = pure []
  complete service_end (c ∷ rest) = do
    let c' = record c { end_handle = end_before rest service_end }
    found ← find_descriptors c'
    others ← complete service_end rest
    pure (record c' { descriptors = found } ∷ others)

  unfoldable pub discover_characteristics : GattService → Exec P GattService
  discover_characteristics s = do
    declarations ← read_by_type s.handle s.end_handle characteristic
    bare ← lift (decode_characteristics declarations)
    chars ← complete s.end_handle bare
    pure (record s { characteristics = chars })

  unfoldable pub discover_each : List GattService → Exec P (List GattService)
  discover_each [] = pure []
  discover_each (s ∷ rest) = do
    s' ← discover_characteristics s
    others ← discover_each rest
    pure (s' ∷ others)

  -- discover
  unfoldable pub discover : Exec P (List GattService)
  discover = do
    groups ← read_by_group_type 1 0xFFFF primary_service
    services ← lift (decode_services groups)
    discover_each services
