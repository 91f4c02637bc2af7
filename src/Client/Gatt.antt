-- ===== src/Client/Gatt.antt =====
-- The reads, writes and notifications of `BleakClient`, over the ATT client and the collection.
--
-- The ATT client and its peer are a `World`. `_on_disconnect` is called when the link closes: then
-- the log of closes in the ATT client has grown. A notification's callback is a number.
use bluek.Prelude.{
  ℕ, List, [], ◌∷◌, length, Bool, true, false, ◌&&◌, not, Option, none, some, Text, text_eq, ltb,
  ◌+◌, codes, if◌then◌else◌,
}
use bluek.Prelude.Dict.{Dict, nat_eq, lookup, insert, erase}
use bluek.Prelude.Result
use bluek.Prelude.Result.{
  Result, ok, err, Error, is_bleak_error, bleak_error, characteristic_not_found,
}
use bluek.Bytes.{Bytes}
use bluek.Uuids.{normalize_uuid_str}
use bluek.Att.Codes.{cccd_uuid}
use bluek.Att.State.{Client, set_notify_handler, remove_notify_handler}
use bluek.Att.Request.{Answer, World, Exec, write, write_command}
use bluek.Att.Reading.{read}
use bluek.Characteristic.{
  by_handle, by_uuid, BleakGattCharacteristic, BleakGattDescriptor, BleakGattServiceCollection,
  collection, get_characteristic, get_descriptor,
}

pub record BleakClient (P : Type 0) : Type 0 where
  pub att : World P
  pub has_att : Bool
  pub connected : Bool
  pub services : BleakGattServiceCollection
  -- value handle to the handle of the CCCD
  pub cccd_handles : Dict ℕ ℕ
  pub address : Text
  pub index : ℕ
  pub peer_type : Option ℕ
  -- how often the disconnected callback was called
  pub disconnects : ℕ
  -- the L2CAP sockets that the client was given, and those that it closed
  pub opened_links : ℕ
  pub closed_links : ℕ

abbrev pub Method : Type 0 → Type 0 → Type 0
Method P A = BleakClient P → Result A × BleakClient P

pub data CharSpec : Type 0 where
  the_characteristic : BleakGattCharacteristic → CharSpec
  at_handle : ℕ → CharSpec
  at_uuid : Text → CharSpec

-- `if char is None: raise BleakCharacteristicNotFoundError`
abbrev pub or_not_found : Option BleakGattCharacteristic → Result BleakGattCharacteristic
or_not_found none = err characteristic_not_found
or_not_found (some c) = ok c

-- _resolve_char
unfoldable pub resolve_char :
    {P : Type 0} → CharSpec → BleakClient P → Result BleakGattCharacteristic
resolve_char (the_characteristic c) s = ok c
resolve_char (at_handle h) s =
    Result.◌>>=◌ (get_characteristic (by_handle h) s.services) or_not_found
resolve_char (at_uuid u) s =
    Result.◌>>=◌ (normalize_uuid_str u)
      (λ uuid. Result.◌>>=◌ (get_characteristic (by_uuid uuid) s.services) or_not_found)

-- What `_on_disconnect` does, if a call of the ATT client saw the link close.
abbrev pub on_disconnect : {P : Type 0} → Bool → BleakClient P → BleakClient P
on_disconnect false s = s
on_disconnect true s = record s {
  connected = false;
  disconnects = if s.connected then s.disconnects + 1 else s.disconnects;
}

abbrev pub saw_close : {P : Type 0} → World P → World P → Bool
saw_close w w' = ltb (length w.client.disconnects) (length w'.client.disconnects)

-- A call of the ATT client.
abbrev pub call : {P A : Type 0} → Exec P A → Method P A
call m s = let (r, w) = m s.att in (r, on_disconnect (saw_close s.att w) (record s { att = w }))

-- `_require_att`, and the rest of the method
abbrev pub require_att : {P A : Type 0} → Method P A → Method P A
require_att m s = if s.has_att && s.connected then m s else (err bleak_error, s)

-- `self._resolve_char(…)`, and the rest of the method
abbrev pub with_char :
    {P A : Type 0}
    → Result BleakGattCharacteristic
    → (BleakGattCharacteristic → Method P A)
    → Method P A
with_char (ok c) m s = m c s
with_char (err e) m s = (err e, s)

-- "indicate" in char.properties
abbrev pub has_property : Text → List Text → Bool
has_property name [] = false
has_property name (p ∷ ps) =
    let rest = has_property name ps in if text_eq p name then true else rest

-- 0x0001 for notifications, 0x0002 for indications
abbrev pub cccd_value : List Text → Bytes
cccd_value ps =
    if has_property (codes "indicate") ps && not (has_property (codes "notify") ps)
    then 2 ∷ 0 ∷ []
    else 1 ∷ 0 ∷ []

-- `self._cccd_handles[…] = …`, behind a write that returned
abbrev pub remember :
    {P : Type 0} → ℕ → ℕ → Result (Unit {0}) × BleakClient P → Result (Unit {0}) × BleakClient P
remember value_handle handle (ok _, s) =
    (ok tt, record s { cccd_handles = insert value_handle handle s.cccd_handles })
remember value_handle handle (err e, s) = (err e, s)

-- A change of the ATT client's handlers.
abbrev pub set_handlers : {P : Type 0} → (Client → Client) → BleakClient P → BleakClient P
set_handlers f s = record s { att = record s.att { client = f s.att.client } }

-- `except BleakError: pass` around the write, and the end of `stop_notify`
abbrev pub finish_stop :
    {P : Type 0} → ℕ → Result (Unit {0}) × BleakClient P → Result (Unit {0}) × BleakClient P
finish_stop value_handle (ok _, s) = (ok tt, set_handlers (remove_notify_handler value_handle) s)
finish_stop value_handle (err e, s) =
    if is_bleak_error e
    then (ok tt, set_handlers (remove_notify_handler value_handle) s)
    else (err e, s)

module _ {P : Type 0} (answer : Answer P) where
  -- The operations behind `_require_att`.
  abbrev pub connected_read : CharSpec → Method P Bytes
  connected_read spec s = with_char (resolve_char spec s) (λ c. call (read answer c.value_handle)) s

  abbrev pub connected_write : CharSpec → Bytes → Bool → Method P (Unit {0})
  connected_write spec payload response s =
      with_char (resolve_char spec s)
        (λ c. call (
          if response
          then write answer c.value_handle payload
          else write_command answer c.value_handle payload))
        s

  unfoldable pub read_gatt_char : CharSpec → Method P Bytes
  read_gatt_char spec = require_att (connected_read spec)

  unfoldable pub write_gatt_char : CharSpec → Bytes → Bool → Method P (Unit {0})
  write_gatt_char spec payload response = require_att (connected_write spec payload response)

  unfoldable pub read_gatt_descriptor : ℕ → Method P Bytes
  read_gatt_descriptor handle = require_att (call (read answer handle))

  unfoldable pub write_gatt_descriptor : ℕ → Bytes → Method P (Unit {0})
  write_gatt_descriptor handle payload = require_att (call (write answer handle payload))

  abbrev pub subscribe : BleakGattCharacteristic → Option BleakGattDescriptor → Method P (Unit {0})
  subscribe c none s = (err bleak_error, s)
  subscribe c (some d) s =
      remember c.value_handle d.handle (call (write answer d.handle (cccd_value c.properties)) s)

  -- The handler is set before the CCCD is looked for.
  abbrev pub begin_notify : ℕ → BleakGattCharacteristic → Method P (Unit {0})
  begin_notify callback c s =
      subscribe c (get_descriptor (by_uuid cccd_uuid) c)
        (set_handlers (set_notify_handler c.value_handle callback) s)

  abbrev pub connected_start : CharSpec → ℕ → Method P (Unit {0})
  connected_start spec callback s = with_char (resolve_char spec s) (begin_notify callback) s

  unfoldable pub start_notify : CharSpec → ℕ → Method P (Unit {0})
  start_notify spec callback = require_att (connected_start spec callback)

  abbrev pub unsubscribe : Option ℕ → Method P (Unit {0})
  unsubscribe none s = (ok tt, s)
  unsubscribe (some handle) s = call (write answer handle (0 ∷ 0 ∷ [])) s

  abbrev pub end_notify : BleakGattCharacteristic → Method P (Unit {0})
  end_notify c s = finish_stop c.value_handle (
      unsubscribe (lookup c.value_handle s.cccd_handles)
        (record s { cccd_handles = erase c.value_handle s.cccd_handles }))

  abbrev pub connected_stop : CharSpec → Method P (Unit {0})
  connected_stop spec s = with_char (resolve_char spec s) end_notify s

  unfoldable pub stop_notify : CharSpec → Method P (Unit {0})
  stop_notify spec = require_att (connected_stop spec)

-- _teardown
unfoldable pub teardown : {P : Type 0} → BleakClient P → BleakClient P
teardown s = record s {
  connected = false;
  has_att = false;
  cccd_handles = [];
  services = collection [];
}
