-- ===== src/Client/GattTests.antt =====
-- A client of a silent peer, and the theorems on its operations.
use bluek.Prelude.{◌≡◌, refl, [], ◌∷◌, Bool, true, none, some, codes}
use bluek.Prelude.Dict.{nat_eq, lookup, erase}
use bluek.Prelude.Result.{ok, err, bleak_error}
use bluek.Bytes.{to_bytes, le_bytes}
use bluek.Att.State.{new_client, received, handle_events}
use bluek.Att.Request.{Answer, write, request, send, await_future, check_response}
use bluek.Characteristic.{BleakGattCharacteristic, empty_collection, get_descriptor, by_uuid}
use bluek.Att.Codes.{cccd_uuid}
use bluek.Client.Gatt.{BleakClient, the_characteristic, start_notify, stop_notify, resolve_char}
use bluek.Client.Guards.{stop_notify-removed, start_notify-no_cccd}

-- It answers every write.
abbrev peer : Answer (Unit {0})
peer p pdu = (p, record { send_error = none; events = received (0x13 ∷ []) ∷ [] })

abbrev client_at : Bool → BleakClient (Unit {0})
client_at connected = record {
  att = record {
    client = record (new_client true) { notify_handlers = (3, 1) ∷ [] };
    sent = [];
    peer = tt;
  };
  has_att = true;
  connected = connected;
  services = empty_collection [];
  cccd_handles = (3, 4) ∷ [];
  address = codes "a";
  index = 0;
  peer_type = none;
  disconnects = 0;
  opened_links = 1;
  closed_links = 0;
}

abbrev bare : BleakGattCharacteristic
bare = record {
  handle = 2;
  value_handle = 3;
  uuid = codes "a";
  properties = codes "notify" ∷ [];
  service_uuid = codes "s";
  descriptors = [];
}

resolves : resolve_char (the_characteristic bare) (client_at true) ≡ ok bare
unfolding resolve_char
resolves = refl

stops : (stop_notify peer (the_characteristic bare) (client_at true)).0 ≡ ok tt
unfolding stop_notify resolve_char lookup erase write request send await_future check_response
    handle_events to_bytes le_bytes
stops = refl

stop_notify-removed_example :
    lookup 3
      (stop_notify peer (the_characteristic bare) (client_at true)).1.att.client.notify_handlers
    ≡ none
stop_notify-removed_example =
    stop_notify-removed peer (client_at true) (the_characteristic bare) bare resolves stops

no_cccd : get_descriptor (by_uuid cccd_uuid) bare ≡ none
unfolding get_descriptor
no_cccd = refl

start_notify-no_cccd_example :
    ((start_notify peer (the_characteristic bare) 9 (client_at true)).0 ≡ err bleak_error)
    × (lookup 3
          (start_notify peer
            (the_characteristic bare)
            9
            (client_at true)).1.att.client.notify_handlers
        ≡ some 9)
start_notify-no_cccd_example =
    start_notify-no_cccd peer (client_at true) (the_characteristic bare) 9 bare refl resolves
      no_cccd
