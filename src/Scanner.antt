-- ===== src/Scanner.antt =====
-- bluek/scanner.py: `BleakScanner` over the management socket.
--
-- The detection callback is logged, and returns. `advertisement_data` can raise, and then the event
-- loop logs it and the scanner is as it was.
pub mod Names
pub mod Lifecycle
mod Tests
use bluek.Prelude.{
  ℕ, List, [], ◌∷◌, ◌++◌, map, Bool, true, false, ◌&&◌, ◌||◌, Option, none, some, Text, ◌==◌,
  if◌then◌else◌,
}
use bluek.Prelude.Dict.{Dict, text_keys, lookup, insert}
use bluek.Prelude.Result.{Result, ok, err, Error, attribute_error}
use bluek.Mgmt.Codec.{DeviceFound, eir_name}
use bluek.Mgmt.Socket.{
  MgmtSocket, new_socket, add_device_found_handler, Kernel, start_discovery, stop_discovery, close,
}
use bluek.Device.{BleDevice, AdvertisementData, advertisement_data}

pub record BleakScanner : Type 0 where
  pub index : ℕ
  pub has_callback : Bool
  pub mgmt : Option MgmtSocket
  pub running : Bool
  pub found : Dict Text (BleDevice × AdvertisementData)
  -- the sockets that were closed, and the calls of the detection callback
  pub retired : List MgmtSocket
  pub detections : List (BleDevice × AdvertisementData)

-- BleakScanner.__init__, from the index of the adapter.
abbrev pub new_scanner : ℕ → Bool → BleakScanner
new_scanner index has_callback = record {
  index = index;
  has_callback = has_callback;
  mgmt = none;
  running = false;
  found = [];
  retired = [];
  detections = [];
}

abbrev pub known_name : Option (BleDevice × AdvertisementData) → Option Text
known_name none = none
known_name (some (device, _)) = device.name

-- `if name: return name`: an empty name counts as none.
abbrev pub name_or : Option Text → Option Text → Option Text
name_or (some (c ∷ cs)) known = some (c ∷ cs)
name_or _ known = known

-- _merge_name
unfoldable pub merge_name : DeviceFound → BleakScanner → Option Text
merge_name df s = name_or (eir_name df.eir) (known_name (lookup df.address s.found))

abbrev pub found_device : DeviceFound → BleakScanner → BleDevice
found_device df s = record {
  address = df.address;
  name = merge_name df s;
  rssi = df.rssi;
  address_type = some df.address_type;
}

-- The end of `_on_device_found`, from the advertisement data.
abbrev pub store : DeviceFound → Result AdvertisementData → BleakScanner → BleakScanner
store df (err e) s = s
store df (ok adv) s =
    let device = found_device df s in
    record s {
      found = insert df.address (device, adv) s.found;
      detections = if s.has_callback then s.detections ++ ((device, adv) ∷ []) else s.detections;
    }

-- Events for another controller and of devices that are not LE are dropped.
abbrev pub accepts : ℕ → ℕ → DeviceFound → Bool
accepts own index df = index == own && (df.address_type == 1 || df.address_type == 2)

-- _on_device_found
unfoldable pub on_device_found : ℕ × DeviceFound → BleakScanner → BleakScanner
on_device_found (index, df) s =
    let next = store df (advertisement_data df.eir df.rssi) s in
    if accepts s.index index df then next else s

-- A method of the scanner: it returns or raises, and leaves a state.
abbrev pub Method : Type 0 → Type 0
Method A = BleakScanner → Result A × BleakScanner

-- The socket that `start` works with, and what it does with the end of START_DISCOVERY: the socket
-- is kept if that raises.
abbrev pub started : Result Bool × MgmtSocket → Method (Unit {0})
started (ok _, m) s = (ok tt, record s { mgmt = some m; running = true })
started (err e, m) s = (err e, record s { mgmt = some m })

abbrev pub open_and_start : Option Error → Kernel → Method (Unit {0})
open_and_start (some e) kernel s = (err e, s)
open_and_start none kernel s =
    started (start_discovery s.index kernel (add_device_found_handler 0 new_socket)) s

-- start: `opened` is what `MgmtSocket.open` raises, if it does.
unfoldable pub start : Option Error → Kernel → Method (Unit {0})
start opened kernel s =
    let next = open_and_start opened kernel s in if s.running then (ok tt, s) else next

-- `finally`: the socket is closed and let go.
abbrev pub released : Result (Unit {0}) × MgmtSocket → Method (Unit {0})
released (r, m) s = (r, record s { mgmt = none; retired = s.retired ++ (close m ∷ []) })

abbrev pub stop_mgmt : Kernel → Option MgmtSocket → Method (Unit {0})
stop_mgmt kernel none s = (err attribute_error, s)
stop_mgmt kernel (some m) s = released (stop_discovery s.index kernel m) s

-- stop
unfoldable pub stop : Kernel → Method (Unit {0})
stop kernel s =
    let next = stop_mgmt kernel s.mgmt (record s { running = false }) in
    if s.running then next else (ok tt, s)

-- discovered_devices
unfoldable pub discovered_devices : BleakScanner → List BleDevice
discovered_devices s = map (λ e. e.1.0) s.found

-- discovered_devices_and_advertisement_data
unfoldable pub discovered_devices_and_advertisement_data :
    BleakScanner → Dict Text (BleDevice × AdvertisementData)
discovered_devices_and_advertisement_data s = s.found
