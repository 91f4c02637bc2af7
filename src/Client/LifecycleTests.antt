-- ===== src/Client/LifecycleTests.antt =====
-- A client connects to the in-memory peripheral.
use bluek.Prelude.{refl, ℕ, [], true, false, none, some, codes}
use bluek.Prelude.Result.{ok}
use bluek.Att.State.{new_client}
use bluek.Characteristic.{collection}
use bluek.Bench.Peripheral.{FakePeripheral, new_peripheral, peripheral_answer}
use bluek.Client.Connect.{Peer, connected}
use bluek.Client.Gatt.{BleakClient}
use bluek.Client.Lifecycle.{connect}
use bluek.Client.Teardown.{IsDown, Ends, connect-Ends}

abbrev peripheral : FakePeripheral
peripheral = unfold new_peripheral in new_peripheral 5

abbrev idle : BleakClient FakePeripheral
idle = record {
  att = record { client = new_client true; sent = []; peer = peripheral };
  has_att = false;
  connected = false;
  services = collection [];
  cccd_handles = [];
  address = codes "AA";
  index = 0;
  peer_type = none;
  disconnects = 0;
  opened_links = 0;
  closed_links = 0;
}

-- It answers every attempt.
abbrev near : Peer ℕ
near = record { dial = λ n t remaining. (connected, 1, n); oversleep = λ n. (0, n) }

idle-IsDown : IsDown idle
idle-IsDown = record { no_att = refl; not_connected = refl; no_cccd = refl; no_services = refl }

connect-Ends_example :
    Ends peripheral_answer 0 0
      (connect peripheral_answer near 10 20 3 peripheral (λ b. ok (some 2)) 100 0 5 idle 0).0.0
      (connect peripheral_answer near 10 20 3 peripheral (λ b. ok (some 2)) 100 0 5 idle 0).0.1
connect-Ends_example =
    connect-Ends peripheral_answer near 10 20 3 peripheral (λ b. ok (some 2)) 100 0 5 idle 0
      idle-IsDown
