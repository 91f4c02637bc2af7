-- ===== src/Scanner/Tests.antt =====
-- Runs of the scanner, and its theorems at those runs.
use bluek.Prelude.{◌≡◌, refl, ℕ, List, [], ◌∷◌, ◌++◌, true, false, none, some, codes}
use bluek.Prelude.Int.{negsuc}
use bluek.Prelude.Dict.{lookup, insert, nat_eq, text_keys}
use bluek.Prelude.Result.{ok}
use bluek.Bytes.{le_bytes, from_bytes, pack, unpack}
use bluek.Mgmt.Codec.{DeviceFound, encode_command, parse_packet, Eir}
use bluek.Mgmt.Socket.{
  MgmtSocket, Kernel, start_discovery, stop_discovery, close, send_command, read_all, resolve,
}
use bluek.Scanner.{new_scanner, known_name, start, stop}
use bluek.Scanner.Names.{observe, last_name, observe-name}
use bluek.Scanner.Lifecycle.{start_scan, run_steps, run_steps-stop}

abbrev found : ℕ → Eir → DeviceFound
found address_type eir = record {
  address = codes "C0:FF:EE:00:00:01";
  address_type = address_type;
  rssi = negsuc 59;
  flags = 0;
  eir = eir;
}

-- An advertisement with a name, a scan response without one, one of another controller, and one of
-- a device that is not LE.
abbrev events : List (ℕ × DeviceFound)
events =
    (0, found 1 ((9, 0x61 ∷ []) ∷ []))
    ∷ (0, found 1 ((0xFF, 1 ∷ 2 ∷ 3 ∷ []) ∷ []))
    ∷ (1, found 1 ((9, 0x62 ∷ []) ∷ []))
    ∷ (0, found 0 ((9, 0x63 ∷ []) ∷ []))
    ∷ []

observe-name_example :
    known_name (lookup (codes "C0:FF:EE:00:00:01") (observe events (new_scanner 0 true)).found)
    ≡ last_name 0 (codes "C0:FF:EE:00:00:01") events (known_name none)
unfolding lookup
observe-name_example = observe-name events (codes "C0:FF:EE:00:00:01") (new_scanner 0 true)

-- The kernel says that discovery has started.
abbrev starts : Kernel
starts = record {
  send_error = none;
  packets = (1 ∷ 0 ∷ 0 ∷ 0 ∷ 4 ∷ 0 ∷ 0x23 ∷ 0 ∷ 0 ∷ 6 ∷ []) ∷ [];
}

abbrev silent : Kernel
silent = record { send_error = none; packets = [] }

scan_runs : (run_steps (start_scan none starts ∷ []) (new_scanner 0 true)).running ≡ true
unfolding start start_discovery send_command encode_command pack le_bytes read_all resolve
    parse_packet unpack from_bytes lookup insert
scan_runs = refl

stopped_twice :
    (m : MgmtSocket) × ((run_steps (start_scan none starts ∷ []) (new_scanner 0 true)).mgmt
      ≡ some m)
    × ((stop silent (run_steps (start_scan none starts ∷ []) (new_scanner 0 true))).1.running
        ≡ false)
    × ((stop silent (run_steps (start_scan none starts ∷ []) (new_scanner 0 true))).1.mgmt ≡ none)
    × ((stop silent (run_steps (start_scan none starts ∷ []) (new_scanner 0 true))).1.retired
        ≡ (run_steps (start_scan none starts ∷ []) (new_scanner 0 true)).retired
          ++ (close
                (stop_discovery
                  (run_steps (start_scan none starts ∷ []) (new_scanner 0 true)).index
                  silent
                  m).1
              ∷ []))
    × (stop silent (stop silent (run_steps (start_scan none starts ∷ []) (new_scanner 0 true))).1
        ≡ (ok tt, (stop silent (run_steps (start_scan none starts ∷ []) (new_scanner 0 true))).1))
stopped_twice =
    run_steps-stop (start_scan none starts ∷ []) silent (new_scanner 0 true) (λ on. cc) scan_runs
