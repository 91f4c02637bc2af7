-- ===== src/Pairing/Tests.antt =====
-- A dialogue that asks for a PIN.
use bluek.Prelude.{◌≡◌, refl, List, [], ◌∷◌, true, none, some, codes}
use bluek.Prelude.Result.{ok, err, bleak_error}
use bluek.Texts.{contains_text, starts_with, lower, lower_char, lstrip, is_space}
use bluek.Hci.{Controllers, adapter_index, adapter_address, hci_addr_for_index}
use bluek.Pairing.{
  Output, line, timed_out, typed, success_re, passkey_re, controller_address, dialogue,
  pair_with_bluetoothctl, remove_with_bluetoothctl,
}
use bluek.Pairing.Dialogue.{Pairs, pair_with_bluetoothctl-Pairs}

abbrev none_there : Controllers
none_there = record {
  sysfs = none;
  address_file = λ i. none;
  socket_opens = true;
  device_info = λ i. none;
}

abbrev output : List Output
output = line (codes "[x] Enter PIN code:") ∷ line (codes "Pairing successful") ∷ []

unknown : controller_address none_there none ≡ ok none
unfolding controller_address adapter_index adapter_address hci_addr_for_index
unknown = refl

pairs : pair_with_bluetoothctl (some (typed (codes "1234"))) none_there (codes "AA") none output ≡ (
  codes "agent on"
      ∷ codes "default-agent"
      ∷ codes "pair AA"
      ∷ codes "1234"
      ∷ codes "trust AA"
      ∷ codes "quit"
      ∷ [],
  ok true,
)
unfolding pair_with_bluetoothctl controller_address adapter_index adapter_address hci_addr_for_index
    dialogue contains_text starts_with success_re passkey_re lower lower_char lstrip is_space
pairs = refl

paired_before : success_re (codes "Already Paired: no, Paired:  yes") ≡ true
unfolding success_re contains_text starts_with lower lower_char lstrip is_space
paired_before = refl

times_out :
    (pair_with_bluetoothctl none none_there (codes "AA") none (timed_out ∷ [])).1 ≡ err bleak_error
unfolding pair_with_bluetoothctl controller_address adapter_index adapter_address hci_addr_for_index
    dialogue
times_out = refl

removes : remove_with_bluetoothctl (λ args. 0) (codes "AA") ≡ true
unfolding remove_with_bluetoothctl
removes = refl

pair_with_bluetoothctl-Pairs_example :
    Pairs
      (some (typed (codes "1234")))
      (codes "AA")
      output
      none
      (pair_with_bluetoothctl (some (typed (codes "1234"))) none_there (codes "AA") none output)
pair_with_bluetoothctl-Pairs_example =
    pair_with_bluetoothctl-Pairs (some (typed (codes "1234"))) none_there (codes "AA") none none
      output unknown
