-- ===== src/Hci/Tests.antt =====
-- Two controllers, of which sysfs names one.
use bluek.Prelude.{◌≡◌, refl, ℕ, [], ◌∷◌, true, none, some, ◌==◌, if◌then◌else◌, codes, text_eq}
use bluek.Prelude.Result.{ok}
use bluek.Bytes.{Bytes}
use bluek.Texts.{
  starts_with, upper, upper_char, split, join, hex_fixed, hex_char_upper, hex_value, strip,
  strip_by, lstrip, is_space,
}
use bluek.Texts.Decimal.{isdigit, all_digits, digits10}
use bluek.Hci.{
  Controllers, hci_addr_for_index, hci_match, add_names, add_index, candidate_hci_indices,
  first_with, index_for_mac, mac_match, adapter_index, adapter_address,
}
use bluek.Hci.Laws.{IsFirst, adapter_index-IsFirst}

abbrev info : ℕ → Bytes
info last = 0 ∷ 0 ∷ 0 ∷ 0 ∷ 0 ∷ 0 ∷ 0 ∷ 0 ∷ 0 ∷ 0 ∷ last ∷ 0x4A ∷ 0x5F ∷ 0x67 ∷ 0xCF ∷ 0x2C ∷ 0 ∷ []

abbrev two : Controllers
two = record {
  sysfs = some (codes "hci11" ∷ codes "hci0:16" ∷ []);
  address_file = λ i. if i == 0 then some (codes "2c:cf:67:5f:4a:01 ") else none;
  socket_opens = true;
  device_info = λ i. if i == 0 then some (info 1) else if i == 11 then some (info 0x6D) else none;
}

candidates : candidate_hci_indices two.sysfs ≡ 0 ∷ 1 ∷ 2 ∷ 3 ∷ 4 ∷ 5 ∷ 6 ∷ 7 ∷ 11 ∷ []
unfolding candidate_hci_indices add_names add_index hci_match starts_with isdigit all_digits
    digits10
candidates = refl

by_mac : adapter_index two (some (codes "2c:CF:67:5F:4A:6D")) ≡ ok 11
unfolding adapter_index index_for_mac first_with hci_addr_for_index candidate_hci_indices add_names
    add_index hci_match starts_with isdigit all_digits digits10 mac_match split hex_value text_eq
    upper upper_char join hex_fixed hex_char_upper
by_mac = refl

by_name : adapter_index two (some (codes "hci3")) ≡ ok 3
unfolding adapter_index hci_match starts_with isdigit all_digits digits10 text_eq
by_name = refl

by_file : adapter_address two 0 ≡ ok (some (codes "2C:CF:67:5F:4A:01"))
unfolding adapter_address strip strip_by lstrip is_space upper upper_char
by_file = refl

adapter_index-IsFirst_example :
    IsFirst two (upper (codes "2c:CF:67:5F:4A:6D")) 11 (candidate_hci_indices two.sysfs)
unfolding text_eq hci_match starts_with mac_match split hex_value
adapter_index-IsFirst_example =
    adapter_index-IsFirst two (codes "2c:CF:67:5F:4A:6D") 11 refl refl refl by_mac
