-- ===== src/Util/Tests.antt =====
-- Runs of bluek/_util.py, and the theorem about it at an address.
use bluek.Prelude.{[], ◌∷◌, ◌≡◌, refl, codes, Text, arith}
use bluek.Prelude.Result.{ok}
use bluek.Bytes.{Bytes}
use bluek.Texts.{strip, split, join, hex_fixed, hex_char_upper, int16}
use bluek.Util.{str_to_bdaddr, bdaddr_to_str}
use bluek.Util.RoundTrip.{str_to_bdaddr-bdaddr_to_str}

abbrev address : Bytes
address = 0x45 ∷ 0x23 ∷ 0x02 ∷ 0x11 ∷ 0xA1 ∷ 0x20 ∷ []

bdaddr_to_str_runs : bdaddr_to_str address ≡ ok (codes "20:A1:11:02:23:45")
unfolding bdaddr_to_str join hex_fixed hex_char_upper
bdaddr_to_str_runs = refl

str_to_bdaddr_runs : str_to_bdaddr (codes " 20:a1:11:2:23:45") ≡ ok address
unfolding str_to_bdaddr strip split int16
str_to_bdaddr_runs = refl

str_to_bdaddr-bdaddr_to_str_example :
    (s : Text) × (bdaddr_to_str address ≡ ok s) × (str_to_bdaddr s ≡ ok address)
str_to_bdaddr-bdaddr_to_str_example = str_to_bdaddr-bdaddr_to_str address (omega arith) refl
