-- ===== src/Hci.antt =====
-- bluek/_hci.py: from the name of an adapter to its index and address.
--
-- The controllers are a parameter: `sysfs` has the names under /sys/class/bluetooth, `address_file`
-- the text of a file `address` there, `socket_opens` whether an HCI socket opens, and `device_info`
-- the buffer that the ioctl fills for an index; `none` is where Python sees an OSError. The adapter name is ASCII.
mod Laws
mod Tests
use bluek.Prelude.{
  ℕ, zero, suc, ◌+◌, ◌*◌, ◌-◌, List, [], ◌∷◌, ◌++◌, map, reverse, length, drop, Bool, true, false,
  ◌&&◌, ◌||◌, Option, none, some, Text, text_eq, codes, ltb, leb, ◌==◌, if◌then◌else◌,
}
use bluek.Prelude.Int.{pos_part}
use bluek.Prelude.Result.{Result, ok, err, value_error, struct_error}
use bluek.Bytes.{Bytes, slice}
use bluek.Texts.{starts_with, strip, upper, split, join, hex_fixed, hex_char_upper, hex_value}
use bluek.Texts.Decimal.{int10, isdigit, digits10}

pub record Controllers : Type 0 where
  pub sysfs : Option (List Text)
  pub address_file : ℕ → Option Text
  pub socket_opens : Bool
  pub device_info : ℕ → Option Bytes

-- "%02X" % b
abbrev pub two_digits : ℕ → Text
two_digits b = hex_fixed hex_char_upper 2 b

-- struct.pack_into("H", buf, 0, dev_id), and the ioctl
abbrev pub ask_device : Option Bytes → Option Text
ask_device none = none
ask_device (some buf) = some (join (codes ":") (map two_digits (reverse (slice 10 16 buf))))

-- _hci_addr_for_index
unfoldable pub hci_addr_for_index : Controllers → ℕ → Result (Option Text)
hci_addr_for_index k dev_id =
    if k.socket_opens
    then (if ltb dev_id 65536 then ok (ask_device (k.device_info dev_id)) else err struct_error)
    else ok none

abbrev pub digits_value : Option ℕ → ℕ
digits_value none = 0
digits_value (some n) = n

abbrev pub hci_number : Text → Option ℕ
hci_number rest = if isdigit rest then some (digits_value (digits10 0 true rest)) else none

-- _HCI_RE.fullmatch(name): hci and digits
unfoldable pub hci_match : Text → Option ℕ
unfolding isdigit digits10
hci_match name = if starts_with (codes "hci") name then hci_number (drop 3 name) else none

-- A set of indices in order; adding one that is there changes nothing.
unfoldable pub add_index : ℕ → List ℕ → List ℕ
add_index i [] = i ∷ []
add_index i (j ∷ js) =
    let rest = add_index i js in if ltb i j then i ∷ j ∷ js else if i == j then j ∷ js else j ∷ rest

abbrev pub add_found : Option ℕ → List ℕ → List ℕ
add_found none js = js
add_found (some i) js = add_index i js

unfoldable pub add_names : List Text → List ℕ → List ℕ
add_names [] js = js
add_names (name ∷ names) js = add_names names (add_found (hci_match name) js)

abbrev pub fallback : List ℕ
fallback = 0 ∷ 1 ∷ 2 ∷ 3 ∷ 4 ∷ 5 ∷ 6 ∷ 7 ∷ []

-- _candidate_hci_indices
unfoldable pub candidate_hci_indices : Option (List Text) → List ℕ
unfolding add_names add_index
candidate_hci_indices none = fallback
candidate_hci_indices (some names) = add_names names fallback

-- _hci_addr_for_index(dev_id) == target
abbrev pub has_address : Text → Option Text → Bool
has_address target none = false
has_address target (some a) = text_eq a target

-- A step of the loop: `rest` goes on with the other indices.
abbrev pub or_next : Text → ℕ → Result (Option ℕ) → Result (Option Text) → Result (Option ℕ)
or_next target i rest (err e) = err e
or_next target i rest (ok a) = if has_address target a then ok (some i) else rest

unfoldable pub first_with : Controllers → Text → List ℕ → Result (Option ℕ)
first_with k target [] = ok none
first_with k target (i ∷ is) = or_next target i (first_with k target is) (hci_addr_for_index k i)

-- _index_for_mac
unfoldable pub index_for_mac : Controllers → Text → Result (Option ℕ)
unfolding first_with candidate_hci_indices
index_for_mac k mac = first_with k (upper mac) (candidate_hci_indices k.sysfs)

abbrev pub is_hex : ℕ → Bool
is_hex c = elim (hex_value c) [ some v ↦ true | none ↦ false ]

-- Two hexadecimal digits.
abbrev pub is_pair : Text → Bool
is_pair (a ∷ b ∷ []) = is_hex a && is_hex b
is_pair _ = false

-- The `$` of a pattern also matches in front of a newline at the end.
abbrev pub is_last_pair : Text → Bool
is_last_pair (a ∷ b ∷ []) = is_hex a && is_hex b
is_last_pair (a ∷ b ∷ c ∷ []) = is_hex a && (is_hex b && c == 10)
is_last_pair _ = false

abbrev pub mac_parts : List Text → Bool
mac_parts (a ∷ b ∷ c ∷ d ∷ e ∷ f ∷ []) =
    is_pair a && (is_pair b && (is_pair c && (is_pair d && (is_pair e && is_last_pair f))))
mac_parts _ = false

-- _MAC_RE.match(adapter): six pairs of hexadecimal digits with colons between
unfoldable pub mac_match : Text → Bool
mac_match adapter = mac_parts (split b':' adapter)

abbrev pub or_no_controller : Result (Option ℕ) → Result ℕ
or_no_controller (err e) = err e
or_no_controller (ok none) = err value_error
or_no_controller (ok (some i)) = ok i

abbrev pub named_index : Controllers → Text → Option ℕ → Result ℕ
named_index k adapter (some n) = ok n
named_index k adapter none =
    if mac_match adapter then or_no_controller (index_for_mac k adapter) else err value_error

-- not adapter or adapter == "default"
abbrev pub is_default : Text → Bool
is_default [] = true
is_default (c ∷ s) = text_eq (c ∷ s) (codes "default")

unfoldable pub adapter_index : Controllers → Option Text → Result ℕ
adapter_index k none = ok 0
adapter_index k (some adapter) =
    if is_default adapter then ok 0 else named_index k adapter (hci_match adapter)

abbrev pub or_ask : Text → Result (Option Text) → Result (Option Text)
or_ask [] asked = asked
or_ask (c ∷ s) asked = ok (some (c ∷ s))

abbrev pub file_address : Option Text → Result (Option Text) → Result (Option Text)
file_address none asked = asked
file_address (some text) asked = or_ask (upper (strip text)) asked

-- adapter_address
unfoldable pub adapter_address : Controllers → ℕ → Result (Option Text)
adapter_address k index = file_address (k.address_file index) (hci_addr_for_index k index)
