-- ===== src/Uuids/Tests.antt =====
-- Runs of bluek/uuids.py, and its theorems at concrete UUIDs.
use bluek.Prelude.{ℕ, [], ◌∷◌, ◌≡◌, refl, codes, Text, arith, if◌then◌else◌}
use bluek.Prelude.Result.{ok, err, value_error}
use bluek.Bytes.{to_bytes, le_bytes}
use bluek.Texts.{strip, lower, replace, hex_fixed, hex_char, int16}
use bluek.Uuids.{
  uuid_digits, parse_uuid, uuid_text, widen, is_brace, normalize_uuid_str, uuid_from_bytes,
  uuid_to_bytes,
}
use bluek.Uuids.Wire.{is_wire_length, wire_number, uuid_from_bytes-number}
use bluek.Uuids.RoundTrip.{wire_form, uuid_from_bytes-uuid_to_bytes}

abbrev battery : Text
battery = codes "0000180f-0000-1000-8000-00805f9b34fb"

normalize_uuid_str_runs :
    normalize_uuid_str (codes " 0x180A") ≡ ok (codes "0000180a-0000-1000-8000-00805f9b34fb")
unfolding normalize_uuid_str parse_uuid widen uuid_digits uuid_text replace lower strip is_brace
    hex_fixed hex_char int16
normalize_uuid_str_runs = refl

uuid_to_bytes_runs : uuid_to_bytes (codes "ffe0") ≡ ok (0xe0 ∷ 0xff ∷ [])
unfolding uuid_to_bytes normalize_uuid_str parse_uuid widen uuid_digits uuid_text replace lower
    strip is_brace hex_fixed hex_char int16 to_bytes le_bytes
uuid_to_bytes_runs = refl

normalize_battery : normalize_uuid_str (codes "180F") ≡ ok battery
unfolding normalize_uuid_str parse_uuid widen uuid_digits uuid_text replace lower strip is_brace
    hex_fixed hex_char int16
normalize_battery = refl

two_bytes : uuid_from_bytes (0x0f ∷ 0x18 ∷ []) ≡ (
    if is_wire_length 2 then ok (uuid_text (wire_number (0x0f ∷ 0x18 ∷ []))) else err value_error)
two_bytes = uuid_from_bytes-number (0x0f ∷ 0x18 ∷ []) (omega arith)

uuid_from_bytes-uuid_to_bytes_example :
    (n : ℕ) × (battery ≡ uuid_text n)
    × (uuid_to_bytes (codes "180F") ≡ ok (wire_form n))
    × (uuid_from_bytes (wire_form n) ≡ ok battery)
uuid_from_bytes-uuid_to_bytes_example =
    uuid_from_bytes-uuid_to_bytes (codes "180F") battery normalize_battery
