-- ===== src/Uuids.antt =====
-- bluek/uuids.py: UUIDs as canonical texts and on the wire, and the part of Python's `uuid.UUID`
-- that it uses. A `UUID` is its 128-bit number.
pub mod Canonical
pub mod Wire
pub mod RoundTrip
mod Tests
use bluek.Prelude.{
  ℕ, ◌+◌, ◌-◌, ◌*◌, ◌/◌, ◌%◌, ◌^◌, List, [], ◌∷◌, ◌++◌, reverse, Bool, ◌||◌, if◌then◌else◌, ◌==◌,
  ltb, length, drop, Text, codes, ◌≡◌, refl,
}
use bluek.Prelude.Int.{ℤ, pos, negsuc}
use bluek.Prelude.Result.{Result, ok, err, value_error, ◌>>=◌}
use bluek.Bytes.{Bytes, slice, le_bytes, to_bytes, from_bytes}
use bluek.Texts.{strip, strip_by, lower, replace, hex_fixed, hex_char, format_hex, int16}

-- UUID(int=n): a number outside 128 bits is refused.
abbrev pub as_uuid : ℤ → Result ℕ
as_uuid (pos n) = if ltb n (2 ^ 128) then ok n else err value_error
as_uuid (negsuc n) = err value_error

unfoldable pub is_brace : ℕ → Bool
is_brace c = c == b'{' || c == b'}'

-- The hexadecimal digits that uuid.UUID(s) takes from its text.
unfoldable pub uuid_digits : Text → Text
uuid_digits s =
    let hex = replace (codes "uuid:") [] (replace (codes "urn:") [] s) in
    replace (codes "-") [] (strip_by is_brace hex)

-- uuid.UUID(s)
unfoldable pub parse_uuid : Text → Result ℕ
parse_uuid s =
    let hex = uuid_digits s in
    if length hex == 32 then (do z ← int16 hex; as_uuid z) else err value_error

-- str(uuid.UUID(int=n))
unfoldable pub uuid_text : ℕ → Text
uuid_text n =
    let hex = hex_fixed hex_char 32 n in
    slice 0 8 hex
    ++ (b'-'
        ∷ (slice 8 12 hex
            ++ (b'-' ∷ (slice 12 16 hex ++ (b'-' ∷ (slice 16 20 hex ++ (b'-' ∷ drop 20 hex)))))))

abbrev pub base_suffix : Text
base_suffix = codes "-0000-1000-8000-00805f9b34fb"

abbrev pub base_uuid : ℕ
base_uuid = 0x0000_0000_0000_1000_8000_0080_5f9b_34fb

-- The text that normalize_uuid_str hands to uuid.UUID.
unfoldable pub widen : Text → Text
widen s =
    if length s == 4
    then codes "0000" ++ (s ++ base_suffix)
    else if length s == 8
    then s ++ base_suffix
    else s

unfoldable pub normalize_uuid_str : Text → Result Text
normalize_uuid_str uuid = do
  n ← parse_uuid (widen (replace (codes "0x") [] (lower (strip uuid))))
  ok (uuid_text n)

unfoldable pub normalize_uuid_16 : ℕ → Result Text
normalize_uuid_16 value = normalize_uuid_str (format_hex 4 value)

unfoldable pub uuid_from_bytes : Bytes → Result Text
uuid_from_bytes b =
    if length b == 2
    then normalize_uuid_16 (from_bytes b)
    else if length b == 4
    then normalize_uuid_str (format_hex 8 (from_bytes b))
    else if length b == 16
    then ok (uuid_text (from_bytes b))
    else err value_error

-- u.int & ~(0xFFFF << 96)
abbrev pub clear_short : ℕ → ℕ
clear_short n = n - n / 2 ^ 96 % 2 ^ 16 * 2 ^ 96

unfoldable pub uuid_to_bytes : Text → Result Bytes
uuid_to_bytes uuid = do
  s ← normalize_uuid_str uuid
  n ← parse_uuid s
  if clear_short n == base_uuid then to_bytes (n / 2 ^ 96 % 2 ^ 16) 2 else ok (le_bytes 16 n)
