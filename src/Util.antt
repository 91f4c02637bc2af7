-- ===== src/Util.antt =====
-- bluek/_util.py: Bluetooth device addresses, as text and in wire order.
pub mod RoundTrip
mod Tests
use bluek.Prelude.{
  ℕ, List, [], ◌∷◌, map, reverse, if◌then◌else◌, ◌==◌, ltb, length, Text, codes, ◌≡◌, refl,
}
use bluek.Prelude.Int.{ℤ, pos, negsuc}
use bluek.Prelude.Result.{Result, ok, err, value_error, ◌>>=◌}
use bluek.Bytes.{Bytes}
use bluek.Texts.{strip, split, join, hex_fixed, hex_char_upper, int16}

-- One item of `bytes(…)`: a number outside 0 to 255 is refused.
abbrev pub as_byte : ℤ → Result ℕ
as_byte (pos n) = if ltb n 256 then ok n else err value_error
as_byte (negsuc n) = err value_error

unfoldable pub bytes_of_hex : List Text → Result Bytes
bytes_of_hex [] = ok []
bytes_of_hex (p ∷ ps) = do z ← int16 p; b ← as_byte z; rest ← bytes_of_hex ps; ok (b ∷ rest)

-- str_to_bdaddr
unfoldable pub str_to_bdaddr : Text → Result Bytes
unfolding bytes_of_hex
str_to_bdaddr addr =
    let parts = split b':' (strip addr) in
    if length parts == 6 then bytes_of_hex (reverse parts) else err value_error

-- bdaddr_to_str
unfoldable pub bdaddr_to_str : Bytes → Result Text
bdaddr_to_str b =
    if length b == 6
    then ok (join (b':' ∷ []) (map (hex_fixed hex_char_upper 2) (reverse b)))
    else err value_error
