-- ===== src/Mgmt/Utf8.antt =====
-- b.decode("utf-8", "replace"): a malformed sequence becomes one U+FFFD for its longest valid
-- beginning, or for one byte.
use bluek.Prelude.{
  ℕ, zero, suc, ◌+◌, ◌-◌, ◌*◌, ◌%◌, [], ◌∷◌, Text, ◌&&◌, leb, ltb, ◌==◌, if◌then◌else◌, length,
}
use bluek.Bytes.{Bytes}

abbrev pub replacement : ℕ
replacement = 0xFFFD

-- `need` more bytes, the first of them from `lo` to `hi`: the character and what is left.
unfoldable pub follow : ℕ → ℕ → ℕ → ℕ → Bytes → ℕ × Bytes
follow zero lo hi acc b = (acc, b)
follow (suc need) lo hi acc [] = (replacement, [])
follow (suc need) lo hi acc (c ∷ cs) =
    let rest = follow need 0x80 0xBF (acc * 64 + c % 64) cs in
    if leb lo c && leb c hi then rest else (replacement, c ∷ cs)

-- The character that starts with the byte `b`, and what is left.
unfoldable pub character_of : ℕ → Bytes → ℕ × Bytes
unfolding follow
character_of b rest =
    if ltb b 0x80
    then (b, rest)
    else if ltb b 0xC2
    then (replacement, rest)
    else if ltb b 0xE0
    then follow 1 0x80 0xBF (b - 0xC0) rest
    else if ltb b 0xF0
    then follow 2 (if b == 0xE0 then 0xA0 else 0x80) (if b == 0xED then 0x9F else 0xBF) (b - 0xE0)
        rest
    else if ltb b 0xF5
    then follow 3 (if b == 0xF0 then 0x90 else 0x80) (if b == 0xF4 then 0x8F else 0xBF) (b - 0xF0)
        rest
    else (replacement, rest)

unfoldable pub decode_chars : ℕ → Bytes → Text
decode_chars zero b = []
decode_chars (suc fuel) [] = []
decode_chars (suc fuel) (b ∷ rest) =
    let (c, left) = character_of b rest in c ∷ decode_chars fuel left

-- A character takes a byte or more, so the length is enough fuel.
unfoldable pub decode_utf8 : Bytes → Text
unfolding decode_chars
decode_utf8 b = decode_chars (length b) b
