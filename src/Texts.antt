-- ===== src/Texts.antt =====
-- Python's `str` methods and number formats, as far as the program uses them, on ASCII texts.
pub mod Laws
pub mod Hex
pub mod Decimal
pub mod Words
use bluek.Prelude.{
  ℕ, zero, suc, ◌+◌, ◌-◌, ◌*◌, ◌/◌, ◌%◌, ◌^◌, List, [], ◌∷◌, ◌++◌, map, reverse, Bool, true, false,
  ◌&&◌, ◌||◌, Option, none, some, ltb, leb, ◌==◌, if◌then◌else◌, length, Text, codes,
}
use mathlib.Core.Option
use bluek.Prelude.Int.{ℤ, pos, sub_ℕ}
use bluek.Prelude.Result.{Result, ok, err, or_raise, value_error, ◌>>=◌}

-- str.isspace of an ASCII character
unfoldable pub is_space : ℕ → Bool
is_space c = (leb 9 c && leb c 13) || (leb 28 c && leb c 32)

-- s.lstrip of the characters that pass the test
unfoldable pub lstrip : (ℕ → Bool) → Text → Text
lstrip p [] = []
lstrip p (c ∷ s) = let rest = lstrip p s in if p c then rest else c ∷ s

unfoldable pub strip_by : (ℕ → Bool) → Text → Text
unfolding lstrip
strip_by p s = reverse (lstrip p (reverse (lstrip p s)))

-- s.strip()
unfoldable pub strip : Text → Text
unfolding strip_by is_space
strip = strip_by is_space

unfoldable pub lower_char : ℕ → ℕ
lower_char c = if leb b'A' c && leb c b'Z' then c + 32 else c

unfoldable pub upper_char : ℕ → ℕ
upper_char c = if leb b'a' c && leb c b'z' then c - 32 else c

-- s.lower() and s.upper()
unfoldable pub lower : Text → Text
unfolding lower_char
lower = map lower_char

unfoldable pub upper : Text → Text
unfolding upper_char
upper = map upper_char

unfoldable pub starts_with : Text → Text → Bool
starts_with [] s = true
starts_with (p ∷ ps) [] = false
starts_with (p ∷ ps) (c ∷ s) = p == c && starts_with ps s

-- p in s
unfoldable pub contains_text : Text → Text → Bool
unfolding starts_with
contains_text p [] = starts_with p []
contains_text p (c ∷ s) =
    let rest = contains_text p s in if starts_with p (c ∷ s) then true else rest

-- s.replace(p, r) for a p that is not empty; the number counts the characters of a match to skip
unfoldable pub replace_skip : Text → Text → ℕ → Text → Text
unfolding starts_with
replace_skip p r k [] = []
replace_skip p r (suc k) (c ∷ s) = replace_skip p r k s
replace_skip p r zero (c ∷ s) =
    let hit = starts_with p (c ∷ s) in
    let rest = replace_skip p r (if hit then length p - 1 else 0) s in
    if hit then r ++ rest else c ∷ rest

unfoldable pub replace : Text → Text → Text → Text
unfolding replace_skip
replace p r s = replace_skip p r 0 s

abbrev pub push_front : ℕ → List Text → List Text
push_front c [] = (c ∷ []) ∷ []
push_front c (w ∷ ws) = (c ∷ w) ∷ ws

-- s.split(sep) for a separator of one character
unfoldable pub split : ℕ → Text → List Text
split sep [] = [] ∷ []
split sep (c ∷ s) = let rest = split sep s in if c == sep then [] ∷ rest else push_front c rest

-- sep.join(words)
unfoldable pub join : Text → List Text → Text
join sep [] = []
join sep (w ∷ []) = w
join sep (w ∷ ws) = w ++ (sep ++ join sep ws)

-- The digit characters of the formats x and X.
unfoldable pub hex_char : ℕ → ℕ
hex_char d = if ltb d 10 then 48 + d else 87 + d

unfoldable pub hex_char_upper : ℕ → ℕ
hex_char_upper d = if ltb d 10 then 48 + d else 55 + d

-- The low `w` hexadecimal digits of `n`, highest first.
unfoldable pub hex_fixed : (ℕ → ℕ) → ℕ → ℕ → Text
hex_fixed char zero n = []
hex_fixed char (suc w) n = hex_fixed char w (n / 16) ++ (char (n % 16) ∷ [])

unfoldable pub hex_width : ℕ → ℕ → ℕ
hex_width zero n = 1
hex_width (suc k) n = let rest = hex_width k (n / 16) in if ltb n 16 then 1 else suc rest

-- f"{n:0wx}": at least `w` digits
unfoldable pub format_hex : ℕ → ℕ → Text
unfolding hex_fixed hex_char hex_width
format_hex w n = hex_fixed hex_char (if ltb n (16 ^ w) then w else hex_width n n) n

unfoldable pub hex_value : ℕ → Option ℕ
hex_value c =
    if leb b'0' c && leb c b'9'
    then some (c - 48)
    else if leb b'a' c && leb c b'f'
    then some (c - 87)
    else if leb b'A' c && leb c b'F'
    then some (c - 55)
    else none

-- The digits of int(s, 16); the flag says that a digit must follow, as at the start and behind `_`.
unfoldable pub digits16 : ℕ → Bool → Text → Option ℕ
digits16 acc must [] = if must then none else some acc
digits16 acc must (c ∷ s) = elim (hex_value c) [
  | some v ↦ digits16 (acc * 16 + v) false s
  | none ↦ elim (c == b'_' && (if must then false else true)) [
    | true ↦ digits16 acc true s
    | false ↦ none
  ]
]

abbrev pub drop_underscore : Text → Text
drop_underscore [] = []
drop_underscore (c ∷ s) = if c == b'_' then s else c ∷ s

-- An optional 0x or 0X, which one `_` may follow.
abbrev pub drop_prefix : Text → Text
drop_prefix [] = []
drop_prefix (a ∷ []) = a ∷ []
drop_prefix (a ∷ b ∷ s) =
    if a == b'0' && (b == b'x' || b == b'X') then drop_underscore s else a ∷ b ∷ s

abbrev pub magnitude16 : Text → Option ℕ
magnitude16 s = digits16 0 true (drop_prefix s)

abbrev pub signed16 : Text → Option ℤ
signed16 [] = none
signed16 (c ∷ s) =
    if c == b'-'
    then Option.map (sub_ℕ 0) (magnitude16 s)
    else Option.map pos (magnitude16 (if c == b'+' then s else c ∷ s))

-- int(s, 16)
unfoldable pub int16 : Text → Result ℤ
unfolding strip digits16 hex_value
int16 s = or_raise (signed16 (strip s)) value_error
