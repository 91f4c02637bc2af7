-- ===== src/Texts/Decimal.antt =====
-- Python's `int(s)`, `s.split()` and the text behind the last of a character, on ASCII texts.
use bluek.Prelude.{
  ℕ, ◌+◌, ◌-◌, ◌*◌, List, [], ◌∷◌, ◌++◌, Bool, true, false, ◌&&◌, not, Option, none, some, leb,
  ◌==◌, if◌then◌else◌, Text,
}
use mathlib.Core.Option
use bluek.Prelude.Int.{ℤ, pos, sub_ℕ}
use bluek.Prelude.Result.{Result, or_raise, value_error}
use bluek.Texts.{is_space, strip}

abbrev pub is_digit : ℕ → Bool
is_digit c = leb b'0' c && leb c b'9'

-- The digits of int(s); the flag says that a digit must follow, as at the start and behind `_`.
unfoldable pub digits10 : ℕ → Bool → Text → Option ℕ
digits10 acc must [] = if must then none else some acc
digits10 acc must (c ∷ s) = elim (is_digit c) [
  | true ↦ digits10 (acc * 10 + (c - 48)) false s
  | false ↦ elim (c == b'_' && not must) [ true ↦ digits10 acc true s | false ↦ none ]
]

abbrev pub signed10 : Text → Option ℤ
signed10 [] = none
signed10 (c ∷ s) =
    if c == b'-'
    then Option.map (sub_ℕ 0) (digits10 0 true s)
    else Option.map pos (digits10 0 true (if c == b'+' then s else c ∷ s))

-- int(s)
unfoldable pub int10 : Text → Result ℤ
unfolding strip digits10
int10 s = or_raise (signed10 (strip s)) value_error

-- s.isdigit() of an ASCII text
unfoldable pub all_digits : Text → Bool
all_digits [] = true
all_digits (c ∷ s) = is_digit c && all_digits s

unfoldable pub isdigit : Text → Bool
unfolding all_digits
isdigit [] = false
isdigit (c ∷ s) = all_digits (c ∷ s)

-- A word that has ended stands before the others, unless it has no character.
abbrev pub end_word : Text → List Text → List Text
end_word [] ws = ws
end_word (c ∷ w) ws = (c ∷ w) ∷ ws

-- s.split(): `w` is what has been read of a word
unfoldable pub words_from : Text → Text → List Text
unfolding is_space
words_from w [] = end_word w []
words_from w (c ∷ s) =
    let ended = end_word w (words_from [] s) in
    let longer = words_from (w ++ (c ∷ [])) s in if is_space c then ended else longer

unfoldable pub split_words : Text → List Text
unfolding words_from
split_words s = words_from [] s

-- s[s.rfind(c) + 1:], or nothing where rfind gives -1
unfoldable pub after_last : ℕ → Text → Option Text
after_last c [] = none
after_last c (x ∷ s) = elim (after_last c s) [
  | some t ↦ some t
  | none ↦ if x == c then some s else none
]
