-- ===== src/Util/RoundTrip.antt =====
-- A Bluetooth address in wire order is read back from its text.
use mathlib.Core.List.{reverse-reverse, reverse-append, map-append}
use bluek.Prelude.{
  ℕ, ◌≡◌, ◌≢◌, refl, ◌∙◌, List, [], ◌∷◌, map, reverse, length, Text, All, arith, ap, true, false,
  length-map, sym, lt→ltb, length-reverse,
}
use bluek.Prelude.Result.{ok, err, value_error}
use bluek.Bytes.{Bytes, AreBytes}
use bluek.Texts.{split, join, hex_fixed, hex_char_upper, is_space}
use bluek.Texts.Laws.{All-append, All-mono, split-Lacks, split-piece, strip-none}
use bluek.Texts.Hex.{
  is_hex, not-is_space, not-is_hex, All-hex_fixed, hex_char_upper-IsAlphabet, int16-hex_fixed,
}
use bluek.Util.{bytes_of_hex, str_to_bdaddr, bdaddr_to_str}

-- The two digits of each byte.
abbrev pairs : Bytes → List Text
pairs = map (hex_fixed hex_char_upper 2)

pair-is_hex : (n : ℕ) → All (λ c. is_hex c ≡ true) (hex_fixed hex_char_upper 2 n)
pair-is_hex n =
    All-hex_fixed hex_char_upper (λ c. is_hex c ≡ true) (hex_char_upper-IsAlphabet.plain) 2 n

split-join-pairs : (x : ℕ) (b : Bytes) → split 58 (join (58 ∷ []) (pairs (x ∷ b))) ≡ pairs (x ∷ b)
unfolding join
split-join-pairs x [] = split-Lacks 58 _ (All-mono (λ c. not-is_hex 58 c refl) _ (pair-is_hex x))
split-join-pairs x (y ∷ b) =
    split-piece 58 (hex_fixed hex_char_upper 2 x) _
      (All-mono (λ c. not-is_hex 58 c refl) _ (pair-is_hex x))
    ∙ ap (λ (ws : List Text). hex_fixed hex_char_upper 2 x ∷ ws) (split-join-pairs y b)

join-pairs-not_space : (b : Bytes) → All (λ c. is_space c ≡ false) (join (58 ∷ []) (pairs b))
unfolding join
join-pairs-not_space [] = tt
join-pairs-not_space (x ∷ []) = All-mono not-is_space _ (pair-is_hex x)
join-pairs-not_space (x ∷ y ∷ b) =
    All-append _ _ _ (All-mono not-is_space _ (pair-is_hex x))
      (unfold is_space in refl, join-pairs-not_space (y ∷ b))

bytes_of_hex-pairs : (b : Bytes) → AreBytes b → bytes_of_hex (pairs b) ≡ ok b
unfolding bytes_of_hex
bytes_of_hex-pairs [] h = refl
bytes_of_hex-pairs (x ∷ b) h = rw (
  int16-hex_fixed hex_char_upper hex_char_upper-IsAlphabet 1 x (omega arith),
  lt→ltb x 256 h.0,
  bytes_of_hex-pairs b h.1,
)

map-reverse : (f : ℕ → Text) (xs : Bytes) → map f (reverse xs) ≡ reverse (map f xs)
map-reverse f [] = refl
map-reverse f (x ∷ xs) =
    rw (
      reverse-append (x ∷ []) xs,
      reverse-append (f x ∷ []) (map f xs),
      map-append,
      map-reverse f xs,
    )

reversed-cases : (b : Bytes) → length b ≡ 6 → (y : ℕ) × (r : Bytes) × (reverse b ≡ y ∷ r)
reversed-cases b h = cases (reverse b) refl
  where
    cases : (r : Bytes) → reverse b ≡ r → (y : ℕ) × (r : Bytes) × (reverse b ≡ y ∷ r)
    cases [] e = absurd (omega (arith, ap length (sym (reverse-reverse b) ∙ ap reverse e)))
    cases (y ∷ r) e = (y, r, e)

-- Every address of six bytes has a text, and `str_to_bdaddr` reads the same six bytes from it.
pub str_to_bdaddr-bdaddr_to_str :
    (b : Bytes)
    → AreBytes b
    → length b ≡ 6
    → (s : Text) × (bdaddr_to_str b ≡ ok s) × (str_to_bdaddr s ≡ ok b)
unfolding bdaddr_to_str str_to_bdaddr
str_to_bdaddr-bdaddr_to_str b h six = (join (58 ∷ []) (pairs (reverse b)), rw six, parsed)
  where
    parsed : str_to_bdaddr (join (58 ∷ []) (pairs (reverse b))) ≡ ok b
    parsed =
        let (y, r, e) = reversed-cases b six in
        let clean = strip-none _ (join-pairs-not_space (reverse b)) in
        let pieces : split 58 (join (58 ∷ []) (pairs (reverse b))) ≡ pairs (reverse b) =
          rw e (split-join-pairs y r) in
        let count : length (pairs (reverse b)) ≡ 6 =
          length-map (reverse b) _ ∙ length-reverse b ∙ six in
        rw (clean, pieces, count)
          (ap bytes_of_hex (ap reverse (map-reverse _ b) ∙ reverse-reverse (pairs b))
            ∙ bytes_of_hex-pairs b h)

-- Only six bytes have a text.
pub bdaddr_to_str-invalid : (b : Bytes) → length b ≢ 6 → bdaddr_to_str b ≡ err value_error
unfolding bdaddr_to_str
bdaddr_to_str-invalid b h = ground arith
