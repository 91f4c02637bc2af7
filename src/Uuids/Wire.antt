-- ===== src/Uuids/Wire.antt =====
-- UUIDs on the wire: which canonical text a byte string stands for, and the round trips.
use bluek.Prelude.{
  ℕ, ◌+◌, ◌*◌, ◌^◌, ◌<◌, ◌≡◌, refl, ◌∙◌, ◌∷◌, ◌++◌, Bool, true, false, ◌==◌, ◌||◌, if◌then◌else◌,
  length, take-append_length, drop-append_length, take, drop, drop-drop, Text, arith, ap, sym,
  codes, lt→ltb, ==_iff, inl, inr, Bool-cases,
}
use bluek.Prelude.Result.{ok, err, value_error, ok-injective}
use bluek.Bytes.{Bytes, AreBytes, from_bytes, from_bytes-lt}
use bluek.Texts.{hex_fixed, hex_char, format_hex}
use bluek.Texts.Hex.{hex_fixed-append, hex_fixed_split, length-hex_fixed, All-hex_fixed}
use bluek.Uuids.{
  uuid_text, widen, base_suffix, base_uuid, normalize_uuid_str, normalize_uuid_16, uuid_from_bytes,
}
use bluek.Uuids.Canonical.{
  AreCanonical, is_canonical, digit-is_canonical, clean-canonical, parse_uuid-uuid_text,
  normalize_uuid_str-uuid_text,
}

-- The 128-bit number of a 16- or 32-bit UUID.
abbrev pub based : ℕ → ℕ
based v = v * 2 ^ 96 + base_uuid

drop_beyond : (a b : Text) (i k : ℕ) → length a ≡ 8 → k ≡ 8 + i → drop k (a ++ b) ≡ drop i b
drop_beyond a b i k h e =
    sym (drop-drop i 8 k (a ++ b) e) ∙ ap (drop i) (drop-append_length 8 a b h)

dashes_behind :
    (a : Text)
    → length a ≡ 8
    → let h = a ++ hex_fixed hex_char 24 base_uuid in
      take 8 h
        ++ (45
            ∷ (take 4 (drop 8 h)
                ++ (45 ∷ (take 4 (drop 12 h) ++ (45 ∷ (take 4 (drop 16 h) ++ (45 ∷ drop 20 h)))))))
      ≡ a ++ base_suffix
dashes_behind a h =
    let b = hex_fixed hex_char 24 base_uuid in
    rw
      (
        take-append_length 8 a b h,
        drop_beyond a b 0 8 h refl,
        drop_beyond a b 4 12 h refl,
        drop_beyond a b 8 16 h refl,
        drop_beyond a b 12 20 h refl,
      )
      (unfold hex_fixed hex_char in refl)

uuid_text-based : (v : ℕ) → v < 2 ^ 32 → uuid_text (based v) ≡ hex_fixed hex_char 8 v ++ base_suffix
unfolding uuid_text
uuid_text-based v h =
    rw (hex_fixed-append hex_char 8 24 v base_uuid (omega arith))
      (dashes_behind (hex_fixed hex_char 8 v) (length-hex_fixed hex_char 8 v))

hex_fixed_pad :
    (v : ℕ) → v < 2 ^ 16 → hex_fixed hex_char 8 v ≡ codes "0000" ++ hex_fixed hex_char 4 v
hex_fixed_pad v h =
    hex_fixed_split hex_char 4 4 8 v 0 v refl (omega arith) h
    ∙ ap (λ (t : Text). t ++ hex_fixed hex_char 4 v) zeros
  where
    zeros : hex_fixed hex_char 4 0 ≡ codes "0000"
    zeros = unfold hex_fixed hex_char in refl

digits-AreCanonical : (w n : ℕ) → AreCanonical (hex_fixed hex_char w n)
digits-AreCanonical w n = All-hex_fixed hex_char (λ c. is_canonical c ≡ true) digit-is_canonical w n

normalize_canonical :
    (s : Text) (n : ℕ)
    → AreCanonical s
    → widen s ≡ uuid_text n
    → n < 2 ^ 128
    → normalize_uuid_str s ≡ ok (uuid_text n)
unfolding normalize_uuid_str
normalize_canonical s n h e lt = rw (clean-canonical s h, e, parse_uuid-uuid_text n lt) refl

normalize_4 :
    (v : ℕ) → v < 2 ^ 16 → normalize_uuid_str (hex_fixed hex_char 4 v) ≡ ok (uuid_text (based v))
normalize_4 v h = normalize_canonical _ (based v) (digits-AreCanonical 4 v) wide (omega arith)
  where
    wide : widen (hex_fixed hex_char 4 v) ≡ uuid_text (based v)
    wide =
        rw (uuid_text-based v (omega arith), hex_fixed_pad v h)
          (unfold widen in rw (length-hex_fixed hex_char 4 v) refl)

normalize_8 :
    (v : ℕ) → v < 2 ^ 32 → normalize_uuid_str (hex_fixed hex_char 8 v) ≡ ok (uuid_text (based v))
normalize_8 v h = normalize_canonical _ (based v) (digits-AreCanonical 8 v) wide (omega arith)
  where
    wide : widen (hex_fixed hex_char 8 v) ≡ uuid_text (based v)
    wide = rw (uuid_text-based v h) (unfold widen in rw (length-hex_fixed hex_char 8 v) refl)

-- A 16-bit UUID becomes its place in the Bluetooth base UUID.
pub normalize_uuid_16-based : (v : ℕ) → v < 2 ^ 16 → normalize_uuid_16 v ≡ ok (uuid_text (based v))
unfolding normalize_uuid_16 format_hex
normalize_uuid_16-based v h = rw (lt→ltb v 65536 h) (normalize_4 v h)

-- The number that a UUID on the wire stands for.
abbrev pub wire_number : Bytes → ℕ
wire_number b = if length b == 16 then from_bytes b else based (from_bytes b)

abbrev pub is_wire_length : ℕ → Bool
is_wire_length n = n == 2 || n == 4 || n == 16

-- `uuid_from_bytes` gives the canonical text of the number on the wire for 2, 4 and 16 bytes, and
-- raises ValueError for any other length.
pub uuid_from_bytes-number :
    (b : Bytes)
    → AreBytes b
    → uuid_from_bytes b
      ≡ (if is_wire_length (length b) then ok (uuid_text (wire_number b)) else err value_error)
unfolding uuid_from_bytes format_hex
uuid_from_bytes-number b h = elim (Bool-cases (length b == 2)) [
  | inl e ↦
      let two : length b ≡ 2 = (==_iff _ _).0 e in
      rw two (normalize_uuid_16-based (from_bytes b) (bound 2 two))
  | inr e ↦ elim (Bool-cases (length b == 4)) [
    | inl e' ↦
        let four : length b ≡ 4 = (==_iff _ _).0 e' in
        rw (four, lt→ltb _ _ (bound 4 four)) (normalize_8 (from_bytes b) (bound 4 four))
    | inr e' ↦ rw (e, e') (elim (Bool-cases (length b == 16)) [ inl s ↦ rw s | inr s ↦ rw s ])
  ]
]
  where
    bound : (n : ℕ) → length b ≡ n → from_bytes b < 256 ^ n
    bound n e = rw e at (from_bytes-lt b h)

wire_number-lt :
    (b : Bytes) → AreBytes b → is_wire_length (length b) ≡ true → wire_number b < 2 ^ 128
wire_number-lt b h w = elim (Bool-cases (length b == 16)) [
  | inl e ↦ rw e (bound 16 ((==_iff _ _).0 e))
  | inr e ↦ rw e (elim (Bool-cases (length b == 2)) [
    | inl two ↦ omega (arith, bound 2 ((==_iff _ _).0 two))
    | inr more ↦ omega (arith, bound 4 (four e more))
  ])
]
  where
    bound : (n : ℕ) → length b ≡ n → from_bytes b < 256 ^ n
    bound n e = rw e at (from_bytes-lt b h)

    four : (length b == 16) ≡ false → (length b == 2) ≡ false → length b ≡ 4
    four e more = ground arith

-- What `uuid_from_bytes` returns is canonical: `normalize_uuid_str` keeps it.
pub normalize_uuid_str-uuid_from_bytes :
    (b : Bytes) (s : Text) → AreBytes b → uuid_from_bytes b ≡ ok s → normalize_uuid_str s ≡ ok s
normalize_uuid_str-uuid_from_bytes b s h e = elim (Bool-cases (is_wire_length (length b))) [
  | inl w ↦
      let known : ok (uuid_text (wire_number b)) ≡ ok s =
        rw w at (sym (uuid_from_bytes-number b h) ∙ e) in
      rw (← ok-injective known)
        (normalize_uuid_str-uuid_text (wire_number b) (wire_number-lt b h w))
  | inr w ↦
      let raised : err value_error ≡ ok s = rw w at (sym (uuid_from_bytes-number b h) ∙ e) in cc
]
