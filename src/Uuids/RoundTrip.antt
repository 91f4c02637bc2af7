-- ===== src/Uuids/RoundTrip.antt =====
-- The results of `normalize_uuid_str`, and the round trip through the wire form.
use bluek.Prelude.{
  ℕ, ◌/◌, ◌%◌, ◌^◌, ◌<◌, ◌≡◌, refl, ◌∙◌, ◌==◌, if◌then◌else◌, Text, arith, ap, sym, lt→ltb, ==_iff,
  inl, inr, Bool-cases,
}
use bluek.Prelude.Result.{ok, bind_inv, ok-injective}
use bluek.Bytes.{Bytes, le_bytes, to_bytes, length-le_bytes, le_bytes-AreBytes, from_bytes-le_bytes}
use bluek.Uuids.{
  parse_uuid, uuid_text, base_uuid, normalize_uuid_str, uuid_from_bytes, uuid_to_bytes, clear_short,
}
use bluek.Uuids.Wire.{based, uuid_from_bytes-number}
use bluek.Uuids.Canonical.{parse_uuid-uuid_text, normalize_uuid_str-uuid_text}

parse_uuid-lt : (s : Text) (n : ℕ) → parse_uuid s ≡ ok n → n < 2 ^ 128
unfolding parse_uuid
parse_uuid-lt s n e = ground arith

-- Every text that `normalize_uuid_str` returns is the canonical text of a 128-bit number.
pub normalize_uuid_str_inv :
    (s t : Text) → normalize_uuid_str s ≡ ok t → (n : ℕ) × (n < 2 ^ 128) × (t ≡ uuid_text n)
unfolding normalize_uuid_str
normalize_uuid_str_inv s t e =
    let (n, printed, parsed) = bind_inv (λ n. ok (uuid_text n)) e in
    (n, parse_uuid-lt _ n parsed, sym (ok-injective printed))

-- `normalize_uuid_str` is idempotent.
pub normalize_uuid_str_idem :
    (s t : Text) → normalize_uuid_str s ≡ ok t → normalize_uuid_str t ≡ ok t
normalize_uuid_str_idem s t e =
    let (n, h, et) = normalize_uuid_str_inv s t e in rw et (normalize_uuid_str-uuid_text n h)

based-short : (n : ℕ) → clear_short n ≡ base_uuid → based (n / 2 ^ 96 % 2 ^ 16) ≡ n
based-short n h = omega arith

decode_2 : (v : ℕ) → v < 2 ^ 16 → uuid_from_bytes (le_bytes 2 v) ≡ ok (uuid_text (based v))
decode_2 v h =
    rw
      (
        uuid_from_bytes-number _ (le_bytes-AreBytes 2 v),
        length-le_bytes 2 v,
        from_bytes-le_bytes 2 v h,
      )
      refl

decode_16 : (n : ℕ) → n < 2 ^ 128 → uuid_from_bytes (le_bytes 16 n) ≡ ok (uuid_text n)
decode_16 n h =
    rw
      (
        uuid_from_bytes-number _ (le_bytes-AreBytes 16 n),
        length-le_bytes 16 n,
        from_bytes-le_bytes 16 n h,
      )
      refl

-- The two forms that `uuid_to_bytes` chooses from.
abbrev pub wire_form : ℕ → Bytes
wire_form n = if clear_short n == base_uuid then le_bytes 2 (n / 2 ^ 96 % 2 ^ 16) else le_bytes 16 n

uuid_to_bytes-wire_form :
    (s : Text) (n : ℕ)
    → n < 2 ^ 128
    → normalize_uuid_str s ≡ ok (uuid_text n)
    → uuid_to_bytes s ≡ ok (wire_form n)
unfolding uuid_to_bytes to_bytes
uuid_to_bytes-wire_form s n h e = elim (Bool-cases (clear_short n == base_uuid)) [
  | inl c ↦
      rw (e, parse_uuid-uuid_text n h)
        (rw (c, lt→ltb (n / 2 ^ 96 % 2 ^ 16) 65536 (omega arith)) refl)
  | inr c ↦ rw (e, parse_uuid-uuid_text n h) (rw c refl)
]

decode-wire_form : (n : ℕ) → n < 2 ^ 128 → uuid_from_bytes (wire_form n) ≡ ok (uuid_text n)
decode-wire_form n h = elim (Bool-cases (clear_short n == base_uuid)) [
  | inl c ↦ rw c (
      decode_2 (n / 2 ^ 96 % 2 ^ 16) (omega arith)
      ∙ ap (λ (k : ℕ). ok (uuid_text k)) (based-short n ((==_iff _ _).0 c)))
  | inr c ↦ rw c (decode_16 n h)
]

-- Every text that `normalize_uuid_str` accepts is encoded, and its bytes are decoded to its
-- canonical text. The encoding has 2 bytes if only the 16-bit slot of the number differs from the
-- base UUID, and 16 bytes otherwise.
pub uuid_from_bytes-uuid_to_bytes :
    (s t : Text)
    → normalize_uuid_str s ≡ ok t
    → (n : ℕ) × (t ≡ uuid_text n)
      × (uuid_to_bytes s ≡ ok (wire_form n))
      × (uuid_from_bytes (wire_form n) ≡ ok t)
uuid_from_bytes-uuid_to_bytes s t e =
    let (n, h, et) = normalize_uuid_str_inv s t e in
    (n, et, uuid_to_bytes-wire_form s n h (e ∙ ap ok et), decode-wire_form n h ∙ ap ok (sym et))
