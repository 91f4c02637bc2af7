-- ===== src/Mgmt/Eir.antt =====
-- The round trips of the codecs, and the end of the EIR loop.
use bluek.Prelude.{
  ◌≡◌, refl, sym, ap, ◌∙◌, ℕ, zero, suc, ◌+◌, ◌-◌, ◌<◌, ◌≤◌, ◌^◌, ◌%◌, ◌/◌, List, [], ◌∷◌, ◌++◌,
  Option, none, some, false, arith, ltb, le→ltb, ◌==◌, if◌then◌else◌, length, length-append,
  length-drop, take, drop, take-append_length, drop-append_length, take_all,
}
use mathlib.Core.List.{append_assoc}
use bluek.Prelude.Dict.{nat_eq, lookup, insert, lookup-insert}
use bluek.Prelude.Result.{ok, ◌>>=◌}
use bluek.Bytes.{Bytes, le_bytes, from_bytes, pack-le_bytes, unpack}
use bluek.Mgmt.Codec.{encode_command, parse_packet, Eir, eir_loop, parse_eir}

-- A field of advertising data, as it stands in a packet.
abbrev pub field_bytes : ℕ × Bytes → Bytes
field_bytes (ad_type, value) = suc (length value) ∷ ad_type ∷ value

abbrev pub fields_bytes : List (ℕ × Bytes) → Bytes
fields_bytes [] = []
fields_bytes (f ∷ fs) = field_bytes f ++ fields_bytes fs

-- The value of the last field of a type.
abbrev pub last_value : ℕ → List (ℕ × Bytes) → Option Bytes → Option Bytes
last_value t [] found = found
last_value t ((ad_type, value) ∷ fs) found =
    last_value t fs (if ad_type == t then some value else found)

-- What may stand behind the fields: nothing, or a zero length and any bytes.
abbrev pub IsPadding : Bytes → Type 0
IsPadding [] = Unit
IsPadding (n ∷ _) = n ≡ 0

eir_loop-padding :
    (fuel : ℕ) (pad : Bytes) (out : Eir) → IsPadding pad → eir_loop fuel pad out ≡ out
unfolding eir_loop
eir_loop-padding zero pad out h = refl
eir_loop-padding (suc fuel) [] out h = refl
eir_loop-padding (suc fuel) (n ∷ []) out h = refl
eir_loop-padding (suc fuel) (n ∷ t ∷ tail) out h = rw h

eir_loop-fields :
    (fuel : ℕ) (fs : List (ℕ × Bytes)) (pad : Bytes) (out : Eir) (t : ℕ)
    → length (fields_bytes fs ++ pad) ≤ fuel
    → IsPadding pad
    → lookup t (eir_loop fuel (fields_bytes fs ++ pad) out) ≡ last_value t fs (lookup t out)
unfolding eir_loop
eir_loop-fields fuel [] pad out t enough h = ap (lookup t) (eir_loop-padding fuel pad out h)
eir_loop-fields zero ((ad_type, value) ∷ fs) pad out t enough h = absurd (omega arith)
eir_loop-fields (suc fuel) ((ad_type, value) ∷ fs) pad out t enough h =
    let split = append_assoc value (fields_bytes fs) pad in
    let size = length-append value (fields_bytes fs ++ pad) in
    let one : suc (length value) - 1 ≡ length value = omega arith in
    let nonzero : (suc (length value) == 0) ≡ false = ground arith in
    let fits : ltb (suc (length (value ++ (fields_bytes fs ++ pad)))) (suc (length value)) ≡ false =
      le→ltb _ (suc (length value)) (omega arith) in
    let now = drop-append_length (length value) value (fields_bytes fs ++ pad) refl in
    let cut = take-append_length (length value) value (fields_bytes fs ++ pad) refl in
    let small : length (fields_bytes fs ++ pad) ≤ fuel = omega (arith, ap length split) in
    let step = eir_loop-fields fuel fs pad (insert ad_type value out) t small h in
    rw (split, one, nonzero, fits, now, cut, step, lookup-insert ad_type t value out)

-- Of the fields of an advertising packet, with or without padding behind them, `parse_eir` keeps
-- for each type the value of its last field.
pub parse_eir-fields_bytes :
    (fs : List (ℕ × Bytes)) (pad : Bytes) (t : ℕ)
    → IsPadding pad
    → lookup t (parse_eir (fields_bytes fs ++ pad)) ≡ last_value t fs none
unfolding parse_eir lookup
parse_eir-fields_bytes fs pad t h = eir_loop-fields _ fs pad [] t (omega arith) h

eir_loop-fuel :
    (more fuel : ℕ) (rest : Bytes) (out : Eir)
    → length rest ≤ more
    → length rest ≤ fuel
    → eir_loop more rest out ≡ eir_loop fuel rest out
unfolding eir_loop
eir_loop-fuel more fuel [] out m h =
    eir_loop-padding more [] out tt ∙ sym (eir_loop-padding fuel [] out tt)
eir_loop-fuel zero fuel (n ∷ rest) out m h = absurd (omega arith)
eir_loop-fuel (suc more) zero (n ∷ rest) out m h = absurd (omega arith)
eir_loop-fuel (suc more) (suc fuel) (n ∷ []) out m h = refl
eir_loop-fuel (suc more) (suc fuel) (n ∷ t ∷ tail) out m h =
    let shrinks = length-drop (n - 1) tail in
    let later =
      eir_loop-fuel more fuel (drop (n - 1) tail) (insert t (take (n - 1) tail) out) (omega arith)
        (omega arith) in
    rw later refl

-- `parse_eir` reads any bytes to the end: more rounds than it has bytes change nothing.
pub parse_eir-fuel :
    (rounds : ℕ) (eir : Bytes) → length eir ≤ rounds → eir_loop rounds eir [] ≡ parse_eir eir
unfolding parse_eir
parse_eir-fuel rounds eir h = eir_loop-fuel rounds (length eir) eir [] h (omega arith)

two_bytes : (n : ℕ) → n < 2 ^ 16 → from_bytes (n % 256 ∷ n / 256 % 256 ∷ []) ≡ n
unfolding from_bytes
two_bytes n h = omega arith

-- A command is parsed back as it was encoded, if its numbers have two bytes.
pub parse_packet-encode_command :
    (opcode index : ℕ) (params : Bytes)
    → opcode < 2 ^ 16
    → index < 2 ^ 16
    → length params < 2 ^ 16
    → (encode_command opcode index params >>= parse_packet) ≡ ok (opcode, index, params)
unfolding encode_command parse_packet unpack le_bytes
parse_packet-encode_command opcode index params ho hi hn =
    let size : 6 + length params - 6 ≡ length params = omega arith in
    rw (pack-le_bytes opcode 2 ho, pack-le_bytes index 2 hi, pack-le_bytes (length params) 2 hn)
      (rw
        (
          two_bytes opcode ho,
          two_bytes index hi,
          two_bytes (length params) hn,
          size,
          take_all (length params) params (omega arith),
        )
        refl)
