-- ===== src/Bytes.antt =====
-- Python's `bytes` and `struct`, as far as the program uses them: little-endian numbers, slices,
-- indexing. A byte string is a list of numbers.
use bluek.Prelude.{
  ℕ, zero, suc, ◌+◌, ◌-◌, ◌*◌, ◌/◌, ◌%◌, ◌^◌, ◌<◌, ◌≡◌, refl, List, [], ◌∷◌, arith, length,
  get_elem?, take, drop, All, ltb, lt→ltb, if◌then◌else◌,
}
use native.Mathlib.Nat.{pow-suc}
use bluek.Prelude.Result.{Result, ok, err, or_raise, index_error, struct_error, overflow_error}

abbrev pub Bytes : Type 0
Bytes = List ℕ

abbrev pub IsByte : ℕ → Type 0
IsByte b = b < 256

abbrev pub AreBytes : Bytes → Type 0
AreBytes = All IsByte

-- b[i:j] for i ≤ j
abbrev pub slice : ℕ → ℕ → Bytes → Bytes
slice i j b = take (j - i) (drop i b)

-- b[i]
abbrev pub byte_at : Bytes → ℕ → Result ℕ
byte_at b i = or_raise (get_elem? b i) index_error

-- The low `w` bytes of a number, lowest first.
unfoldable pub le_bytes : ℕ → ℕ → Bytes
le_bytes zero n = []
le_bytes (suc w) n = (n % 256) ∷ le_bytes w (n / 256)

-- n.to_bytes(w, "little")
unfoldable pub to_bytes : ℕ → ℕ → Result Bytes
to_bytes n w = if ltb n (256 ^ w) then ok (le_bytes w n) else err overflow_error

pub to_bytes-le_bytes : (n w : ℕ) → n < 256 ^ w → to_bytes n w ≡ ok (le_bytes w n)
unfolding to_bytes
to_bytes-le_bytes n w h = rw (lt→ltb n (256 ^ w) h)

-- int.from_bytes(b, "little")
unfoldable pub from_bytes : Bytes → ℕ
from_bytes [] = 0
from_bytes (b ∷ bs) = b + 256 * from_bytes bs

pub length-le_bytes : (w n : ℕ) → length (le_bytes w n) ≡ w
unfolding le_bytes
length-le_bytes zero n = refl
length-le_bytes (suc w) n = omega (arith, length-le_bytes w (n / 256))

pub le_bytes-AreBytes : (w n : ℕ) → AreBytes (le_bytes w n)
unfolding le_bytes
le_bytes-AreBytes zero n = tt
le_bytes-AreBytes (suc w) n = (omega arith, le_bytes-AreBytes w (n / 256))

pub from_bytes-le_bytes : (w n : ℕ) → n < 256 ^ w → from_bytes (le_bytes w n) ≡ n
unfolding from_bytes le_bytes
from_bytes-le_bytes zero n h = omega arith
from_bytes-le_bytes (suc w) n h = omega (arith, from_bytes-le_bytes w (n / 256) (omega arith))

pub le_bytes-from_bytes : (b : Bytes) → AreBytes b → le_bytes (length b) (from_bytes b) ≡ b
unfolding from_bytes le_bytes
le_bytes-from_bytes [] h = refl
le_bytes-from_bytes (x ∷ xs) h = ground (arith, le_bytes-from_bytes xs h.1)

pub from_bytes-lt : (b : Bytes) → AreBytes b → from_bytes b < 256 ^ length b
unfolding from_bytes
from_bytes-lt [] h = omega arith
from_bytes-lt (x ∷ xs) h = omega (arith, from_bytes-lt xs h.1, pow-suc 256 (length xs))

-- struct.unpack_from for one unsigned little-endian number of `w` bytes at offset `i`
unfoldable pub unpack : ℕ → ℕ → Bytes → Result ℕ
unpack i w b =
    if ltb (length b) (i + w) then err struct_error else ok (from_bytes (slice i (i + w) b))

-- struct.pack of one unsigned number: a number that does not fit is refused.
unfoldable pub pack : ℕ → ℕ → Result Bytes
pack n w = if ltb n (256 ^ w) then ok (le_bytes w n) else err struct_error

pub pack-le_bytes : (n w : ℕ) → n < 256 ^ w → pack n w ≡ ok (le_bytes w n)
unfolding pack
pack-le_bytes n w h = rw (lt→ltb n (256 ^ w) h)
