-- ===== src/Texts/Hex.antt =====
-- Hexadecimal texts: their length and characters, their parts, and that `int(s, 16)` reads them.
use mathlib.Core.List.{append_assoc, append-nil}
use native.Mathlib.Nat.{pow-suc}
use bluek.Prelude.{
  ℕ, zero, suc, ◌+◌, ◌*◌, ◌/◌, ◌%◌, ◌^◌, ◌<◌, ◌≡◌, refl, sym, ◌∙◌, [], ◌∷◌, ◌++◌, Bool, true, false,
  some, length, length-append, Text, All, arith, ap,
}
use bluek.Texts.{hex_char, hex_char_upper, hex_fixed, hex_value, digits16}
use bluek.Texts.Laws.{All-append, All-mono, strip-none}
use mathlib.Core.Option
use bluek.Prelude.{leb, ◌==◌, ◌&&◌, ◌||◌}
use bluek.Texts.{is_space, int16, signed16, drop_prefix}
use bluek.Prelude.{Bool-cases, inl, inr}
use bluek.Prelude.Int.{pos}
use bluek.Prelude.Result.{ok}

-- The characters 0 to 9, A to F and a to f.
abbrev pub is_hex : ℕ → Bool
is_hex c = (leb 48 c && leb c 57) || (leb 65 c && leb c 70) || (leb 97 c && leb c 102)

pub not-is_space : (c : ℕ) → is_hex c ≡ true → is_space c ≡ false
unfolding is_space
not-is_space c h = ground arith

-- Any character that is no digit, such as a separator, differs from every digit.
pub not-is_hex : (q c : ℕ) → is_hex q ≡ false → is_hex c ≡ true → (q == c) ≡ false
not-is_hex q c hq h = ground arith

-- A digit alphabet that `hex_value` reads.
pub record IsAlphabet (char : ℕ → ℕ) : Type 0 where
  pub plain : (d : ℕ) → d < 16 → is_hex (char d) ≡ true
  pub value : (d : ℕ) → d < 16 → hex_value (char d) ≡ some d

pub hex_char-IsAlphabet : IsAlphabet hex_char
unfolding hex_char hex_value
hex_char-IsAlphabet = record { plain = λ d h. ground arith; value = λ d h. ground arith }

pub hex_char_upper-IsAlphabet : IsAlphabet hex_char_upper
unfolding hex_char_upper hex_value
hex_char_upper-IsAlphabet = record { plain = λ d h. ground arith; value = λ d h. ground arith }

pub length-hex_fixed : (char : ℕ → ℕ) (w n : ℕ) → length (hex_fixed char w n) ≡ w
unfolding hex_fixed
length-hex_fixed char zero n = refl
length-hex_fixed char (suc w) n = omega (
  arith,
  length-append (hex_fixed char w (n / 16)) (char (n % 16) ∷ []),
  length-hex_fixed char w (n / 16),
)

pub All-hex_fixed {κ} :
    (char : ℕ → ℕ) (P : ℕ → Type κ) (h : (d : ℕ) → d < 16 → P (char d)) (w n : ℕ)
    → All P (hex_fixed char w n)
unfolding hex_fixed
All-hex_fixed char P h zero n = tt
All-hex_fixed char P h (suc w) n =
    All-append P _ _ (All-hex_fixed char P h w (n / 16)) (h (n % 16) (omega arith), tt)

pub hex_fixed_split :
    (char : ℕ → ℕ) (j k m n a b : ℕ)
    → m ≡ k + j
    → n ≡ a * 16 ^ k + b
    → b < 16 ^ k
    → hex_fixed char m n ≡ hex_fixed char j a ++ hex_fixed char k b
unfolding hex_fixed
hex_fixed_split char j zero m n a b em en h =
    let e₁ : m ≡ j = omega arith in
    let e₂ : n ≡ a = omega arith in rw (e₁, e₂) (sym (append-nil (hex_fixed char j a)))
hex_fixed_split char j (suc k) zero n a b em en h = absurd (omega arith)
hex_fixed_split char j (suc k) (suc m) n a b em en h =
    let en' : n ≡ a * (16 ^ k * 16) + b = rw (← pow-suc 16 k) en in
    let hb : b < 16 ^ k * 16 = rw (← pow-suc 16 k) h in
    let ih : hex_fixed char m (n / 16) ≡ hex_fixed char j a ++ hex_fixed char k (b / 16) =
      hex_fixed_split char j k m (n / 16) a (b / 16) (omega arith) (omega arith) (omega arith) in
    let last : n % 16 ≡ b % 16 = omega arith in
    rw (ih, last)
      (append_assoc (hex_fixed char j a) (hex_fixed char k (b / 16)) (char (b % 16) ∷ []))

-- The digits of a * 16 ^ k + b are those of a, and k digits of b.
pub hex_fixed-append :
    (char : ℕ → ℕ) (j k a b : ℕ)
    → b < 16 ^ k
    → hex_fixed char (k + j) (a * 16 ^ k + b) ≡ hex_fixed char j a ++ hex_fixed char k b
hex_fixed-append char j k a b h = hex_fixed_split char j k (k + j) _ a b refl refl h

digits16_step :
    (acc : ℕ) (must : Bool) (c v : ℕ) (s : Text)
    → hex_value c ≡ some v
    → digits16 acc must (c ∷ s) ≡ digits16 (acc * 16 + v) false s
unfolding digits16
digits16_step acc must c v s h = rw (h, digits16)

abbrev must_after : ℕ → Bool → Bool
must_after zero must = must
must_after (suc w) must = false

digits16-hex_fixed_append :
    (char : ℕ → ℕ) (alphabet : IsAlphabet char) (w n acc : ℕ) (must : Bool) (rest : Text)
    → n < 16 ^ w
    → digits16 acc must (hex_fixed char w n ++ rest)
      ≡ digits16 (acc * 16 ^ w + n) (must_after w must) rest
unfolding hex_fixed
digits16-hex_fixed_append char alphabet zero n acc must rest h =
    ap (λ (k : ℕ). digits16 k must rest) (omega arith)
digits16-hex_fixed_append char alphabet (suc w) n acc must rest h =
    let h' : n < 16 ^ w * 16 = rw (← pow-suc 16 w) h in
    let ih =
      digits16-hex_fixed_append char alphabet w (n / 16) acc must (char (n % 16) ∷ rest)
        (omega arith) in
    let value : (acc * 16 ^ w + n / 16) * 16 + n % 16 ≡ acc * 16 ^ suc w + n =
      omega (arith, pow-suc 16 w, ap (λ (t : ℕ). acc * t) (pow-suc 16 w)) in
    rw (append_assoc, ih)
      (digits16_step _ _ _ _ rest (alphabet.value (n % 16) (omega arith))
        ∙ ap (λ (k : ℕ). digits16 k false rest) value)

-- int(s, 16) on the digits of a number, without what stands around them.
pub digits16-hex_fixed :
    (char : ℕ → ℕ) (alphabet : IsAlphabet char) (w n : ℕ)
    → n < 16 ^ suc w
    → digits16 0 true (hex_fixed char (suc w) n) ≡ some n
unfolding digits16
digits16-hex_fixed char alphabet w n h =
    rw (← append-nil (hex_fixed char (suc w) n))
      (digits16-hex_fixed_append char alphabet (suc w) n 0 true [] h ∙ ap some (omega arith))

ne_hex : (c q : ℕ) → is_hex c ≡ true → is_hex q ≡ false → (c == q) ≡ false
ne_hex c q h hq = ground arith

no_prefix : (c d : ℕ) (s : Text) → is_hex d ≡ true → drop_prefix (c ∷ d ∷ s) ≡ c ∷ d ∷ s
no_prefix c d s h =
    rw (ne_hex d 120 h refl, ne_hex d 88 h refl)
      (elim (Bool-cases (c == 48)) [ inl e ↦ rw e | inr e ↦ rw e ])

signed16-plain :
    (s : Text) → All (λ c. is_hex c ≡ true) s → signed16 s ≡ Option.map pos (digits16 0 true s)
unfolding digits16
signed16-plain [] h = refl
signed16-plain (c ∷ []) h = rw (ne_hex c 45 h.0 refl) (rw (ne_hex c 43 h.0 refl) refl)
signed16-plain (c ∷ d ∷ s) h =
    rw (ne_hex c 45 h.0 refl) (
      rw (ne_hex c 43 h.0 refl)
        (ap (Option.map pos) (ap (digits16 0 true) (no_prefix c d s h.1.0))))

-- `int(s, 16)` reads the digits of a number that fits them.
pub int16-hex_fixed :
    (char : ℕ → ℕ) (alphabet : IsAlphabet char) (w n : ℕ)
    → n < 16 ^ suc w
    → int16 (hex_fixed char (suc w) n) ≡ ok (pos n)
unfolding int16
int16-hex_fixed char alphabet w n h =
    let plain = All-hex_fixed char (λ c. is_hex c ≡ true) alphabet.plain (suc w) n in
    rw
      (
        strip-none _ (All-mono not-is_space _ plain),
        signed16-plain _ plain,
        digits16-hex_fixed char alphabet w n h,
      )
      refl
