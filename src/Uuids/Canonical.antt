-- ===== src/Uuids/Canonical.antt =====
-- The canonical text of a UUID, and that `uuid.UUID` and `normalize_uuid_str` keep it.
use bluek.Prelude.{
  ℕ, zero, suc, ◌+◌, ◌^◌, ◌<◌, ◌≡◌, refl, ◌∙◌, List, [], ◌∷◌, ◌++◌, Bool, true, false, ◌&&◌, ◌||◌,
  ◌==◌, leb, length, length-append, length-take, length-drop, drop-drop, take, drop,
  take-append-drop, Text, All, arith, ap, codes, lt→ltb,
}
use bluek.Prelude.Result.{ok}
use bluek.Texts.{lower_char, replace, hex_fixed, hex_char, is_space, lower, strip}
use bluek.Texts.Laws.{
  All-append, All-mono, Lacks, strip_by-none, strip-none, lower-none, replace-Lacks, replace-piece,
}
use bluek.Texts.Hex.{hex_char-IsAlphabet, length-hex_fixed, All-hex_fixed, int16-hex_fixed}
use bluek.Uuids.{is_brace, uuid_digits, parse_uuid, uuid_text, widen, normalize_uuid_str}

-- The characters of a canonical text.
abbrev pub is_canonical : ℕ → Bool
is_canonical c = (leb 48 c && leb c 57) || (leb 97 c && leb c 102) || c == 45

abbrev pub AreCanonical : Text → Type 0
AreCanonical = All (λ c. is_canonical c ≡ true)

Lacks-other : (q : ℕ) (s : Text) → is_canonical q ≡ false → AreCanonical s → Lacks q s
Lacks-other q s hq h = All-mono (λ c hc. differs c hc) s h
  where
    differs : (c : ℕ) → is_canonical c ≡ true → (q == c) ≡ false
    differs c hc = ground arith

pub digit-is_canonical : (d : ℕ) → d < 16 → is_canonical (hex_char d) ≡ true
unfolding hex_char
digit-is_canonical d h = ground arith

-- The digits alone have no dash either.
digits-Lacks : (w n : ℕ) → Lacks 45 (hex_fixed hex_char w n)
digits-Lacks w n = All-hex_fixed hex_char (λ c. (45 == c) ≡ false) no_dash w n
  where
    no_dash : (d : ℕ) → d < 16 → (45 == hex_char d) ≡ false
    no_dash d h = unfold hex_char in ground arith

All-take {ℓ κ} : {A : Type ℓ} (P : A → Type κ) (n : ℕ) (xs : List A) → All P xs → All P (take n xs)
All-take P zero xs h = tt
All-take P (suc n) [] h = tt
All-take P (suc n) (x ∷ xs) h = (h.0, All-take P n xs h.1)

All-drop {ℓ κ} : {A : Type ℓ} (P : A → Type κ) (n : ℕ) (xs : List A) → All P xs → All P (drop n xs)
All-drop P zero xs h = h
All-drop P (suc n) [] h = tt
All-drop P (suc n) (x ∷ xs) h = All-drop P n xs h.1

-- Five parts joined by dashes, as `uuid_text` does it.
abbrev dashed : Text → Text → Text → Text → Text → Text
dashed a b c d e = a ++ (45 ∷ (b ++ (45 ∷ (c ++ (45 ∷ (d ++ (45 ∷ e)))))))

dashed-AreCanonical :
    (a b c d e : Text)
    → AreCanonical a
    → AreCanonical b
    → AreCanonical c
    → AreCanonical d
    → AreCanonical e
    → AreCanonical (dashed a b c d e)
dashed-AreCanonical a b c d e ha hb hc hd he =
    join a _ ha (join b _ hb (join c _ hc (join d _ hd he)))
  where
    join : (s t : Text) → AreCanonical s → AreCanonical t → AreCanonical (s ++ (45 ∷ t))
    join s t hs ht = All-append _ s (45 ∷ t) hs (refl, ht)

remove_dashes :
    (a b c d e : Text)
    → Lacks 45 a
    → Lacks 45 b
    → Lacks 45 c
    → Lacks 45 d
    → Lacks 45 e
    → replace (45 ∷ []) [] (dashed a b c d e) ≡ a ++ (b ++ (c ++ (d ++ e)))
remove_dashes a b c d e ha hb hc hd he =
    replace-piece 45 a _ ha
    ∙ ap (λ (t : Text). a ++ t)
        (replace-piece 45 b _ hb
          ∙ ap (λ (t : Text). b ++ t)
              (replace-piece 45 c _ hc
                ∙ ap (λ (t : Text). c ++ t)
                    (replace-piece 45 d _ hd
                      ∙ ap (λ (t : Text). d ++ t) (replace-Lacks 45 (45 ∷ []) [] e refl he))))

slices_join :
    (h : Text)
    → take 8 h ++ (take 4 (drop 8 h) ++ (take 4 (drop 12 h) ++ (take 4 (drop 16 h) ++ drop 20 h)))
      ≡ h
slices_join h =
    ap (λ (t : Text). take 8 h ++ t)
      (ap (λ (t : Text). take 4 (drop 8 h) ++ t)
          (ap (λ (t : Text). take 4 (drop 12 h) ++ t) (piece 4 16 20 refl) ∙ piece 4 12 16 refl)
        ∙ piece 4 8 12 refl)
    ∙ take-append-drop 8 h
  where
    piece : (k i j : ℕ) → j ≡ i + k → take k (drop i h) ++ drop j h ≡ drop i h
    piece k i j e = rw (← drop-drop k i j h e) (take-append-drop k (drop i h))

pub uuid_text-AreCanonical : (n : ℕ) → AreCanonical (uuid_text n)
unfolding uuid_text
uuid_text-AreCanonical n =
    dashed-AreCanonical _ _ _ _ _ (part 8 0) (part 4 8) (part 4 12) (part 4 16) (rest 20)
  where
    part : (k i : ℕ) → AreCanonical (take k (drop i (hex_fixed hex_char 32 n)))
    part k i = All-take _ k _ (
        All-drop _ i _
          (All-hex_fixed hex_char (λ c. is_canonical c ≡ true) digit-is_canonical 32 n))

    rest : (i : ℕ) → AreCanonical (drop i (hex_fixed hex_char 32 n))
    rest i =
        All-drop _ i _ (All-hex_fixed hex_char (λ c. is_canonical c ≡ true) digit-is_canonical 32 n)

uuid_digits-uuid_text : (n : ℕ) → uuid_digits (uuid_text n) ≡ hex_fixed hex_char 32 n
unfolding uuid_digits
uuid_digits-uuid_text n =
    let plain = uuid_text-AreCanonical n in
    rw
      (
        replace-Lacks 117 (codes "urn:") [] (uuid_text n) refl (Lacks-other 117 _ refl plain),
        replace-Lacks 117 (codes "uuid:") [] (uuid_text n) refl (Lacks-other 117 _ refl plain),
        strip_by-none is_brace (uuid_text n) (All-mono not_brace (uuid_text n) plain),
      )
      (unfold uuid_text in
        remove_dashes _ _ _ _ _ (part 8 0) (part 4 8) (part 4 12) (part 4 16) (rest 20)
        ∙ slices_join _)
  where
    not_brace : (c : ℕ) → is_canonical c ≡ true → is_brace c ≡ false
    not_brace c hc = unfold is_brace in ground arith

    part : (k i : ℕ) → Lacks 45 (take k (drop i (hex_fixed hex_char 32 n)))
    part k i = All-take _ k _ (All-drop _ i _ (digits-Lacks 32 n))

    rest : (i : ℕ) → Lacks 45 (drop i (hex_fixed hex_char 32 n))
    rest i = All-drop _ i _ (digits-Lacks 32 n)

-- uuid.UUID reads the number back from the canonical text.
pub parse_uuid-uuid_text : (n : ℕ) → n < 2 ^ 128 → parse_uuid (uuid_text n) ≡ ok n
unfolding parse_uuid
parse_uuid-uuid_text n h =
    rw (uuid_digits-uuid_text n, length-hex_fixed hex_char 32 n)
      (rw (int16-hex_fixed hex_char hex_char-IsAlphabet 31 n h, lt→ltb n (2 ^ 128) h) refl)

-- What normalize_uuid_str does first changes no text of canonical characters.
pub clean-canonical : (s : Text) → AreCanonical s → replace (codes "0x") [] (lower (strip s)) ≡ s
clean-canonical s h =
    rw (strip-none s (All-mono not_space s h), lower-none s (All-mono not_upper s h))
      (replace-Lacks 120 (codes "0x") [] s refl (Lacks-other 120 s refl h))
  where
    not_space : (c : ℕ) → is_canonical c ≡ true → is_space c ≡ false
    not_space c hc = unfold is_space in ground arith

    not_upper : (c : ℕ) → is_canonical c ≡ true → lower_char c ≡ c
    not_upper c hc = unfold lower_char in ground arith

pub length-uuid_text : (n : ℕ) → length (uuid_text n) ≡ 36
unfolding uuid_text
length-uuid_text n =
    omega
      (arith, length-append {0}, length-take {0}, length-drop {0}, length-hex_fixed hex_char 32 n)

pub normalize_uuid_str-uuid_text :
    (n : ℕ) → n < 2 ^ 128 → normalize_uuid_str (uuid_text n) ≡ ok (uuid_text n)
unfolding normalize_uuid_str widen
normalize_uuid_str-uuid_text n h =
    rw
      (
        clean-canonical (uuid_text n) (uuid_text-AreCanonical n),
        length-uuid_text n,
        parse_uuid-uuid_text n h,
      )
      refl
