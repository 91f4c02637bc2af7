-- ===== src/Att/Discovery/Pages.antt =====
-- A response of a discovery request is cut into the entries it was made of.
use bluek.Prelude.{
  ◌≡◌, refl, sym, subst, ℕ, zero, suc, ◌<◌, ◌≤◌, List, [], ◌∷◌, ◌++◌, All, arith, length,
  length-append, take-append_length, drop-append_length, false, ltb, le→ltb, ◌==◌,
}
use bluek.Prelude.Result.{ok}
use bluek.Bytes.{Bytes}
use bluek.Att.Discovery.{Walk, chunks, decode_all, parse_page}

abbrev pub flatten : List Bytes → Bytes
flatten [] = []
flatten (e ∷ es) = e ++ flatten es

-- A response with the entries of `page`, all of the length that its second byte says.
pub record IsPage {A : Type 0} (walk : Walk A) (page : List A) (b : Bytes) : Type 0 where
  pub code : ℕ
  pub entries : List Bytes
  pub bytes : b ≡ walk.response_opcode ∷ code ∷ flatten entries
  pub positive : 0 < walk.entry_length code
  pub sized : All (λ e. length e ≡ walk.entry_length code) entries
  pub decoded : decode_all walk.decode entries ≡ ok page

pub chunks-flatten :
    (fuel n : ℕ) (es : List Bytes)
    → 0 < n
    → All (λ e. length e ≡ n) es
    → length (flatten es) ≤ fuel
    → chunks fuel n (flatten es) ≡ es
unfolding chunks
chunks-flatten zero n [] pos_n sized enough = refl
chunks-flatten (suc fuel) n [] pos_n sized enough = ground arith
chunks-flatten zero n (e ∷ es) pos_n sized enough =
    absurd (omega (arith, sized.0, length-append e (flatten es)))
chunks-flatten (suc fuel) n (e ∷ es) pos_n sized enough =
    let size = length-append e (flatten es) in
    let fits : ltb (length (e ++ flatten es)) n ≡ false =
      le→ltb _ n (omega (arith, sized.0, size)) in
    let rest = chunks-flatten fuel n es pos_n sized.1 (omega (arith, sized.0, size)) in
    rw (
      fits,
      drop-append_length n e (flatten es) sized.0,
      take-append_length n e (flatten es) sized.0,
      rest,
    )

module _ {A : Type 0} (walk : Walk A) where
  parse_flatten :
      (opcode code : ℕ) (entries : List Bytes) {page : List A}
      → 0 < walk.entry_length code
      → All (λ e. length e ≡ walk.entry_length code) entries
      → decode_all walk.decode entries ≡ ok page
      → parse_page walk (opcode ∷ code ∷ flatten entries) ≡ ok page
  unfolding parse_page
  parse_flatten opcode code entries pos_n sized decoded =
      let cut =
        chunks-flatten (length (flatten entries)) (walk.entry_length code) entries pos_n sized
          (omega arith) in
      let nonzero : (walk.entry_length code == 0) ≡ false = ground arith in
      rw (nonzero, cut, decoded)

  -- The client cuts and decodes a response into the entries it was made of.
  pub parse_page-IsPage :
      (page : List A) (b : Bytes) → IsPage walk page b → parse_page walk b ≡ ok page
  parse_page-IsPage page b h =
      subst (λ t. parse_page walk t ≡ ok page) (sym h.bytes)
        (parse_flatten walk.response_opcode h.code h.entries h.positive h.sized h.decoded)
