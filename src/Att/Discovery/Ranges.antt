-- ===== src/Att/Discovery/Ranges.antt =====
-- The attributes of a handle range, in a database ordered by handle.
use bluek.Prelude.{
  ◌≡◌, refl, ap, subst, ◌∙◌, ℕ, ◌+◌, ◌<◌, ◌≤◌, List, [], ◌∷◌, ◌++◌, All, arith, leb, Bool-cases,
  inl, inr, ◌&&◌, if◌then◌else◌,
}
use bluek.Att.Discovery.{last_of}

module _ {A : Type 0} (first last : A → ℕ) where
  abbrev pub IsAbove : ℕ → List A → Type 0
  IsAbove n = All (λ a. n < first a)

  -- The entries do not overlap, and stand in the order of their handles.
  abbrev pub IsOrdered : List A → Type 0
  IsOrdered [] = Unit
  IsOrdered (a ∷ rest) = (first a ≤ last a) × IsAbove (last a) rest × IsOrdered rest

  abbrev pub cons_within : ℕ → ℕ → A → List A → List A
  cons_within start stop a rest =
      if leb start (first a) && leb (first a) stop then a ∷ rest else rest

  abbrev pub within : ℕ → ℕ → List A → List A
  within start stop [] = []
  within start stop (a ∷ db) = cons_within start stop a (within start stop db)

  abbrev from : ℕ → List A → List A
  from n [] = []
  from n (a ∷ xs) = let rest = from n xs in if leb n (first a) then a ∷ rest else rest

  within-from : (s n stop : ℕ) (db : List A) → s ≤ n → within n stop db ≡ from n (within s stop db)
  within-from s n stop [] h = refl
  within-from s n stop (a ∷ db) h = ground (arith, within-from s n stop db h)

  pub within_none : (start stop : ℕ) (db : List A) → stop < start → within start stop db ≡ []
  within_none start stop [] h = refl
  within_none start stop (a ∷ db) h = ground (arith, within_none start stop db h)

  IsAbove-within :
      (n start stop : ℕ) (db : List A) → IsAbove n db → IsAbove n (within start stop db)
  IsAbove-within n start stop [] h = tt
  IsAbove-within n start stop (a ∷ db) (h, k) =
      let rest = IsAbove-within n start stop db k in
      elim (Bool-cases (leb start (first a) && leb (first a) stop)) [
        | inl hit ↦ rw hit (h, rest)
        | inr miss ↦ rw miss rest
      ]

  within-IsOrdered :
      (start stop : ℕ) (db : List A) → IsOrdered db → IsOrdered (within start stop db)
  within-IsOrdered start stop [] h = tt
  within-IsOrdered start stop (a ∷ db) (h, above, k) =
      let rest = within-IsOrdered start stop db k in
      elim (Bool-cases (leb start (first a) && leb (first a) stop)) [
        | inl hit ↦ rw hit (h, IsAbove-within (last a) start stop db above, rest)
        | inr miss ↦ rw miss rest
      ]

  pub within-first :
      (start stop : ℕ) (db : List A) (a : A) (rest : List A)
      → within start stop db ≡ a ∷ rest
      → start ≤ first a
  within-first start stop [] a rest e = cc
  within-first start stop (b ∷ db) a rest e =
      elim (Bool-cases (leb start (first b) && leb (first b) stop)) [
        | inl hit ↦
            let e' = rw hit at e in
            let same : b ≡ a = cc in subst (λ t. start ≤ first t) same (ground arith)
        | inr miss ↦ within-first start stop db a rest (rw miss at e)
      ]

  from_above : (n : ℕ) (xs : List A) → IsAbove n xs → from (n + 1) xs ≡ xs
  from_above n [] h = refl
  from_above n (a ∷ xs) (h, k) = ground (arith, from_above n xs k)

  last_of-le :
      (m : ℕ) (page rest : List A)
      → IsOrdered (page ++ rest)
      → IsAbove m (page ++ rest)
      → m ≤ last_of last m page
  last_of-le m [] rest h above = omega arith
  last_of-le m (a ∷ page) rest (h, above', k) above =
      omega (arith, above.0, last_of-le (last a) page rest k above')

  from-page :
      (m : ℕ) (page rest : List A)
      → IsOrdered (page ++ rest)
      → IsAbove m (page ++ rest)
      → from (last_of last m page + 1) (page ++ rest) ≡ rest
  from-page m [] rest h above = from_above m rest above
  from-page m (a ∷ page) rest (h, above', k) above =
      let below = last_of-le (last a) page rest k above' in
      let later = from-page (last a) page rest k above' in ground arith

  -- Behind a page that starts a range, the rest of the range is left.
  pub within-page :
      (start stop : ℕ) (db : List A) (a : A) (page rest : List A)
      → IsOrdered db
      → within start stop db ≡ a ∷ (page ++ rest)
      → (start ≤ last_of last (last a) page)
        × (within (last_of last (last a) page + 1) stop db ≡ rest)
  within-page start stop db a page rest ordered e =
      let (h, above, k) = subst IsOrdered e (within-IsOrdered start stop db ordered) in
      let low = within-first start stop db a (page ++ rest) e in
      let upper = last_of-le (last a) page rest k above in
      let cut = from-page (last a) page rest k above in
      let n = last_of last (last a) page + 1 in
      let skipped : from n (a ∷ (page ++ rest)) ≡ rest = ground arith in
      (omega arith, within-from start n stop db (omega arith) ∙ ap (from n) e ∙ skipped)
