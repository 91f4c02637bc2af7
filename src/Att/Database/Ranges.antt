-- ===== src/Att/Database/Ranges.antt =====
-- A handle range that covers one part of an ordered database.
use bluek.Prelude.{
  ◌≡◌, refl, ap, ◌∙◌, ℕ, ◌+◌, ◌<◌, ◌≤◌, List, [], ◌∷◌, ◌++◌, All, arith, leb, Bool-cases, inl, inr,
  ◌&&◌,
}
use mathlib.Core.List.{append-nil}
use bluek.Att.Discovery.Ranges.{IsAbove, IsOrdered, within}

module _ {A : Type 0} (first last : A → ℕ) where
  within-append :
      (s e : ℕ) (xs ys : List A)
      → within first last s e (xs ++ ys) ≡ within first last s e xs ++ within first last s e ys
  within-append s e [] ys = refl
  within-append s e (a ∷ xs) ys =
      let rest = within-append s e xs ys in
      elim (Bool-cases (leb s (first a) && leb (first a) e)) [
        | inl hit ↦ rw hit (ap (λ (l : List A). a ∷ l) rest)
        | inr miss ↦ rw miss rest
      ]

  -- The entries of a part, by their handles: above `n` and up to `m`.
  abbrev pub Between : ℕ → ℕ → List A → Type 0
  Between n m = All (λ a. (n < first a) × (first a ≤ m))

  within_low : (s e n m : ℕ) (xs : List A) → m < s → Between n m xs → within first last s e xs ≡ []
  within_low s e n m [] h b = refl
  within_low s e n m (a ∷ xs) h b = ground (arith, within_low s e n m xs h b.1, b.0)

  within_high : (s e n m : ℕ) (xs : List A) → e ≤ n → Between n m xs → within first last s e xs ≡ []
  within_high s e n m [] h b = refl
  within_high s e n m (a ∷ xs) h b = ground (arith, within_high s e n m xs h b.1, b.0)

  pub within_all :
      (s e n m : ℕ) (xs : List A)
      → s ≤ n + 1
      → m ≤ e
      → Between n m xs
      → within first last s e xs ≡ xs
  within_all s e n m [] h k b = refl
  within_all s e n m (a ∷ xs) h k b = ground (arith, within_all s e n m xs h k b.1, b.0)

  -- The range picks the part in the middle.
  pub within-middle :
      (s e n₀ m₀ n m n₁ m₁ : ℕ) (before part behind : List A)
      → m₀ < s
      → s ≤ n + 1
      → m ≤ e
      → e ≤ n₁
      → Between n₀ m₀ before
      → Between n m part
      → Between n₁ m₁ behind
      → within first last s e (before ++ (part ++ behind)) ≡ part
  within-middle s e n₀ m₀ n m n₁ m₁ before part behind low from_ to_ high b₀ b b₁ =
      within-append s e before (part ++ behind)
      ∙ ap (λ l. l ++ within first last s e (part ++ behind)) (within_low s e n₀ m₀ before low b₀)
      ∙ within-append s e part behind
      ∙ ap (λ l. l ++ within first last s e behind) (within_all s e n m part from_ to_ b)
      ∙ ap (λ l. part ++ l) (within_high s e n₁ m₁ behind high b₁)
      ∙ append-nil part

  IsAbove-append :
      (n m k l : ℕ) (xs ys : List A)
      → IsAbove first last l xs
      → l ≤ m
      → Between m k ys
      → IsAbove first last l (xs ++ ys)
  IsAbove-append n m k l [] [] above h b = tt
  IsAbove-append n m k l [] (y ∷ ys) above h b =
      (omega (arith, b.0.0), IsAbove-append n m k l [] ys above h b.1)
  IsAbove-append n m k l (x ∷ xs) ys above h b = (above.0, IsAbove-append n m k l xs ys above.1 h b)

  pub IsOrdered-append :
      (n m k : ℕ) (xs ys : List A)
      → IsOrdered first last xs
      → All (λ a. last a ≤ n) xs
      → Between m k ys
      → n ≤ m
      → IsOrdered first last ys
      → IsOrdered first last (xs ++ ys)
  IsOrdered-append n m k [] ys o u b h p = p
  IsOrdered-append n m k (a ∷ xs) ys (le, above, o) u b h p = (
    le,
    IsAbove-append n m k (last a) xs ys above (omega (arith, u.0)) b,
    IsOrdered-append n m k xs ys o u.1 b h p,
  )
