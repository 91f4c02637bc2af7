-- ===== src/Hci/Laws.antt =====
-- Which controller an adapter name stands for.
use bluek.Prelude.{
  ◌≡◌, ◌≢◌, refl, sym, ap, subst, ◌∙◌, ℕ, ◌<◌, List, [], ◌∷◌, All, true, false, Option, none, some,
  Text, text_eq, text_eq_iff, ltb, ◌==◌, IsIn, inl, inr, arith, Bool-cases,
}
use bluek.Prelude.Result.{Result, ok, err, ok-injective}
use bluek.Texts.{upper}
use bluek.Hci.{
  Controllers, hci_addr_for_index, hci_match, add_index, add_found, add_names, fallback,
  candidate_hci_indices, has_address, or_next, first_with, index_for_mac, mac_match,
  or_no_controller, is_default, adapter_index,
}

-- Each index is below those behind it.
abbrev pub Grows : List ℕ → Type 0
Grows [] = Unit
Grows (x ∷ xs) = All (λ y. x < y) xs × Grows xs

All-add_index :
    (x i : ℕ) (js : List ℕ) → x < i → All (λ y. x < y) js → All (λ y. x < y) (add_index i js)
unfolding add_index
All-add_index x i [] lt h = (lt, tt)
All-add_index x i (j ∷ js) lt h = elim (Bool-cases (ltb i j)) [
  | inl below ↦ rw below (lt, h)
  | inr above ↦ elim (Bool-cases (i == j)) [
    | inl same ↦ rw (above, same) h
    | inr other ↦ rw (above, other) (h.0, All-add_index x i js lt h.1)
  ]
]

All-below : (i j : ℕ) (js : List ℕ) → i < j → All (λ y. j < y) js → All (λ y. i < y) js
All-below i j [] lt h = tt
All-below i j (k ∷ js) lt h = (omega arith, All-below i j js lt h.1)

add_index-Grows : (i : ℕ) (js : List ℕ) → Grows js → Grows (add_index i js)
unfolding add_index
add_index-Grows i [] h = (tt, tt)
add_index-Grows i (j ∷ js) h = elim (Bool-cases (ltb i j)) [
  | inl below ↦ rw below ((ground arith, All-below i j js (ground arith) h.0), h)
  | inr above ↦ elim (Bool-cases (i == j)) [
    | inl same ↦ rw (above, same) h
    | inr other ↦
        rw (above, other) (All-add_index j i js (ground arith) h.0, add_index-Grows i js h.1)
  ]
]

add_found-Grows : (o : Option ℕ) (js : List ℕ) → Grows js → Grows (add_found o js)
add_found-Grows none js h = h
add_found-Grows (some i) js h = add_index-Grows i js h

add_names-Grows : (names : List Text) (js : List ℕ) → Grows js → Grows (add_names names js)
unfolding add_names
add_names-Grows [] js h = h
add_names-Grows (name ∷ names) js h =
    add_names-Grows names (add_found (hci_match name) js) (add_found-Grows (hci_match name) js h)

candidate_hci_indices-Grows : (sysfs : Option (List Text)) → Grows (candidate_hci_indices sysfs)
unfolding candidate_hci_indices
candidate_hci_indices-Grows none = omega arith
candidate_hci_indices-Grows (some names) = add_names-Grows names fallback (omega arith)

module _ (k : Controllers) (target : Text) where
  -- The first index of a list whose controller has the address.
  abbrev pub IsFirst : ℕ → List ℕ → Type 0
  IsFirst i is =
      IsIn i is
      × (hci_addr_for_index k i ≡ ok (some target))
      × ((j : ℕ) → IsIn j is → j < i → hci_addr_for_index k j ≢ ok (some target))

  below-first : (i j : ℕ) (is : List ℕ) → All (λ y. i < y) is → IsIn j is → i < j
  below-first i j [] h there = absurd there
  below-first i j (x ∷ is) h (inl same) = rw same h.0
  below-first i j (x ∷ is) h (inr later) = below-first i j is h.1 later

  has_address-eq : (a : Option Text) → has_address target a ≡ true → a ≡ some target
  has_address-eq none h = cc
  has_address-eq (some a) h = ap some ((text_eq_iff a target).0 h)

  has_address-ne : (a : Option Text) → has_address target a ≡ false → a ≢ some target
  has_address-ne none h e = cc
  has_address-ne (some a) h e =
      let same : a ≡ target = cc in
      let yes_ : text_eq a target ≡ true = (text_eq_iff a target).1 same in cc

  IsFirst-skip :
      (x i : ℕ) (is : List ℕ)
      → hci_addr_for_index k x ≢ ok (some target)
      → IsFirst i is
      → IsFirst i (x ∷ is)
  IsFirst-skip x i is ne (here, has, least) = (
    inr here,
    has,
    λ j there lt. elim there [
      | inl same ↦ subst (λ z. hci_addr_for_index k z ≢ ok (some target)) (sym same) ne
      | inr later ↦ least j later lt
    ],
  )

  or_next-IsFirst :
      (x i : ℕ) (is : List ℕ) (r : Result (Option Text))
      → Grows (x ∷ is)
      → hci_addr_for_index k x ≡ r
      → (first_with k target is ≡ ok (some i) → IsFirst i is)
      → or_next target x (first_with k target is) r ≡ ok (some i)
      → IsFirst i (x ∷ is)
  or_next-IsFirst x i is (err e) g at_ ih h = cc
  or_next-IsFirst x i is (ok a) g at_ ih h = elim (Bool-cases (has_address target a)) [
    | inl has ↦
        let h' : ok (some x) ≡ ok (some i) = rw has at h in
        let same : x ≡ i = cc in
        (
          inl (sym same),
          subst (λ z. hci_addr_for_index k z ≡ ok (some target)) same
              (at_ ∙ ap ok (has_address-eq a has)),
          λ j there lt. elim there [
            | inl first ↦ absurd (omega arith)
            | inr later ↦ let above : x < j = below-first x j is g.0 later in absurd (omega arith)
          ],
        )
    | inr lacks ↦
        let h' : first_with k target is ≡ ok (some i) = rw lacks at h in
        IsFirst-skip x i is (λ e. has_address-ne a lacks (ok-injective (sym at_ ∙ e))) (ih h')
  ]

  first_with-IsFirst :
      (i : ℕ) (is : List ℕ) → Grows is → first_with k target is ≡ ok (some i) → IsFirst i is
  unfolding first_with
  first_with-IsFirst i [] g h = cc
  first_with-IsFirst i (x ∷ is) g h =
      or_next-IsFirst x i is (hci_addr_for_index k x) g refl (first_with-IsFirst i is g.1) h

found : (r : Result (Option ℕ)) (i : ℕ) → or_no_controller r ≡ ok i → r ≡ ok (some i)
found (err e) i h = cc
found (ok none) i h = cc
found (ok (some j)) i h = let same : j ≡ i = cc in ap (λ z. ok (some z)) same

-- If a MAC address, which is neither the default nor an hci name, is given an index, the controller
-- with that index has the address in upper case, the index is a candidate, and no candidate below it
-- has the address.
pub adapter_index-IsFirst :
    (k : Controllers) (mac : Text) (i : ℕ)
    → is_default mac ≡ false
    → hci_match mac ≡ none
    → mac_match mac ≡ true
    → adapter_index k (some mac) ≡ ok i
    → IsFirst k (upper mac) i (candidate_hci_indices k.sysfs)
unfolding adapter_index index_for_mac
adapter_index-IsFirst k mac i given unnamed is_mac h =
    let h' : or_no_controller (index_for_mac k mac) ≡ ok i = rw (given, unnamed, is_mac) at h in
    first_with-IsFirst k (upper mac) i (candidate_hci_indices k.sysfs)
      (candidate_hci_indices-Grows k.sysfs) (found (index_for_mac k mac) i h')
