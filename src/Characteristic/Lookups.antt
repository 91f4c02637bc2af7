-- ===== src/Characteristic/Lookups.antt =====
-- What the lookups of a collection find.
use bluek.Prelude.{
  ◌≡◌, refl, sym, ap, ◌∙◌, ℕ, List, [], ◌∷◌, ◌++◌, false, Option, none, some, Text, text_eq,
  text_eq_iff, ◌==◌, Bool-cases, inl, inr, if◌then◌else◌,
}
use mathlib.Core.List.{append_assoc}
use bluek.Prelude.Dict.{Dict, nat_eq, text_keys, lookup, insert, lookup-insert}
use bluek.Characteristic.{
  BleakGattDescriptor, BleakGattCharacteristic, BleakGattService, BleakGattServiceCollection,
  empty_collection, set_default, add_descriptors, add_characteristic, add_characteristics,
  add_services, collection,
}

-- The characteristics of the services, in order.
abbrev pub all_characteristics : List BleakGattService → List BleakGattCharacteristic
all_characteristics [] = []
all_characteristics (s ∷ ss) = s.characteristics ++ all_characteristics ss

abbrev pub all_descriptors : List BleakGattCharacteristic → List BleakGattDescriptor
all_descriptors [] = []
all_descriptors (c ∷ cs) = c.descriptors ++ all_descriptors cs

-- The last item with a handle.
module _ {A : Type 0} (handle : A → ℕ) where
  abbrev pub last_with : ℕ → List A → Option A → Option A
  last_with h [] found = found
  last_with h (x ∷ xs) found = last_with h xs (if handle x == h then some x else found)

  pub last_with-append :
      (h : ℕ) (xs ys : List A) (found : Option A)
      → last_with h (xs ++ ys) found ≡ last_with h ys (last_with h xs found)
  last_with-append h [] ys found = refl
  last_with-append h (x ∷ xs) ys found = last_with-append h xs ys _

-- The first characteristic with a UUID, after one that is known.
abbrev pub first_with :
    Text
    → List BleakGattCharacteristic
    → Option BleakGattCharacteristic
    → Option BleakGattCharacteristic
first_with u [] found = found
first_with u (c ∷ cs) (some found) = some found
first_with u (c ∷ cs) none = first_with u cs (if text_eq c.uuid u then some c else none)

first_with-found :
    (u : Text) (cs : List BleakGattCharacteristic) (c : BleakGattCharacteristic)
    → first_with u cs (some c) ≡ some c
first_with-found u [] c = refl
first_with-found u (d ∷ cs) c = refl

add_descriptors-lookup :
    (ds : List BleakGattDescriptor) (h : ℕ) (d : Dict ℕ BleakGattDescriptor)
    → lookup h (add_descriptors ds d) ≡ last_with (λ x. x.handle) h ds (lookup h d)
add_descriptors-lookup [] h d = refl
add_descriptors-lookup (x ∷ xs) h d =
    add_descriptors-lookup xs h (insert x.handle x d)
    ∙ ap (last_with (λ x. x.handle) h xs) (lookup-insert x.handle h x d)

first_with-other :
    (u : Text) (c : BleakGattCharacteristic) (cs : List BleakGattCharacteristic)
    (found : Option BleakGattCharacteristic)
    → text_eq c.uuid u ≡ false
    → first_with u cs found ≡ first_with u (c ∷ cs) found
first_with-other u c cs none other = rw other refl
first_with-other u c cs (some y) other = first_with-found u cs y

set_default-lookup :
    (c : BleakGattCharacteristic) (u : Text) (d : Dict Text BleakGattCharacteristic)
    (r : Option BleakGattCharacteristic) (cs : List BleakGattCharacteristic)
    → lookup c.uuid d ≡ r
    → first_with u cs (lookup u (set_default c.uuid c d r)) ≡ first_with u (c ∷ cs) (lookup u d)
set_default-lookup c u d (some x) cs e = elim (Bool-cases (text_eq c.uuid u)) [
  | inl same ↦
      let here : c.uuid ≡ u = (text_eq_iff c.uuid u).0 same in
      let there : lookup u d ≡ some x = ap (λ t. lookup t d) (sym here) ∙ e in
      rw there (first_with-found u cs x)
  | inr other ↦ first_with-other u c cs (lookup u d) other
]
set_default-lookup c u d none cs e =
    rw (lookup-insert c.uuid u c d) (elim (Bool-cases (text_eq c.uuid u)) [
      | inl same ↦
          let here : c.uuid ≡ u = (text_eq_iff c.uuid u).0 same in
          let there : lookup u d ≡ none = ap (λ t. lookup t d) (sym here) ∙ e in
          rw same (rw there (rw same refl))
      | inr other ↦ rw other (first_with-other u c cs (lookup u d) other)
    ])

-- What the three dicts of a collection hold, if `cs` is added to what `t` holds.
abbrev Finds :
    BleakGattServiceCollection → BleakGattServiceCollection → List BleakGattCharacteristic → Type 0
Finds t t' cs =
    ((h : ℕ)
      → lookup h t'.by_char_handle ≡ last_with (λ c. c.handle) h cs (lookup h t.by_char_handle))
    × ((u : Text) → lookup u t'.by_char_uuid ≡ first_with u cs (lookup u t.by_char_uuid))
    × ((h : ℕ)
        → lookup h t'.by_desc_handle
          ≡ last_with (λ d. d.handle) h (all_descriptors cs) (lookup h t.by_desc_handle))

add_characteristics-Finds :
    (cs : List BleakGattCharacteristic) (t : BleakGattServiceCollection)
    → Finds t (add_characteristics cs t) cs
unfolding add_characteristics add_characteristic
add_characteristics-Finds [] t = ((λ h. refl), (λ u. refl), (λ h. refl))
add_characteristics-Finds (c ∷ cs) t =
    let (handles, uuids, descs) = add_characteristics-Finds cs (add_characteristic c t) in
    (
      λ h.
          handles h
          ∙ ap (last_with (λ c. c.handle) h cs) (lookup-insert c.handle h c t.by_char_handle),
      λ u. uuids u ∙ set_default-lookup c u t.by_char_uuid (lookup c.uuid t.by_char_uuid) cs refl,
      λ h.
          descs h
          ∙ ap (last_with (λ d. d.handle) h (all_descriptors cs))
              (add_descriptors-lookup c.descriptors h t.by_desc_handle)
          ∙ sym (
              last_with-append (λ d. d.handle) h c.descriptors (all_descriptors cs)
                (lookup h t.by_desc_handle)),
    )

first_with-append :
    (u : Text) (xs ys : List BleakGattCharacteristic) (found : Option BleakGattCharacteristic)
    → first_with u (xs ++ ys) found ≡ first_with u ys (first_with u xs found)
first_with-append u [] ys found = refl
first_with-append u (x ∷ xs) ys (some c) = sym (first_with-found u ys c)
first_with-append u (x ∷ xs) ys none = first_with-append u xs ys _

all_descriptors-append :
    (xs ys : List BleakGattCharacteristic)
    → all_descriptors (xs ++ ys) ≡ all_descriptors xs ++ all_descriptors ys
all_descriptors-append [] ys = refl
all_descriptors-append (x ∷ xs) ys =
    ap (λ t. x.descriptors ++ t) (all_descriptors-append xs ys)
    ∙ sym (append_assoc x.descriptors (all_descriptors xs) (all_descriptors ys))

add_services-Finds :
    (ss : List BleakGattService) (t : BleakGattServiceCollection)
    → Finds t (add_services ss t) (all_characteristics ss)
unfolding add_services
add_services-Finds [] t = ((λ h. refl), (λ u. refl), (λ h. refl))
add_services-Finds (s ∷ ss) t =
    let cs = s.characteristics in
    let more = all_characteristics ss in
    let (handles, uuids, descs) = add_services-Finds ss (add_characteristics cs t) in
    let (handles', uuids', descs') = add_characteristics-Finds cs t in
    (
      λ h.
          handles h
          ∙ ap (last_with (λ c. c.handle) h more) (handles' h)
          ∙ sym (last_with-append (λ c. c.handle) h cs more (lookup h t.by_char_handle)),
      λ u.
          uuids u
          ∙ ap (first_with u more) (uuids' u)
          ∙ sym (first_with-append u cs more (lookup u t.by_char_uuid)),
      λ h.
          descs h
          ∙ ap (last_with (λ d. d.handle) h (all_descriptors more)) (descs' h)
          ∙ sym (
              last_with-append (λ d. d.handle) h (all_descriptors cs) (all_descriptors more)
                (lookup h t.by_desc_handle))
          ∙ ap (λ ds. last_with (λ d. d.handle) h ds (lookup h t.by_desc_handle))
              (sym (all_descriptors-append cs more)),
    )

-- Of the characteristics of a collection, a lookup by handle finds the last that has the handle, one
-- by UUID the first that has the UUID, and a lookup of a descriptor the last that has the handle.
pub collection-lookup :
    (ss : List BleakGattService)
    → ((h : ℕ)
        → lookup h (collection ss).by_char_handle
          ≡ last_with (λ c. c.handle) h (all_characteristics ss) none)
      × ((u : Text)
          → lookup u (collection ss).by_char_uuid ≡ first_with u (all_characteristics ss) none)
      × ((h : ℕ)
          → lookup h (collection ss).by_desc_handle
            ≡ last_with (λ d. d.handle) h (all_descriptors (all_characteristics ss)) none)
unfolding collection lookup
collection-lookup ss = add_services-Finds ss (empty_collection ss)
