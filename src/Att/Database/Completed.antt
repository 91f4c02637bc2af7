-- ===== src/Att/Database/Completed.antt =====
-- The characteristics and descriptors of a service of a tree, from a server that holds it.
use bluek.Prelude.{
  ◌≡◌, refl, sym, ap, ◌∙◌, ℕ, ◌+◌, ◌<◌, ◌≤◌, ◌^◌, List, [], ◌∷◌, ◌++◌, arith, Bool-cases, inl, inr,
}
use mathlib.Core.List.{append_assoc}
use bluek.Texts.Laws.{All-append}
use bluek.Prelude.Int.{ℤ, pos, ltb_ℤ}
use bluek.Prelude.Result.{ok}
use bluek.Att.Codes.{primary_service, characteristic}
use bluek.Att.Gatt.{GattDescriptor, GattCharacteristic, GattService}
use bluek.Att.Request.{Answer, World, pure, ◌>>=◌}
use bluek.Att.Request.Steps.{bind-eq-ok}
use bluek.Att.Discovery.Ranges.{within}
use bluek.Att.Discovery.Complete.{ServesRange, run_walk-within}
use bluek.Att.Services.{
  group_walk, type_walk, info_walk, end_before, find_information, find_descriptors, complete,
}
use bluek.Att.Database.{
  decl_type, value_type, groups, declarations, char_attributes, attributes, AreDescriptors,
  char_stop, AreCharacteristics, AreServices,
}
use bluek.Att.Database.Ranges.{within-middle}
use bluek.Att.Database.Bounds.{
  Between-widen, group_start, attribute_handle, descriptor_handle, DescriptorsBetween,
  AreDescriptors-Between, AreCharacteristics-le, char_attributes-Between,
}
use bluek.Att.Database.Order.{attributes-IsOrdered}
use bluek.Att.Database.Decoded.{bare, bares}

-- A server that holds the tree: it answers each request of the three walks, for every range, with
-- one or more of the first entries of the range, in pages of any sizes, or attribute-not-found.
pub record ServesTree {P : Type 0} (answer : Answer P) (tree : List GattService) : Type 0 where
  pub group_pages : ServesRange answer (group_walk primary_service) group_start (groups tree) 65535
  pub type_pages :
      (stop : ℕ)
      → stop < 2 ^ 16
      → ServesRange answer (type_walk characteristic) attribute_handle (declarations tree) stop
  pub info_pages :
      (stop : ℕ)
      → stop < 2 ^ 16
      → ServesRange answer info_walk descriptor_handle (attributes tree) stop

no_descriptors : (n m : ℕ) (ds : List GattDescriptor) → m ≤ n → AreDescriptors n m ds → [] ≡ ds
no_descriptors n m [] h found = refl
no_descriptors n m (d ∷ ds) h (low, high, _) = absurd (omega arith)

end_before-bares :
    (n e : ℕ) (rest : List GattCharacteristic)
    → AreCharacteristics n e rest
    → end_before (bares rest) e ≡ pos (char_stop rest e)
end_before-bares n e [] h = refl
end_before-bares n e (next ∷ rest) (low, _, _, _, _, _, _) = ground arith

-- The characteristic that `complete` makes is the one of the tree.
completed :
    (c : GattCharacteristic) (end : ℤ)
    → end ≡ c.end_handle
    → Path GattCharacteristic (record (bare c) { end_handle = end; descriptors = c.descriptors }) c
completed c end h = ap (λ (z : ℤ). record c { end_handle = z }) h

module _ {P : Type 0} (answer : Answer P) (tree : List GattService) (ordered : AreServices 0 tree)
    (serves : ServesTree answer tree) where
  -- The range of a characteristic's descriptors.
  find_descriptors-tree :
      (c : GattCharacteristic) (ds : List GattDescriptor) (m n₁ m₁ : ℕ)
      (before behind : List GattDescriptor) (w : World P)
      → m < 65536
      → c.end_handle ≡ pos m
      → AreDescriptors c.value_handle m ds
      → attributes tree ≡ before ++ (ds ++ behind)
      → DescriptorsBetween 0 c.value_handle before
      → m ≤ n₁
      → DescriptorsBetween n₁ m₁ behind
      → (find_descriptors answer c w).0 ≡ ok ds
  unfolding find_descriptors find_information
  find_descriptors-tree c ds m n₁ m₁ before behind w small end found split b₀ h b₁ =
      let v = c.value_handle in
      let picked : within descriptor_handle descriptor_handle (v + 1) m (attributes tree) ≡ ds =
        ap (within descriptor_handle descriptor_handle (v + 1) m) split
        ∙ within-middle descriptor_handle descriptor_handle (v + 1) m 0 v v m n₁ m₁ before ds behind
            (omega arith) (omega arith) (omega arith) h b₀ (AreDescriptors-Between v m ds found)
            b₁ in
      let walked =
        run_walk-within answer info_walk m small descriptor_handle (attributes tree)
          (attributes-IsOrdered 0 tree ordered) (serves.info_pages m small) (v + 1) w in
      elim (Bool-cases (ltb_ℤ (pos v) (pos m))) [
        | inl some_ ↦ rw (end, some_) (walked ∙ ap ok picked)
        | inr none_ ↦ rw (end, none_) (ap ok (no_descriptors v m ds (ground arith) found))
      ]

  -- The descriptors in front of those of `c`.
  abbrev up_to_value : List GattDescriptor → GattCharacteristic → List GattDescriptor
  up_to_value before c = before ++ (decl_type c ∷ value_type c ∷ [])

  pub complete-tree :
      (n e : ℕ) (cs : List GattCharacteristic) (before behind : List GattDescriptor) (w : World P)
      → e ≤ 65535
      → AreCharacteristics n e cs
      → attributes tree ≡ before ++ (char_attributes cs ++ behind)
      → DescriptorsBetween 0 n before
      → DescriptorsBetween e 65535 behind
      → (complete answer e (bares cs) w).0 ≡ ok cs
  unfolding complete
  complete-tree n e [] before behind w small h split b₀ b₁ = refl
  complete-tree n e (c ∷ rest) before behind w small (low, value, stop, end, _, found, more) split
        b₀ b₁ =
      let last = char_stop rest e in
      let up = AreCharacteristics-le last e rest more in
      let ended : end_before (bares rest) e ≡ pos last = end_before-bares last e rest more in
      let c' : GattCharacteristic = record (bare c) { end_handle = end_before (bares rest) e } in
      let before' = up_to_value before c in
      let behind' = char_attributes rest ++ behind in
      let split' : attributes tree ≡ before' ++ (c.descriptors ++ behind') =
        split
        ∙ ap (λ l. before ++ (decl_type c ∷ value_type c ∷ l))
            (append_assoc c.descriptors (char_attributes rest) behind)
        ∙ sym (append_assoc before (decl_type c ∷ value_type c ∷ []) (c.descriptors ++ behind')) in
      let upto : DescriptorsBetween 0 c.value_handle before' =
        All-append _ before (decl_type c ∷ value_type c ∷ [])
          (Between-widen descriptor_handle descriptor_handle 0 n 0 c.value_handle before
            (omega arith) (omega arith) b₀)
          ((omega arith, omega arith), ((omega arith, omega arith), tt)) in
      let later : DescriptorsBetween last 65535 behind' =
        All-append _ (char_attributes rest) behind
          (Between-widen descriptor_handle descriptor_handle last e last 65535
            (char_attributes rest) (omega arith) small (char_attributes-Between last e rest more))
          (Between-widen descriptor_handle descriptor_handle e 65535 last 65535 behind up
            (omega arith) b₁) in
      let own =
        find_descriptors-tree c' c.descriptors last last 65535 before' behind' w (omega arith) ended
          found split' upto (omega arith) later in
      let w' = (find_descriptors answer c' w).1 in
      let others =
        complete-tree last e rest (before' ++ c.descriptors) behind w' small more
          (split' ∙ sym (append_assoc before' c.descriptors behind'))
          (All-append _ before' c.descriptors
            (Between-widen descriptor_handle descriptor_handle 0 c.value_handle 0 last before'
              (omega arith) stop upto)
            (Between-widen descriptor_handle descriptor_handle c.value_handle last 0 last
              c.descriptors (omega arith) (omega arith)
              (AreDescriptors-Between c.value_handle last c.descriptors found)))
          b₁ in
      let join = λ (found : List GattDescriptor) (others : List GattCharacteristic).
        pure {P = P} (record c' { descriptors = found } ∷ others) in
      ap (λ z. z.0)
        (bind-eq-ok (find_descriptors answer c')
          (λ found. complete answer e (bares rest) >>= join found) w own)
      ∙ ap (λ z. z.0) (bind-eq-ok (complete answer e (bares rest)) (join c.descriptors) w' others)
      ∙ ap (λ c. ok (c ∷ rest)) (completed c (end_before (bares rest) e) (ended ∙ sym end))
