-- ===== src/Att/Database/Found.antt =====
-- `discover` finds every tree, from every server that holds one.
use bluek.Prelude.{◌≡◌, refl, sym, ap, ◌∙◌, ℕ, ◌<◌, ◌≤◌, ◌^◌, List, [], ◌∷◌, ◌++◌, arith}
use mathlib.Core.List.{append_assoc}
use bluek.Texts.Laws.{All-append}
use bluek.Prelude.Result.{ok}
use bluek.Att.Codes.{primary_service, characteristic}
use bluek.Att.Gatt.{GattDescriptor, GattCharacteristic, GattService}
use bluek.Att.Request.{Answer, World, pure, lift, ◌>>=◌}
use bluek.Att.Request.Steps.{bind-eq-ok}
use bluek.Att.Discovery.{run_walk}
use bluek.Att.Discovery.Ranges.{within}
use bluek.Att.Discovery.Complete.{run_walk-within}
use bluek.Att.Services.{
  Attribute, group_walk, type_walk, decode_characteristics, decode_services, read_by_group_type,
  read_by_type, complete, discover_characteristics, discover_each, discover,
}
use bluek.Att.Database.{
  service_type, groups, char_declarations, declarations, char_attributes, attributes,
  AreCharacteristics, AreServices,
}
use bluek.Att.Database.Ranges.{within_all, within-middle}
use bluek.Att.Database.Bounds.{
  Between-widen, group_start, group_stop, attribute_handle, descriptor_handle, AttributesBetween,
  DescriptorsBetween, char_declarations-Between, char_attributes-Between, AreServices-le,
  groups-Between, declarations-Between, attributes-Between,
}
use bluek.Att.Database.Order.{groups-IsOrdered, declarations-IsOrdered}
use bluek.Att.Database.Decoded.{
  shell, shells, bares, decode_services-groups, decode_characteristics-declarations,
}
use bluek.Att.Database.Completed.{ServesTree, complete-tree}

module _ {P : Type 0} (answer : Answer P) (tree : List GattService) (ordered : AreServices 0 tree)
    (serves : ServesTree answer tree) where
  discover_characteristics-tree :
      (n : ℕ) (s : GattService) (pre_decls post_decls : List Attribute)
      (before behind : List GattDescriptor) (w : World P)
      → s.end_handle ≤ 65535
      → AreCharacteristics s.handle s.end_handle s.characteristics
      → n < s.handle
      → declarations tree ≡ pre_decls ++ (char_declarations s.characteristics ++ post_decls)
      → AttributesBetween 0 n pre_decls
      → AttributesBetween s.end_handle 65535 post_decls
      → attributes tree ≡ before ++ (char_attributes s.characteristics ++ behind)
      → DescriptorsBetween 0 s.handle before
      → DescriptorsBetween s.end_handle 65535 behind
      → (discover_characteristics answer (shell s) w).0 ≡ ok s
  unfolding discover_characteristics read_by_type
  discover_characteristics-tree n s pre_decls post_decls before behind w small chars low split₁ a₀
        a₁ split₂ b₀ b₁ =
      let start = s.handle in
      let stop = s.end_handle in
      let own = char_declarations s.characteristics in
      let bound : stop < 2 ^ 16 = omega arith in
      let picked : within attribute_handle attribute_handle start stop (declarations tree) ≡ own =
        ap (within attribute_handle attribute_handle start stop) split₁
        ∙ within-middle attribute_handle attribute_handle start stop 0 n start stop stop 65535
            pre_decls own post_decls low (omega arith) (omega arith) (omega arith) a₀
            (char_declarations-Between start stop s.characteristics chars) a₁ in
      let walked =
        run_walk-within answer (type_walk characteristic) stop bound attribute_handle
          (declarations tree) (declarations-IsOrdered 0 tree ordered) (serves.type_pages stop bound)
          start w in
      let decoded = decode_characteristics-declarations start stop s.characteristics small chars in
      let walk = run_walk answer (type_walk characteristic) start stop in
      let finish = λ (cs : List GattCharacteristic).
        pure {P = P} (record (shell s) { characteristics = cs }) in
      let w' = (walk w).1 in
      ap (λ z. z.0)
        (bind-eq-ok walk
          (λ found.
            lift (decode_characteristics found) >>= λ bare_. complete answer stop bare_ >>= finish)
          w (walked ∙ ap ok picked))
      ∙ ap (λ z. z.0)
          (bind-eq-ok (lift (decode_characteristics own))
            (λ bare_. complete answer stop bare_ >>= finish) w' decoded)
      ∙ ap (λ z. z.0)
          (bind-eq-ok (complete answer stop (bares s.characteristics)) finish w' (
            complete-tree answer tree ordered serves start stop s.characteristics before behind w'
              small chars split₂ b₀ b₁))

  -- The services from some place of the tree on.
  discover_each-tree :
      (n : ℕ) (ss : List GattService) (pre_decls : List Attribute) (before : List GattDescriptor)
      (w : World P)
      → AreServices n ss
      → declarations tree ≡ pre_decls ++ declarations ss
      → AttributesBetween 0 n pre_decls
      → attributes tree ≡ before ++ attributes ss
      → DescriptorsBetween 0 n before
      → (discover_each answer (shells ss) w).0 ≡ ok ss
  unfolding discover_each
  discover_each-tree n [] pre_decls before w h split₁ a₀ split₂ b₀ = refl
  discover_each-tree n (s ∷ rest) pre_decls before w (low, up, _, chars, more) split₁ a₀ split₂ b₀ =
      let start = s.handle in
      let stop = s.end_handle in
      let small = AreServices-le stop rest more in
      let own = char_declarations s.characteristics in
      let own' = char_attributes s.characteristics in
      let before' = before ++ (service_type s ∷ []) in
      let split' : attributes tree ≡ before' ++ (own' ++ attributes rest) =
        split₂ ∙ sym (append_assoc before (service_type s ∷ []) (own' ++ attributes rest)) in
      let upto : DescriptorsBetween 0 start before' =
        All-append _ before (service_type s ∷ [])
          (Between-widen descriptor_handle descriptor_handle 0 n 0 start before (omega arith)
            (omega arith) b₀)
          ((omega arith, omega arith), tt) in
      let here =
        discover_characteristics-tree n s pre_decls (declarations rest) before' (attributes rest) w
          small chars low split₁ a₀ (declarations-Between stop rest more) split' upto
          (attributes-Between stop rest more) in
      let w' = (discover_characteristics answer (shell s) w).1 in
      let others =
        discover_each-tree stop rest (pre_decls ++ own) (before' ++ own') w' more
          (split₁ ∙ sym (append_assoc pre_decls own (declarations rest)))
          (All-append _ pre_decls own
            (Between-widen attribute_handle attribute_handle 0 n 0 stop pre_decls (omega arith)
              (omega arith) a₀)
            (Between-widen attribute_handle attribute_handle start stop 0 stop own (omega arith)
              (omega arith) (char_declarations-Between start stop s.characteristics chars)))
          (split' ∙ sym (append_assoc before' own' (attributes rest)))
          (All-append _ before' own'
            (Between-widen descriptor_handle descriptor_handle 0 start 0 stop before' (omega arith)
              up upto)
            (Between-widen descriptor_handle descriptor_handle start stop 0 stop own' (omega arith)
              (omega arith) (char_attributes-Between start stop s.characteristics chars))) in
      let join = λ (s' : GattService) (others : List GattService). pure {P = P} (s' ∷ others) in
      ap (λ z. z.0)
        (bind-eq-ok (discover_characteristics answer (shell s))
          (λ s'. discover_each answer (shells rest) >>= join s') w here)
      ∙ ap (λ z. z.0) (bind-eq-ok (discover_each answer (shells rest)) (join s) w' others)

  -- From a server that holds a tree of services, with handles in order and UUIDs that have a form on
  -- the wire, `discover` returns exactly that tree, with every service, characteristic, end handle and
  -- descriptor in its place, in whatever pages the server answers.
  pub discover-tree : (w : World P) → (discover answer w).0 ≡ ok tree
  unfolding discover read_by_group_type
  discover-tree w =
      let walk = run_walk answer (group_walk primary_service) 1 65535 in
      let picked : within group_start group_stop 1 65535 (groups tree) ≡ groups tree =
        within_all group_start group_stop 1 65535 0 65535 (groups tree) (omega arith) (omega arith)
          (groups-Between 0 tree ordered) in
      let walked =
        run_walk-within answer (group_walk primary_service) 65535 (omega arith) group_start
          (groups tree) (groups-IsOrdered 0 tree ordered) serves.group_pages 1 w in
      let w' = (walk w).1 in
      ap (λ z. z.0)
        (bind-eq-ok walk (λ found. lift (decode_services found) >>= discover_each answer) w
          (walked ∙ ap ok picked))
      ∙ ap (λ z. z.0)
          (bind-eq-ok (lift (decode_services (groups tree))) (discover_each answer) w'
            (decode_services-groups 0 tree ordered))
      ∙ discover_each-tree 0 tree [] [] w' ordered refl tt refl tt
