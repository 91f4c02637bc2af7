-- ===== src/Att/Fuel/Discover.antt =====
-- `discover` ends, whatever the peer answers.
use bluek.Prelude.{ℕ, List, [], ◌∷◌, ◌≢◌}
use bluek.Prelude.Result.{err, out_of_fuel}
use bluek.Att.Request.{Answer, World}
use bluek.Att.Gatt.{GattCharacteristic, GattService}
use bluek.Att.Services.{
  group_walk, type_walk, info_walk, find_descriptors, complete, discover_characteristics,
  discover_each, discover, find_information, read_by_type, read_by_group_type,
}
use bluek.Att.Fuel.{Finishes, Finishes-pure, Finishes-lift, Finishes-if, Finishes-bind, IsPython}
use bluek.Att.Fuel.Decoders.{
  ok-ne_out_of_fuel, decode_descriptor-ne_out_of_fuel, decode_characteristics-ne_out_of_fuel,
  decode_services-ne_out_of_fuel,
}
use bluek.Att.Fuel.Loops.{run_walk-Finishes}

module _ {P : Type 0} (answer : Answer P) (python : IsPython answer) where
  find_descriptors-Finishes : (c : GattCharacteristic) → Finishes (find_descriptors answer c)
  unfolding find_descriptors find_information
  find_descriptors-Finishes c =
      Finishes-if _ _ _
        (run_walk-Finishes info_walk decode_descriptor-ne_out_of_fuel answer python _ _)
        (Finishes-pure [])

  complete-Finishes :
      (service_end : ℕ) (cs : List GattCharacteristic) → Finishes (complete answer service_end cs)
  unfolding complete
  complete-Finishes service_end [] = Finishes-pure []
  complete-Finishes service_end (c ∷ rest) =
      Finishes-bind _ _ (find_descriptors-Finishes _) (λ found.
        Finishes-bind _ _ (complete-Finishes service_end rest) (λ others. Finishes-pure _))

  discover_characteristics-Finishes :
      (s : GattService) → Finishes (discover_characteristics answer s)
  unfolding discover_characteristics read_by_type
  discover_characteristics-Finishes s =
      Finishes-bind _ _
        (run_walk-Finishes (type_walk _) (λ e. ok-ne_out_of_fuel _) answer python _ _)
        (λ found.
          Finishes-bind _ _ (Finishes-lift _ (decode_characteristics-ne_out_of_fuel found))
            (λ bare. Finishes-bind _ _ (complete-Finishes _ bare) (λ chars. Finishes-pure _)))

  discover_each-Finishes : (ss : List GattService) → Finishes (discover_each answer ss)
  unfolding discover_each
  discover_each-Finishes [] = Finishes-pure []
  discover_each-Finishes (s ∷ rest) =
      Finishes-bind _ _ (discover_characteristics-Finishes s)
        (λ s'. Finishes-bind _ _ (discover_each-Finishes rest) (λ others. Finishes-pure _))

  -- Discovery ends for every peer and every order of events: it returns or raises an exception of
  -- Python's, and no loop runs out of its fuel. The peer is taken not to raise the model's own
  -- `out_of_fuel`.
  pub discover-total : (w : World P) → (discover answer w).0 ≢ err out_of_fuel
  unfolding discover read_by_group_type
  discover-total =
      (Finishes-bind _ _
        (run_walk-Finishes (group_walk _) (λ e. ok-ne_out_of_fuel _) answer python _ _)
        (λ groups.
          Finishes-bind _ _ (Finishes-lift _ (decode_services-ne_out_of_fuel groups))
            (λ services. discover_each-Finishes services))).at
