-- ===== src/Att/Session/Methods.antt =====
-- Every method of the client keeps what sending and a transaction keep.
use bluek.Prelude.{ℕ, zero, suc, ◌-◌, List, [], ◌∷◌, ◌++◌, Option, none, some, leb, length}
use bluek.Prelude.Result.{Error, att_error}
use bluek.Bytes.{Bytes}
use bluek.Att.State.{Client}
use bluek.Att.Request.{Answer, Exec, write, write_command}
use bluek.Att.Request.Keeps.{
  Keeps, Keeps-pure, Keeps-raise, Keeps-lift, Keeps-gets, Keeps-if, Keeps-catch, Keeps-bind,
  IsStable,
}
use bluek.Att.Reading.{read, add_blob, read_loop, read_blob, end_of_value}
use bluek.Att.Discovery.{
  Walk, end_of_attributes, ask, decode_response, next_round, walk_fuel, walk_page, walk_loop,
  run_walk,
}
use bluek.Att.Gatt.{GattCharacteristic, GattService}
use bluek.Att.Services.{
  discover, complete, end_before, discover_each, discover_characteristics, find_descriptors,
  find_information, read_by_type, read_by_group_type, info_walk,
}

ruleset keeps_rules =
    (Keeps-pure, Keeps-raise, Keeps-lift, Keeps-gets, Keeps-if, Keeps-catch, Keeps-bind)

module _ {P : Type 0} (answer : Answer P) {I : Client → Type 0} (stable : IsStable answer I) where
  pub write-Keeps : (handle : ℕ) (value : Bytes) → Keeps I (write answer handle value)
  unfolding write
  write-Keeps handle value = search (keeps_rules, stable.requests)

  pub write_command-Keeps :
      (handle : ℕ) (value : Bytes) → Keeps I (write_command answer handle value)
  unfolding write_command
  write_command-Keeps handle value = search (keeps_rules, stable.sends)

  end_of_value-Keeps : (e : Error) → Keeps I (end_of_value answer e)
  end_of_value-Keeps (att_error op handle code) = search keeps_rules
  end_of_value-Keeps _ = search keeps_rules

  read_blob-Keeps : (handle offset : ℕ) → Keeps I (read_blob answer handle offset)
  unfolding read_blob
  read_blob-Keeps handle offset = search (keeps_rules, stable.requests, end_of_value-Keeps)

  add_blob-Keeps :
      (loop : Bytes → Exec P Bytes) (value : Bytes)
      → ((v : Bytes) → Keeps I (loop v))
      → (blob : Bytes) → Keeps I (add_blob answer loop value blob)
  add_blob-Keeps loop value k [] = Keeps-pure I value
  add_blob-Keeps loop value k (x ∷ xs) = k (value ++ (x ∷ xs))

  read_loop-Keeps :
      (fuel handle mtu : ℕ) (value : Bytes) → Keeps I (read_loop answer fuel handle mtu value)
  unfolding read_loop
  read_loop-Keeps zero handle mtu value = search keeps_rules
  read_loop-Keeps (suc fuel) handle mtu value =
      Keeps-if I (leb (mtu - 1) (length value)) _ _
        (Keeps-bind I _ _ (read_blob-Keeps handle (length value)) (
          add_blob-Keeps (read_loop answer fuel handle mtu) value
            (read_loop-Keeps fuel handle mtu)))
        (Keeps-pure I value)

  pub read-Keeps : (handle : ℕ) → Keeps I (read answer handle)
  unfolding read
  read-Keeps handle = search (keeps_rules, stable.requests, read_loop-Keeps)

module _ {P A : Type 0} (answer : Answer P) {I : Client → Type 0} (stable : IsStable answer I)
    (walk : Walk A) where
  not_found-Keeps : (e : Error) → Keeps {P = P} I (end_of_attributes e)
  not_found-Keeps (att_error op handle code) = search keeps_rules
  not_found-Keeps _ = search keeps_rules

  decode-Keeps : (response : Option Bytes) → Keeps I (decode_response answer walk response)
  decode-Keeps none = Keeps-pure I none
  decode-Keeps (some b) = search keeps_rules

  ask-Keeps : (start stop : ℕ) → Keeps I (ask answer walk start stop)
  ask-Keeps start stop = search (keeps_rules, stable.requests)

  walk_page-Keeps : (start stop : ℕ) → Keeps I (walk_page answer walk start stop)
  unfolding walk_page
  walk_page-Keeps start stop =
      Keeps-bind I _ _
        (Keeps-catch I _ _ (Keeps-bind I _ _ (ask-Keeps start stop) (λ b. Keeps-pure I (some b)))
          not_found-Keeps)
        decode-Keeps

  next_round-Keeps :
      (loop : ℕ → List A → Exec P (List A)) (start : ℕ) (results : List A)
      → ((next : ℕ) (more : List A) → Keeps I (loop next more))
      → (found : Option (List A)) → Keeps I (next_round answer walk loop start results found)
  next_round-Keeps loop start results k none = Keeps-pure I results
  next_round-Keeps loop start results k (some page) = search (keeps_rules, k)

  walk_loop-Keeps :
      (fuel start stop : ℕ) (results : List A)
      → Keeps I (walk_loop answer walk fuel start stop results)
  unfolding walk_loop
  walk_loop-Keeps zero start stop results = search keeps_rules
  walk_loop-Keeps (suc fuel) start stop results =
      Keeps-if I (leb start stop) _ _
        (Keeps-bind I _ _ (walk_page-Keeps start stop) (
          next_round-Keeps (λ next more. walk_loop answer walk fuel next stop more) start results
            (λ next more. walk_loop-Keeps fuel next stop more)))
        (Keeps-pure I results)

  run_walk-Keeps : (start stop : ℕ) → Keeps I (run_walk answer walk start stop)
  unfolding run_walk
  run_walk-Keeps start stop = walk_loop-Keeps walk_fuel start stop []

module _ {P : Type 0} (answer : Answer P) {I : Client → Type 0} (stable : IsStable answer I) where
  find_descriptors-Keeps : (c : GattCharacteristic) → Keeps I (find_descriptors answer c)
  unfolding find_descriptors find_information
  find_descriptors-Keeps c =
      Keeps-if I _ _ _ (run_walk-Keeps answer stable info_walk _ _) (Keeps-pure I [])

  complete-Keeps :
      (service_end : ℕ) (cs : List GattCharacteristic) → Keeps I (complete answer service_end cs)
  unfolding complete
  complete-Keeps service_end [] = search keeps_rules
  complete-Keeps service_end (c ∷ rest) =
      Keeps-bind I _ _
        (find_descriptors-Keeps (record c { end_handle = end_before rest service_end }))
        (λ found. Keeps-bind I _ _ (complete-Keeps service_end rest) (λ others. Keeps-pure I _))

  characteristics-Keeps : (s : GattService) → Keeps I (discover_characteristics answer s)
  unfolding discover_characteristics read_by_type
  characteristics-Keeps s = search (keeps_rules, run_walk-Keeps answer stable, complete-Keeps)

  discover_each-Keeps : (ss : List GattService) → Keeps I (discover_each answer ss)
  unfolding discover_each
  discover_each-Keeps [] = search keeps_rules
  discover_each-Keeps (s ∷ rest) =
      Keeps-bind I _ _ (characteristics-Keeps s)
        (λ s'. Keeps-bind I _ _ (discover_each-Keeps rest) (λ others. Keeps-pure I (s' ∷ others)))

  pub discover-Keeps : Keeps I (discover answer)
  unfolding discover read_by_group_type
  discover-Keeps = search (keeps_rules, run_walk-Keeps answer stable, discover_each-Keeps)
