-- ===== src/Att/Fuel/Loops.antt =====
-- The loops of the client end, whatever the peer answers: their fuel is enough.
use bluek.Prelude.{
  ◌≡◌, ◌≢◌, ◌≤◌, ◌+◌, ◌||◌, ℕ, zero, suc, min, List, [], ◌∷◌, ◌++◌, false, Option, none, some,
  arith, Bool-cases, inl, inr, drop, length, length-append, leb, ltb, ◌<◌,
}
use bluek.Prelude.Result.{ok, err, Error, att_error, out_of_fuel}
use bluek.Bytes.{Bytes, to_bytes, byte_at}
use bluek.Att.Request.{Answer, World, Exec, lift, ◌>>=◌}
use bluek.Att.Reading.{end_of_value, ask_blob, read_blob, add_blob, read_loop, read_fuel, read}
use bluek.Att.Discovery.{
  Walk, decode_all, last_of, parse_page, end_of_attributes, decode_response, walk_page, next_round,
  walk_loop, run_walk, walk_fuel,
}
use bluek.Att.Fuel.Decoders.{
  value_error-ne_out_of_fuel, bind-ne_out_of_fuel, if-ne_out_of_fuel, byte_at-ne_out_of_fuel,
}
use bluek.Att.Fuel.{
  Finishes, Finishes-pure, Finishes-raise, Finishes-lift, Finishes-gets, Finishes-if,
  Finishes-catch, Finishes-bind, Finishes-bind_ok, lift_bind-ok, to_bytes-ne_out_of_fuel, IsPython,
  request-Finishes,
}

to_bytes-ok : (n : ℕ) {b : Bytes} → to_bytes n 2 ≡ ok b → n < 65536
unfolding to_bytes
to_bytes-ok n h = ground arith

module _ {P : Type 0} (answer : Answer P) (python : IsPython answer) where
  end_of_value-Finishes : (e : Error) → e ≢ out_of_fuel → Finishes (end_of_value answer e)
  end_of_value-Finishes (att_error op handle code) ne =
      Finishes-if _ _ _ (Finishes-pure []) (Finishes-raise _ ne)
  end_of_value-Finishes _ ne = Finishes-raise _ ne

  read_blob-Finishes : (handle offset : ℕ) → Finishes (read_blob answer handle offset)
  unfolding read_blob
  read_blob-Finishes handle offset =
      Finishes-bind _ _ (Finishes-lift _ (to_bytes-ne_out_of_fuel handle 2)) (λ h.
        Finishes-bind _ _ (Finishes-lift _ (to_bytes-ne_out_of_fuel offset 2)) (λ o.
          Finishes-catch _ _
            (Finishes-bind _ _ (request-Finishes answer python _ _) (λ b. Finishes-pure _))
            end_of_value-Finishes))

  -- An offset has two bytes.
  read_blob-offset :
      (handle offset : ℕ) (w : World P) {b : Bytes}
      → (read_blob answer handle offset w).0 ≡ ok b
      → offset < 65536
  unfolding read_blob
  read_blob-offset handle offset w h =
      let (hb, _, h') =
        lift_bind-ok (to_bytes handle 2) (λ hb. lift (to_bytes offset 2) >>= ask_blob answer hb) w
          h in
      let (ob, fits, _) = lift_bind-ok (to_bytes offset 2) (ask_blob answer hb) w h' in
      to_bytes-ok offset fits

  add_blob-Finishes :
      (loop : Bytes → Exec P Bytes) (value : Bytes)
      → ((x : ℕ) (xs : Bytes) → Finishes (loop (value ++ (x ∷ xs))))
      → (blob : Bytes) → Finishes (add_blob answer loop value blob)
  add_blob-Finishes loop value k [] = Finishes-pure value
  add_blob-Finishes loop value k (x ∷ xs) = k x xs

  read_loop-Finishes :
      (fuel handle mtu : ℕ) (value : Bytes)
      → 65537 ≤ fuel + min (length value) 65536
      → Finishes (read_loop answer fuel handle mtu value)
  unfolding read_loop
  read_loop-Finishes zero handle mtu value enough = absurd (omega arith)
  read_loop-Finishes (suc fuel) handle mtu value enough =
      Finishes-if _ _ _
        (Finishes-bind_ok _ _ (read_blob-Finishes handle (length value)) (λ w blob h.
          let small = read_blob-offset handle (length value) w h in
          add_blob-Finishes (read_loop answer fuel handle mtu) value
            (λ x xs.
              read_loop-Finishes fuel handle mtu (value ++ (x ∷ xs))
                (omega (arith, length-append value (x ∷ xs))))
            blob))
        (Finishes-pure value)

  read-Finishes : (handle : ℕ) → Finishes (read answer handle)
  unfolding read
  read-Finishes handle =
      Finishes-bind _ _ (Finishes-lift _ (to_bytes-ne_out_of_fuel handle 2)) (λ h.
        Finishes-bind _ _ (request-Finishes answer python _ _) (λ b.
          Finishes-bind _ _ (Finishes-gets (λ c. c.mtu))
            (λ mtu. read_loop-Finishes read_fuel handle mtu (drop 1 b) (omega arith))))

  -- Reading a value ends for every peer and every order of events: the loop does not run out of
  -- its fuel. The peer is taken not to raise the model's own `out_of_fuel`.
  pub read-total : (handle : ℕ) (w : World P) → (read answer handle w).0 ≢ err out_of_fuel
  read-total handle = (read-Finishes handle).at

goes_on :
    (last start : ℕ)
    → (leb 0xFFFF last || ltb last start) ≡ false
    → (start < last + 1) × (last + 1 ≤ 65535)
goes_on last start h = ground arith

module _ {A : Type 0} (walk : Walk A)
    (decodes : (e : Bytes) → walk.decode e ≢ err out_of_fuel) where
  decode_all-ne_out_of_fuel : (es : List Bytes) → decode_all walk.decode es ≢ err out_of_fuel
  unfolding decode_all
  decode_all-ne_out_of_fuel [] h = cc
  decode_all-ne_out_of_fuel (e ∷ es) h = ground (arith, decodes e, decode_all-ne_out_of_fuel es)

  parse_page-ne_out_of_fuel : (b : Bytes) → parse_page walk b ≢ err out_of_fuel
  unfolding parse_page
  parse_page-ne_out_of_fuel b =
      bind-ne_out_of_fuel (byte_at b 1) _ (byte_at-ne_out_of_fuel b 1)
        (λ n. if-ne_out_of_fuel _ _ _ value_error-ne_out_of_fuel (decode_all-ne_out_of_fuel _))

  module _ {P : Type 0} (answer : Answer P) (python : IsPython answer) where
    not_found-Finishes : (e : Error) → e ≢ out_of_fuel → Finishes {P = P} (end_of_attributes e)
    not_found-Finishes (att_error op handle code) ne =
        Finishes-if _ _ _ (Finishes-pure none) (Finishes-raise _ ne)
    not_found-Finishes _ ne = Finishes-raise _ ne

    decode-Finishes : (response : Option Bytes) → Finishes (decode_response answer walk response)
    decode-Finishes none = Finishes-pure none
    decode-Finishes (some b) =
        Finishes-bind _ _ (Finishes-lift _ (parse_page-ne_out_of_fuel b)) (λ page. Finishes-pure _)

    walk_page-Finishes : (start stop : ℕ) → Finishes (walk_page answer walk start stop)
    unfolding walk_page
    walk_page-Finishes start stop =
        Finishes-bind _ _
          (Finishes-catch _ _
            (Finishes-bind _ _
              (Finishes-bind _ _ (Finishes-lift _ (to_bytes-ne_out_of_fuel start 2)) (λ s.
                Finishes-bind _ _ (Finishes-lift _ (to_bytes-ne_out_of_fuel stop 2))
                  (λ e. request-Finishes answer python _ _)))
              (λ b. Finishes-pure _))
            not_found-Finishes)
          decode-Finishes

    next_round-Finishes :
        (loop : ℕ → List A → Exec P (List A)) (start : ℕ) (results : List A)
        → ((next : ℕ) (more : List A) → start < next → next ≤ 65535 → Finishes (loop next more))
        → (found : Option (List A)) → Finishes (next_round answer walk loop start results found)
    next_round-Finishes loop start results k none = Finishes-pure results
    next_round-Finishes loop start results k (some page) =
        let last = last_of walk.last_handle start page in
        elim (Bool-cases (leb 0xFFFF last || ltb last start)) [
          | inl stops ↦ rw stops (Finishes-pure _)
          | inr goes ↦
              let (above, below) = goes_on last start goes in rw goes (k (last + 1) _ above below)
        ]

    walk_loop-Finishes :
        (fuel start stop : ℕ) (results : List A)
        → 65537 ≤ fuel + min start 65536
        → Finishes (walk_loop answer walk fuel start stop results)
    unfolding walk_loop
    walk_loop-Finishes zero start stop results enough = absurd (omega arith)
    walk_loop-Finishes (suc fuel) start stop results enough =
        Finishes-if _ _ _
          (Finishes-bind _ _ (walk_page-Finishes start stop) (
            next_round-Finishes (λ next more. walk_loop answer walk fuel next stop more) start
              results
              (λ next more above below. walk_loop-Finishes fuel next stop more (omega arith))))
          (Finishes-pure results)

    -- A discovery primitive ends for every peer.
    pub run_walk-Finishes : (start stop : ℕ) → Finishes (run_walk answer walk start stop)
    unfolding run_walk
    run_walk-Finishes start stop = walk_loop-Finishes walk_fuel start stop [] (omega arith)
