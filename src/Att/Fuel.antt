-- ===== src/Att/Fuel.antt =====
-- Coroutines that do not run out of fuel, with a rule for each way to build one. The peer is
-- taken not to hand the model's own `out_of_fuel` to the client.
pub mod Decoders
pub mod Loops
pub mod Discover
use bluek.Prelude.{
  ◌≡◌, ◌≢◌, refl, ◌∙◌, sym, ap, ℕ, List, [], ◌∷◌, Bool, true, false, Option, none, some, All, arith,
  Bool-cases, inl, inr, if◌then◌else◌,
}
use bluek.Prelude.Result.{Result, ok, err, Error, att_error, out_of_fuel}
use bluek.Bytes.{Bytes, to_bytes}
use bluek.Att.State.{Client, Event, received, closed, Future, waiting, resolved, failed}
use bluek.Att.State.Demux.{answers, answer_data, outcome}
use bluek.Att.Request.{
  Answer, World, Round, Exec, pure, raise, lift, gets, catch, ◌>>=◌, request, check_response,
  raise_error_rsp, await_future,
}
use bluek.Att.Request.Outcomes.{request-outcome}

pub err-injective : {A : Type 0} {e e' : Error} → Path (Result A) (err e) (err e') → e ≡ e'
err-injective h = cc

pub record Finishes {P A : Type 0} (m : Exec P A) : Type 0 where
  pub at : (w : World P) → (m w).0 ≢ err out_of_fuel

module _ {P A : Type 0} where
  pub Finishes-pure : (a : A) → Finishes {P = P} (pure a)
  Finishes-pure a = record { at = λ w h. cc }

  pub Finishes-raise : (e : Error) → e ≢ out_of_fuel → Finishes {P = P} {A = A} (raise e)
  Finishes-raise e ne = record { at = λ w h. ne (err-injective h) }

  pub Finishes-lift : (r : Result A) → r ≢ err out_of_fuel → Finishes {P = P} (lift r)
  Finishes-lift r ne = record { at = λ w h. ne h }

  pub Finishes-gets : (f : Client → A) → Finishes {P = P} (gets f)
  Finishes-gets f = record { at = λ w h. cc }

  pub Finishes-if :
      (b : Bool) (m n : Exec P A) → Finishes m → Finishes n → Finishes (if b then m else n)
  Finishes-if true m n km kn = km
  Finishes-if false m n km kn = kn

  catch_end :
      (r : Result A) (handler : Error → Exec P A) (w : World P)
      → ((e : Error) → e ≢ out_of_fuel → Finishes (handler e))
      → r ≢ err out_of_fuel
      → (catch (λ (_ : World P). (r, w)) handler w).0 ≢ err out_of_fuel
  catch_end (ok a) handler w kh h e = cc
  catch_end (err e) handler w kh h k = (kh e (λ t. h (ap err t))).at w k

  pub Finishes-catch :
      (m : Exec P A) (handler : Error → Exec P A)
      → Finishes m
      → ((e : Error) → e ≢ out_of_fuel → Finishes (handler e))
      → Finishes (catch m handler)
  Finishes-catch m handler km kh = record {
    at = λ w. let (r, w') = m w in catch_end r handler w' kh (km.at w);
  }

module _ {P A B : Type 0} where
  bind_end :
      (r : Result A) (f : A → Exec P B) (w : World P)
      → ((a : A) → r ≡ ok a → Finishes (f a))
      → r ≢ err out_of_fuel
      → (((λ (_ : World P). (r, w)) >>= f) w).0 ≢ err out_of_fuel
  bind_end (ok a) f w kf h k = (kf a refl).at w k
  bind_end (err e) f w kf h k = h (ap err (err-injective k))

  pub Finishes-bind :
      (m : Exec P A) (f : A → Exec P B)
      → Finishes m
      → ((a : A) → Finishes (f a))
      → Finishes (m >>= f)
  Finishes-bind m f km kf = record {
    at = λ w. let (r, w') = m w in bind_end r f w' (λ a _. kf a) (km.at w);
  }

  pub Finishes-bind_ok :
      (m : Exec P A) (f : A → Exec P B)
      → Finishes m
      → ((w : World P) (a : A) → (m w).0 ≡ ok a → Finishes (f a))
      → Finishes (m >>= f)
  Finishes-bind_ok m f km kf = record {
    at = λ w. let (r, w') = m w in bind_end r f w' (kf w) (km.at w);
  }

  pub lift_bind-ok :
      (r : Result A) (f : A → Exec P B) (w : World P) {b : B}
      → ((lift r >>= f) w).0 ≡ ok b
      → (a : A) × (r ≡ ok a) × ((f a w).0 ≡ ok b)
  lift_bind-ok (ok a) f w h = (a, refl, h)
  lift_bind-ok (err e) f w h = cc

pub to_bytes-ne_out_of_fuel : (n w : ℕ) → to_bytes n w ≢ err out_of_fuel
unfolding to_bytes
to_bytes-ne_out_of_fuel n w h = ground arith

-- The peer's own exceptions are Python's.
abbrev pub IsPythonEvent : Event → Type 0
IsPythonEvent (received b) = Unit
IsPythonEvent (closed none) = Unit
IsPythonEvent (closed (some e)) = e ≢ out_of_fuel

abbrev pub IsPythonRound : Round → Type 0
IsPythonRound r = (r.send_error ≢ some out_of_fuel) × All IsPythonEvent r.events

raise_error_rsp-ne_out_of_fuel : (b : Bytes) → raise_error_rsp b ≢ err out_of_fuel
unfolding raise_error_rsp
raise_error_rsp-ne_out_of_fuel [] h = cc
raise_error_rsp-ne_out_of_fuel (a ∷ []) h = cc
raise_error_rsp-ne_out_of_fuel (a ∷ b ∷ []) h = cc
raise_error_rsp-ne_out_of_fuel (a ∷ b ∷ c ∷ []) h = cc
raise_error_rsp-ne_out_of_fuel (a ∷ b ∷ c ∷ d ∷ []) h = cc
raise_error_rsp-ne_out_of_fuel (a ∷ b ∷ c ∷ d ∷ e ∷ rest) h = cc

check_response-ne_out_of_fuel : (q : ℕ) (b : Bytes) → check_response q b ≢ err out_of_fuel
unfolding check_response
check_response-ne_out_of_fuel q [] h = cc
check_response-ne_out_of_fuel q (opcode ∷ rest) h =
    ground (arith, raise_error_rsp-ne_out_of_fuel (opcode ∷ rest))

outcome-ne_out_of_fuel :
    (q : ℕ) (es : List Event)
    → All IsPythonEvent es
    → await_future q (some (outcome q es)) ≢ err out_of_fuel
unfolding await_future
outcome-ne_out_of_fuel q [] h k = cc
outcome-ne_out_of_fuel q (closed none ∷ es) h k = cc
outcome-ne_out_of_fuel q (closed (some e) ∷ es) h k = h.0 cc
outcome-ne_out_of_fuel q (received b ∷ es) h k = elim (Bool-cases (answers q b)) [
  | inl hit ↦ check_response-ne_out_of_fuel q (answer_data b) (rw hit at k)
  | inr miss ↦ outcome-ne_out_of_fuel q es h.1 (rw miss at k)
]

module _ {P : Type 0} (answer : Answer P) where
  abbrev pub IsPython : Type 0
  IsPython = (p : P) (pdu : Bytes) → IsPythonRound (answer p pdu).1

  round_end :
      (q : ℕ) (sent : Option Error) (es : List Event)
      → sent ≢ some out_of_fuel
      → All IsPythonEvent es
      → elim sent [ some e ↦ err e | none ↦ await_future q (some (outcome q es)) ] ≢ err out_of_fuel
  round_end q none es h k t = outcome-ne_out_of_fuel q es k t
  round_end q (some e) es h k t = h cc

  pub request-Finishes : IsPython → (payload : Bytes) (q : ℕ) → Finishes (request answer payload q)
  request-Finishes python payload q = record {
    at = λ w.
        rw (request-outcome answer payload q w)
          (round_end q _ _ (python w.peer payload).0 (python w.peer payload).1);
  }
