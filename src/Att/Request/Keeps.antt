-- ===== src/Att/Request/Keeps.antt =====
-- Properties of the client that every call keeps: a rule for each way to build a coroutine.
use bluek.Prelude.{ℕ, Bool, true, false, if◌then◌else◌}
use bluek.Prelude.Result.{Result, ok, err, Error}
use bluek.Bytes.{Bytes}
use bluek.Att.State.{Client}
use bluek.Att.Request.{Answer, World, Exec, pure, raise, lift, gets, catch, ◌>>=◌, send, request}

pub record Keeps {P A : Type 0} (I : Client → Type 0) (m : Exec P A) : Type 0 where
  pub at : (w : World P) → I w.client → I (m w).1.client

module _ {P A : Type 0} (I : Client → Type 0) where
  pub Keeps-pure : (a : A) → Keeps {P = P} I (pure a)
  Keeps-pure a = record { at = λ w h. h }

  pub Keeps-raise : (e : Error) → Keeps {P = P} {A = A} I (raise e)
  Keeps-raise e = record { at = λ w h. h }

  pub Keeps-lift : (r : Result A) → Keeps {P = P} I (lift r)
  Keeps-lift r = record { at = λ w h. h }

  pub Keeps-gets : (f : Client → A) → Keeps {P = P} I (gets f)
  Keeps-gets f = record { at = λ w h. h }

  pub Keeps-if : (b : Bool) (m n : Exec P A) → Keeps I m → Keeps I n → Keeps I (if b then m else n)
  Keeps-if true m n km kn = km
  Keeps-if false m n km kn = kn

  catch_end :
      (r : Result A) (handler : Error → Exec P A) (w : World P)
      → ((e : Error) → Keeps I (handler e))
      → I w.client
      → I (catch (λ (_ : World P). (r, w)) handler w).1.client
  catch_end (ok a) handler w kh h = h
  catch_end (err e) handler w kh h = (kh e).at w h

  pub Keeps-catch :
      (m : Exec P A) (handler : Error → Exec P A)
      → Keeps I m
      → ((e : Error) → Keeps I (handler e))
      → Keeps I (catch m handler)
  Keeps-catch m handler km kh = record {
    at = λ w h. let (r, w') = m w in catch_end r handler w' kh (km.at w h);
  }

module _ {P A B : Type 0} (I : Client → Type 0) where
  bind_end :
      (r : Result A) (f : A → Exec P B) (w : World P)
      → ((a : A) → Keeps I (f a))
      → I w.client
      → I (((λ (_ : World P). (r, w)) >>= f) w).1.client
  bind_end (ok a) f w kf h = (kf a).at w h
  bind_end (err e) f w kf h = h

  pub Keeps-bind :
      (m : Exec P A) (f : A → Exec P B) → Keeps I m → ((a : A) → Keeps I (f a)) → Keeps I (m >>= f)
  Keeps-bind m f km kf = record { at = λ w h. let (r, w') = m w in bind_end r f w' kf (km.at w h) }

-- What sending and a transaction keep.
pub record IsStable {P : Type 0} (answer : Answer P) (I : Client → Type 0) : Type 0 where
  pub sends : (pdu : Bytes) → Keeps I (send answer pdu)
  pub requests : (payload : Bytes) (q : ℕ) → Keeps I (request answer payload q)
