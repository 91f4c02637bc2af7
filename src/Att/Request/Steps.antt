-- ===== src/Att/Request/Steps.antt =====
-- A coroutine whose first part is known to return or to raise.
use bluek.Prelude.{◌≡◌, refl}
use bluek.Prelude.Result.{Result, ok, err, Error}
use bluek.Att.Request.{World, Exec, catch, ◌>>=◌}

module _ {P A B : Type 0} where
  bind_end :
      (r : Result A) (f : A → Exec P B) (w : World P) {a : A}
      → r ≡ ok a
      → ((λ (_ : World P). (r, w)) >>= f) w ≡ f a w
  bind_end r f w h = rw h refl

  pub bind-eq-ok :
      (m : Exec P A) (f : A → Exec P B) (w : World P) {a : A}
      → (m w).0 ≡ ok a
      → (m >>= f) w ≡ f a (m w).1
  bind-eq-ok m f w h = let (r, w') = m w in bind_end r f w' h

  bind_raise_end :
      (r : Result A) (f : A → Exec P B) (w : World P) {e : Error}
      → r ≡ err e
      → (((λ (_ : World P). (r, w)) >>= f) w).0 ≡ err e
  bind_raise_end r f w h = rw h refl

  pub bind-eq-err :
      (m : Exec P A) (f : A → Exec P B) (w : World P) {e : Error}
      → (m w).0 ≡ err e
      → ((m >>= f) w).0 ≡ err e
  bind-eq-err m f w h = let (r, w') = m w in bind_raise_end r f w' h

module _ {P A : Type 0} where
  catch_ok_end :
      (r : Result A) (handler : Error → Exec P A) (w : World P) {a : A}
      → r ≡ ok a
      → (catch (λ (_ : World P). (r, w)) handler w).0 ≡ ok a
  catch_ok_end r handler w h = rw h refl

  pub catch-eq-ok :
      (m : Exec P A) (handler : Error → Exec P A) (w : World P) {a : A}
      → (m w).0 ≡ ok a
      → (catch m handler w).0 ≡ ok a
  catch-eq-ok m handler w h = let (r, w') = m w in catch_ok_end r handler w' h

  catch_err_end :
      (r : Result A) (handler : Error → Exec P A) (w : World P) {e : Error}
      → r ≡ err e
      → catch (λ (_ : World P). (r, w)) handler w ≡ handler e w
  catch_err_end r handler w h = rw h refl

  pub catch-eq-err :
      (m : Exec P A) (handler : Error → Exec P A) (w : World P) {e : Error}
      → (m w).0 ≡ err e
      → catch m handler w ≡ handler e (m w).1
  catch-eq-err m handler w h = let (r, w') = m w in catch_err_end r handler w' h
