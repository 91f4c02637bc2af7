-- ===== src/Retry/Tests.antt =====
-- A peer that refuses twice.
use bluek.Prelude.{◌≡◌, refl, ℕ, zero, suc, [], ◌∷◌, Bool, true, false, none}
use bluek.Prelude.Result.{Result, ok, err, timeout_error}
use bluek.Retry.{ClientClass, attempts, establish_connection, max_connect_attempts}
use bluek.Retry.Attempts.{Ends, establish_connection-Ends}

abbrev answer : ℕ → Result Bool × Bool × ℕ
answer zero = (ok true, true, 0)
answer (suc n) = (err timeout_error, false, n)

-- The world counts the refusals to come; a client is whether it is connected.
abbrev class : ClientClass Bool ℕ
class = record {
  fresh = λ w. ok false;
  connect = λ c w. answer w;
  disconnect = λ c w. (ok true, w);
}

third : establish_connection class max_connect_attempts 2 ≡ (ok true, (0, 1 ∷ 2 ∷ []))
unfolding establish_connection attempts
third = refl

gives_up :
    establish_connection class max_connect_attempts 4 ≡ (err timeout_error, (0, 1 ∷ 2 ∷ 3 ∷ 4 ∷ []))
unfolding establish_connection attempts
gives_up = refl

establish_connection-Ends_example : Ends class 4 0 none 2 [] (establish_connection class 4 2)
establish_connection-Ends_example = establish_connection-Ends class (λ w. (false, refl)) 4 2
