-- ===== src/Client/Tests.antt =====
-- Runs of the connect loop.
use bluek.Prelude.{◌≡◌, ◌≢◌, refl, ℕ, zero, suc, none, codes, arith}
use bluek.Prelude.Result.{ok, err, device_not_found, out_of_fuel}
use bluek.Client.Connect.{
  candidate_types, lock_in, connected, timed_out, refused, raised, Dialed, Peer, find_peer,
  connect_loop, try_types,
}
use bluek.Client.Attempts.{IsAnswer, find_peer-IsAnswer, find_peer-absent, after_round}

-- It refuses a number of attempts, and then answers.
abbrev refuses : ℕ → Dialed
refuses zero = connected
refuses (suc n) = refused

abbrev fewer : ℕ → ℕ
fewer zero = zero
fewer (suc n) = n

abbrev flaky : Peer ℕ
flaky = record { dial = λ n t remaining. (refuses n, 1, fewer n); oversleep = λ n. (0, n) }

flaky_connects : (find_peer flaky 100 3 (codes "a") none none 0 3).0 ≡ ok 2
unfolding find_peer connect_loop try_types candidate_types
flaky_connects = refl

flaky-IsPython : (n t remaining : ℕ) → (flaky.dial n t remaining).0 ≢ raised out_of_fuel
flaky-IsPython zero t remaining h = cc
flaky-IsPython (suc n) t remaining h = cc

find_peer-IsAnswer_example :
    IsAnswer
      (candidate_types (lock_in none none))
      (find_peer flaky 100 3 (codes "a") none none 0 3).0
find_peer-IsAnswer_example =
    find_peer-IsAnswer flaky 100 flaky-IsPython 3 (codes "a") none none 0 3 (omega arith)

-- A peer that is not there; its state counts the attempts.
abbrev gone : Peer ℕ
gone = record { dial = λ n t remaining. (timed_out, 1, suc n); oversleep = λ n. (0, n) }

find_peer-absent_example : find_peer gone 100 3 (codes "a") none none 0 0 ≡ (
  err (device_not_found (codes "a")),
  (after_round gone 100 (λ n t r. refl) (candidate_types (lock_in none none)) 0 0).1,
)
find_peer-absent_example = find_peer-absent gone 100 (λ n t r. refl) 3 (codes "a") none none 0 0
