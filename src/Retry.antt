-- ===== src/Retry.antt =====
-- bluek/_shadow/bleak_retry_connector/__init__.py: `establish_connection`.
--
-- A client of `client_class` is a parameter: `fresh` is what its constructor gives for the world it
-- is built in, or raises; `connect` and `disconnect` return or raise, and change the world. A sleep
-- is logged in quarters of a second.
mod Attempts
mod Tests
use bluek.Prelude.{ℕ, zero, suc, ◌+◌, List, [], ◌∷◌, ◌++◌, Bool, Option, none, some}
use bluek.Prelude.Result.{Result, ok, err, Error, runtime_error}

pub record ClientClass (C W : Type 0) : Type 0 where
  pub fresh : W → Result C
  pub connect : C → W → Result Bool × C × W
  pub disconnect : C → W → Result Bool × W

abbrev pub max_connect_attempts : ℕ
max_connect_attempts = 4

-- The world, and the sleeps so far.
abbrev pub Slept : Type 0 → Type 0
Slept W = W × List ℕ

-- raise last_exc if last_exc else RuntimeError(…)
abbrev pub last_raise : Option Error → Error
last_raise none = runtime_error
last_raise (some e) = e

module _ {C W : Type 0} (class : ClientClass C W) where
  -- The end of an attempt: `again` makes the next ones with the exception of this one. What the
  -- disconnect raises is dropped.
  abbrev pub behind_connect :
      (Option Error → Slept W → Result C × Slept W)
      → ℕ
      → List ℕ
      → Result Bool × C × W
      → Result C × Slept W
  behind_connect again attempt sleeps (ok _, c, w) = (ok c, (w, sleeps))
  behind_connect again attempt sleeps (err e, c, w) =
      again (some e) ((class.disconnect c w).1, sleeps ++ ((attempt + 1) ∷ []))

  -- The constructor stands in front of the `try`.
  abbrev pub behind_fresh :
      (Option Error → Slept W → Result C × Slept W) → ℕ → Slept W → Result C → Result C × Slept W
  behind_fresh again attempt (w, sleeps) (err e) = (err e, (w, sleeps))
  behind_fresh again attempt (w, sleeps) (ok c) =
      behind_connect again attempt sleeps (class.connect c w)

  -- for attempt in range(max_attempts), with `left` attempts left
  unfoldable pub attempts : ℕ → ℕ → Option Error → Slept W → Result C × Slept W
  attempts zero attempt last_exc s = (err (last_raise last_exc), s)
  attempts (suc left) attempt last_exc s =
      behind_fresh (attempts left (suc attempt)) attempt s (class.fresh s.0)

  unfoldable pub establish_connection : ℕ → W → Result C × Slept W
  unfolding attempts
  establish_connection max_attempts w = attempts max_attempts 0 none (w, [])

-- close_stale_connections does nothing.
abbrev pub close_stale_connections : {W : Type 0} → W → Result (Unit {0}) × W
close_stale_connections w = (ok tt, w)
