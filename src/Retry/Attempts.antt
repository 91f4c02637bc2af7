-- ===== src/Retry/Attempts.antt =====
-- How `establish_connection` ends, for every class of clients whose constructor returns.
use mathlib.Core.List.{append_assoc, append-nil}
use bluek.Prelude.{
  ◌≡◌, refl, sym, ap, subst, ◌∙◌, ℕ, zero, suc, ◌+◌, ◌<◌, List, [], ◌∷◌, ◌++◌, Bool, Option, none,
  some, arith,
}
use bluek.Prelude.Result.{Result, ok, err, Error}
use bluek.Retry.{
  ClientClass, Slept, last_raise, behind_connect, behind_fresh, attempts, establish_connection,
}

-- The sleeps behind `n` attempts, from the number of the first.
abbrev pub growing : ℕ → ℕ → List ℕ
growing attempt zero = []
growing attempt (suc n) = (attempt + 1) ∷ growing (suc attempt) n

module _ {C W : Type 0} (class : ClientClass C W) where
  -- A number of attempts that fail in a row, each with a client of its own that is disconnected
  -- again: the last exception and the world before them, and behind them.
  pub data Fails : ℕ → Option Error → W → Option Error → W → Type 0 where
    start : {e : Option Error} {w : W} → Fails 0 e w e w
    next :
        {n : ℕ} {before after : Option Error} {w w₁ w₂ : W} (c c' : C) (e : Error)
        → class.fresh w ≡ ok c
        → class.connect c w ≡ (err e, c', w₁)
        → Fails n (some e) (class.disconnect c' w₁).1 after w₂
        → Fails (suc n) before w after w₂

  -- With `left` attempts left, in a world `w`: the first attempt to connect returns its client, or
  -- all of them fail and the last exception is raised.
  pub data Ends (left attempt : ℕ) (before : Option Error) (w : W) (sleeps : List ℕ)
      (r : Result C × Slept W) : Type 0 where
    connected :
        (k : ℕ) (e : Option Error) (w₁ w₂ : W) (c c' : C) (b : Bool)
        → k < left
        → Fails k before w e w₁
        → class.fresh w₁ ≡ ok c
        → class.connect c w₁ ≡ (ok b, c', w₂)
        → r ≡ (ok c', (w₂, sleeps ++ growing attempt k))
        → Ends left attempt before w sleeps r
    exhausted :
        (e : Option Error) (w₁ : W)
        → Fails left before w e w₁
        → r ≡ (err (last_raise e), (w₁, sleeps ++ growing attempt left))
        → Ends left attempt before w sleeps r

  -- An attempt that fails in front of the others.
  Ends-next :
      (left attempt : ℕ) (before : Option Error) (w w₁ : W) (sleeps : List ℕ) (c c' : C) (e : Error)
      (r : Result C × Slept W)
      → class.fresh w ≡ ok c
      → class.connect c w ≡ (err e, c', w₁)
      → Ends left
          (suc attempt)
          (some e)
          (class.disconnect c' w₁).1
          (sleeps ++ ((attempt + 1) ∷ []))
          r
      → Ends (suc left) attempt before w sleeps r
  Ends-next left attempt before w w₁ sleeps c c' e r built fails
        (connected k x w₂ w₃ d d' b lt f g h same) =
      connected (suc k) x w₂ w₃ d d' b (omega arith) (next c c' e built fails f) g h (
        same
        ∙ ap (λ l. (ok d', (w₃, l)))
            (append_assoc sleeps ((attempt + 1) ∷ []) (growing (suc attempt) k)))
  Ends-next left attempt before w w₁ sleeps c c' e r built fails (exhausted x w₂ f same) =
      exhausted x w₂ (next c c' e built fails f) (
        same
        ∙ ap (λ l. (err (last_raise x), (w₂, l)))
            (append_assoc sleeps ((attempt + 1) ∷ []) (growing (suc attempt) left)))

  module _ (builds : (w : W) → (c : C) × (class.fresh w ≡ ok c)) where
    behind_connect-Ends :
        (left attempt : ℕ) (before : Option Error) (w : W) (sleeps : List ℕ) (c : C)
        (again : Option Error → Slept W → Result C × Slept W) (z : Result Bool × C × W)
        → class.fresh w ≡ ok c
        → class.connect c w ≡ z
        → ((e : Error) (w' : W) (l : List ℕ)
            → Ends left (suc attempt) (some e) w' l (again (some e) (w', l)))
        → Ends (suc left) attempt before w sleeps (behind_connect class again attempt sleeps z)
    behind_connect-Ends left attempt before w sleeps c again (ok b, c', w₁) built ends k =
        connected 0 before w w₁ c c' b (omega arith) start built ends
          (ap (λ l. (ok c', (w₁, l))) (sym (append-nil sleeps)))
    behind_connect-Ends left attempt before w sleeps c again (err e, c', w₁) built ends k =
        Ends-next left attempt before w w₁ sleeps c c' e
          (again (some e) ((class.disconnect c' w₁).1, sleeps ++ ((attempt + 1) ∷ []))) built ends
          (k e (class.disconnect c' w₁).1 (sleeps ++ ((attempt + 1) ∷ [])))

    attempts-Ends :
        (left attempt : ℕ) (before : Option Error) (w : W) (sleeps : List ℕ)
        → Ends left attempt before w sleeps (attempts class left attempt before (w, sleeps))
    unfolding attempts
    attempts-Ends zero attempt before w sleeps =
        exhausted before w start
          (ap (λ l. (err (last_raise before), (w, l))) (sym (append-nil sleeps)))
    attempts-Ends (suc left) attempt before w sleeps =
        let (c, built) = builds w in
        subst
          (λ z.
            Ends (suc left) attempt before w sleeps
              (behind_fresh class (attempts class left (suc attempt)) attempt (w, sleeps) z))
          (sym built)
          (behind_connect-Ends left attempt before w sleeps c (attempts class left (suc attempt))
            (class.connect c w) built refl
            (λ e w' l. attempts-Ends left (suc attempt) (some e) w' l))

    -- If building a client always returns, `establish_connection` ends in one of two ways: the first
    -- attempt that connects returns its client, fewer than max_attempts failed before it, and it slept
    -- 1, 2, … quarters of a second between; or all max_attempts attempts fail, and it raises what the
    -- last of them raised, or RuntimeError if there was none. Each client that failed is disconnected.
    pub establish_connection-Ends :
        (max_attempts : ℕ) (w : W)
        → Ends max_attempts 0 none w [] (establish_connection class max_attempts w)
    unfolding establish_connection
    establish_connection-Ends max_attempts w = attempts-Ends max_attempts 0 none w []
