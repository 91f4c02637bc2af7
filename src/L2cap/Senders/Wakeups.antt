-- ===== src/L2cap/Senders/Wakeups.antt =====
-- When a sender that waits is woken, and when it is not.
use bluek.Prelude.{
  ℕ, ◌≡◌, ◌≢◌, ◌⊎◌, sym, ap, ◌∙◌, inl, inr, false, none, some, ◌==◌, if◌then◌else◌, arith,
  Bool-cases, ==_iff,
}
use bluek.Prelude.Family.{set_at, set_at-other}
use bluek.Prelude.Result.{ok, err, Error, os_error}
use bluek.L2cap.Senders.{
  SendPhase, idle, trying, waits, woken, over, Senders, accept, wait_writable, wake_phase,
  call_writer, leave_wait, SendStep, starts, accepts, refuses, blocks, writable, resumes, cancels,
  cancels_woken, Sends, here, next,
}

-- The sender waits, and the event loop would call another's callback, or none.
abbrev pub IsLost : ℕ → Senders → Type 0
IsLost i s = (s.phases i ≡ waits) × (s.writer ≢ some i)

-- It is lost, or it raised.
abbrev pub IsDoomed : ℕ → Senders → Type 0
IsDoomed i s = IsLost i s ⊎ ((e : Error) × (s.phases i ≡ over (err e)))

-- Two senders in different phases are different.
apart :
    (i j : ℕ) (f : ℕ → SendPhase) (p q : SendPhase) → f i ≡ p → f j ≡ q → p ≢ q → (i == j) ≡ false
apart i j f p q h k differ = elim (Bool-cases (i == j)) [
  | inl same ↦ absurd (differ (sym h ∙ ap f ((==_iff i j).0 same) ∙ k))
  | inr other ↦ other
]

stays :
    (i j : ℕ) (f : ℕ → SendPhase) (p q : SendPhase)
    → f i ≡ q
    → (i == j) ≡ false
    → set_at j p f i ≡ q
stays i j f p q h other = set_at-other j i p f other ∙ h

some_apart : (i j : ℕ) → (i == j) ≡ false → some j ≢ some i
some_apart i j other h = let same : j ≡ i = cc in grind arith

nobody : (i : ℕ) → none ≢ some i
nobody i h = cc

module _ (gate : Senders → Type 0) where
  IsLost-step : (i : ℕ) {s t : Senders} → IsLost i s → SendStep gate s t → IsDoomed i t
  unfolding accept wait_writable call_writer leave_wait
  IsLost-step i {s} (h, w) (starts j k _) =
      inl (stays i j s.phases trying waits h (apart i j s.phases waits idle h k (λ z. cc)), w)
  IsLost-step i {s} (h, w) (accepts j k) =
      inl (
        stays i j s.phases (over (ok tt)) waits h (apart i j s.phases waits trying h k (λ z. cc)),
        w,
      )
  IsLost-step i {s} (h, w) (refuses j errno k) = inl (
    stays i j s.phases (over (err (os_error errno))) waits h
        (apart i j s.phases waits trying h k (λ z. cc)),
    w,
  )
  IsLost-step i {s} (h, w) (blocks j k) =
      let other = apart i j s.phases waits trying h k (λ z. cc) in
      inl (stays i j s.phases waits waits h other, some_apart i j other)
  IsLost-step i {s} (h, w) (writable j k) = elim (Bool-cases (i == j)) [
    | inl same ↦ absurd (w (k ∙ ap some (sym ((==_iff i j).0 same))))
    | inr other ↦ inl (stays i j s.phases (wake_phase (s.phases j)) waits h other, w)
  ]
  IsLost-step i {s} (h, w) (resumes j k) =
      inl
        (stays i j s.phases trying waits h (apart i j s.phases waits woken h k (λ z. cc)), nobody i)
  IsLost-step i {s} (h, w) (cancels j e k) = elim (Bool-cases (i == j)) [
    | inl same ↦ inr (e, ap (λ b. if b then over (err e) else s.phases i) same)
    | inr other ↦ inl (stays i j s.phases (over (err e)) waits h other, nobody i)
  ]
  IsLost-step i {s} (h, w) (cancels_woken j e k) = inl (
    stays i j s.phases (over (err e)) waits h (apart i j s.phases waits woken h k (λ z. cc)),
    nobody i,
  )

  raised-step :
      (i : ℕ) (e : Error) {s t : Senders}
      → s.phases i ≡ over (err e)
      → SendStep gate s t
      → t.phases i ≡ over (err e)
  unfolding accept wait_writable call_writer leave_wait
  raised-step i e {s} h (starts j k _) =
      stays i j s.phases trying (over (err e)) h
        (apart i j s.phases (over (err e)) idle h k (λ z. cc))
  raised-step i e {s} h (accepts j k) =
      stays i j s.phases (over (ok tt)) (over (err e)) h
        (apart i j s.phases (over (err e)) trying h k (λ z. cc))
  raised-step i e {s} h (refuses j errno k) =
      stays i j s.phases (over (err (os_error errno))) (over (err e)) h
        (apart i j s.phases (over (err e)) trying h k (λ z. cc))
  raised-step i e {s} h (blocks j k) =
      stays i j s.phases waits (over (err e)) h
        (apart i j s.phases (over (err e)) trying h k (λ z. cc))
  raised-step i e {s} h (writable j k) = elim (Bool-cases (i == j)) [
    | inl same ↦
        let at_j : s.phases j ≡ over (err e) = ap s.phases (sym ((==_iff i j).0 same)) ∙ h in
        ap (λ b. if b then wake_phase (s.phases j) else s.phases i) same ∙ ap wake_phase at_j
    | inr other ↦ stays i j s.phases (wake_phase (s.phases j)) (over (err e)) h other
  ]
  raised-step i e {s} h (resumes j k) =
      stays i j s.phases trying (over (err e)) h
        (apart i j s.phases (over (err e)) woken h k (λ z. cc))
  raised-step i e {s} h (cancels j e' k) =
      stays i j s.phases (over (err e')) (over (err e)) h
        (apart i j s.phases (over (err e)) waits h k (λ z. cc))
  raised-step i e {s} h (cancels_woken j e' k) =
      stays i j s.phases (over (err e')) (over (err e)) h
        (apart i j s.phases (over (err e)) woken h k (λ z. cc))

  IsDoomed-step : (i : ℕ) {s t : Senders} → IsDoomed i s → SendStep gate s t → IsDoomed i t
  IsDoomed-step i (inl lost) step = IsLost-step i lost step
  IsDoomed-step i (inr (e, h)) step = inr (e, raised-step i e h step)

  -- A sender that waits while the event loop's writer is not its own is never woken: whatever any
  -- number of senders and the event loop do from then on, it still waits so, or it got an exception.
  pub IsLost-IsDoomed : (i : ℕ) (s t : Senders) → IsLost i s → Sends gate s t → IsDoomed i t
  IsLost-IsDoomed i s _ lost here = inl lost
  IsLost-IsDoomed i s t lost (next sends step) =
      IsDoomed-step i (IsLost-IsDoomed i s _ lost sends) step
