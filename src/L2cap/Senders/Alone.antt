-- ===== src/L2cap/Senders/Alone.antt =====
-- Senders that start one behind the other.
use bluek.Prelude.{
  ℕ, ◌≡◌, ◌≢◌, refl, sym, ap, subst, ◌∙◌, inl, inr, Option, none, some, ◌==◌, if◌then◌else◌,
  Bool-cases, ==_iff,
}
use bluek.Prelude.Family.{set_at, set_at-same, set_at-other}
use bluek.Prelude.Result.{ok, err, os_error}
use bluek.L2cap.Senders.{
  SendPhase, idle, trying, waits, woken, over, Senders, begin, accept, wait_writable, wake_phase,
  call_writer, leave_wait, SendStep, starts, accepts, refuses, blocks, writable, resumes, cancels,
  cancels_woken, Sends, here, next,
}

-- Whether a sender is inside `send`.
abbrev pub IsBusy : SendPhase → Type 0
IsBusy idle = ⊥
IsBusy (over _) = ⊥
IsBusy _ = Unit

abbrev pub NoneBusy : Senders → Type 0
NoneBusy s = (i : ℕ) → ¬ IsBusy (s.phases i)

-- At most one sender is busy, and one that waits is the one that the event loop calls.
record IsWatched (s : Senders) : Type 0 where
  pub one : (i j : ℕ) → IsBusy (s.phases i) → IsBusy (s.phases j) → i ≡ j
  pub watched : (i : ℕ) → s.phases i ≡ waits → s.writer ≡ some i

abbrev Only : ℕ → (ℕ → SendPhase) → Type 0
Only j f = (i : ℕ) → IsBusy (f i) → i ≡ j

Only-set_at : (j : ℕ) (p : SendPhase) (f : ℕ → SendPhase) → Only j f → Only j (set_at j p f)
Only-set_at j p f only i busy = elim (Bool-cases (i == j)) [
  | inl same ↦ (==_iff i j).0 same
  | inr other ↦ only i (subst IsBusy (set_at-other j i p f other) busy)
]

-- A step of the one busy sender to a phase in which it does not wait.
moved-IsWatched :
    (j : ℕ) (p : SendPhase) (s : Senders) (w : Option ℕ)
    → Only j s.phases
    → (p ≡ waits → w ≡ some j)
    → IsWatched (record s { phases = set_at j p s.phases; writer = w })
moved-IsWatched j p s w only writes =
    let only' = Only-set_at j p s.phases only in
    record {
      one = λ a b busy_a busy_b. only' a busy_a ∙ sym (only' b busy_b);
      watched = λ a waits_a.
          let a_is_j = only' a (subst IsBusy (sym waits_a) tt) in
          let at_j : set_at j p s.phases j ≡ p = set_at-same j p s.phases in
          let p_waits : p ≡ waits = sym at_j ∙ ap (set_at j p s.phases) (sym a_is_j) ∙ waits_a in
          writes p_waits ∙ ap some (sym a_is_j);
    }

busy-Only : (j : ℕ) (s : Senders) → IsWatched s → IsBusy (s.phases j) → Only j s.phases
busy-Only j s w busy i busy_i = w.one i j busy_i busy

wake_phase-IsBusy : (p : SendPhase) → IsBusy (wake_phase p) → IsBusy p
wake_phase-IsBusy idle h = h
wake_phase-IsBusy trying h = tt
wake_phase-IsBusy waits h = tt
wake_phase-IsBusy woken h = tt
wake_phase-IsBusy (over r) h = h

wake_phase-ne-waits : (p : SendPhase) → wake_phase p ≢ waits
wake_phase-ne-waits idle h = cc
wake_phase-ne-waits trying h = cc
wake_phase-ne-waits waits h = cc
wake_phase-ne-waits woken h = cc
wake_phase-ne-waits (over r) h = cc

call_writer-IsWatched : (j : ℕ) (s : Senders) → IsWatched s → IsWatched (call_writer j s)
unfolding call_writer
call_writer-IsWatched j s w =
    let busy_before : (i : ℕ)
        → IsBusy (set_at j (wake_phase (s.phases j)) s.phases i)
        → IsBusy (s.phases i) =
      λ i busy. elim (Bool-cases (i == j)) [
        | inl same ↦
            subst (λ k. IsBusy (s.phases k)) (sym ((==_iff i j).0 same))
              (wake_phase-IsBusy (s.phases j) (
                subst IsBusy (ap (λ b. if b then wake_phase (s.phases j) else s.phases i) same)
                  busy))
        | inr other ↦ subst IsBusy (set_at-other j i (wake_phase (s.phases j)) s.phases other) busy
      ] in
    record {
      one = λ a b busy_a busy_b. w.one a b (busy_before a busy_a) (busy_before b busy_b);
      watched = λ a waits_a. elim (Bool-cases (a == j)) [
        | inl same ↦ absurd (
            wake_phase-ne-waits (s.phases j)
              (sym (ap (λ b. if b then wake_phase (s.phases j) else s.phases a) same) ∙ waits_a))
        | inr other ↦
            w.watched a (sym (set_at-other j a (wake_phase (s.phases j)) s.phases other) ∙ waits_a)
      ];
    }

step-IsWatched : {s t : Senders} → IsWatched s → SendStep NoneBusy s t → IsWatched t
unfolding accept wait_writable leave_wait
step-IsWatched {s} w (starts j k free) =
    moved-IsWatched j trying s s.writer (λ i busy. absurd (free i busy)) (λ h. cc)
step-IsWatched {s} w (accepts j k) =
    let m =
      moved-IsWatched j (over (ok tt)) s s.writer (busy-Only j s w (subst IsBusy (sym k) tt))
        (λ h. cc) in
    record { one = m.one; watched = m.watched }
step-IsWatched {s} w (refuses j errno k) =
    moved-IsWatched j (over (err (os_error errno))) s s.writer
      (busy-Only j s w (subst IsBusy (sym k) tt)) (λ h. cc)
step-IsWatched {s} w (blocks j k) =
    moved-IsWatched j waits s (some j) (busy-Only j s w (subst IsBusy (sym k) tt)) (λ h. refl)
step-IsWatched {s} w (writable j k) = call_writer-IsWatched j s w
step-IsWatched {s} w (resumes j k) =
    moved-IsWatched j trying s none (busy-Only j s w (subst IsBusy (sym k) tt)) (λ h. cc)
step-IsWatched {s} w (cancels j e k) =
    moved-IsWatched j (over (err e)) s none (busy-Only j s w (subst IsBusy (sym k) tt)) (λ h. cc)
step-IsWatched {s} w (cancels_woken j e k) =
    moved-IsWatched j (over (err e)) s none (busy-Only j s w (subst IsBusy (sym k) tt)) (λ h. cc)

begin-IsWatched : IsWatched begin
begin-IsWatched = record {
  one = λ i j a b. absurd a;
  watched = λ i h. absurd (subst IsBusy (sym h) tt);
}

sends-IsWatched : {s : Senders} → Sends NoneBusy begin s → IsWatched s
sends-IsWatched here = begin-IsWatched
sends-IsWatched (next sends step) = step-IsWatched (sends-IsWatched sends) step

-- If a sender starts only while no other is inside `send`, then in every state that the senders and
-- the event loop reach a sender that waits is the one that the event loop wakes.
pub sends-watched :
    (s : Senders) → Sends NoneBusy begin s → (i : ℕ) → s.phases i ≡ waits → s.writer ≡ some i
sends-watched s sends i h = (sends-IsWatched sends).watched i h
