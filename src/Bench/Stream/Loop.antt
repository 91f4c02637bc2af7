-- ===== src/Bench/Stream/Loop.antt =====
-- What the loop of the advert and notify scenarios leaves of the events that a stack yields.
use mathlib.Core.List.{append_assoc, append-nil}
use bluek.Prelude.{
  ◌≡◌, refl, sym, ap, ◌∙◌, subst, List, [], ◌∷◌, ◌++◌, Bool, true, false, Option, none, some, Text,
  Bool-cases, inl, inr, if◌then◌else◌,
}
use bluek.Prelude.Int.{ℤ, ◌-ℤ◌, ltb_ℤ}
use bluek.Prelude.Result.{Error}
use bluek.Measure.Recorder.{record_event}
use bluek.Measure.Cpu.{CpuTracker}
use bluek.Bench.Scenario.{Machine, Out}
use bluek.Bench.Stream.{
  Events, over, raises, yields, Listening, first_of, take_event, keep, listen, listening,
  stop_started, after_loop,
}

-- An iterator that yields these times and then ends so, whatever is done meanwhile.
abbrev pub Tells : {W : Type 0} → Events W → List ℤ → Option Error → Type 0
Tells (over w) [] none = Unit
Tells (raises e w) [] (some e') = e ≡ e'
Tells {W} (yields t w more) (u ∷ us) end = (t ≡ u) × ((w' : W) → Tells (more w') us end)
Tells _ _ _ = ⊥

-- The events behind the warm-up.
unfoldable pub kept : ℤ → List ℤ → List ℤ
kept deadline [] = []
kept deadline (t ∷ ts) = let rest = kept deadline ts in if ltb_ℤ t deadline then rest else t ∷ rest

abbrev pub is_nonempty : List ℤ → Bool
is_nonempty [] = false
is_nonempty (_ ∷ _) = true

-- The time from the deadline to the first event.
abbrev pub first_behind : ℤ → List ℤ → Option ℤ
first_behind deadline [] = none
first_behind deadline (t ∷ _) = some (t -ℤ deadline)

abbrev pub is_some : {A : Type 0} → Option A → Bool
is_some none = false
is_some (some _) = true

-- The loop of a run that has kept `before` so far.
abbrev pub Kept : Text → ℤ → List ℤ → Listening → Type 0
Kept name deadline before s =
    (s.rec ≡ record { name = name; timestamps_ns = before })
    × (s.first_device_ns ≡ first_behind deadline before)
    × (s.cpu_started ≡ is_nonempty before)

first_behind-append :
    (deadline t : ℤ) (before : List ℤ)
    → first_of deadline t (first_behind deadline before)
      ≡ first_behind deadline (before ++ (t ∷ []))
first_behind-append deadline t [] = refl
first_behind-append deadline t (u ∷ us) = refl

is_nonempty-append : (t : ℤ) (before : List ℤ) → true ≡ is_nonempty (before ++ (t ∷ []))
is_nonempty-append t [] = refl
is_nonempty-append t (u ∷ us) = refl

module _ {F W : Type 0} (machine : Machine F W) (name : Text) (deadline : ℤ) where
  keep-Kept :
      (t : ℤ) (before : List ℤ) (s : Listening) (w : W)
      → Kept name deadline before s
      → Kept name deadline (before ++ (t ∷ [])) (keep machine deadline t s w).0
  unfolding record_event
  keep-Kept t before s w (times, first, started) = (
    ap (record_event t) times,
    ap (first_of deadline t) first ∙ first_behind-append deadline t before,
    is_nonempty-append t before,
  )

  take_event-early :
      (t : ℤ) (s : Listening) (w : W)
      → ltb_ℤ t deadline ≡ true
      → take_event machine deadline t s w ≡ (s, w)
  unfolding take_event
  take_event-early t s w early = ap (λ b. if b then (s, w) else keep machine deadline t s w) early

  take_event-late :
      (t : ℤ) (s : Listening) (w : W)
      → ltb_ℤ t deadline ≡ false
      → take_event machine deadline t s w ≡ keep machine deadline t s w
  unfolding take_event
  take_event-late t s w late = ap (λ b. if b then (s, w) else keep machine deadline t s w) late

  kept-early :
      (t : ℤ) (ts : List ℤ) → ltb_ℤ t deadline ≡ true → kept deadline (t ∷ ts) ≡ kept deadline ts
  unfolding kept
  kept-early t ts early = ap (λ b. if b then kept deadline ts else t ∷ kept deadline ts) early

  kept-late :
      (t : ℤ) (ts : List ℤ)
      → ltb_ℤ t deadline ≡ false
      → kept deadline (t ∷ ts) ≡ t ∷ kept deadline ts
  unfolding kept
  kept-late t ts late = ap (λ b. if b then kept deadline ts else t ∷ kept deadline ts) late

  pub listen-Kept :
      (events : Events W) (ts : List ℤ) (end : Option Error) (before : List ℤ) (s : Listening)
      → Tells events ts end
      → Kept name deadline before s
      → ((listen machine deadline events s).0 ≡ end)
        × Kept name deadline (before ++ kept deadline ts) (listen machine deadline events s).1
  unfolding listen kept
  listen-Kept (over w) [] none before s h k =
      (refl, subst (λ l. Kept name deadline l s) (sym (append-nil before)) k)
  listen-Kept (over w) [] (some e) before s h k = absurd h
  listen-Kept (over w) (u ∷ us) end before s h k = absurd h
  listen-Kept (raises e w) [] none before s h k = absurd h
  listen-Kept (raises e w) [] (some e') before s h k =
      (ap some h, subst (λ l. Kept name deadline l s) (sym (append-nil before)) k)
  listen-Kept (raises e w) (u ∷ us) end before s h k = absurd h
  listen-Kept (yields t w more) [] end before s h k = absurd h
  listen-Kept (yields t w more) (u ∷ us) end before s (same, tells) k =
      let Goal = λ (l : List ℤ) (z : Listening × W).
        ((listen machine deadline (more z.1) z.0).0 ≡ end)
        × Kept name deadline (before ++ l) (listen machine deadline (more z.1) z.0).1 in
      elim (Bool-cases (ltb_ℤ t deadline)) [
        | inl early ↦
            let taken = take_event-early t s w early in
            let shorter = kept-early u us (subst (λ v. ltb_ℤ v deadline ≡ true) same early) in
            subst (λ l. Goal l (take_event machine deadline t s w)) (sym shorter)
              (subst (Goal (kept deadline us)) (sym taken)
                (listen-Kept (more w) us end before s (tells w) k))
        | inr late ↦
            let taken = take_event-late t s w late in
            let longer = kept-late u us (subst (λ v. ltb_ℤ v deadline ≡ false) same late) in
            let z = keep machine deadline t s w in
            let k' =
              subst (λ v. Kept name deadline (before ++ (v ∷ [])) z.0) same
                (keep-Kept t before s w k) in
            let (ends, rest) =
              listen-Kept (more z.1) us end (before ++ (u ∷ [])) z.0 (tells z.1) k' in
            subst (λ l. Goal l (take_event machine deadline t s w)) (sym longer)
              (subst (Goal (u ∷ kept deadline us)) (sym taken) (
                ends,
                subst (λ l. Kept name deadline l (listen machine deadline (more z.1) z.0).1)
                    (append_assoc before (u ∷ []) (kept deadline us)) rest,
              ))
      ]

  stop_started-cpu :
      {R : Type 0} (b : Bool) (cpu : CpuTracker) (out : Out R F) (w : W)
      → out.cpu ≡ none
      → (is_some (stop_started machine b cpu out w).0.cpu ≡ b)
        × ((stop_started machine b cpu out w).0.error ≡ out.error)
  stop_started-cpu false cpu out w h = (ap is_some h, refl)
  stop_started-cpu true cpu out w h = (refl, refl)

  -- The loop and its `finally`, from a dict without CPU times.
  pub after_loop-Kept :
      {R : Type 0} (out : Out R F) (events : Events W) (ts : List ℤ) (end : Option Error) (w : W)
      → Tells events ts end
      → out.cpu ≡ none
      → let z =
          after_loop machine out (listen machine deadline events (listening machine name w)) in
        (z.0.error ≡ end)
        × (is_some z.0.cpu ≡ is_nonempty (kept deadline ts))
        × Kept name deadline (kept deadline ts) z.1
  after_loop-Kept out events ts end w tells bare =
      let s₀ = listening machine name w in
      let (ends, keeps) = listen-Kept events ts end [] s₀ tells (refl, refl, refl) in
      let (e, s, w') = listen machine deadline events s₀ in
      let (given, error) =
        stop_started-cpu s.cpu_started s.cpu (record out { error = e }) w' bare in
      (error ∙ ends, given ∙ keeps.2, keeps)
