-- ===== src/Measure/Rates.antt =====
-- The rate of recorded events.
use bluek.Prelude.{◌≡◌, refl, ap, ◌∙◌, subst, ℕ, suc, ◌≤◌, List, [], ◌∷◌, length, arith, Text}
use bluek.Prelude.Int.{ℤ, pos, ◌+ℤ◌, ◌-ℤ◌, +ℤ_parts, -ℤ_parts, eq_of_parts}
use bluek.Prelude.Result.{ok}
use bluek.Measure.Clock.{total, summarize}
use bluek.Measure.Summaries.{IsOrdered, summarize-IsOrdered}
use bluek.Measure.Recorder.{Rounded, RateDict, measured, last_of, intervals, rate_of, rate_dict}

length-intervals : (t : ℤ) (ts : List ℤ) → length (intervals t ts) ≡ length ts
unfolding intervals
length-intervals t [] = refl
length-intervals t (u ∷ us) = ap suc (length-intervals u us)

-- The intervals add up to the time between the first event and the last.
total-intervals : (t : ℤ) (ts : List ℤ) → total (intervals t ts) ≡ last_of t ts -ℤ t
unfolding total intervals last_of
total-intervals t [] = eq_of_parts (pos 0) (t -ℤ t) (omega (arith, -ℤ_parts t t))
total-intervals t (u ∷ us) =
    ap (λ z. (u -ℤ t) +ℤ z) (total-intervals u us)
    ∙ eq_of_parts ((u -ℤ t) +ℤ (last_of u us -ℤ u)) (last_of u us -ℤ t) (
        omega (
          arith,
          +ℤ_parts (u -ℤ t) (last_of u us -ℤ u),
          -ℤ_parts u t,
          -ℤ_parts (last_of u us) u,
          -ℤ_parts (last_of u us) t,
        ))

-- For two events or more, if the rounding grows with p: the dict is returned; it counts the events;
-- its summary is that of the intervals, one less than the events, which add up to the duration.
pub rate_dict-intervals :
    {W : Type 0} (scaled : ℕ → ℕ → ℕ) (floats : Rounded W) (name : Text) (t u : ℤ) (us : List ℤ)
    → ((p q n : ℕ) → p ≤ q → scaled p n ≤ scaled q n)
    → (d : RateDict W) × (rate_dict scaled floats
          (record { name = name; timestamps_ns = t ∷ u ∷ us })
        ≡ ok d)
      × (d.count ≡ length (t ∷ u ∷ us))
      × (summarize scaled (intervals t (u ∷ us)) ≡ ok d.inter_arrival_ns)
      × IsOrdered (suc (length us)) d.inter_arrival_ns
      × (total (intervals t (u ∷ us)) ≡ d.duration_ns)
unfolding rate_dict rate_of intervals
rate_dict-intervals scaled floats name t u us grows =
    let (s, ok_s, ordered) = summarize-IsOrdered scaled (u -ℤ t) (intervals u us) grows in
    (
      measured scaled floats name (length (t ∷ u ∷ us)) (last_of t (u ∷ us) -ℤ t) s,
      rw ok_s refl,
      refl,
      ok_s,
      subst (λ n. IsOrdered (suc n) s) (length-intervals u us) ordered,
      total-intervals t (u ∷ us),
    )

-- The dict of any events, if the rounding grows with p.
pub rate_dict-total :
    {W : Type 0} (scaled : ℕ → ℕ → ℕ) (floats : Rounded W) (name : Text) (ts : List ℤ)
    → ((p q n : ℕ) → p ≤ q → scaled p n ≤ scaled q n)
    → (d : RateDict W) × (rate_dict scaled floats (record { name = name; timestamps_ns = ts })
        ≡ ok d)
unfolding rate_dict rate_of summarize
rate_dict-total scaled floats name [] grows = (_, refl)
rate_dict-total scaled floats name (t ∷ []) grows = (_, refl)
rate_dict-total scaled floats name (t ∷ u ∷ us) grows =
    let (d, returned, _, _, _, _) = rate_dict-intervals scaled floats name t u us grows in
    (d, returned)
