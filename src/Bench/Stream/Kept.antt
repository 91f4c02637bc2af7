-- ===== src/Bench/Stream/Kept.antt =====
-- What the advert and notify scenarios return of the events that a stack yields.
use bluek.Prelude.{
  ◌≡◌, refl, ap, ℕ, ◌≤◌, ◌∙◌, List, Option, none, some, Text, codes, text_eq, ◌||◌, Bool-cases, inl,
  inr,
}
use bluek.Prelude.Int.{ℤ}
use bluek.Prelude.Result.{Result, ok, err, Error}
use bluek.Measure.Recorder.{RateDict, rate_dict}
use bluek.Measure.Rates.{rate_dict-total}
use bluek.Bench.Runner.{BenchConfig}
use bluek.Bench.Scenario.{Machine, Out, base_result, note}
use bluek.Bench.Stream.{
  Source, Seconds, Adverts, listen, listening, after_loop, deadline_of, run_advert, adverts_of,
  coalesced, with_result, rate_result, run_notify, notify_set_up, with_target,
}
use bluek.Bench.Stream.Loop.{Tells, kept, is_nonempty, first_behind, is_some, after_loop-Kept}

note-keeps :
    {R F : Type 0} (out : Out R F) (r : Result (Unit {0}))
    → ((note out r).error ≡ out.error) × (is_some (note out r).cpu ≡ is_some out.cpu)
note-keeps out (ok _) = (refl, refl)
note-keeps out (err e) = (refl, refl)

module _ {F H W : Type 0} (machine : Machine F W) (seconds : Seconds F)
    (source : Source F H W) where
  coalesced-bare :
      {R : Type 0} (out : Out R F)
      → out.cpu ≡ none
      → (coalesced machine seconds source out).cpu ≡ none
  coalesced-bare out h =
      elim (Bool-cases
        (text_eq out.stack (codes "raw_dbus") || text_eq out.stack (codes "lib_bleak"))) [
          | inl yes_ ↦ rw yes_ h
          | inr no_ ↦ rw no_ h
        ]

  -- If the rounding grows with p and the stack's iterator yields these times, then ends or raises: the
  -- advert scenario returns. Its error is what the iterator raised; its summary is that of the events
  -- that are not in the warm-up, in order; the first of them gives the time to the first device, and
  -- there are CPU times exactly if there is one.
  pub run_advert-kept :
      (cfg : BenchConfig F) (ts : List ℤ) (end : Option Error) (w : W)
      → ((p q n : ℕ) → p ≤ q → machine.scaled p n ≤ machine.scaled q n)
      → let deadline = deadline_of machine seconds source cfg (machine.perf_ns w).0 in
        Tells
          (source.scan_iter (seconds.plus cfg.warmup_s cfg.duration_s) (machine.perf_ns w).1)
          ts
          end
        → (out : Out (Adverts F) F) × (d : RateDict F) × ((run_advert machine seconds source cfg
              w).0
            ≡ ok out)
          × (rate_dict machine.scaled machine.floats
                (record { name = codes "adverts"; timestamps_ns = kept deadline ts })
              ≡ ok d)
          × (out.result ≡ some (adverts_of (first_behind deadline (kept deadline ts)) d))
          × (out.error ≡ end)
          × (is_some out.cpu ≡ is_nonempty (kept deadline ts))
  unfolding run_advert base_result
  run_advert-kept cfg ts end w grows tells =
      let (now, w₁) = machine.perf_ns w in
      let deadline = deadline_of machine seconds source cfg now in
      let events = source.scan_iter (seconds.plus cfg.warmup_s cfg.duration_s) w₁ in
      let out = coalesced machine seconds source (base_result cfg (codes "advert") source.name) in
      let z =
        after_loop machine out
          (listen machine deadline events (listening machine (codes "adverts") w₁)) in
      let (error, given, (rec, first, _)) =
        after_loop-Kept machine (codes "adverts") deadline out events ts end w₁ tells
          (coalesced-bare (base_result cfg (codes "advert") source.name) refl) in
      let (d, dict) =
        rate_dict-total machine.scaled machine.floats (codes "adverts") (kept deadline ts) grows in
      let dict' : rate_result machine z.1 ≡ ok d =
        ap (rate_dict machine.scaled machine.floats) rec ∙ dict in
      (
        record z.0 { result = some (adverts_of z.1.first_device_ns d) },
        d,
        ap (with_result machine (adverts_of z.1.first_device_ns) z.0) dict',
        dict,
        ap (λ f. some (adverts_of f d)) first,
        error,
        given,
      )

  -- As for the adverts. The set-up returns the handle; then the scenario returns, whatever the
  -- teardown does, which is the last that it does.
  pub run_notify-kept :
      (cfg : BenchConfig F) (target : Text) (handle : H) (ts : List ℤ) (end : Option Error)
      (w w₀ : W)
      → ((p q n : ℕ) → p ≤ q → machine.scaled p n ≤ machine.scaled q n)
      → source.setup_gatt target w ≡ (ok handle, w₀)
      → let deadline = deadline_of machine seconds source cfg (machine.perf_ns w₀).0 in
        Tells
          (source.notify_iter handle cfg.char_notify_uuid
            (seconds.plus cfg.warmup_s cfg.duration_s)
            (machine.perf_ns w₀).1)
          ts
          end
        → (out : Out (RateDict F) F) × (d : RateDict F) × (w' : W) × (run_notify machine seconds
              source cfg target w
            ≡ (ok out, (source.teardown handle w').1))
          × (rate_dict machine.scaled machine.floats
                (record { name = codes "notify"; timestamps_ns = kept deadline ts })
              ≡ ok d)
          × (out.result ≡ some d)
          × (out.error ≡ end)
          × (is_some out.cpu ≡ is_nonempty (kept deadline ts))
  unfolding run_notify base_result
  run_notify-kept cfg target handle ts end w w₀ grows set_up tells =
      let (now, w₁) = machine.perf_ns w₀ in
      let deadline = deadline_of machine seconds source cfg now in
      let total = seconds.plus cfg.warmup_s cfg.duration_s in
      let events = source.notify_iter handle cfg.char_notify_uuid total w₁ in
      let bare = base_result cfg (codes "notify") source.name in
      let out = with_target machine seconds source cfg bare in
      let z =
        after_loop machine out
          (listen machine deadline events (listening machine (codes "notify") w₁)) in
      let (error, given, (rec, _, _)) =
        after_loop-Kept machine (codes "notify") deadline out events ts end w₁ tells refl in
      let (d, dict) =
        rate_dict-total machine.scaled machine.floats (codes "notify") (kept deadline ts) grows in
      let dict' : rate_result machine z.1 ≡ ok d =
        ap (rate_dict machine.scaled machine.floats) rec ∙ dict in
      let (r, w₂) = source.teardown handle z.2 in
      let noted = note z.0 r in
      let (error_kept, given_kept) = note-keeps z.0 r in
      (
        record noted { result = some d },
        d,
        z.2,
        ap (notify_set_up machine seconds source cfg) set_up
            ∙ ap (λ x. (with_result machine (λ d. d) noted x, w₂)) dict',
        dict,
        refl,
        error_kept ∙ error,
        given_kept ∙ given,
      )
