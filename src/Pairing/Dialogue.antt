-- ===== src/Pairing/Dialogue.antt =====
-- When a pairing succeeds, and what is written.
use mathlib.Core.List.{append_assoc, append-nil}
use bluek.Prelude.{
  ◌≡◌, refl, sym, ap, subst, ◌∙◌, List, [], ◌∷◌, ◌++◌, Bool, true, false, Option, none, some, Text,
  codes, Bool-cases, ◌⊎◌, inl, inr,
}
use bluek.Prelude.Result.{Result, ok, err, Error, bleak_error}
use bluek.Texts.{contains_text}
use bluek.Hci.{Controllers}
use bluek.Pairing.{
  Output, too_late, timed_out, ended, line, broken, Reply, typed, truthy, refuses, success_re,
  controller_address, opening, LoopEnd, left_with, threw, behind_answer, prompted, dialogue,
  farewell, behind_address, pair_with_bluetoothctl,
}

abbrev pub failed_to_pair : Text → Bool
failed_to_pair = contains_text (codes "Failed to pair")

-- An answer that is not an exception.
abbrev pub IsAnswer : Option Reply → Type 0
IsAnswer none = Unit
IsAnswer (some (typed t)) = Unit
IsAnswer (some (truthy b)) = Unit
IsAnswer (some (refuses e)) = ⊥

module _ (callback : Option Reply) where
  -- A line reports success; those before it do not, none of them reports a failure, and the callback
  -- answers each of them that asks.
  abbrev pub Succeeds : List Output → Type 0
  Succeeds [] = ⊥
  Succeeds (line l ∷ rest) =
      (success_re l ≡ true)
      ⊎ ((success_re l ≡ false)
          × (failed_to_pair l ≡ false)
          × IsAnswer (prompted callback l)
          × Succeeds rest)
  Succeeds (too_late ∷ rest) = ⊥
  Succeeds (timed_out ∷ rest) = ⊥
  Succeeds (ended ∷ rest) = ⊥
  Succeeds (broken e ∷ rest) = ⊥

  -- How the loop ends, from the lines written before it.
  pub data Ends (output : List Output) (sent : List Text) (z : List Text × LoopEnd) : Type 0 where
    paired :
        (answers : List Text)
        → Succeeds output
        → z ≡ (sent ++ answers, left_with true)
        → Ends output sent z
    failed :
        (answers : List Text)
        → (Succeeds output → ⊥)
        → z ≡ (sent ++ answers, left_with false)
        → Ends output sent z
    stopped :
        (answers : List Text) (e : Error)
        → (Succeeds output → ⊥)
        → z ≡ (sent ++ answers, threw e)
        → Ends output sent z

  not_here : (sent : List Text) (r : LoopEnd) → Path (List Text × LoopEnd) (sent, r) (sent ++ [], r)
  not_here sent r = ap (λ t. (t, r)) (sym (append-nil sent))

  not_later :
      (l : Text) (rest : List Output)
      → success_re l ≡ false
      → (Succeeds rest → ⊥)
      → Succeeds (line l ∷ rest)
      → ⊥
  not_later l rest s bad (inl yes_) = cc
  not_later l rest s bad (inr (_, _, _, good)) = bad good

  -- A line that ends nothing, with what is written for it.
  Ends-line :
      (l : Text) (rest : List Output) (sent extra : List Text) (z : List Text × LoopEnd)
      → success_re l ≡ false
      → failed_to_pair l ≡ false
      → IsAnswer (prompted callback l)
      → Ends rest (sent ++ extra) z
      → Ends (line l ∷ rest) sent z
  Ends-line l rest sent extra z s f a (paired w good e) =
      paired (extra ++ w) (inr (s, f, a, good))
        (e ∙ ap (λ t. (t, left_with true)) (append_assoc sent extra w))
  Ends-line l rest sent extra z s f a (failed w bad e) =
      failed (extra ++ w) (not_later l rest s bad)
        (e ∙ ap (λ t. (t, left_with false)) (append_assoc sent extra w))
  Ends-line l rest sent extra z s f a (stopped w x bad e) =
      stopped (extra ++ w) x (not_later l rest s bad)
        (e ∙ ap (λ t. (t, threw x)) (append_assoc sent extra w))

  behind_answer-Ends :
      (l : Text) (rest : List Output) (sent : List Text) (next : List Text → List Text × LoopEnd)
      (o : Option Reply)
      → prompted callback l ≡ o
      → success_re l ≡ false
      → failed_to_pair l ≡ false
      → ((t : List Text) → Ends rest t (next t))
      → Ends (line l ∷ rest) sent (behind_answer next sent o)
  behind_answer-Ends l rest sent next none p s f k =
      Ends-line l rest sent [] (next sent) s f (subst IsAnswer (sym p) tt)
        (subst (λ t. Ends rest t (next sent)) (sym (append-nil sent)) (k sent))
  behind_answer-Ends l rest sent next (some (typed t)) p s f k =
      Ends-line l rest sent (t ∷ []) (next (sent ++ (t ∷ []))) s f (subst IsAnswer (sym p) tt)
        (k (sent ++ (t ∷ [])))
  behind_answer-Ends l rest sent next (some (truthy true)) p s f k =
      Ends-line l rest sent (codes "yes" ∷ []) (next (sent ++ (codes "yes" ∷ []))) s f
        (subst IsAnswer (sym p) tt) (k (sent ++ (codes "yes" ∷ [])))
  behind_answer-Ends l rest sent next (some (truthy false)) p s f k =
      Ends-line l rest sent [] (next sent) s f (subst IsAnswer (sym p) tt)
        (subst (λ t. Ends rest t (next sent)) (sym (append-nil sent)) (k sent))
  behind_answer-Ends l rest sent next (some (refuses e)) p s f k =
      stopped [] e (λ good. elim good [ inl yes_ ↦ cc | inr (_, _, a, _) ↦ subst IsAnswer p a ])
        (not_here sent (threw e))

  dialogue-Ends :
      (output : List Output) (sent : List Text) → Ends output sent (dialogue callback output sent)
  unfolding dialogue
  dialogue-Ends [] sent = failed [] (λ h. h) (not_here sent (left_with false))
  dialogue-Ends (too_late ∷ rest) sent = failed [] (λ h. h) (not_here sent (left_with false))
  dialogue-Ends (timed_out ∷ rest) sent = failed [] (λ h. h) (not_here sent (left_with false))
  dialogue-Ends (ended ∷ rest) sent = failed [] (λ h. h) (not_here sent (left_with false))
  dialogue-Ends (broken e ∷ rest) sent = stopped [] e (λ h. h) (not_here sent (threw e))
  dialogue-Ends (line l ∷ rest) sent = elim (Bool-cases (success_re l)) [
    | inl good ↦ paired [] (inl good) (rw good (not_here sent (left_with true)))
    | inr s ↦ elim (Bool-cases (failed_to_pair l)) [
      | inl bad ↦
          failed [] (λ h. elim h [ inl yes_ ↦ cc | inr (_, f, _, _) ↦ cc ])
            (rw (s, bad) (not_here sent (left_with false)))
      | inr f ↦
          rw (s, f)
            (behind_answer-Ends l rest sent (dialogue callback rest) (prompted callback l) refl s f
              (dialogue-Ends rest))
    ]
  ]

  -- How a pairing ends, for the lines written to the process and the result.
  pub data Pairs (address : Text) (output : List Output) (ctrl : Option Text)
      (z : List Text × Result Bool) : Type 0 where
    trusted :
        (answers : List Text)
        → Succeeds output
        → z ≡ (
          (opening ctrl address ++ answers) ++ ((codes "trust " ++ address) ∷ codes "quit" ∷ []),
          ok true,
        )
        → Pairs address output ctrl z
    refused :
        (answers : List Text) (e : Error)
        → (Succeeds output → ⊥)
        → z ≡ ((opening ctrl address ++ answers) ++ (codes "quit" ∷ []), err e)
        → Pairs address output ctrl z

  farewell-Pairs :
      (address : Text) (output : List Output) (ctrl : Option Text) (z : List Text × LoopEnd)
      → Ends output (opening ctrl address) z
      → Pairs address output ctrl (farewell callback address z)
  farewell-Pairs address output ctrl z (paired w good e) =
      trusted w good (ap (farewell callback address) e)
  farewell-Pairs address output ctrl z (failed w bad e) =
      refused w bleak_error bad (ap (farewell callback address) e)
  farewell-Pairs address output ctrl z (stopped w x bad e) =
      refused w x bad (ap (farewell callback address) e)

  -- If the controller's address can be looked up: pairing returns true exactly if a line of the
  -- output reports success before the dialogue ends, and then the device is trusted; otherwise it
  -- raises. Either way it writes the opening first and `quit` last.
  pub pair_with_bluetoothctl-Pairs :
      (k : Controllers) (address : Text) (adapter ctrl : Option Text) (output : List Output)
      → controller_address k adapter ≡ ok ctrl
      → Pairs address output ctrl (pair_with_bluetoothctl callback k address adapter output)
  unfolding pair_with_bluetoothctl
  pair_with_bluetoothctl-Pairs k address adapter ctrl output at_ =
      subst (λ r. Pairs address output ctrl (behind_address callback address output r)) (sym at_)
        (farewell-Pairs address output ctrl (dialogue callback output (opening ctrl address))
          (dialogue-Ends output (opening ctrl address)))
