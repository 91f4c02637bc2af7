-- ===== src/Client/Attempts.antt =====
-- What the connect loop returns, and that it ends.
use bluek.Prelude.{
  ◌≡◌, ◌≢◌, refl, ap, ℕ, zero, suc, ◌+◌, ◌-◌, ◌<◌, ◌≤◌, List, [], ◌∷◌, Bool, true, false, not, ◌||◌,
  Option, Text, leb, if◌then◌else◌, arith, Bool-cases, inl, inr, IsIn,
}
use bluek.Prelude.Result.{Result, ok, err, device_not_found, out_of_fuel}
use bluek.Client.Connect.{
  candidate_types, lock_in, Dialed, connected, timed_out, refused, raised, Peer, RoundEnd, found,
  exhausted, failed, after_dial, try_types, end_round, connect_loop, find_peer,
}

-- The attempts raise Python's exceptions.
abbrev pub IsPython : {E : Type 0} → Peer E → Type 0
IsPython {E} peer = (e : E) (t remaining : ℕ) → (peer.dial e t remaining).0 ≢ raised out_of_fuel

-- How a loop may end: with one of the types, or an exception of Python's.
abbrev pub IsAnswer : List ℕ → Result ℕ → Type 0
IsAnswer types (ok t) = IsIn t types
IsAnswer types (err e) = e ≢ out_of_fuel

-- How a round may end, from a time.
abbrev IsEnd : {E : Type 0} → List ℕ → ℕ → RoundEnd E → Type 0
IsEnd types now (found t later e) = IsIn t types
IsEnd types now (exhausted transient later e) = now ≤ later
IsEnd types now (failed x later e) = x ≢ out_of_fuel

IsEnd-cons :
    {E : Type 0} (t : ℕ) (ts : List ℕ) (now later : ℕ) (r : RoundEnd E)
    → now ≤ later
    → IsEnd ts later r
    → IsEnd (t ∷ ts) now r
IsEnd-cons t ts now later (found u k e) le h = inr h
IsEnd-cons t ts now later (exhausted transient k e) le h = omega arith
IsEnd-cons t ts now later (failed x k e) le h = h

module _ {E : Type 0} (peer : Peer E) (deadline : ℕ) (python : IsPython peer) where
  after_dial-IsEnd :
      (next : Bool → ℕ → E → RoundEnd E) (t : ℕ) (ts : List ℕ) (transient : Bool) (now took : ℕ)
      (e : E) (ended : Dialed)
      → ended ≢ raised out_of_fuel
      → ((b : Bool) → IsEnd ts (now + took) (next b (now + took) e))
      → IsEnd (t ∷ ts) now (after_dial next t transient (now + took) e ended)
  after_dial-IsEnd next t ts transient now took e connected ne k = inl refl
  after_dial-IsEnd next t ts transient now took e timed_out ne k =
      IsEnd-cons t ts now (now + took) _ (omega arith) (k transient)
  after_dial-IsEnd next t ts transient now took e refused ne k =
      IsEnd-cons t ts now (now + took) _ (omega arith) (k true)
  after_dial-IsEnd next t ts transient now took e (raised x) ne k = λ h. ne (ap raised h)

  try_types-IsEnd :
      (types : List ℕ) (transient : Bool) (now : ℕ) (e : E)
      → IsEnd types now (try_types peer deadline types transient now e)
  unfolding try_types
  try_types-IsEnd [] transient now e = omega arith
  try_types-IsEnd (t ∷ ts) transient now e =
      let (ended, took, e') = peer.dial e t (deadline - now) in
      elim (Bool-cases (leb deadline now)) [
        | inl over ↦ rw over (omega arith)
        | inr open_ ↦ rw open_ (
            after_dial-IsEnd (try_types peer deadline ts) t ts transient now took e' ended
              (python e t (deadline - now)) (λ b. try_types-IsEnd ts b (now + took) e'))
      ]

  -- A retry sleeps for the delay or longer.
  end_round-IsAnswer :
      (delay : ℕ) (address : Text) (again : ℕ → E → Result ℕ × E) (types : List ℕ) (now : ℕ)
      (r : RoundEnd E)
      → IsEnd types now r
      → ((later : ℕ) (e : E)
          → now + delay ≤ later
          → now + delay < deadline
          → IsAnswer types (again later e).0)
      → IsAnswer types (end_round peer deadline delay address again r).0
  end_round-IsAnswer delay address again types now (found t later e) h k = h
  end_round-IsAnswer delay address again types now (failed x later e) h k = h
  end_round-IsAnswer delay address again types now (exhausted transient later e) h k =
      let (extra, e') = peer.oversleep e in
      elim (Bool-cases (not transient || leb (deadline - later) delay)) [
        | inl gives_up ↦ rw gives_up (λ no. cc)
        | inr retries ↦
            let early : now + delay < deadline = ground arith in
            rw retries (k (later + delay + extra) e' (omega arith) early)
      ]

  connect_loop-IsAnswer :
      (delay : ℕ) (address : Text) (types : List ℕ) (fuel now : ℕ) (e : E)
      → 0 < delay
      → deadline - now < fuel
      → IsAnswer types (connect_loop peer deadline delay fuel address types now e).0
  unfolding connect_loop
  connect_loop-IsAnswer delay address types zero now e waits enough = absurd (omega arith)
  connect_loop-IsAnswer delay address types (suc fuel) now e waits enough =
      end_round-IsAnswer delay address (connect_loop peer deadline delay fuel address types) types
        now (try_types peer deadline types false now e) (try_types-IsEnd types false now e)
        (λ later e' slept early.
          connect_loop-IsAnswer delay address types fuel later e' waits (omega arith))

  -- Connecting ends for every behaviour of the peer, if the delay between retries is above 0 and the
  -- attempts raise Python's exceptions: it returns one of the candidate types, or raises such an
  -- exception.
  pub find_peer-IsAnswer :
      (delay : ℕ) (address : Text) (observed peer_type : Option ℕ) (now : ℕ) (e : E)
      → 0 < delay
      → IsAnswer
          (candidate_types (lock_in observed peer_type))
          (find_peer peer deadline delay address observed peer_type now e).0
  unfolding find_peer
  find_peer-IsAnswer delay address observed peer_type now e waits =
      connect_loop-IsAnswer delay address (candidate_types (lock_in observed peer_type))
        (suc (deadline - now)) now e waits (omega arith)

-- A peer that never answers.
abbrev pub IsAbsent : {E : Type 0} → Peer E → Type 0
IsAbsent {E} peer = (e : E) (t remaining : ℕ) → (peer.dial e t remaining).0 ≡ timed_out

module _ {E : Type 0} (peer : Peer E) (deadline : ℕ) (absent : IsAbsent peer) where
  -- What a round leaves: its time and world.
  abbrev pub after_round : List ℕ → ℕ → E → ℕ × E
  after_round [] now e = (now, e)
  after_round (t ∷ ts) now e =
      let (ended, took, e') = peer.dial e t (deadline - now) in
      let rest = after_round ts (now + took) e' in if leb deadline now then (now, e) else rest

  try_types-absent :
      (types : List ℕ) (now : ℕ) (e : E)
      → (later : ℕ) × (e' : E) × ((later, e') ≡ after_round types now e)
        × (try_types peer deadline types false now e ≡ exhausted false later e')
  unfolding try_types
  try_types-absent [] now e = (now, e, refl, refl)
  try_types-absent (t ∷ ts) now e =
      let (ended, took, e') = peer.dial e t (deadline - now) in
      elim (Bool-cases (leb deadline now)) [
        | inl over ↦ (now, e, rw over refl, rw over refl)
        | inr open_ ↦
            let (later, e'', same, ends) = try_types-absent ts (now + took) e' in
            (later, e'', rw open_ same, rw (open_, absent e t (deadline - now)) ends)
      ]

  -- If every attempt times out, connect makes one round over the candidate types and no retry, and
  -- raises that the device was not found.
  pub find_peer-absent :
      (delay : ℕ) (address : Text) (observed peer_type : Option ℕ) (now : ℕ) (e : E)
      → find_peer peer deadline delay address observed peer_type now e ≡ (
        err (device_not_found address),
        (after_round (candidate_types (lock_in observed peer_type)) now e).1,
      )
  unfolding find_peer connect_loop
  find_peer-absent delay address observed peer_type now e =
      let (later, e', same, ends) =
        try_types-absent (candidate_types (lock_in observed peer_type)) now e in
      rw ends (ap (λ z. (err (device_not_found address), z.1)) same)
