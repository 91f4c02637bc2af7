-- ===== src/Client/Connect.antt =====
-- The loop of `BleakClient.connect` over address types and retries.
--
-- Times are natural numbers of one unit. What an attempt to connect does is a parameter: `dial`
-- takes the address type and the time that remains, and says how `L2CAPSocket.connect` ended and
-- how long it took; `oversleep` is what a sleep takes beyond the time it was asked for. The loop
-- takes fuel; a retry sleeps, so the time to the deadline is enough.
use bluek.Prelude.{
  ℕ, zero, suc, ◌+◌, ◌-◌, List, [], ◌∷◌, Bool, true, false, not, ◌||◌, Option, none, some, Text,
  leb, ◌==◌, if◌then◌else◌,
}
use bluek.Prelude.Result.{Result, ok, err, Error, device_not_found, out_of_fuel}

abbrev pub bdaddr_le_public : ℕ
bdaddr_le_public = 1

abbrev pub bdaddr_le_random : ℕ
bdaddr_le_random = 2

abbrev pub is_le : ℕ → Bool
is_le t = t == bdaddr_le_public || t == bdaddr_le_random

-- _candidate_types
unfoldable pub candidate_types : Option ℕ → List ℕ
candidate_types none = bdaddr_le_public ∷ bdaddr_le_random ∷ []
candidate_types (some t) = if is_le t then t ∷ [] else bdaddr_le_public ∷ bdaddr_le_random ∷ []

-- The type that the scan before the connect saw takes the place of the known one.
abbrev pub lock_in : Option ℕ → Option ℕ → Option ℕ
lock_in none peer_type = peer_type
lock_in (some t) peer_type = if is_le t then some t else peer_type

-- How an attempt ends: a socket, `asyncio.TimeoutError`, `OSError`, or another exception.
pub data Dialed : Type 0 where
  connected timed_out refused : Dialed
  raised : Error → Dialed

-- The world behind the attempts.
pub record Peer (E : Type 0) : Type 0 where
  pub dial : E → ℕ → ℕ → Dialed × ℕ × E
  pub oversleep : E → ℕ × E

-- How the `for` loop of a round ends.
pub data RoundEnd (E : Type 0) : Type 0 where
  found : ℕ → ℕ → E → RoundEnd E
  exhausted : Bool → ℕ → E → RoundEnd E
  failed : Error → ℕ → E → RoundEnd E

-- What the end of an attempt means for the round; `next` tries the other types.
abbrev pub after_dial :
    {E : Type 0} → (Bool → ℕ → E → RoundEnd E) → ℕ → Bool → ℕ → E → Dialed → RoundEnd E
after_dial next t transient now e connected = found t now e
after_dial next t transient now e timed_out = next transient now e
after_dial next t transient now e refused = next true now e
after_dial next t transient now e (raised x) = failed x now e

module _ {E : Type 0} (peer : Peer E) (deadline : ℕ) where
  -- The `for` loop over the candidate types, from the flag `transient` and the time.
  unfoldable pub try_types : List ℕ → Bool → ℕ → E → RoundEnd E
  try_types [] transient now e = exhausted transient now e
  try_types (t ∷ ts) transient now e =
      let (ended, took, e') = peer.dial e t (deadline - now) in
      let attempt = after_dial (try_types ts) t transient (now + took) e' ended in
      if leb deadline now then exhausted transient now e else attempt

module _ {E : Type 0} (peer : Peer E) (deadline delay : ℕ) where
  -- The end of a round: `again` goes on behind the sleep.
  abbrev pub end_round : Text → (ℕ → E → Result ℕ × E) → RoundEnd E → Result ℕ × E
  end_round address again (found t now e) = (ok t, e)
  end_round address again (failed x now e) = (err x, e)
  end_round address again (exhausted transient now e) =
      let (extra, e') = peer.oversleep e in
      if not transient || leb (deadline - now) delay
      then (err (device_not_found address), e)
      else again (now + delay + extra) e'

  -- The `while` loop: the address type that answered.
  unfoldable pub connect_loop : ℕ → Text → List ℕ → ℕ → E → Result ℕ × E
  connect_loop zero address types now e = (err out_of_fuel, e)
  connect_loop (suc fuel) address types now e =
      end_round address (connect_loop fuel address types)
        (try_types peer deadline types false now e)

-- The part of `connect` that opens the socket, for the type that the scan observed.
unfoldable pub find_peer :
    {E : Type 0} → Peer E → ℕ → ℕ → Text → Option ℕ → Option ℕ → ℕ → E → Result ℕ × E
unfolding connect_loop
find_peer peer deadline delay address observed peer_type now e =
    connect_loop peer deadline delay (suc (deadline - now)) address
      (candidate_types (lock_in observed peer_type)) now e
