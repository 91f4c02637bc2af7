-- ===== src/Pairing.antt =====
-- bluek/pairing.py: the dialogue with `bluetoothctl`.
--
-- The process is a parameter: its lines, each with what `wait_for` does for it, in their order. The
-- decoded lines are ASCII, with a newline at most at the end; `callback` is what the caller's function
-- does. Writing to the process returns; the lines written are logged. The wait for
-- the end of the process, and its kill, are left out.
mod Dialogue
mod Tests
use bluek.Prelude.{
  ℕ, List, [], ◌∷◌, ◌++◌, Bool, true, false, ◌==◌, ◌&&◌, ◌||◌, drop, Option, none, some, Text,
  codes, if◌then◌else◌,
}
use bluek.Prelude.Result.{Result, ok, err, Error, bleak_error, value_error}
use bluek.Texts.{contains_text, starts_with, lstrip, is_space, lower}
use bluek.Hci.{Controllers, adapter_index, adapter_address}

-- What a round of the loop meets: the deadline has passed, `readline` times out, the output ends, a
-- line, or another exception.
pub data Output : Type 0 where
  too_late timed_out ended : Output
  line : Text → Output
  broken : Error → Output

-- What the callback does: it returns a text, or another value that is true or false, or it raises.
pub data Reply : Type 0 where
  typed : Text → Reply
  truthy : Bool → Reply
  refuses : Error → Reply

-- A test holds for the text or for one that begins further on.
unfoldable pub some_suffix : (Text → Bool) → Text → Bool
some_suffix p [] = p []
some_suffix p (c ∷ s) = let rest = some_suffix p s in if p (c ∷ s) then true else rest

-- Paired:\s*yes, at the front of a text in lower case
abbrev pub paired_yes : Text → Bool
paired_yes s =
    starts_with (codes "paired:") s && starts_with (codes "yes") (lstrip is_space (drop 7 s))

-- already.*paired, at the front of a line in lower case
abbrev pub already_paired : Text → Bool
already_paired s = starts_with (codes "already") s && contains_text (codes "paired") (drop 7 s)

-- _SUCCESS_RE.search(line)
unfoldable pub success_re : Text → Bool
unfolding some_suffix
success_re l =
    let t = lower l in
    contains_text (codes "pairing successful") t
    || (some_suffix already_paired t || some_suffix paired_yes t)

-- _PASSKEY_RE.search(line)
unfoldable pub passkey_re : Text → Bool
passkey_re l =
    let t = lower l in
    contains_text (codes "passkey") t
    || (contains_text (codes "pin code") t || contains_text (codes "enter") t)

-- _controller_address: ValueError is caught
abbrev pub or_no_address : Result (Option Text) → Result (Option Text)
or_no_address (err value_error) = ok none
or_no_address r = r

abbrev pub address_of : Controllers → Result ℕ → Result (Option Text)
address_of k (err e) = err e
address_of k (ok index) = adapter_address k index

unfoldable pub controller_address : Controllers → Option Text → Result (Option Text)
controller_address k adapter = or_no_address (address_of k (adapter_index k adapter))

-- if ctrl: await send(f"select {ctrl}")
abbrev pub select : Option Text → List Text
select none = []
select (some []) = []
select (some (c ∷ s)) = (codes "select " ++ (c ∷ s)) ∷ []

-- The lines written before the loop.
abbrev pub opening : Option Text → Text → List Text
opening ctrl address =
    select ctrl ++ (codes "agent on" ∷ codes "default-agent" ∷ (codes "pair " ++ address) ∷ [])

-- How the `try` block ends: by a `break`, with `success`, or by an exception.
pub data LoopEnd : Type 0 where
  left_with : Bool → LoopEnd
  threw : Error → LoopEnd

-- What is written for the callback's answer to a prompt; `next` goes on with the loop.
abbrev pub behind_answer :
    (List Text → List Text × LoopEnd) → List Text → Option Reply → List Text × LoopEnd
behind_answer next sent none = next sent
behind_answer next sent (some (typed t)) = next (sent ++ (t ∷ []))
behind_answer next sent (some (truthy true)) = next (sent ++ (codes "yes" ∷ []))
behind_answer next sent (some (truthy false)) = next sent
behind_answer next sent (some (refuses e)) = (sent, threw e)

module _ (callback : Option Reply) where
  -- The callback's answer, if the line asks and there is a callback.
  abbrev pub prompted : Text → Option Reply
  prompted l = if passkey_re l then callback else none

  -- The lines written when the loop ends, and how it ends; behind the last output the deadline passes.
  unfoldable pub dialogue : List Output → List Text → List Text × LoopEnd
  dialogue [] sent = (sent, left_with false)
  dialogue (too_late ∷ rest) sent = (sent, left_with false)
  dialogue (timed_out ∷ rest) sent = (sent, left_with false)
  dialogue (ended ∷ rest) sent = (sent, left_with false)
  dialogue (broken e ∷ rest) sent = (sent, threw e)
  dialogue (line l ∷ rest) sent =
      let more = behind_answer (dialogue rest) sent (prompted l) in
      if success_re l
      then (sent, left_with true)
      else if contains_text (codes "Failed to pair") l
      then (sent, left_with false)
      else more

  -- `finally`, and the end.
  abbrev pub farewell : Text → List Text × LoopEnd → List Text × Result Bool
  farewell address (sent, left_with true) =
      (sent ++ ((codes "trust " ++ address) ∷ codes "quit" ∷ []), ok true)
  farewell address (sent, left_with false) = (sent ++ (codes "quit" ∷ []), err bleak_error)
  farewell address (sent, threw e) = (sent ++ (codes "quit" ∷ []), err e)

  abbrev pub behind_address : Text → List Output → Result (Option Text) → List Text × Result Bool
  behind_address address output (err e) = ([], err e)
  behind_address address output (ok ctrl) =
      farewell address (dialogue output (opening ctrl address))

  unfoldable pub pair_with_bluetoothctl :
      Controllers → Text → Option Text → List Output → List Text × Result Bool
  unfolding controller_address
  pair_with_bluetoothctl k address adapter output =
      behind_address address output (controller_address k adapter)

-- remove_with_bluetoothctl, for the arguments of the process and its return code
unfoldable pub remove_with_bluetoothctl : (List Text → ℕ) → Text → Bool
remove_with_bluetoothctl run address =
    run (codes "bluetoothctl" ∷ codes "remove" ∷ address ∷ []) == 0
