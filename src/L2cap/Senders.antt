-- ===== src/L2cap/Senders.antt =====
-- `send` of bluek/_l2cap.py with any number of senders at a time, as a step relation.
--
-- `_request` sends, and so do `write_command` and the tasks of `_confirm` and `_send_mtu_rsp`, which
-- do not take the transaction lock. A sender is a number, and sends one PDU. The event loop has one
-- writer for a socket: `add_writer` replaces the callback that is there, and `remove_writer` takes
-- out whichever is there. The callback of a sender settles the future that this sender waits for.
pub mod Wakeups
pub mod Alone
mod Tests
use bluek.Prelude.{ℕ, ◌≡◌, List, [], ◌∷◌, ◌++◌, Option, none, some}
use bluek.Prelude.Family.{set_at}
use bluek.Prelude.Result.{Result, ok, err, Error, os_error}

-- Where a sender is: not in `send`, about to try, waiting for its future, about to go on behind it,
-- or done.
pub data SendPhase : Type 0 where
  idle trying waits woken : SendPhase
  over : Result (Unit {0}) → SendPhase

pub record Senders : Type 0 where
  -- the sender whose callback the event loop calls when the socket is writable
  pub writer : Option ℕ
  pub phases : ℕ → SendPhase
  -- the senders whose PDUs the socket accepted, in order
  pub accepted : List ℕ

abbrev pub begin : Senders
begin = record { writer = none; phases = λ _. idle; accepted = [] }

abbrev pub move_to : SendPhase → ℕ → Senders → Senders
move_to p i s = record s { phases = set_at i p s.phases }

-- self._sock.send(data) goes through.
unfoldable pub accept : ℕ → Senders → Senders
accept i s = record s {
  phases = set_at i (over (ok tt)) s.phases;
  accepted = s.accepted ++ (i ∷ []);
}

-- It would block: a new future, and add_writer.
unfoldable pub wait_writable : ℕ → Senders → Senders
wait_writable i s = record s { phases = set_at i waits s.phases; writer = some i }

abbrev pub wake_phase : SendPhase → SendPhase
wake_phase waits = woken
wake_phase p = p

-- The callback: fut.done() or fut.set_result(None)
unfoldable pub call_writer : ℕ → Senders → Senders
call_writer i s = move_to (wake_phase (s.phases i)) i s

-- `finally: remove_writer`, when the sender goes on or gets an exception.
unfoldable pub leave_wait : SendPhase → ℕ → Senders → Senders
leave_wait p i s = record s { phases = set_at i p s.phases; writer = none }

-- `gate` says in which states a sender may start.
module _ (gate : Senders → Type 0) where
  pub data SendStep (s : Senders) : Senders → Type 0 where
    starts : (i : ℕ) → s.phases i ≡ idle → gate s → SendStep s (move_to trying i s)
    accepts : (i : ℕ) → s.phases i ≡ trying → SendStep s (accept i s)
    refuses :
        (i errno : ℕ) → s.phases i ≡ trying → SendStep s (move_to (over (err (os_error errno))) i s)
    blocks : (i : ℕ) → s.phases i ≡ trying → SendStep s (wait_writable i s)
    writable : (i : ℕ) → s.writer ≡ some i → SendStep s (call_writer i s)
    resumes : (i : ℕ) → s.phases i ≡ woken → SendStep s (leave_wait trying i s)
    cancels : (i : ℕ) (e : Error) → s.phases i ≡ waits → SendStep s (leave_wait (over (err e)) i s)
    cancels_woken :
        (i : ℕ) (e : Error) → s.phases i ≡ woken → SendStep s (leave_wait (over (err e)) i s)

  pub data Sends (s : Senders) : Senders → Type 0 where
    here : Sends s s
    next : {t u : Senders} → Sends s t → SendStep t u → Sends s u
