-- ===== src/Att/Lock.antt =====
-- `_request` of bluek/_att.py with any number of callers at a time, as a step relation.
--
-- A caller is a number, and makes one request; `expected` gives the opcode that it waits for. Each
-- creates a future of its own, and the client has a reference to one of them. `asyncio.Lock` lets at
-- most one caller hold it; which of the waiting gets it next is left open. Between two steps a caller
-- does not await, so steps are atomic.
pub mod Futures
pub mod Invariant
pub mod Causes
pub mod Serial
pub mod Origin
mod Tests
use bluek.Prelude.{
  ℕ, List, [], ◌∷◌, Bool, true, false, ◌||◌, Option, none, some, ◌==◌, ◌≡◌, ◌≢◌, if◌then◌else◌,
}
use bluek.Prelude.Family.{set_at}
use bluek.Prelude.Result.{Result, ok, err, Error, timeout_error}
use bluek.Bytes.{Bytes}
use bluek.Att.State.{
  Client, new_client, Future, waiting, resolved, failed, Event, received, closed, handle_event,
}
use bluek.Att.Request.{check_response}

-- Where a caller is: before the lock, in `send`, in `wait_for`, or done.
pub data Phase : Type 0 where
  queued sending awaiting : Phase
  finished : Result Bytes → Phase

pub record Shared : Type 0 where
  pub client : Client
  pub holder : Option ℕ
  -- self._pending, as a reference
  pub current : Option ℕ
  pub futures : ℕ → Future
  pub phases : ℕ → Phase
  -- whether the link was closed, a send raised, or a caller was cancelled
  pub faults : Bool

abbrev pub pointed : Option ℕ → (ℕ → Future) → Option Future
pointed none futures = none
pointed (some i) futures = some (futures i)

abbrev pub write_back : Option ℕ → Option Future → (ℕ → Future) → ℕ → Future
write_back (some i) (some f) futures = set_at i f futures
write_back _ _ futures = futures

abbrev pub is_closed : Event → Bool
is_closed (received b) = false
is_closed (closed exc) = true

-- The event loop handles what the socket reports.
unfoldable pub handle : Event → Shared → Shared
handle e s =
    let c = handle_event e (record s.client { pending = pointed s.current s.futures }) in
    record s {
      client = c;
      futures = write_back s.current c.pending s.futures;
      faults = s.faults || is_closed e;
    }

-- `async with self._txn_lock`, and the assignments in front of the `try`
unfoldable pub acquire : ℕ → ℕ → Shared → Shared
acquire i opcode s = record s {
  client = record s.client { pending_opcode = some opcode };
  holder = some i;
  current = some i;
  futures = set_at i waiting s.futures;
  phases = set_at i sending s.phases;
}

-- `finally`, the release of the lock, and what the call returns or raises
unfoldable pub release : ℕ → Result Bytes → Bool → Shared → Shared
release i r fault s = record s {
  client = record s.client { pending_opcode = none };
  holder = none;
  current = none;
  phases = set_at i (finished r) s.phases;
  faults = s.faults || fault;
}

module _ (expected : ℕ → ℕ) where
  -- The steps of the callers and of the event loop.
  pub data Step (s : Shared) : Shared → Type 0 where
    lock : (i : ℕ) → s.phases i ≡ queued → s.holder ≡ none → Step s (acquire i (expected i) s)
    sent :
        (i : ℕ) → s.phases i ≡ sending → Step s (record s { phases = set_at i awaiting s.phases })
    -- the send raises, or the caller is cancelled
    not_sent : (i : ℕ) (e : Error) → s.phases i ≡ sending → Step s (release i (err e) true s)
    reply :
        (i : ℕ) (b : Bytes)
        → s.phases i ≡ awaiting
        → s.futures i ≡ resolved b
        → Step s (release i (check_response (expected i) b) false s)
    broken :
        (i : ℕ) (e : Error)
        → s.phases i ≡ awaiting
        → s.futures i ≡ failed e
        → Step s (release i (err e) false s)
    timeout :
        (i : ℕ)
        → s.phases i ≡ awaiting
        → s.futures i ≡ waiting
        → Step s (release i (err timeout_error) false s)
    cancel_wait : (i : ℕ) (e : Error) → s.phases i ≡ awaiting → Step s (release i (err e) true s)
    cancel_queued :
        (i : ℕ) (e : Error)
        → s.phases i ≡ queued
        → Step s (record s { phases = set_at i (finished (err e)) s.phases; faults = true })
    event : (e : Event) → Step s (handle e s)

  pub data Reach (s : Shared) : Shared → Type 0 where
    here : Reach s s
    next : {t u : Shared} → Reach s t → Step t u → Reach s u

-- Every caller waits for the lock.
abbrev pub begin : Client → Shared
begin c = record {
  client = c;
  holder = none;
  current = none;
  futures = λ _. waiting;
  phases = λ _. queued;
  faults = false;
}
