-- ===== src/Att/Request.antt =====
-- One ATT transaction (`_request`), the MTU exchange and the writes, against any peer.
--
-- The event loop and the peer are a parameter: `answer` takes what is sent and says whether the
-- send raised, and which events the loop handles from then until the waiting task runs again, be it
-- with the data of its future or with what the send raised behind a wait.
-- A round in which nothing resolves the future ends with the timeout of `asyncio.wait_for`. The
-- transaction lock is free, as it is for a client that makes one call at a time.
pub mod Outcomes
pub mod Keeps
pub mod Steps
pub mod Mtu
use bluek.Prelude.{ℕ, List, [], ◌∷◌, ◌++◌, false, Option, none, some, min, max, ◌==◌, if◌then◌else◌}
use bluek.Prelude.Result.{
  Error, bleak_error, att_error, timeout_error, os_error, index_error, struct_error, Result, ok,
  err,
}
use bluek.Bytes.{Bytes, slice, to_bytes, from_bytes}
use bluek.Att.Codes.{
  error_rsp, exchange_mtu_req, exchange_mtu_rsp, write_req, write_rsp, write_cmd, default_mtu,
}
use bluek.Att.State.{
  Task, task_pdu, Future, waiting, resolved, failed, Client, Event, handle_events,
}

pub record Round : Type 0 where
  pub send_error : Option Error
  pub events : List Event

abbrev pub Answer : Type 0 → Type 0
Answer P = P → Bytes → P × Round

pub record World (P : Type 0) : Type 0 where
  pub client : Client
  pub sent : List Bytes
  pub peer : P

-- A coroutine of the client: it returns or raises, and leaves a world.
abbrev pub Exec : Type 0 → Type 0 → Type 0
Exec P A = World P → Result A × World P

abbrev pub pure : {P A : Type 0} → A → Exec P A
pure a w = (ok a, w)

abbrev pub raise : {P A : Type 0} → Error → Exec P A
raise e w = (err e, w)

abbrev pub lift : {P A : Type 0} → Result A → Exec P A
lift r w = (r, w)

infixl 5 ◌>>=◌ ◌>>◌
abbrev pub ◌>>=◌ : {P A B : Type 0} → Exec P A → (A → Exec P B) → Exec P B
◌>>=◌ m f w = let (r, w') = m w in elim r [ ok a ↦ f a w' | err e ↦ (err e, w') ]

abbrev pub ◌>>◌ : {P A B : Type 0} → Exec P A → Exec P B → Exec P B
m >> k = m >>= λ _. k

-- except: the handler sees every exception, and raises again those that it does not catch.
abbrev pub catch : {P A : Type 0} → Exec P A → (Error → Exec P A) → Exec P A
catch m handler w = let (r, w') = m w in elim r [ ok a ↦ (ok a, w') | err e ↦ handler e w' ]

abbrev pub update : {P : Type 0} → (Client → Client) → Exec P (Unit {0})
update f w = (ok tt, record w { client = f w.client })

abbrev pub gets : {P A : Type 0} → (Client → A) → Exec P A
gets f w = (ok (f w.client), w)

-- struct.unpack_from("<BHB", data, 1) of an Error Response, raised as ATTError
unfoldable pub raise_error_rsp : Bytes → Result Bytes
raise_error_rsp (_ ∷ req_op ∷ h₀ ∷ h₁ ∷ code ∷ _) =
    err (att_error req_op (from_bytes (h₀ ∷ h₁ ∷ [])) code)
raise_error_rsp _ = err struct_error

-- What `_request` does with the future's data.
unfoldable pub check_response : ℕ → Bytes → Result Bytes
check_response expected [] = err index_error
check_response expected (opcode ∷ rest) =
    if opcode == error_rsp
    then raise_error_rsp (opcode ∷ rest)
    else if opcode == expected
    then ok (opcode ∷ rest)
    else err bleak_error

-- The end of `asyncio.wait_for(fut, ATT_TIMEOUT)`.
unfoldable pub await_future : ℕ → Option Future → Result Bytes
await_future expected (some (resolved b)) = check_response expected b
await_future expected (some (failed e)) = err e
await_future expected _ = err timeout_error

abbrev pub clear_pending : Client → Client
clear_pending c = record c { pending = none; pending_opcode = none }

abbrev pub set_pending : ℕ → Client → Client
set_pending opcode c = record c { pending = some waiting; pending_opcode = some opcode }

module _ {P : Type 0} (answer : Answer P) where
  -- L2CAPSocket.send, with what the event loop handles behind it.
  unfoldable pub send : Bytes → Exec P (Unit {0})
  send pdu w =
      let (p, round) = answer w.peer pdu in
      elim round.send_error [
        | some e ↦ (err e, record w { client = handle_events round.events w.client; peer = p })
        | none ↦ (
          ok tt,
          record {
            client = handle_events round.events w.client;
            sent = w.sent ++ (pdu ∷ []);
            peer = p;
          },
        )
      ]

  -- _request
  unfoldable pub request : Bytes → ℕ → Exec P Bytes
  unfolding send
  request payload expected w =
      let (r, w') = send payload (record w { client = set_pending expected w.client }) in
      (
        elim r [ err e ↦ err e | ok _ ↦ await_future expected w'.client.pending ],
        record w' { client = clear_pending w'.client },
      )

  abbrev pub mtu_refused : Error → Exec P ℕ
  mtu_refused (att_error _ _ _) w = (ok w.client.mtu, w)
  mtu_refused timeout_error w =
      if w.client.peer_initiated_mtu then (ok w.client.mtu, w) else (err timeout_error, w)
  mtu_refused e w = (err e, w)

  -- exchange_mtu
  unfoldable pub exchange_mtu : ℕ → Exec P ℕ
  exchange_mtu mtu = do
    update (λ c. record c { peer_initiated_mtu = false })
    size ← lift (to_bytes mtu 2)
    catch
        (do
          b ← request (exchange_mtu_req ∷ size) exchange_mtu_rsp
          update (λ c. record c { mtu = max default_mtu (min mtu (from_bytes (slice 1 3 b))) })
          gets (λ c. c.mtu))
        mtu_refused

  -- write
  unfoldable pub write : ℕ → Bytes → Exec P (Unit {0})
  write handle value = do
    h ← lift (to_bytes handle 2)
    request (write_req ∷ (h ++ value)) write_rsp
    pure tt

  -- write_command
  unfoldable pub write_command : ℕ → Bytes → Exec P (Unit {0})
  write_command handle value = do h ← lift (to_bytes handle 2); send (write_cmd ∷ (h ++ value))

  abbrev pub ignore_os_error : Error → Exec P (Unit {0})
  ignore_os_error (os_error _) = pure tt
  ignore_os_error e = raise e

  -- _confirm and _send_mtu_rsp
  unfoldable pub run_task : Task → Exec P (Unit {0})
  run_task t = catch (send (task_pdu t)) ignore_os_error

  abbrev pub run_first : List Task → Exec P (Unit {0})
  run_first [] = pure tt
  run_first (t ∷ rest) = do update (λ c. record c { scheduled = rest }); run_task t

  -- The event loop starts the task that has waited longest.
  unfoldable pub start_task : Exec P (Unit {0})
  start_task w = run_first w.client.scheduled w
