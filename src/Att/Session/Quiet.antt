-- ===== src/Att/Session/Quiet.antt =====
-- Between calls no transaction is pending, and the MTU is in its range, whatever calls came before.
use bluek.Prelude.{ℕ, ◌≡◌, refl, List, [], ◌∷◌, none, arith, false, max, min}
use bluek.Prelude.Result.{Error, att_error, timeout_error, os_error}
use bluek.Bytes.{Bytes, to_bytes, from_bytes, slice}
use bluek.Att.Codes.{preferred_mtu, exchange_mtu_rsp, exchange_mtu_req, default_mtu}
use bluek.Att.State.{
  Client, Task, task_pdu, Event, received, closed, handle_event, handle_events, set_notify_handler,
  remove_notify_handler,
}
use bluek.Att.State.Inbox.{MtuInRange, handle_events-MtuInRange}
use bluek.Att.Request.{
  Answer, World, set_pending, send, request, exchange_mtu, mtu_refused, ignore_os_error, run_task,
  run_first, start_task, catch, gets, update, ◌>>=◌, ◌>>◌,
}
use bluek.Att.Request.Keeps.{Keeps, Keeps-bind, Keeps-catch, Keeps-lift, IsStable}
use bluek.Att.Session.Methods.{write-Keeps, write_command-Keeps, read-Keeps, discover-Keeps}
use bluek.Att.Session.{
  Call, exchange, read_value, write_value, write_without_response, discover_all, subscribe,
  unsubscribe, quiet, next_task, run_call, run_calls,
}

-- Between calls: nothing is pending, and the MTU is in its range.
pub record IsQuiet (c : Client) : Type 0 where
  pub no_pending : c.pending ≡ none
  pub no_opcode : c.pending_opcode ≡ none
  pub in_range : MtuInRange c

handle_event-idle :
    (e : Event) (c : Client)
    → c.pending ≡ none
    → c.pending_opcode ≡ none
    → ((handle_event e c).pending ≡ none) × ((handle_event e c).pending_opcode ≡ none)
unfolding handle_event
handle_event-idle (received []) c h k = (h, k)
handle_event-idle (received (opcode ∷ rest)) c h k = ground arith
handle_event-idle (closed exc) c h k = ground arith

handle_events-idle :
    (es : List Event) (c : Client)
    → c.pending ≡ none
    → c.pending_opcode ≡ none
    → ((handle_events es c).pending ≡ none) × ((handle_events es c).pending_opcode ≡ none)
unfolding handle_events
handle_events-idle [] c h k = (h, k)
handle_events-idle (e ∷ es) c h k =
    let (h', k') = handle_event-idle e c h k in handle_events-idle es (handle_event e c) h' k'

handle_events-IsQuiet : (es : List Event) (c : Client) → IsQuiet c → IsQuiet (handle_events es c)
handle_events-IsQuiet es c h = record {
  no_pending = (handle_events-idle es c h.no_pending h.no_opcode).0;
  no_opcode = (handle_events-idle es c h.no_pending h.no_opcode).1;
  in_range = handle_events-MtuInRange es c h.in_range;
}

module _ {P : Type 0} (answer : Answer P) where
  send-MtuInRange :
      (pdu : Bytes) (w : World P) → MtuInRange w.client → MtuInRange (send answer pdu w).1.client
  unfolding send
  send-MtuInRange pdu w h =
      ground (arith, handle_events-MtuInRange (answer w.peer pdu).1.events w.client h)

  send-IsQuiet :
      (pdu : Bytes) (w : World P) → IsQuiet w.client → IsQuiet (send answer pdu w).1.client
  unfolding send
  send-IsQuiet pdu w h =
      ground (arith, handle_events-IsQuiet (answer w.peer pdu).1.events w.client h)

  request-IsQuiet :
      (payload : Bytes) (q : ℕ) (w : World P)
      → IsQuiet w.client
      → IsQuiet (request answer payload q w).1.client
  unfolding request
  request-IsQuiet payload q w h = record {
    no_pending = refl;
    no_opcode = refl;
    in_range = send-MtuInRange payload (record w { client = set_pending q w.client }) h.in_range;
  }

  IsQuiet-IsStable : IsStable answer IsQuiet
  IsQuiet-IsStable = record {
    sends = λ pdu. record { at = send-IsQuiet pdu };
    requests = λ payload q. record { at = request-IsQuiet payload q };
  }

  mtu_refused-Keeps : (e : Error) → Keeps IsQuiet (mtu_refused answer e)
  mtu_refused-Keeps timeout_error = record { at = λ w h. ground arith }
  mtu_refused-Keeps (att_error _ _ _) = record { at = λ w h. h }
  mtu_refused-Keeps _ = record { at = λ w h. h }

  set_mtu-Keeps :
      (n : ℕ)
      → Keeps {P = P} IsQuiet (
          update (λ c. record c { mtu = max default_mtu (min preferred_mtu n) })
          >> gets (λ c. c.mtu))
  set_mtu-Keeps n = record {
    at = λ w h. record {
      no_pending = h.no_pending;
      no_opcode = h.no_opcode;
      in_range = omega arith;
    };
  }

  exchange-Keeps :
      (size : Bytes)
      → Keeps IsQuiet (
          catch
            (do
              b ← request answer (exchange_mtu_req ∷ size) exchange_mtu_rsp
              update (λ c. record c {
                mtu = max default_mtu (min preferred_mtu (from_bytes (slice 1 3 b)));
              })
              gets (λ c. c.mtu))
            (mtu_refused answer))
  exchange-Keeps size =
      Keeps-catch IsQuiet _ _
        (Keeps-bind IsQuiet _ _
          (IsQuiet-IsStable.requests (exchange_mtu_req ∷ size) exchange_mtu_rsp)
          (λ b. set_mtu-Keeps (from_bytes (slice 1 3 b))))
        mtu_refused-Keeps

  unset : Client → Client
  unset c = record c { peer_initiated_mtu = false }

  unset-IsQuiet : (w : World P) → IsQuiet w.client → IsQuiet (unset w.client)
  unfolding unset
  unset-IsQuiet w h = record {
    no_pending = h.no_pending;
    no_opcode = h.no_opcode;
    in_range = h.in_range;
  }

  exchange_mtu-Keeps : Keeps IsQuiet (exchange_mtu answer preferred_mtu)
  unfolding exchange_mtu unset
  exchange_mtu-Keeps =
      Keeps-bind IsQuiet (update unset) _ (record { at = unset-IsQuiet })
        (λ _. Keeps-bind IsQuiet _ _ (Keeps-lift IsQuiet (to_bytes preferred_mtu 2)) exchange-Keeps)

  ignore_os_error-Keeps : (e : Error) → Keeps IsQuiet (ignore_os_error answer e)
  ignore_os_error-Keeps (os_error _) = record { at = λ w h. h }
  ignore_os_error-Keeps _ = record { at = λ w h. h }

  run_task-Keeps : (t : Task) → Keeps IsQuiet (run_task answer t)
  unfolding run_task
  run_task-Keeps t =
      Keeps-catch IsQuiet _ _ (IsQuiet-IsStable.sends (task_pdu t)) ignore_os_error-Keeps

  run_first-IsQuiet :
      (ts : List Task) (w : World P) → IsQuiet w.client → IsQuiet (run_first answer ts w).1.client
  run_first-IsQuiet [] w h = h
  run_first-IsQuiet (t ∷ rest) w h =
      (run_task-Keeps t).at (record w { client = record w.client { scheduled = rest } })
        (record { no_pending = h.no_pending; no_opcode = h.no_opcode; in_range = h.in_range })

  run_call-IsQuiet :
      (c : Call) (w : World P) → IsQuiet w.client → IsQuiet (run_call answer c w).client
  unfolding run_call set_notify_handler remove_notify_handler
  run_call-IsQuiet exchange w h = exchange_mtu-Keeps.at w h
  run_call-IsQuiet (read_value handle) w h = (read-Keeps answer IsQuiet-IsStable handle).at w h
  run_call-IsQuiet (write_value handle value) w h =
      (write-Keeps answer IsQuiet-IsStable handle value).at w h
  run_call-IsQuiet (write_without_response handle value) w h =
      (write_command-Keeps answer IsQuiet-IsStable handle value).at w h
  run_call-IsQuiet discover_all w h = (discover-Keeps answer IsQuiet-IsStable).at w h
  run_call-IsQuiet (subscribe handle cb) w h = ground arith
  run_call-IsQuiet (unsubscribe handle) w h = ground arith
  run_call-IsQuiet (quiet es) w h = handle_events-IsQuiet es w.client h
  run_call-IsQuiet next_task w h = unfold start_task in run_first-IsQuiet w.client.scheduled w h

  -- From a client with nothing pending and its MTU between 23 and 247, after any calls one at a time
  -- with any events between them and any peer, nothing is pending and the MTU is in that range.
  pub run_calls-IsQuiet :
      (cs : List Call) (w : World P) → IsQuiet w.client → IsQuiet (run_calls answer cs w).client
  unfolding run_calls
  run_calls-IsQuiet [] w h = h
  run_calls-IsQuiet (c ∷ cs) w h =
      run_calls-IsQuiet cs (run_call answer c w) (run_call-IsQuiet c w h)
