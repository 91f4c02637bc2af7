-- ===== src/Att/State/Inbox.antt =====
-- Notifications and indications reach their handlers, and the negotiated MTU stays in its range,
-- whatever else the client does.
use bluek.Prelude.{
  ℕ, ◌≡◌, ◌≤◌, refl, ◌∙◌, sym, List, [], ◌∷◌, ◌++◌, ◌||◌, Option, none, some, ◌==◌, drop, arith,
  if◌then◌else◌,
}
use mathlib.Core.List.{append_assoc, append-nil}
use bluek.Prelude.Dict.{Dict, nat_eq, lookup}
use bluek.Bytes.{Bytes, slice, from_bytes}
use bluek.Att.Codes.{
  exchange_mtu_req, handle_value_ntf, handle_value_ind, default_mtu, preferred_mtu,
}
use bluek.Att.State.{
  Client, Task, confirm, send_mtu_rsp, Event, received, closed, handle_event, handle_events,
}

abbrev pub call_of : Option ℕ → Bytes → List (ℕ × Bytes)
call_of none value = []
call_of (some cb) value = (cb, value) ∷ []

-- The callback that one event makes, with its value.
abbrev pub calls_of : Dict ℕ ℕ → Event → List (ℕ × Bytes)
calls_of handlers (received (opcode ∷ rest)) =
    if opcode == handle_value_ntf || opcode == handle_value_ind
    then call_of (lookup (from_bytes (slice 1 3 (opcode ∷ rest))) handlers) (drop 3 (opcode ∷ rest))
    else []
calls_of handlers _ = []

abbrev pub all_calls : Dict ℕ ℕ → List Event → List (ℕ × Bytes)
all_calls handlers [] = []
all_calls handlers (e ∷ es) = calls_of handlers e ++ all_calls handlers es

-- The PDU that one event makes the client send: a confirmation for each indication, and a
-- response for each MTU request.
abbrev pub tasks_of : Event → List Task
tasks_of (received (opcode ∷ rest)) =
    if opcode == handle_value_ind
    then confirm ∷ []
    else if opcode == exchange_mtu_req
    then send_mtu_rsp ∷ []
    else []
tasks_of _ = []

abbrev pub all_tasks : List Event → List Task
all_tasks [] = []
all_tasks (e ∷ es) = tasks_of e ++ all_tasks es

-- What one event appends, and what it leaves alone.
record Appends (e : Event) (c : Client) : Type 0 where
  handlers : (handle_event e c).notify_handlers ≡ c.notify_handlers
  calls : (handle_event e c).delivered ≡ c.delivered ++ calls_of c.notify_handlers e
  tasks : (handle_event e c).scheduled ≡ c.scheduled ++ tasks_of e

handle_event-Appends : (e : Event) (c : Client) → Appends e c
unfolding handle_event
handle_event-Appends (received []) c =
    ground (arith, append-nil c.delivered, append-nil c.scheduled)
handle_event-Appends (received (opcode ∷ rest)) c =
    ground (arith, append-nil c.delivered, append-nil c.scheduled)
handle_event-Appends (closed exc) c = ground (arith, append-nil c.delivered, append-nil c.scheduled)

-- Every notification and indication reaches the handler of its value handle, in the order of
-- arrival, and every indication and MTU request of the peer is answered once, whether or not a
-- transaction is pending.
pub handle_events-inbox :
    (es : List Event) (c : Client)
    → ((handle_events es c).delivered ≡ c.delivered ++ all_calls c.notify_handlers es)
      × ((handle_events es c).scheduled ≡ c.scheduled ++ all_tasks es)
      × ((handle_events es c).notify_handlers ≡ c.notify_handlers)
unfolding handle_events
handle_events-inbox [] c = (sym (append-nil c.delivered), sym (append-nil c.scheduled), refl)
handle_events-inbox (e ∷ es) c =
    let now = handle_event-Appends e c in
    let (calls, tasks, handlers) = handle_events-inbox es (handle_event e c) in
    (
      rw (calls, now.calls, now.handlers) (append_assoc c.delivered _ _),
      rw (tasks, now.tasks) (append_assoc c.scheduled _ _),
      handlers ∙ now.handlers,
    )

-- The range of a negotiated MTU.
abbrev pub MtuInRange : Client → Type 0
MtuInRange c = (default_mtu ≤ c.mtu) × (c.mtu ≤ preferred_mtu)

handle_event-MtuInRange : (e : Event) (c : Client) → MtuInRange c → MtuInRange (handle_event e c)
unfolding handle_event
handle_event-MtuInRange (received []) c h = h
handle_event-MtuInRange (received (opcode ∷ rest)) c h = ground arith
handle_event-MtuInRange (closed exc) c h = ground arith

pub handle_events-MtuInRange :
    (es : List Event) (c : Client) → MtuInRange c → MtuInRange (handle_events es c)
unfolding handle_events
handle_events-MtuInRange [] c h = h
handle_events-MtuInRange (e ∷ es) c h =
    handle_events-MtuInRange es (handle_event e c) (handle_event-MtuInRange e c h)
