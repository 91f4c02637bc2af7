-- ===== src/Att/State.antt =====
-- The state of `ATTClient`, and what it does with inbound PDUs and when the link closes.
-- A callback is a number, and its calls are logged. Callbacks return, and do not raise. A task that
-- the event loop is given waits in `scheduled`.
pub mod Demux
pub mod Inbox
use bluek.Prelude.{
  ℕ, ◌+◌, List, [], ◌∷◌, ◌++◌, Bool, true, false, ◌&&◌, ◌||◌, Option, none, some, min, max, ◌==◌,
  drop, if◌then◌else◌,
}
use bluek.Prelude.Dict.{Dict, nat_eq, lookup, insert, erase}
use bluek.Prelude.Result.{Error, bleak_error}
use bluek.Bytes.{Bytes, slice, le_bytes, from_bytes}
use bluek.Att.Codes.{
  error_rsp, exchange_mtu_req, exchange_mtu_rsp, handle_value_ntf, handle_value_ind,
  handle_value_cfm, default_mtu, preferred_mtu,
}

pub data Future : Type 0 where
  waiting : Future
  resolved : Bytes → Future
  failed : Error → Future

pub data Task : Type 0 where
  confirm send_mtu_rsp : Task

pub record Client : Type 0 where
  pub pending : Option Future
  pub pending_opcode : Option ℕ
  pub mtu : ℕ
  pub peer_initiated_mtu : Bool
  pub notify_handlers : Dict ℕ ℕ
  pub has_on_disconnect : Bool
  -- what the client has done so far
  pub delivered : List (ℕ × Bytes)
  pub disconnects : List (Option Error)
  pub scheduled : List Task

-- ATTClient.__init__
abbrev pub new_client : Bool → Client
new_client has_on_disconnect = record {
  pending = none;
  pending_opcode = none;
  mtu = default_mtu;
  peer_initiated_mtu = false;
  notify_handlers = [];
  has_on_disconnect = has_on_disconnect;
  delivered = [];
  disconnects = [];
  scheduled = [];
}

-- fut is not None and not fut.done()
abbrev pub is_waiting : Option Future → Bool
is_waiting (some waiting) = true
is_waiting _ = false

-- opcode == self._pending_opcode, which may be None
abbrev pub is_opcode : ℕ → Option ℕ → Bool
is_opcode opcode none = false
is_opcode opcode (some q) = opcode == q

abbrev call : Option ℕ → Bytes → Client → Client
call none value c = c
call (some cb) value c = record c { delivered = c.delivered ++ ((cb, value) ∷ []) }

-- _dispatch_notify
unfoldable pub dispatch_notify : ℕ → Bytes → Client → Client
dispatch_notify value_handle value c = call (lookup value_handle c.notify_handlers) value c

abbrev pub schedule : Task → Client → Client
schedule t c = record c { scheduled = c.scheduled ++ (t ∷ []) }

-- fut.set_result(data)
abbrev set_result : Bytes → Client → Client
set_result b c = record c { pending = some (resolved b) }

-- The branch of `_on_data` for an Exchange MTU Request of the peer.
unfoldable pub adopt_peer_mtu : ℕ → Client → Client
adopt_peer_mtu peer_mtu c =
    let c' = schedule send_mtu_rsp (record c {
      mtu = max default_mtu (min preferred_mtu peer_mtu);
      peer_initiated_mtu = true;
    }) in
    if is_waiting c'.pending && is_opcode exchange_mtu_rsp c'.pending_opcode
    then set_result (exchange_mtu_rsp ∷ le_bytes 2 peer_mtu) c'
    else c'

-- The last branch of `_on_data`: a response.
unfoldable pub deliver : ℕ → Bytes → Client → Client
deliver opcode b c =
    if is_waiting c.pending && (is_opcode opcode c.pending_opcode || opcode == error_rsp)
    then set_result b c
    else c

-- _on_data
unfoldable pub on_data : Bytes → Client → Client
unfolding dispatch_notify adopt_peer_mtu deliver
on_data [] c = c
on_data (opcode ∷ rest) c =
    let b = opcode ∷ rest in
    let number = from_bytes (slice 1 3 b) in
    if opcode == handle_value_ntf
    then dispatch_notify number (drop 3 b) c
    else if opcode == handle_value_ind
    then schedule confirm (dispatch_notify number (drop 3 b) c)
    else if opcode == exchange_mtu_req
    then adopt_peer_mtu number c
    else deliver opcode b c

abbrev reason : Option Error → Error
reason none = bleak_error
reason (some e) = e

-- _on_close
unfoldable pub on_close : Option Error → Client → Client
on_close exc c =
    let c' =
      if is_waiting c.pending then record c { pending = some (failed (reason exc)) } else c in
    if c'.has_on_disconnect then record c' { disconnects = c'.disconnects ++ (exc ∷ []) } else c'

-- What the event loop reports from the socket.
pub data Event : Type 0 where
  received : Bytes → Event
  closed : Option Error → Event

unfoldable pub handle_event : Event → Client → Client
unfolding on_data on_close
handle_event (received b) c = on_data b c
handle_event (closed exc) c = on_close exc c

unfoldable pub handle_events : List Event → Client → Client
unfolding handle_event
handle_events [] c = c
handle_events (e ∷ es) c = handle_events es (handle_event e c)

-- The PDU that _confirm and _send_mtu_rsp send.
unfoldable pub task_pdu : Task → Bytes
task_pdu confirm = handle_value_cfm ∷ []
task_pdu send_mtu_rsp = exchange_mtu_rsp ∷ le_bytes 2 preferred_mtu

-- set_notify_handler and remove_notify_handler
unfoldable pub set_notify_handler : ℕ → ℕ → Client → Client
set_notify_handler value_handle cb c = record c {
  notify_handlers = insert value_handle cb c.notify_handlers;
}

unfoldable pub remove_notify_handler : ℕ → Client → Client
remove_notify_handler value_handle c = record c {
  notify_handlers = erase value_handle c.notify_handlers;
}
