-- ===== src/Att/Session.antt =====
-- Sessions: any calls of the client's methods in a row, with events between them, and what holds
-- between calls.
pub mod Methods
pub mod Quiet
use bluek.Prelude.{ℕ, List, [], ◌∷◌}
use bluek.Bytes.{Bytes}
use bluek.Att.State.{Event, handle_events, set_notify_handler, remove_notify_handler}
use bluek.Att.Codes.{preferred_mtu}
use bluek.Att.Request.{Answer, World, exchange_mtu, write, write_command, start_task}
use bluek.Att.Reading.{read}
use bluek.Att.Services.{discover}

-- `quiet` is what the event loop handles while no call runs. The program calls `exchange_mtu` with
-- its default.
pub data Call : Type 0 where
  exchange : Call
  read_value : ℕ → Call
  write_value write_without_response : ℕ → Bytes → Call
  discover_all : Call
  subscribe : ℕ → ℕ → Call
  unsubscribe : ℕ → Call
  quiet : List Event → Call
  next_task : Call

module _ {P : Type 0} (answer : Answer P) where
  -- The world that a call leaves, whether it returns or raises.
  unfoldable pub run_call : Call → World P → World P
  run_call exchange w = (exchange_mtu answer preferred_mtu w).1
  run_call (read_value handle) w = (read answer handle w).1
  run_call (write_value handle value) w = (write answer handle value w).1
  run_call (write_without_response handle value) w = (write_command answer handle value w).1
  run_call discover_all w = (discover answer w).1
  run_call (subscribe handle cb) w = record w { client = set_notify_handler handle cb w.client }
  run_call (unsubscribe handle) w = record w { client = remove_notify_handler handle w.client }
  run_call (quiet es) w = record w { client = handle_events es w.client }
  run_call next_task w = (start_task answer w).1

  unfoldable pub run_calls : List Call → World P → World P
  run_calls [] w = w
  run_calls (c ∷ cs) w = run_calls cs (run_call c w)
