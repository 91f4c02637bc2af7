-- ===== src/Mgmt/Socket.antt =====
-- `MgmtSocket` of bluek/_mgmt.py.
--
-- A future is a number; `pending` maps an opcode to the future of its command, and `results` has
-- the futures that are done. A handler is a number, and its calls are logged; handlers return, and
-- do not raise. What the kernel does is an argument of a command: whether sending raises, and which
-- packets are read before the command resumes or times out.
pub mod Packets
pub mod Futures
pub mod Replies
pub mod Invariant
pub mod Runs
use bluek.Prelude.{
  ℕ, zero, suc, ◌+◌, List, [], ◌∷◌, ◌++◌, map, drop, length, Bool, true, false, ◌||◌, Option, none,
  some, Text, ltb, ◌==◌, if◌then◌else◌,
}
use bluek.Prelude.Dict.{Dict, nat_eq, lookup, insert, erase}
use bluek.Prelude.Result
use bluek.Prelude.Result.{Result, ok, err, Error, timeout_error, os_error}
use bluek.Bytes.{Bytes, slice, unpack}
use bluek.Util.{bdaddr_to_str}
use bluek.Mgmt.Codec.{
  mgmt_op_read_controller_info, mgmt_op_start_discovery, mgmt_op_stop_discovery,
  mgmt_ev_cmd_complete, mgmt_ev_cmd_status, mgmt_ev_device_found, scan_type_le, mgmt_status_success,
  mgmt_status_busy, encode_command, parse_packet, DeviceFound, parse_device_found,
}

pub record MgmtSocket : Type 0 where
  pub closed : Bool
  pub pending : Dict ℕ ℕ
  pub device_found_handlers : List ℕ
  pub results : Dict ℕ (ℕ × Bytes)
  pub next_future : ℕ
  pub calls : List (ℕ × ℕ × DeviceFound)

-- MgmtSocket.__init__
abbrev pub new_socket : MgmtSocket
new_socket = record {
  closed = false;
  pending = [];
  device_found_handlers = [];
  results = [];
  next_future = 0;
  calls = [];
}

-- A method of the socket: it returns or raises, and leaves a state.
abbrev pub Method : Type 0 → Type 0
Method A = MgmtSocket → Result A × MgmtSocket

abbrev pub add_device_found_handler : ℕ → MgmtSocket → MgmtSocket
add_device_found_handler h s = record s {
  device_found_handlers = s.device_found_handlers ++ (h ∷ []);
}

-- list.remove: the first of equal items
abbrev pub remove_first : ℕ → List ℕ → List ℕ
remove_first h [] = []
remove_first h (k ∷ ks) = let rest = remove_first h ks in if k == h then ks else k ∷ rest

abbrev pub remove_device_found_handler : ℕ → MgmtSocket → MgmtSocket
remove_device_found_handler h s = record s {
  device_found_handlers = remove_first h s.device_found_handlers;
}

-- `if not fut.done(): fut.set_result(…)`, from the result that the future has
abbrev pub set_once : ℕ → ℕ × Bytes → Dict ℕ (ℕ × Bytes) → Option (ℕ × Bytes) → Dict ℕ (ℕ × Bytes)
set_once fut reply results none = insert fut reply results
set_once fut reply results (some done) = results

abbrev pub settle : Option ℕ → ℕ × Bytes → Dict ℕ (ℕ × Bytes) → Dict ℕ (ℕ × Bytes)
settle none reply results = results
settle (some fut) reply results = set_once fut reply results (lookup fut results)

-- _resolve
unfoldable pub resolve : ℕ → ℕ → Bytes → MgmtSocket → MgmtSocket
resolve opcode status raw s = record s {
  pending = erase opcode s.pending;
  results = settle (lookup opcode s.pending) (status, raw) s.results;
}

-- struct.unpack_from("<HB", params, 0)
abbrev pub unpack_status : Bytes → Result (ℕ × ℕ)
unpack_status params =
    Result.◌>>=◌ (unpack 0 2 params)
      (λ opcode. Result.◌>>=◌ (unpack 2 1 params) (λ status. ok (opcode, status)))

unfoldable pub resolve_unpacked : Bytes → Result (ℕ × ℕ) → Method (Unit {0})
unfolding resolve
resolve_unpacked raw (err e) s = (err e, s)
resolve_unpacked raw (ok (opcode, status)) s = (ok tt, resolve opcode status raw s)

unfoldable pub dispatch_found : ℕ → Result DeviceFound → Method (Unit {0})
dispatch_found index (err e) s = (err e, s)
dispatch_found index (ok df) s =
    (ok tt, record s { calls = s.calls ++ map (λ h. (h, index, df)) s.device_found_handlers })

-- The dispatch of `_read_ready` on a parsed packet.
unfoldable pub handle_packet : Result (ℕ × ℕ × Bytes) → Method (Unit {0})
unfolding resolve_unpacked dispatch_found
handle_packet (err e) s = (err e, s)
handle_packet (ok (event, index, params)) s =
    if event == mgmt_ev_device_found
    then dispatch_found index (parse_device_found params) s
    else if event == mgmt_ev_cmd_complete
    then resolve_unpacked (drop 3 params) (unpack_status params) s
    else if event == mgmt_ev_cmd_status
    then resolve_unpacked [] (unpack_status params) s
    else (ok tt, s)

-- _read_ready, for the data that was read. A read that fails changes nothing.
unfoldable pub read_ready : Bytes → Method (Unit {0})
unfolding handle_packet
read_ready raw s = if ltb (length raw) 6 then (ok tt, s) else handle_packet (parse_packet raw) s

-- The event loop logs what a reader raises.
unfoldable pub read_all : List Bytes → MgmtSocket → MgmtSocket
unfolding read_ready
read_all [] s = s
read_all (b ∷ bs) s = read_all bs (read_ready b s).1

-- The first line of `command`: a new future waits for the opcode.
unfoldable pub begin_command : ℕ → MgmtSocket → MgmtSocket
begin_command opcode s = record s {
  pending = insert opcode s.next_future s.pending;
  next_future = suc s.next_future;
}

abbrev pub await_reply : Option (ℕ × Bytes) → Result (ℕ × Bytes)
await_reply none = err timeout_error
await_reply (some reply) = ok reply

-- The end of `command`: the result of its future, and `finally`.
unfoldable pub finish_command : ℕ → ℕ → Method (ℕ × Bytes)
finish_command opcode fut s =
    (await_reply (lookup fut s.results), record s { pending = erase opcode s.pending })

-- What the kernel does behind a command.
pub record Kernel : Type 0 where
  pub send_error : Option Error
  pub packets : List Bytes

-- `await self._send(…)`, which stands in front of the `try`
unfoldable pub send_command : ℕ → ℕ → Bytes → Kernel → Result (Unit {0})
send_command opcode index params kernel =
    Result.◌>>=◌ (encode_command opcode index params)
      (λ _. elim kernel.send_error [ none ↦ ok tt | some e ↦ err e ])

-- The rest of `command`, from how the send ended.
abbrev pub after_send : ℕ → ℕ → List Bytes → Result (Unit {0}) → Method (ℕ × Bytes)
after_send opcode fut packets (err e) s = (err e, s)
after_send opcode fut packets (ok _) s = finish_command opcode fut (read_all packets s)

-- command
unfoldable pub command : ℕ → ℕ → Bytes → Kernel → Method (ℕ × Bytes)
unfolding begin_command send_command finish_command
command opcode index params kernel s =
    after_send opcode s.next_future kernel.packets (send_command opcode index params kernel)
      (begin_command opcode s)

abbrev controller_address : Result (ℕ × Bytes) → Result (Option Text)
controller_address (err e) = err e
controller_address (ok (status, raw)) =
    let address = Result.◌>>=◌ (bdaddr_to_str (slice 0 6 raw)) (λ t. ok (some t)) in
    if status == mgmt_status_success
    then (if ltb (length raw) 6 then ok none else address)
    else ok none

unfoldable pub read_controller_info : ℕ → Kernel → Method (Option Text)
unfolding command
read_controller_info index kernel s =
    let (r, s') = command mgmt_op_read_controller_info index [] kernel s in
    (controller_address r, s')

abbrev discovering : Result (ℕ × Bytes) → Result Bool
discovering (err e) = err e
discovering (ok (status, _)) = ok (status == mgmt_status_success || status == mgmt_status_busy)

unfoldable pub start_discovery : ℕ → Kernel → Method Bool
unfolding command
start_discovery index kernel s =
    let (r, s') = command mgmt_op_start_discovery index (scan_type_le ∷ []) kernel s in
    (discovering r, s')

-- except (asyncio.TimeoutError, OSError): pass
abbrev stopped : Result (ℕ × Bytes) → Result (Unit {0})
stopped (err timeout_error) = ok tt
stopped (err (os_error _)) = ok tt
stopped (err e) = err e
stopped (ok _) = ok tt

unfoldable pub stop_discovery : ℕ → Kernel → Method (Unit {0})
unfolding command
stop_discovery index kernel s =
    let (r, s') = command mgmt_op_stop_discovery index (scan_type_le ∷ []) kernel s in
    (stopped r, s')

-- close: the errors of the event loop and of the socket are ignored.
unfoldable pub close : MgmtSocket → MgmtSocket
close s = record s { closed = true }
