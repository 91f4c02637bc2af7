-- ===== src/L2cap.antt =====
-- bluek/_l2cap.py: the ATT socket.
--
-- What the kernel and the event loop do is an argument of each operation. The callbacks are logged,
-- and return. The event loop calls `_read_ready` only while the reader is registered.
pub mod Close
pub mod Senders
pub mod Connect
mod Tests
use bluek.Prelude.{
  ℕ, suc, List, [], ◌∷◌, ◌++◌, Bool, true, false, ◌||◌, Option, none, some, Text, ◌==◌,
  if◌then◌else◌,
}
use bluek.Prelude.Result.{Result, ok, err, Error, os_error, timeout_error, value_error, ◌>>=◌}
use bluek.Bytes.{Bytes}
use bluek.Util.{str_to_bdaddr}

pub record L2capSocket : Type 0 where
  pub closed : Bool
  pub reading : Bool
  pub has_on_data : Bool
  pub has_on_close : Bool
  -- the calls of the two callbacks
  pub delivered : List Bytes
  pub close_calls : List (Option Error)

-- L2CAPSocket.__init__
abbrev pub new_socket : L2capSocket
new_socket = record {
  closed = false;
  reading = false;
  has_on_data = false;
  has_on_close = false;
  delivered = [];
  close_calls = [];
}

-- start_reader: add_reader refuses the descriptor of a closed socket.
unfoldable pub start_reader : Bool → L2capSocket → Result (Unit {0}) × L2capSocket
start_reader has_on_close s =
    let s' = record s { has_on_data = true; has_on_close = has_on_close } in
    if s.closed then (err value_error, s') else (ok tt, record s' { reading = true })

-- close: the errors of the event loop and of the socket are ignored.
unfoldable pub close : L2capSocket → L2capSocket
close s = if s.closed then s else record s { closed = true; reading = false }

-- _fail
unfoldable pub fail : Option Error → L2capSocket → L2capSocket
unfolding close
fail exc s =
    let s' = close s in
    if s.closed
    then s
    else if s.has_on_close
    then record s' { close_calls = s'.close_calls ++ (exc ∷ []) }
    else s'

-- How recv(4096) ends.
pub data Received : Type 0 where
  would_block : Received
  os_failure : ℕ → Received
  packet : Bytes → Received

abbrev pub call_on_data : Bool → Bytes → L2capSocket → L2capSocket
call_on_data true b s = record s { delivered = s.delivered ++ (b ∷ []) }
call_on_data false b s = s

-- _read_ready
unfoldable pub read_ready : Received → L2capSocket → L2capSocket
unfolding fail
read_ready would_block s = s
read_ready (os_failure e) s = fail (some (os_error e)) s
read_ready (packet []) s = fail none s
read_ready (packet (x ∷ xs)) s = call_on_data s.has_on_data (x ∷ xs) s

-- How one try of `sock.send` ends.
pub data SendTry : Type 0 where
  sent blocked : SendTry
  send_failure : ℕ → SendTry

-- send: a try that would block waits until the socket is writable, and is made again. `none` is a
-- send that still waits when the tries are over.
unfoldable pub send : List SendTry → Option (Result (Unit {0}))
send [] = none
send (sent ∷ _) = some (ok tt)
send (blocked ∷ tries) = send tries
send (send_failure e ∷ _) = some (err (os_error e))

-- What the kernel answers while a socket is connected.
pub record Kernel : Type 0 where
  -- errno of bind and of connect, if they fail
  pub bind_errno : Option ℕ
  pub connect_errno : Option ℕ
  -- whether the socket gets writable before the timeout, and SO_ERROR behind it
  pub writable : Bool
  pub so_error : ℕ

abbrev pub raise_errno : Option ℕ → Result (Unit {0})
raise_errno none = ok tt
raise_errno (some e) = err (os_error e)

-- `str_to_bdaddr(src) if src else bytes(6)`
abbrev pub source_address : Option Text → Result Bytes
source_address none = ok (0 ∷ 0 ∷ 0 ∷ 0 ∷ 0 ∷ 0 ∷ [])
source_address (some []) = ok (0 ∷ 0 ∷ 0 ∷ 0 ∷ 0 ∷ 0 ∷ [])
source_address (some (c ∷ cs)) = str_to_bdaddr (c ∷ cs)

-- _wait_connected
unfoldable pub wait_connected : Kernel → Result (Unit {0})
wait_connected k =
    if k.writable
    then (if k.so_error == 0 then ok tt else err (os_error k.so_error))
    else err timeout_error

-- errno.EINPROGRESS, EALREADY and EAGAIN, on Linux
abbrev pub is_pending : ℕ → Bool
is_pending e = e == 115 || e == 114 || e == 11

-- The end of connect(2).
abbrev pub after_connect : Kernel → Option ℕ → Result (Unit {0})
after_connect k none = ok tt
after_connect k (some e) = if is_pending e then wait_connected k else err (os_error e)

-- The `try` of `connect`.
unfoldable pub try_connect : Option Text → Text → Kernel → Result (Unit {0})
unfolding wait_connected
try_connect src dst k = do
  a ← source_address src
  b ← raise_errno k.bind_errno
  d ← str_to_bdaddr dst
  after_connect k k.connect_errno

-- What `connect` leaves: a connected socket, or an exception and the kernel's socket closed.
pub data Connected : Type 0 where
  open_socket : L2capSocket → Connected
  closed_socket : Error → Connected

abbrev pub leave : Result (Unit {0}) → Connected
leave (ok _) = open_socket new_socket
leave (err e) = closed_socket e

-- connect
unfoldable pub connect : Option Text → Text → Kernel → Connected
unfolding try_connect
connect src dst k = leave (try_connect src dst k)
