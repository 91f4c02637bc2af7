-- ===== src/Mgmt/Link.antt =====
-- `open` and `_send` of bluek/_mgmt.py: the socket under a `MgmtSocket`.
--
-- What the kernel answers is an argument: the errno of bind, and how each try to send ends.
mod Tests
use mathlib.Core.List.{append-nil}
use bluek.Prelude.{ℕ, ◌≡◌, refl, sym, List, [], ◌∷◌, ◌++◌, Bool, true, false, Option, none, some}
use bluek.Prelude.Result.{Result, ok, err, Error, os_error}
use bluek.Bytes.{Bytes}
use bluek.Mgmt.Socket.{MgmtSocket, new_socket}

-- The kernel's socket: what it accepted, whether the event loop watches it for writing, and
-- whether it is closed.
pub record Link : Type 0 where
  pub accepted : List Bytes
  pub has_writer : Bool
  pub is_closed : Bool

abbrev pub new_link : Link
new_link = record { accepted = []; has_writer = false; is_closed = false }

-- open: a bind that fails closes the socket.
unfoldable pub open_socket : Option ℕ → Result MgmtSocket × Link
open_socket none = (ok new_socket, new_link)
open_socket (some errno) = (err (os_error errno), record new_link { is_closed = true })

-- How a try ends. One that would block, or was interrupted, waits: until the socket is writable,
-- or until the waiting task gets an exception.
pub data SendTry : Type 0 where
  accepts writable_later : SendTry
  waiting_ends : Error → SendTry
  refuses : ℕ → SendTry

-- The wait between add_writer and remove_writer, which stands in a `finally`.
abbrev pub watch : Link → Link
watch k = record k { has_writer = true }

abbrev pub unwatch : Link → Link
unwatch k = record k { has_writer = false }

-- _send: `none` is a send that still waits when the tries are over.
unfoldable pub send_data : List SendTry → Bytes → Link → Option (Result (Unit {0})) × Link
send_data [] b k = (none, k)
send_data (accepts ∷ tries) b k = (some (ok tt), record k { accepted = k.accepted ++ (b ∷ []) })
send_data (writable_later ∷ tries) b k = send_data tries b (unwatch (watch k))
send_data (waiting_ends e ∷ tries) b k = (some (err e), unwatch (watch k))
send_data (refuses errno ∷ tries) b k = (some (err (os_error errno)), k)

-- What the socket accepted for a result: the packet once, or nothing of it.
abbrev pub accepted_for : Option (Result (Unit {0})) → Bytes → List Bytes
accepted_for (some (ok _)) b = b ∷ []
accepted_for _ b = []

-- On a socket that is not watched for writing, `_send` returns exactly if the packet was accepted,
-- once; if it raises or still waits, nothing of it was. Behind it the socket is not watched either.
pub send_data-once :
    (tries : List SendTry) (b : Bytes) (k : Link)
    → k.has_writer ≡ false
    → ((send_data tries b k).1.accepted ≡ k.accepted ++ accepted_for (send_data tries b k).0 b)
      × ((send_data tries b k).1.has_writer ≡ false)
unfolding send_data
send_data-once [] b k h = (sym (append-nil k.accepted), h)
send_data-once (accepts ∷ tries) b k h = (refl, h)
send_data-once (writable_later ∷ tries) b k h = send_data-once tries b (unwatch (watch k)) refl
send_data-once (waiting_ends e ∷ tries) b k h = (sym (append-nil k.accepted), refl)
send_data-once (refuses errno ∷ tries) b k h = (sym (append-nil k.accepted), h)
