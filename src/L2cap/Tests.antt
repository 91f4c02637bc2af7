-- ===== src/L2cap/Tests.antt =====
-- Runs of the socket, and its theorems at those runs.
use bluek.Prelude.{◌≡◌, ◌↔◌, refl, [], ◌∷◌, true, none, some, codes, arith}
use bluek.L2cap.{L2capSocket, new_socket, packet, os_failure, Kernel, connect, open_socket}
use bluek.L2cap.Close.{
  start_step, readable, close_step, run_steps, ReportsOnce, run_steps-ReportsOnce, run_steps-silent,
}
use bluek.L2cap.Connect.{IsReachable, connect-IsReachable}

new_socket-ReportsOnce : ReportsOnce new_socket
new_socket-ReportsOnce = record { before = λ e. refl; once = omega arith; no_reader = λ e. refl }

run_steps-ReportsOnce_example : ReportsOnce (
    run_steps
      (start_step true
        ∷ readable (packet (1 ∷ []))
        ∷ readable (packet [])
        ∷ readable (os_failure 5)
        ∷ close_step
        ∷ [])
      new_socket)
run_steps-ReportsOnce_example =
    run_steps-ReportsOnce
      (start_step true
        ∷ readable (packet (1 ∷ []))
        ∷ readable (packet [])
        ∷ readable (os_failure 5)
        ∷ close_step
        ∷ [])
      new_socket new_socket-ReportsOnce

-- A socket whose peer has left.
abbrev left : L2capSocket
left = record new_socket {
  closed = true;
  has_on_data = true;
  has_on_close = true;
  close_calls = none ∷ [];
}

left-ReportsOnce : ReportsOnce left
left-ReportsOnce = record { before = λ e. cc; once = omega arith; no_reader = λ e. refl }

run_steps-silent_example :
    ((run_steps
        (readable (packet (1 ∷ [])) ∷ close_step ∷ start_step true ∷ readable (os_failure 5) ∷ [])
        left).delivered
      ≡ [])
    × ((run_steps
          (readable (packet (1 ∷ [])) ∷ close_step ∷ start_step true ∷ readable (os_failure 5) ∷ [])
          left).close_calls
        ≡ none ∷ [])
run_steps-silent_example =
    run_steps-silent
      (readable (packet (1 ∷ [])) ∷ close_step ∷ start_step true ∷ readable (os_failure 5) ∷ [])
      left left-ReportsOnce refl

-- connect(2) says EINPROGRESS, and the socket gets writable.
abbrev kernel : Kernel
kernel = record { bind_errno = none; connect_errno = some 115; writable = true; so_error = 0 }

reached :
    (connect none (codes "C0:FF:EE:00:00:01") kernel ≡ open_socket new_socket)
    ↔ IsReachable none (codes "C0:FF:EE:00:00:01") kernel
reached = connect-IsReachable none (codes "C0:FF:EE:00:00:01") kernel
