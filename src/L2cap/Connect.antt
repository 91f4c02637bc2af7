-- ===== src/L2cap/Connect.antt =====
-- When `connect` opens a socket, and when `send` ends.
use bluek.Prelude.{
  ◌≡◌, ◌↔◌, ◌⊎◌, inl, inr, refl, ap, ◌∙◌, ℕ, true, Option, none, some, Text, arith, Bool-cases,
}
use bluek.Prelude.Result.{Result, ok, err, os_error, bind_inv, ◌>>=◌}
use bluek.Bytes.{Bytes}
use bluek.Util.{str_to_bdaddr}
use bluek.L2cap.{
  new_socket, Kernel, raise_errno, source_address, wait_connected, is_pending, after_connect,
  try_connect, open_socket, leave, connect,
}

-- The kernel connects: at once, or it is pending and the socket gets writable without an error.
abbrev pub IsConnecting : Kernel → Type 0
IsConnecting k =
    (k.connect_errno ≡ none)
    ⊎ ((e : ℕ) × (k.connect_errno ≡ some e)
        × (is_pending e ≡ true)
        × (k.writable ≡ true)
        × (k.so_error ≡ 0))

abbrev pub IsReachable : Option Text → Text → Kernel → Type 0
IsReachable src dst k =
    ((a : Bytes) × (source_address src ≡ ok a))
    × (k.bind_errno ≡ none)
    × ((d : Bytes) × (str_to_bdaddr dst ≡ ok d))
    × IsConnecting k

raise_errno-none : (o : Option ℕ) → raise_errno o ≡ ok tt → o ≡ none
raise_errno-none none h = refl
raise_errno-none (some e) h = cc

wait_connected-ok : (k : Kernel) → wait_connected k ≡ ok tt → (k.writable ≡ true) × (k.so_error ≡ 0)
unfolding wait_connected
wait_connected-ok k h = ground arith

after_connect-ok :
    (k : Kernel) (o : Option ℕ) → k.connect_errno ≡ o → after_connect k o ≡ ok tt → IsConnecting k
after_connect-ok k none e h = inl e
after_connect-ok k (some n) e h = elim (Bool-cases (is_pending n)) [
  | inl pending ↦
      let (writable, fine) = wait_connected-ok k (rw pending at h) in
      inr (n, e, pending, writable, fine)
  | inr other ↦ let failed : err (os_error n) ≡ ok tt = rw other at h in cc
]

try_connect-ok :
    (src : Option Text) (dst : Text) (k : Kernel)
    → try_connect src dst k ≡ ok tt
    → IsReachable src dst k
unfolding try_connect
try_connect-ok src dst k h =
    let (a, h₁, parsed) =
      bind_inv {m = source_address src}
        (λ a.
          raise_errno k.bind_errno
          >>= (λ b. str_to_bdaddr dst >>= (λ d. after_connect k k.connect_errno)))
        h in
    let (b, h₂, bound) =
      bind_inv {m = raise_errno k.bind_errno}
        (λ b. str_to_bdaddr dst >>= (λ d. after_connect k k.connect_errno)) h₁ in
    let (d, h₃, target) =
      bind_inv {m = str_to_bdaddr dst} (λ d. after_connect k k.connect_errno) h₂ in
    (
      (a, parsed),
      raise_errno-none k.bind_errno bound,
      (d, target),
      after_connect-ok k k.connect_errno refl h₃,
    )

wait_connected-connecting :
    (k : Kernel) → k.writable ≡ true → k.so_error ≡ 0 → wait_connected k ≡ ok tt
unfolding wait_connected
wait_connected-connecting k h e = ground arith

after_connect-connecting : (k : Kernel) → IsConnecting k → after_connect k k.connect_errno ≡ ok tt
after_connect-connecting k (inl e) = ap (after_connect k) e
after_connect-connecting k (inr (n, e, pending, writable, fine)) =
    ap (after_connect k) e ∙ rw pending (wait_connected-connecting k writable fine)

try_connect-reachable :
    (src : Option Text) (dst : Text) (k : Kernel)
    → IsReachable src dst k
    → try_connect src dst k ≡ ok tt
unfolding try_connect
try_connect-reachable src dst k ((a, parsed), bound, (d, target), connecting) = rw parsed (
    ap (λ o. raise_errno o >>= (λ b. str_to_bdaddr dst >>= (λ d. after_connect k k.connect_errno)))
      bound
    ∙ rw target (after_connect-connecting k connecting))

leave-open : (r : Result (Unit {0})) → leave r ≡ open_socket new_socket → r ≡ ok tt
leave-open (ok u) h = refl
leave-open (err e) h = cc

-- `connect` returns an open socket exactly if both addresses can be read, the bind succeeds, and the
-- kernel connects at once or gets writable without an error while it is pending; in every other case
-- it raises and closes the kernel's socket.
pub connect-IsReachable :
    (src : Option Text) (dst : Text) (k : Kernel)
    → (connect src dst k ≡ open_socket new_socket) ↔ IsReachable src dst k
unfolding connect
connect-IsReachable src dst k = (
  λ h. try_connect-ok src dst k (leave-open (try_connect src dst k) h),
  λ h. ap leave (try_connect-reachable src dst k h),
)
