-- ===== src/Client/Prescan.antt =====
-- `_ensure_kernel_knows_peer`: the short discovery in front of a connect.
--
-- The scan sleeps a number of times, `steps`, for `int(budget_s / 0.05)`. `rounds` has the packets
-- that are read while it sleeps, the first sleep first; what the kernel does behind the commands is
-- an argument, as in Mgmt/Socket. The handler `on_found` is the number 0, and what it stores is a
-- function of its logged calls.
use bluek.Prelude.{
  ℕ, zero, suc, List, [], ◌∷◌, Bool, ◌&&◌, Option, none, some, Text, text_eq, ◌==◌, max,
  if◌then◌else◌,
}
use bluek.Prelude.Result.{Result, ok, err, Error, os_error}
use bluek.Bytes.{Bytes}
use bluek.Texts.{upper}
use bluek.Mgmt.Codec.{DeviceFound}
use bluek.Mgmt.Socket.{
  MgmtSocket, new_socket, add_device_found_handler, Kernel, start_discovery, stop_discovery,
  read_all, close,
}

-- _idx == index and df.address.upper() == target
abbrev pub is_target : ℕ → Text → ℕ × DeviceFound → Bool
is_target index target (idx, df) = idx == index && text_eq (upper df.address) target

-- `seen_type`, behind the calls of `on_found` from the first on.
unfoldable pub seen_from : ℕ → Text → Option ℕ → List (ℕ × ℕ × DeviceFound) → Option ℕ
seen_from index target seen [] = seen
seen_from index target seen ((h, idx, df) ∷ calls) =
    seen_from index target (if is_target index target (idx, df) then some df.address_type else seen)
      calls

unfoldable pub seen_type : ℕ → Text → MgmtSocket → Option ℕ
unfolding seen_from
seen_type index target m = seen_from index target none m.calls

-- The `for` loop: it ends with the first sleep behind which a type was seen.
unfoldable pub scan_steps : ℕ → Text → ℕ → List (List Bytes) → MgmtSocket → Option ℕ × MgmtSocket
scan_steps index target zero rounds m = (none, m)
scan_steps index target (suc n) [] m =
    let rest = scan_steps index target n [] m in
    elim (seen_type index target m) [ some t ↦ (some t, m) | none ↦ rest ]
scan_steps index target (suc n) (packets ∷ rounds) m =
    let m' = read_all packets m in
    let rest = scan_steps index target n rounds m' in
    elim (seen_type index target m') [ some t ↦ (some t, m') | none ↦ rest ]

-- The `try` block.
abbrev pub scan_body :
    ℕ → Text → ℕ → List (List Bytes) → Result Bool × MgmtSocket → Result (Option ℕ) × MgmtSocket
scan_body index target steps rounds (err e, m) = (err e, m)
scan_body index target steps rounds (ok _, m) =
    let (seen, m') = scan_steps index target (max 1 steps) rounds m in (ok seen, m')

-- What a `stop_discovery` that raises puts in the place of the result.
abbrev pub or_raised : Result (Unit {0}) → Result (Option ℕ) → Result (Option ℕ)
or_raised (ok _) r = r
or_raised (err e) r = err e

-- `finally`
abbrev pub stop_and_close :
    ℕ → Kernel → Result (Option ℕ) × MgmtSocket → Result (Option ℕ) × MgmtSocket
stop_and_close index kernel (r, m) =
    let (stopped, m') = stop_discovery index kernel m in (or_raised stopped r, close m')

-- What the scan leaves: a result, and the socket that it opened.
abbrev pub Scanned : Type 0
Scanned = Result (Option ℕ) × Option MgmtSocket

abbrev pub opened_scan :
    ℕ → Text → ℕ → Kernel → List (List Bytes) → Kernel → Result (Option ℕ) × MgmtSocket
opened_scan index target steps starting rounds stopping = stop_and_close index stopping (
    scan_body index target steps rounds
      (start_discovery index starting (add_device_found_handler 0 new_socket)))

-- A socket that cannot be opened: OSError is caught.
abbrev pub not_opened : Error → Result (Option ℕ)
not_opened (os_error _) = ok none
not_opened e = err e

-- `MgmtSocket.open`, which may raise
abbrev pub scan_with : Option Error → Result (Option ℕ) × MgmtSocket → Scanned
scan_with (some e) _ = (not_opened e, none)
scan_with none (r, m) = (r, some m)

unfoldable pub ensure_kernel_knows_peer :
    ℕ → Text → ℕ → ℕ → Option Error → Kernel → List (List Bytes) → Kernel → Scanned
ensure_kernel_knows_peer index target_mac budget steps opening starting rounds stopping =
    if budget == 0
    then (ok none, none)
    else scan_with opening (opened_scan index (upper target_mac) steps starting rounds stopping)
