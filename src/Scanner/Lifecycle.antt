-- ===== src/Scanner/Lifecycle.antt =====
-- Starting and stopping a scan.
use bluek.Prelude.{
  ◌≡◌, refl, sym, ap, subst, ◌∙◌, if◌then◌else◌, List, [], ◌∷◌, ◌++◌, Bool, true, false, Option,
  none, some, Bool-cases, inl, inr,
}
use bluek.Prelude.Result.{Result, ok, err, Error}
use bluek.Mgmt.Socket.{MgmtSocket, Kernel, stop_discovery, close}
use bluek.Scanner.{BleakScanner, start, started, open_and_start, stop, released, stop_mgmt}

-- A scan that runs has its socket.
abbrev pub HasSocket : BleakScanner → Type 0
HasSocket s = s.running ≡ true → (m : MgmtSocket) × (s.mgmt ≡ some m)

-- What a program can do with a scanner.
pub data Step : Type 0 where
  start_scan : Option Error → Kernel → Step
  stop_scan : Kernel → Step

abbrev pub run_step : Step → BleakScanner → BleakScanner
run_step (start_scan opened kernel) s = (start opened kernel s).1
run_step (stop_scan kernel) s = (stop kernel s).1

abbrev pub run_steps : List Step → BleakScanner → BleakScanner
run_steps [] s = s
run_steps (k ∷ ks) s = run_steps ks (run_step k s)

started-HasSocket :
    (r : Result Bool × MgmtSocket) (s : BleakScanner) → HasSocket s → HasSocket (started r s).1
started-HasSocket (ok b, m) s h running = (m, refl)
started-HasSocket (err e, m) s h running = (m, refl)

open_and_start-HasSocket :
    (opened : Option Error) (kernel : Kernel) (s : BleakScanner)
    → HasSocket s
    → HasSocket (open_and_start opened kernel s).1
open_and_start-HasSocket (some e) kernel s h = h
open_and_start-HasSocket none kernel s h = started-HasSocket _ s h

start_idle :
    (opened : Option Error) (kernel : Kernel) (s : BleakScanner)
    → s.running ≡ false
    → start opened kernel s ≡ open_and_start opened kernel s
unfolding start
start_idle opened kernel s h = ap (λ b. if b then (ok tt, s) else open_and_start opened kernel s) h

start_running :
    (opened : Option Error) (kernel : Kernel) (s : BleakScanner)
    → s.running ≡ true
    → start opened kernel s ≡ (ok tt, s)
unfolding start
start_running opened kernel s h =
    ap (λ b. if b then (ok tt, s) else open_and_start opened kernel s) h

abbrev halted : BleakScanner → BleakScanner
halted s = record s { running = false }

stop_idle : (kernel : Kernel) (s : BleakScanner) → s.running ≡ false → stop kernel s ≡ (ok tt, s)
unfolding stop
stop_idle kernel s h = ap (λ b. if b then stop_mgmt kernel s.mgmt (halted s) else (ok tt, s)) h

stop_running :
    (kernel : Kernel) (s : BleakScanner) (m : MgmtSocket)
    → s.running ≡ true
    → s.mgmt ≡ some m
    → stop kernel s ≡ released (stop_discovery s.index kernel m) (halted s)
unfolding stop
stop_running kernel s m h k =
    ap (λ b. if b then stop_mgmt kernel s.mgmt (halted s) else (ok tt, s)) h
    ∙ ap (λ o. stop_mgmt kernel o (halted s)) k

run_step-HasSocket : (k : Step) (s : BleakScanner) → HasSocket s → HasSocket (run_step k s)
run_step-HasSocket (start_scan opened kernel) s h = elim (Bool-cases s.running) [
  | inl on ↦ subst (λ r. HasSocket r.1) (sym (start_running opened kernel s on)) h
  | inr off ↦
      subst (λ r. HasSocket r.1) (sym (start_idle opened kernel s off))
        (open_and_start-HasSocket opened kernel s h)
]
run_step-HasSocket (stop_scan kernel) s h = elim (Bool-cases s.running) [
  | inl on ↦
      let (m, here) = h on in
      subst (λ r. HasSocket r.1) (sym (stop_running kernel s m on here)) (λ never. cc)
  | inr off ↦ subst (λ r. HasSocket r.1) (sym (stop_idle kernel s off)) h
]

run_steps-HasSocket : (ks : List Step) (s : BleakScanner) → HasSocket s → HasSocket (run_steps ks s)
run_steps-HasSocket [] s h = h
run_steps-HasSocket (k ∷ ks) s h = run_steps-HasSocket ks (run_step k s) (run_step-HasSocket k s h)

-- However a program starts and stops a scanner, and whatever of that raised: a scan that runs is
-- stopped by `stop`, which closes its socket and lets go of it, and a second `stop` does nothing.
pub run_steps-stop :
    (ks : List Step) (kernel : Kernel) (s : BleakScanner)
    → HasSocket s
    → (run_steps ks s).running ≡ true
    → (m : MgmtSocket) × ((run_steps ks s).mgmt ≡ some m)
      × ((stop kernel (run_steps ks s)).1.running ≡ false)
      × ((stop kernel (run_steps ks s)).1.mgmt ≡ none)
      × ((stop kernel (run_steps ks s)).1.retired
          ≡ (run_steps ks s).retired
            ++ (close (stop_discovery (run_steps ks s).index kernel m).1 ∷ []))
      × (stop kernel (stop kernel (run_steps ks s)).1 ≡ (ok tt, (stop kernel (run_steps ks s)).1))
run_steps-stop ks kernel s h running =
    let (m, here) = run_steps-HasSocket ks s h running in
    let t = run_steps ks s in
    let ended = stop_running kernel t m running here in
    let off : (stop kernel t).1.running ≡ false = ap (λ r. r.1.running) ended in
    (
      m,
      here,
      off,
      ap (λ r. r.1.mgmt) ended,
      ap (λ r. r.1.retired) ended,
      stop_idle kernel (stop kernel t).1 off,
    )

-- What a start on a free scanner leaves: a socket that is open, and no other that was closed.
record Leaves (s t : BleakScanner) : Type 0 where
  socket : MgmtSocket
  holds : t.mgmt ≡ some socket
  open_ : socket.closed ≡ false
  kept : t.retired ≡ s.retired
