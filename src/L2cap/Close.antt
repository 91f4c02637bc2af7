-- ===== src/L2cap/Close.antt =====
-- The end of a connection is reported once.
use bluek.Prelude.{
  ◌≡◌, refl, ◌∙◌, sym, ap, subst, if◌then◌else◌, List, [], ◌∷◌, Bool, true, false, Option, none,
  some, ◌≤◌, length, length-append, arith, Bool-cases, inl, inr,
}
use bluek.Prelude.Result.{Error, os_error}
use bluek.Bytes.{Bytes}
use bluek.L2cap.{
  L2capSocket, start_reader, close, fail, Received, would_block, os_failure, packet, call_on_data,
  read_ready,
}

-- What happens to a socket: its reader is started, the event loop reports that it can be read, or
-- the program closes it.
pub data Step : Type 0 where
  start_step : Bool → Step
  readable : Received → Step
  close_step : Step

abbrev pub run_step : Step → L2capSocket → L2capSocket
run_step (start_step has_on_close) s = (start_reader has_on_close s).1
run_step (readable r) s = if s.reading then read_ready r s else s
run_step close_step s = close s

abbrev pub run_steps : List Step → L2capSocket → L2capSocket
run_steps [] s = s
run_steps (k ∷ ks) s = run_steps ks (run_step k s)

-- No call of `on_close` before the socket is closed and one at most behind that, and no reader on a
-- closed socket.
pub record ReportsOnce (s : L2capSocket) : Type 0 where
  pub before : s.closed ≡ false → s.close_calls ≡ []
  pub once : length s.close_calls ≤ 1
  pub no_reader : s.closed ≡ true → s.reading ≡ false

fail-closed : (exc : Option Error) (s : L2capSocket) → (fail exc s).closed ≡ true
unfolding fail close
fail-closed exc s = ground arith

fail-reading :
    (exc : Option Error) (s : L2capSocket)
    → (s.closed ≡ true → s.reading ≡ false)
    → (fail exc s).reading ≡ false
unfolding fail close
fail-reading exc s h = ground arith

-- An open socket gets one call at most, and a closed one none.
fail-close_calls :
    (exc : Option Error) (s : L2capSocket)
    → (s.closed ≡ false → s.close_calls ≡ [])
    → length s.close_calls ≤ 1
    → length (fail exc s).close_calls ≤ 1
unfolding fail close
fail-close_calls exc s before once = elim (Bool-cases s.closed) [
  | inl shut ↦ ground arith
  | inr open_ ↦
      let none_yet = before open_ in
      let size = length-append s.close_calls (exc ∷ []) in ground arith
]

fail-ReportsOnce : (exc : Option Error) (s : L2capSocket) → ReportsOnce s → ReportsOnce (fail exc s)
fail-ReportsOnce exc s h = record {
  before = λ e. let shut = fail-closed exc s in cc;
  once = fail-close_calls exc s h.before h.once;
  no_reader = λ e. fail-reading exc s h.no_reader;
}

call_on_data-ReportsOnce :
    (b : Bool) (raw : Bytes) (s : L2capSocket) → ReportsOnce s → ReportsOnce (call_on_data b raw s)
call_on_data-ReportsOnce true raw s h = record {
  before = h.before;
  once = h.once;
  no_reader = h.no_reader;
}
call_on_data-ReportsOnce false raw s h = h

read_ready-ReportsOnce :
    (r : Received) (s : L2capSocket) → ReportsOnce s → ReportsOnce (read_ready r s)
unfolding read_ready
read_ready-ReportsOnce would_block s h = h
read_ready-ReportsOnce (os_failure e) s h = fail-ReportsOnce (some (os_error e)) s h
read_ready-ReportsOnce (packet []) s h = fail-ReportsOnce none s h
read_ready-ReportsOnce (packet (x ∷ xs)) s h = call_on_data-ReportsOnce s.has_on_data (x ∷ xs) s h

start_reader-keeps :
    (has_on_close : Bool) (s : L2capSocket)
    → ((start_reader has_on_close s).1.closed ≡ s.closed)
      × ((start_reader has_on_close s).1.close_calls ≡ s.close_calls)
      × (s.closed ≡ true → (start_reader has_on_close s).1.reading ≡ s.reading)
unfolding start_reader
start_reader-keeps has_on_close s = (ground arith, ground arith, λ e. ground arith)

start_reader-ReportsOnce :
    (has_on_close : Bool) (s : L2capSocket)
    → ReportsOnce s
    → ReportsOnce (start_reader has_on_close s).1
start_reader-ReportsOnce has_on_close s h =
    let (same, calls, reader) = start_reader-keeps has_on_close s in
    record {
      before = λ e. calls ∙ h.before (sym same ∙ e);
      once = subst (λ c. length c ≤ 1) (sym calls) h.once;
      no_reader = λ e. let shut = sym same ∙ e in reader shut ∙ h.no_reader shut;
    }

close-ReportsOnce : (s : L2capSocket) → ReportsOnce s → ReportsOnce (close s)
unfolding close
close-ReportsOnce s h = record {
  before = λ e. absurd (ground arith);
  once = ground arith;
  no_reader = λ e. ground arith;
}

if-ReportsOnce :
    (b : Bool) (s t : L2capSocket)
    → ReportsOnce s
    → ReportsOnce t
    → ReportsOnce (if b then s else t)
if-ReportsOnce true s t h k = h
if-ReportsOnce false s t h k = k

run_step-ReportsOnce : (k : Step) (s : L2capSocket) → ReportsOnce s → ReportsOnce (run_step k s)
run_step-ReportsOnce (start_step has_on_close) s h = start_reader-ReportsOnce has_on_close s h
run_step-ReportsOnce (readable r) s h =
    if-ReportsOnce s.reading (read_ready r s) s (read_ready-ReportsOnce r s h) h
run_step-ReportsOnce close_step s h = close-ReportsOnce s h

-- Whatever happens to a socket, `on_close` is called once at most and not before the socket is
-- closed, and a closed socket has no reader.
pub run_steps-ReportsOnce :
    (ks : List Step) (s : L2capSocket) → ReportsOnce s → ReportsOnce (run_steps ks s)
run_steps-ReportsOnce [] s h = h
run_steps-ReportsOnce (k ∷ ks) s h =
    run_steps-ReportsOnce ks (run_step k s) (run_step-ReportsOnce k s h)

abbrev IsShut : L2capSocket → Type 0
IsShut s = (s.closed ≡ true) × (s.reading ≡ false)

run_step-IsShut :
    (k : Step) (s : L2capSocket)
    → IsShut s
    → IsShut (run_step k s)
      × ((run_step k s).delivered ≡ s.delivered)
      × ((run_step k s).close_calls ≡ s.close_calls)
unfolding start_reader close
run_step-IsShut (start_step has_on_close) s (shut, idle) =
    ((ground arith, ground arith), ground arith, ground arith)
run_step-IsShut (readable r) s (shut, idle) =
    let same : run_step (readable r) s ≡ s = ap (λ b. if b then read_ready r s else s) idle in
    subst (λ t. IsShut t × (t.delivered ≡ s.delivered) × (t.close_calls ≡ s.close_calls)) (sym same)
      ((shut, idle), refl, refl)
run_step-IsShut close_step s (shut, idle) =
    ((ground arith, ground arith), ground arith, ground arith)

-- Behind the close no callback is called any more, whatever the program and the kernel do.
pub run_steps-silent :
    (ks : List Step) (s : L2capSocket)
    → ReportsOnce s
    → s.closed ≡ true
    → ((run_steps ks s).delivered ≡ s.delivered) × ((run_steps ks s).close_calls ≡ s.close_calls)
run_steps-silent ks s h shut = stays ks s (shut, h.no_reader shut)
  where
    stays :
        (ks : List Step) (s : L2capSocket)
        → IsShut s
        → ((run_steps ks s).delivered ≡ s.delivered)
          × ((run_steps ks s).close_calls ≡ s.close_calls)
    stays [] s h = (refl, refl)
    stays (k ∷ ks) s h =
        let (h', d, c) = run_step-IsShut k s h in
        let (ds, cs) = stays ks (run_step k s) h' in (ds ∙ d, cs ∙ c)
