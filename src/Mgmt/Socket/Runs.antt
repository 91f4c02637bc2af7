-- ===== src/Mgmt/Socket/Runs.antt =====
-- Commands one after another on a new management socket: what each returns, and what they leave
-- pending.
use bluek.Prelude.{ℕ, List, [], ◌∷◌, Bool, true, false, Option, none, some, ◌==◌, if◌then◌else◌}
use bluek.Prelude.Dict.{nat_eq, lookup}
use bluek.Prelude.Result
use bluek.Prelude.Result.{Result, ok, err}
use bluek.Bytes.{Bytes}
use bluek.Mgmt.Socket.{MgmtSocket, await_reply, Kernel, send_command, command}
use bluek.Mgmt.Socket.Packets.{first_reply}

-- A call of `command`, with what the kernel does behind it.
pub record Call : Type 0 where
  pub opcode : ℕ
  pub index : ℕ
  pub params : Bytes
  pub kernel : Kernel

abbrev pub call : Call → MgmtSocket → Result (ℕ × Bytes) × MgmtSocket
call c s = command c.opcode c.index c.params c.kernel s

abbrev pub sent_by : Call → Result (Unit {0})
sent_by c = send_command c.opcode c.index c.params c.kernel

abbrev pub results_of : List Call → MgmtSocket → List (Result (ℕ × Bytes))
results_of [] s = []
results_of (c ∷ cs) s = (call c s).0 ∷ results_of cs (call c s).1

abbrev pub run_calls : List Call → MgmtSocket → MgmtSocket
run_calls [] s = s
run_calls (c ∷ cs) s = run_calls cs (call c s).1

-- What a call should return: what its send raises, or else the first reply to its opcode.
abbrev pub answer_to : Call → Result (ℕ × Bytes)
answer_to c = Result.◌>>=◌ (sent_by c) (λ _. await_reply (first_reply c.opcode c.kernel.packets))

abbrev pub unless_answered : Option (ℕ × Bytes) → Bool → Bool
unless_answered none was = was
unless_answered (some _) was = false

-- Whether the opcode is pending behind a call, from whether it was before it: a send that raises
-- leaves its opcode pending, and otherwise the opcode of the call and those that are replied to are
-- not.
abbrev pub left_by : ℕ → Call → Result (Unit {0}) → Bool → Bool
left_by op c (err e) was = if c.opcode == op then true else was
left_by op c (ok _) was =
    if c.opcode == op then false else unless_answered (first_reply op c.kernel.packets) was

abbrev pub left_pending : ℕ → List Call → Bool → Bool
left_pending op [] was = was
left_pending op (c ∷ cs) was = left_pending op cs (left_by op c (sent_by c) was)

abbrev pub is_entry : Option ℕ → Bool
is_entry none = false
is_entry (some _) = true

-- Whether the dict of pending futures has the opcode.
abbrev pub has_future : ℕ → MgmtSocket → Bool
has_future op s = is_entry (lookup op s.pending)
