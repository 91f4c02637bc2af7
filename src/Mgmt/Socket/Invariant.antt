-- ===== src/Mgmt/Socket/Invariant.antt =====
-- A command keeps the numbering of the futures, and does not close the socket.
use bluek.Prelude.{
  ◌≡◌, refl, sym, ap, ◌∙◌, ℕ, List, [], ◌∷◌, Option, none, some, arith, ◌==◌, Bool-cases, inl, inr,
}
use bluek.Prelude.Dict.{nat_eq, lookup, lookup-insert}
use bluek.Prelude.Result.{Result, ok, err}
use bluek.Bytes.{Bytes}
use bluek.Mgmt.Socket.{
  MgmtSocket, resolve, read_ready, read_all, begin_command, after_send, finish_command, Kernel,
  send_command, command,
}
use bluek.Mgmt.Socket.Packets.{Reply, reply_of, apply_reply, SameBooks, read_ready-SameBooks}
use bluek.Mgmt.Socket.Futures.{settle-other, lookup_erased}
use bluek.Mgmt.Socket.Replies.{IsWellFormed}

resolve-IsWellFormed :
    (op status : ℕ) (raw : Bytes) (s : MgmtSocket)
    → IsWellFormed s
    → IsWellFormed (resolve op status raw s)
unfolding resolve
resolve-IsWellFormed op status raw s h = record {
  fresh = λ n above.
      settle-other (lookup op s.pending) n (status, raw) s.results
        (λ e. absurd (omega (arith, h.made op n e))) (h.fresh n above);
  made = λ k fut e. h.made k fut (lookup_erased op k fut s.pending e);
}

IsWellFormed-SameBooks : (s t : MgmtSocket) → SameBooks s t → IsWellFormed t → IsWellFormed s
IsWellFormed-SameBooks s t (p, r, n, _) h = record {
  fresh = λ k above. ap (lookup k) r ∙ h.fresh k (rw (sym n) above);
  made = λ op fut e. rw n (h.made op fut (sym (ap (lookup op) p) ∙ e));
}

apply_reply-IsWellFormed :
    (r : Option Reply) (s : MgmtSocket) → IsWellFormed s → IsWellFormed (apply_reply r s)
apply_reply-IsWellFormed none s h = h
apply_reply-IsWellFormed (some (op, status, raw)) s h = resolve-IsWellFormed op status raw s h

read_all-IsWellFormed :
    (bs : List Bytes) (s : MgmtSocket) → IsWellFormed s → IsWellFormed (read_all bs s)
unfolding read_all
read_all-IsWellFormed [] s h = h
read_all-IsWellFormed (b ∷ bs) s h = read_all-IsWellFormed bs (read_ready b s).1 (
    IsWellFormed-SameBooks (read_ready b s).1 _ (read_ready-SameBooks b s)
      (apply_reply-IsWellFormed (reply_of b) s h))

begin_command-IsWellFormed :
    (opcode : ℕ) (s : MgmtSocket) → IsWellFormed s → IsWellFormed (begin_command opcode s)
unfolding begin_command
begin_command-IsWellFormed opcode s h = record {
  fresh = λ n above. h.fresh n (omega arith);
  made = λ op fut e. elim (Bool-cases (opcode == op)) [
    | inl same ↦
        let now : some s.next_future ≡ some fut =
          rw same at (sym (lookup-insert opcode op s.next_future s.pending) ∙ e) in
        let number : s.next_future ≡ fut = cc in omega arith
    | inr other ↦
        let was : lookup op s.pending ≡ some fut =
          rw other at (sym (lookup-insert opcode op s.next_future s.pending) ∙ e) in
        omega (arith, h.made op fut was)
  ];
}

after_send-IsWellFormed :
    (opcode fut : ℕ) (packets : List Bytes) (r : Result (Unit {0})) (s : MgmtSocket)
    → IsWellFormed s
    → IsWellFormed (after_send opcode fut packets r s).1
unfolding finish_command
after_send-IsWellFormed opcode fut packets (err e) s h = h
after_send-IsWellFormed opcode fut packets (ok _) s h =
    let read = read_all-IsWellFormed packets s h in
    record {
      fresh = read.fresh;
      made = λ op k e. read.made op k (lookup_erased opcode op k (read_all packets s).pending e);
    }

-- A command keeps the numbering of the futures, whether its send raises, it times out or it gets a
-- reply, and whatever packets are read meanwhile.
pub command-IsWellFormed :
    (opcode index : ℕ) (params : Bytes) (kernel : Kernel) (s : MgmtSocket)
    → IsWellFormed s
    → IsWellFormed (command opcode index params kernel s).1
unfolding command
command-IsWellFormed opcode index params kernel s h =
    after_send-IsWellFormed opcode s.next_future kernel.packets
      (send_command opcode index params kernel) (begin_command opcode s)
      (begin_command-IsWellFormed opcode s h)

apply_reply-closed : (r : Option Reply) (s : MgmtSocket) → (apply_reply r s).closed ≡ s.closed
unfolding resolve
apply_reply-closed none s = refl
apply_reply-closed (some (op, status, raw)) s = refl

read_all-closed : (bs : List Bytes) (s : MgmtSocket) → (read_all bs s).closed ≡ s.closed
unfolding read_all
read_all-closed [] s = refl
read_all-closed (b ∷ bs) s =
    let (_, _, _, kept) = read_ready-SameBooks b s in
    read_all-closed bs (read_ready b s).1 ∙ kept ∙ apply_reply-closed (reply_of b) s

after_send-closed :
    (opcode fut : ℕ) (packets : List Bytes) (r : Result (Unit {0})) (s : MgmtSocket)
    → (after_send opcode fut packets r s).1.closed ≡ s.closed
unfolding finish_command
after_send-closed opcode fut packets (err e) s = refl
after_send-closed opcode fut packets (ok _) s = read_all-closed packets s

pub command-closed :
    (opcode index : ℕ) (params : Bytes) (kernel : Kernel) (s : MgmtSocket)
    → (command opcode index params kernel s).1.closed ≡ s.closed
unfolding command begin_command
command-closed opcode index params kernel s =
    after_send-closed opcode s.next_future kernel.packets (send_command opcode index params kernel)
      (begin_command opcode s)
