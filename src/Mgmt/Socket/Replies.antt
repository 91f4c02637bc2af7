-- ===== src/Mgmt/Socket/Replies.antt =====
-- A command gets the first reply to its opcode, whatever else the socket reads.
use bluek.Prelude.{
  ◌≡◌, refl, sym, ap, subst, ◌∙◌, ℕ, ◌≤◌, ◌<◌, List, [], ◌∷◌, true, Option, none, some, arith, ◌==◌,
  Bool-cases, inl, inr,
}
use bluek.Prelude.Dict.{nat_eq, lookup, lookup-insert}
use bluek.Prelude.Result.{ok}
use bluek.Bytes.{Bytes}
use bluek.Mgmt.Socket.{
  MgmtSocket, resolve, read_ready, read_all, begin_command, await_reply, finish_command, Kernel,
  send_command, command,
}
use bluek.Mgmt.Socket.Packets.{
  Reply, reply_of, reply_to, first_reply, apply_reply, SameBooks, read_ready-SameBooks,
}
use bluek.Mgmt.Socket.Futures.{Awaits, IsDone, settle-done, resolve-Awaits, resolve-IsDone}

apply_reply-IsDone :
    (r : Option Reply) (fut : ℕ) (reply : ℕ × Bytes) (s : MgmtSocket)
    → IsDone fut reply s
    → IsDone fut reply (apply_reply r s)
unfolding resolve
apply_reply-IsDone none fut reply s h = h
apply_reply-IsDone (some (op, status, raw)) fut reply s h =
    settle-done (lookup op s.pending) fut reply (status, raw) s.results h

read_all-IsDone :
    (bs : List Bytes) (fut : ℕ) (reply : ℕ × Bytes) (s : MgmtSocket)
    → IsDone fut reply s
    → IsDone fut reply (read_all bs s)
unfolding read_all
read_all-IsDone [] fut reply s h = h
read_all-IsDone (b ∷ bs) fut reply s h =
    let (_, results, _, _) = read_ready-SameBooks b s in
    read_all-IsDone bs fut reply (read_ready b s).1
      (ap (lookup fut) results ∙ apply_reply-IsDone (reply_of b) fut reply s h)

Awaits-SameBooks :
    (opcode fut : ℕ) (s t : MgmtSocket) → SameBooks s t → Awaits opcode fut t → Awaits opcode fut s
Awaits-SameBooks opcode fut s t (p, r, _, _) h = record {
  waits = ap (lookup opcode) p ∙ h.waits;
  open_ = ap (lookup fut) r ∙ h.open_;
  alone = λ op e. h.alone op (sym (ap (lookup op) p) ∙ e);
}

-- One packet, by what it replies to.
packet_step :
    (opcode fut : ℕ) (r : Option Reply) (s s' : MgmtSocket) (bs : List Bytes)
    → SameBooks s' (apply_reply r s)
    → Awaits opcode fut s
    → (Awaits opcode fut s' → lookup fut (read_all bs s').results ≡ first_reply opcode bs)
    → lookup fut (read_all bs s').results ≡ reply_to opcode r (first_reply opcode bs)
packet_step opcode fut none s s' bs same h later = later (Awaits-SameBooks opcode fut s' s same h)
packet_step opcode fut (some (op, status, raw)) s s' bs same h later =
    elim (Bool-cases (op == opcode)) [
      | inl hit ↦
          let op≡opcode : op ≡ opcode = ground arith in
          let done : IsDone fut (status, raw) (resolve op status raw s) =
            subst (λ k. IsDone fut (status, raw) (resolve k status raw s)) (sym op≡opcode)
              (resolve-IsDone opcode fut status raw s h) in
          rw hit (read_all-IsDone bs fut (status, raw) s' (ap (lookup fut) same.1 ∙ done))
      | inr miss ↦ rw miss (
          later (
            Awaits-SameBooks opcode fut s' (resolve op status raw s) same
              (resolve-Awaits opcode fut op status raw s miss h)))
    ]

read_all-Awaits :
    (opcode fut : ℕ) (bs : List Bytes) (s : MgmtSocket)
    → Awaits opcode fut s
    → lookup fut (read_all bs s).results ≡ first_reply opcode bs
unfolding read_all
read_all-Awaits opcode fut [] s h = h.open_
read_all-Awaits opcode fut (b ∷ bs) s h =
    packet_step opcode fut (reply_of b) s (read_ready b s).1 bs (read_ready-SameBooks b s) h
      (read_all-Awaits opcode fut bs (read_ready b s).1)

-- Numbers of futures are taken in order, and a future that is not made yet has no result.
pub record IsWellFormed (s : MgmtSocket) : Type 0 where
  pub fresh : (n : ℕ) → s.next_future ≤ n → lookup n s.results ≡ none
  pub made : (op fut : ℕ) → lookup op s.pending ≡ some fut → fut < s.next_future

beq_refl : (n : ℕ) → (n == n) ≡ true
beq_refl n = ground arith

begin_command-Awaits :
    (opcode : ℕ) (s : MgmtSocket)
    → IsWellFormed s
    → Awaits opcode s.next_future (begin_command opcode s)
unfolding begin_command
begin_command-Awaits opcode s h = record {
  waits = rw (lookup-insert opcode opcode s.next_future s.pending) (rw (beq_refl opcode) refl);
  open_ = h.fresh s.next_future (omega arith);
  alone = λ op e. elim (Bool-cases (opcode == op)) [
    | inl same ↦ ground arith
    | inr other ↦
        let was : lookup op s.pending ≡ some s.next_future =
          rw other at (sym (lookup-insert opcode op s.next_future s.pending) ∙ e) in
        absurd (omega (arith, h.made op s.next_future was))
  ];
}

-- A command that is sent returns the status and data of the first packet that replies to its
-- opcode, and raises the timeout if there is none; replies to other opcodes, events and malformed
-- packets before it change nothing of that.
pub command-reply :
    (opcode index : ℕ) (params : Bytes) (kernel : Kernel) (s : MgmtSocket)
    → IsWellFormed s
    → send_command opcode index params kernel ≡ ok tt
    → (command opcode index params kernel s).0 ≡ await_reply (first_reply opcode kernel.packets)
unfolding command send_command finish_command
command-reply opcode index params kernel s h sent = rw sent (
    ap await_reply (
      read_all-Awaits opcode s.next_future kernel.packets (begin_command opcode s)
        (begin_command-Awaits opcode s h)))
