-- ===== src/Att/Reading/Complete.antt =====
-- A read returns the whole value, from every server that serves it in parts.
use bluek.Prelude.{
  ◌≡◌, sym, subst, ap, ◌∙◌, ℕ, zero, suc, ◌+◌, ◌-◌, ◌<◌, ◌^◌, ◌⊎◌, inl, inr, [], ◌∷◌, ◌++◌, arith,
  Bool-cases, length, length-append, leb, leb→le, leb→lt, drop,
}
use mathlib.Core.List.{append_assoc, append-nil}
use bluek.Prelude.Result.{Result, ok, err, Error, att_error}
use bluek.Bytes.{Bytes, le_bytes, to_bytes-le_bytes}
use bluek.Att.Codes.{
  read_req, read_rsp, read_blob_req, read_blob_rsp, invalid_offset, attribute_not_long,
}
use bluek.Att.Request.{Answer, World, Exec, request, catch, gets, pure, ◌>>=◌}
use bluek.Att.Request.Steps.{bind-eq-ok, bind-eq-err, catch-eq-ok, catch-eq-err}
use bluek.Att.Reading.{read_blob, add_blob, end_of_value, read_loop, read_fuel, read}

abbrev pub read_pdu : ℕ → Bytes
read_pdu handle = read_req ∷ le_bytes 2 handle

abbrev pub blob_pdu : ℕ → ℕ → Bytes
blob_pdu handle offset = read_blob_req ∷ (le_bytes 2 handle ++ le_bytes 2 offset)

-- The value is over: an empty part, or an error that says so.
abbrev pub IsEnd : Result Bytes → Type 0
IsEnd r =
    (r ≡ ok (read_blob_rsp ∷ []))
    ⊎ ((op : ℕ) × (h : ℕ) × (r ≡ err (att_error op h invalid_offset)))
    ⊎ ((op : ℕ) × (h : ℕ) × (r ≡ err (att_error op h attribute_not_long)))

-- A server that holds `v` at a handle: it answers a read in the world `w` by a first part, which is all of `v` if it
-- is shorter than the MTU allows, and each later offset by a part that is not empty, up to the end.
pub record ServesValue {P : Type 0} (answer : Answer P) (handle : ℕ) (v : Bytes) (w : World P)
    : Type 0 where
  pub first :
      (p : Bytes) × (s : Bytes) × (v ≡ p ++ s)
      × ((request answer (read_pdu handle) read_rsp w).0 ≡ ok (read_rsp ∷ p))
      × (length p < (request answer (read_pdu handle) read_rsp w).1.client.mtu - 1 → s ≡ [])
  pub next :
      (w' : World P) (p : Bytes) (x : ℕ) (s : Bytes)
      → v ≡ p ++ (x ∷ s)
      → (q : Bytes) × (s' : Bytes) × (s ≡ q ++ s')
        × ((request answer (blob_pdu handle (length p)) read_blob_rsp w').0
            ≡ ok (read_blob_rsp ∷ x ∷ q))
  pub last : (w' : World P) → IsEnd (request answer (blob_pdu handle (length v)) read_blob_rsp w').0

module _ {P : Type 0} (answer : Answer P) (handle : ℕ) (small : handle < 2 ^ 16) where
  abbrev blob_request : ℕ → Exec P Bytes
  blob_request offset = request answer (blob_pdu handle offset) read_blob_rsp

  abbrev blob_of : ℕ → Exec P Bytes
  blob_of offset = blob_request offset >>= (λ b. pure (drop 1 b))

  read_blob-ask :
      (offset : ℕ) (w : World P)
      → offset < 2 ^ 16
      → read_blob answer handle offset w ≡ catch (blob_of offset) (end_of_value answer) w
  unfolding read_blob
  read_blob-ask offset w h = rw (to_bytes-le_bytes handle 2 small, to_bytes-le_bytes offset 2 h)

  blob_part :
      (offset : ℕ) (w : World P) {b : Bytes}
      → offset < 2 ^ 16
      → (blob_request offset w).0 ≡ ok b
      → (read_blob answer handle offset w).0 ≡ ok (drop 1 b)
  blob_part offset w h e = rw (read_blob-ask offset w h) (
      catch-eq-ok (blob_of offset) (end_of_value answer) w
        (ap (λ z. z.0) (bind-eq-ok (blob_request offset) (λ b. pure (drop 1 b)) w e)))

  blob_refused :
      (offset : ℕ) (w : World P) {e : Error}
      → offset < 2 ^ 16
      → (blob_request offset w).0 ≡ err e
      → (read_blob answer handle offset w).0 ≡ (end_of_value answer e (blob_of offset w).1).0
  blob_refused offset w h e = rw (read_blob-ask offset w h) (
      ap (λ z. z.0)
        (catch-eq-err (blob_of offset) (end_of_value answer) w
          (bind-eq-err (blob_request offset) (λ b. pure (drop 1 b)) w e)))

  blob_end :
      (offset : ℕ) (w : World P)
      → offset < 2 ^ 16
      → IsEnd (blob_request offset w).0
      → (read_blob answer handle offset w).0 ≡ ok []
  blob_end offset w h (inl e) = blob_part offset w h e
  blob_end offset w h (inr (inl (op, k, e))) = blob_refused offset w h e
  blob_end offset w h (inr (inr (op, k, e))) = blob_refused offset w h e

  module _ (v : Bytes) (short : length v < 2 ^ 16) {start : World P}
      (serves : ServesValue answer handle v start) where
    append_part :
        (value : Bytes) (x : ℕ) (s q s' : Bytes)
        → v ≡ value ++ (x ∷ s)
        → s ≡ q ++ s'
        → v ≡ (value ++ (x ∷ q)) ++ s'
    append_part value x s q s' e e' =
        e ∙ ap (λ t. value ++ (x ∷ t)) e' ∙ sym (append_assoc value (x ∷ q) s')

    -- A round, from what the rounds behind it return.
    round_value :
        (loop : Bytes → Exec P Bytes) (value s : Bytes) (w : World P)
        → v ≡ value ++ s
        → ((more s' : Bytes) (w' : World P)
            → v ≡ more ++ s'
            → length s' < length s
            → length value < length more
            → (loop more w').0 ≡ ok v)
        → ((read_blob answer handle (length value) >>= add_blob answer loop value) w).0 ≡ ok v
    round_value loop value [] w e k =
        let whole : v ≡ value = e ∙ append-nil value in
        let over : (read_blob answer handle (length value) w).0 ≡ ok [] =
          subst (λ t. (read_blob answer handle (length t) w).0 ≡ ok []) whole
            (blob_end (length v) w short (serves.last w)) in
        ap (λ z. z.0)
          (bind-eq-ok (read_blob answer handle (length value)) (add_blob answer loop value) w over)
        ∙ ap ok (sym whole)
    round_value loop value (x ∷ s) w e k =
        let (q, s', e', r) = serves.next w value x s e in
        let size : length v ≡ length value + suc (length s) =
          ap length e ∙ length-append value (x ∷ s) in
        ap (λ z. z.0)
          (bind-eq-ok (read_blob answer handle (length value)) (add_blob answer loop value) w
            (blob_part (length value) w (omega arith) r))
        ∙ k (value ++ (x ∷ q)) s' _ (append_part value x s q s' e e')
            (omega (arith, ap length e' ∙ length-append q s'))
            (omega (arith, length-append value (x ∷ q)))

    read_loop-value :
        (fuel mtu : ℕ) (value s : Bytes) (w : World P)
        → v ≡ value ++ s
        → length s < fuel
        → (length value < mtu - 1 → s ≡ [])
        → (read_loop answer fuel handle mtu value w).0 ≡ ok v
    unfolding read_loop
    read_loop-value zero mtu value s w e enough whole = absurd (omega arith)
    read_loop-value (suc fuel) mtu value s w e enough whole =
        elim (Bool-cases (leb (mtu - 1) (length value))) [
          | inr done ↦
              let none_left : s ≡ [] = whole (leb→lt (mtu - 1) (length value) done) in
              rw done (ap ok (sym (e ∙ ap (λ t. value ++ t) none_left ∙ append-nil value)))
          | inl more ↦
              let reached = leb→le (mtu - 1) (length value) more in
              rw more (
                round_value (read_loop answer fuel handle mtu) value s w e
                  (λ more_value s' w' e' shorter longer.
                    read_loop-value fuel mtu more_value s' w' e' (omega arith)
                      (λ lt. absurd (omega arith))))
        ]

    -- From a server that serves `v` in parts a read returns `v`, if `v` has less than 2^16 bytes.
    pub read-value : (read answer handle start).0 ≡ ok v
    unfolding read
    read-value =
        let (p, s, e, r, whole) = serves.first in
        let size : length v ≡ length p + length s = ap length e ∙ length-append p s in
        rw (to_bytes-le_bytes handle 2 small) (
          ap (λ z. z.0)
            (bind-eq-ok (request answer (read_pdu handle) read_rsp)
              (λ b. gets (λ c. c.mtu) >>= (λ mtu. read_loop answer read_fuel handle mtu (drop 1 b)))
              start r)
          ∙ read_loop-value read_fuel _ p s _ e (omega arith) whole)
