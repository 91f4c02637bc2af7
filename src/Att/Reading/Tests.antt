-- ===== src/Att/Reading/Tests.antt =====
-- A server of long values, and the theorem on reads at it.
use bluek.Prelude.{
  ◌≡◌, refl, ◌∙◌, ap, sym, ℕ, zero, suc, ◌<◌, ◌==◌, ◌%◌, [], ◌∷◌, ◌++◌, false, none, arith, inl,
  length, length-append, take, drop, take-append-drop, drop-append_length, if◌then◌else◌,
}
use bluek.Prelude.Result.{ok}
use bluek.Bytes.{Bytes, slice, from_bytes, le_bytes}
use bluek.Att.Codes.{read_req, read_rsp, read_blob_rsp}
use bluek.Att.State.{new_client, received, handle_events}
use bluek.Att.Request.{Answer, World, request, send, await_future, check_response}
use bluek.Att.Reading.{read}
use bluek.Att.Reading.Complete.{ServesValue, read-value}

abbrev ramp : ℕ → Bytes
ramp zero = []
ramp (suc n) = (n % 256) ∷ ramp n

-- It serves 60 bytes, 22 at a time.
abbrev value : Bytes
value = ramp 60

unfoldable part : Bytes → Bytes
part [] = []
part (op ∷ rest) =
    if op == read_req
    then read_rsp ∷ take 22 value
    else read_blob_rsp ∷ take 22 (drop (from_bytes (slice 3 5 (op ∷ rest))) value)

abbrev server : Answer (Unit {0})
server p pdu = (p, record { send_error = none; events = received (part pdu) ∷ [] })

abbrev start : World (Unit {0})
start = record { client = new_client false; sent = []; peer = tt }

offset_of : (k : ℕ) → k < 65536 → from_bytes (take 2 (le_bytes 2 k)) ≡ k
unfolding from_bytes le_bytes
offset_of k h = omega arith

next_part :
    (w : World (Unit {0})) (p : Bytes) (x : ℕ) (s : Bytes)
    → value ≡ p ++ (x ∷ s)
    → (q : Bytes) × (s' : Bytes) × (s ≡ q ++ s')
      × ((request server (0x0c ∷ 3 ∷ 0 ∷ le_bytes 2 (length p)) read_blob_rsp w).0
          ≡ ok (read_blob_rsp ∷ x ∷ q))
unfolding request send await_future check_response handle_events part
next_part w p x s e =
    let small : length p < 65536 = omega (arith, ap length e ∙ length-append p (x ∷ s)) in
    (
      take 21 s,
      drop 21 s,
      sym (take-append-drop 21 s),
      ap (λ t. ok (read_blob_rsp ∷ take 22 t))
          (ap (λ k. drop k value) (offset_of (length p) small)
            ∙ ap (drop (length p)) e
            ∙ drop-append_length (length p) p (x ∷ s) refl),
    )

serves : ServesValue server 3 value start
unfolding le_bytes request send await_future check_response handle_events part from_bytes
serves = record {
  first = (take 22 value, drop 22 value, refl, refl, λ h. absurd (omega arith));
  next = next_part;
  last = λ w. inl refl;
}

read-value_example : (read server 3 start).0 ≡ ok value
read-value_example = read-value server 3 (omega arith) value (omega arith) serves
