-- ===== src/Att/Reading.antt =====
-- `read` and `_read_blob` of bluek/_att.py. The loop takes fuel; `read_fuel` is enough, since every
-- round but the last adds a byte and an offset has two bytes.
pub mod Complete
mod Tests
use bluek.Prelude.{ℕ, zero, suc, ◌-◌, [], ◌∷◌, ◌++◌, ◌||◌, leb, ◌==◌, drop, length, if◌then◌else◌}
use bluek.Prelude.Result.{Error, att_error, out_of_fuel}
use bluek.Bytes.{Bytes, to_bytes}
use bluek.Att.Codes.{
  read_req, read_rsp, read_blob_req, read_blob_rsp, invalid_offset, attribute_not_long,
}
use bluek.Att.Request.{Answer, Exec, pure, raise, lift, catch, gets, ◌>>=◌, request}

abbrev pub read_fuel : ℕ
read_fuel = 65537

module _ {P : Type 0} (answer : Answer P) where
  abbrev pub end_of_value : Error → Exec P Bytes
  end_of_value (att_error op handle code) =
      if code == invalid_offset || code == attribute_not_long
      then pure []
      else raise (att_error op handle code)
  end_of_value e = raise e

  -- The request of `_read_blob`, from the packed handle and offset.
  abbrev pub ask_blob : Bytes → Bytes → Exec P Bytes
  ask_blob h o =
      catch (do b ← request answer (read_blob_req ∷ (h ++ o)) read_blob_rsp; pure (drop 1 b))
        end_of_value

  -- _read_blob
  unfoldable pub read_blob : ℕ → ℕ → Exec P Bytes
  read_blob handle offset = do
    h ← lift (to_bytes handle 2)
    o ← lift (to_bytes offset 2)
    ask_blob h o

  -- `if not blob: break`, and otherwise the next round.
  abbrev pub add_blob : (Bytes → Exec P Bytes) → Bytes → Bytes → Exec P Bytes
  add_blob loop value [] = pure value
  add_blob loop value (x ∷ xs) = loop (value ++ (x ∷ xs))

  -- The loop of `read` from the value read so far; `mtu` is the snapshot.
  unfoldable pub read_loop : ℕ → ℕ → ℕ → Bytes → Exec P Bytes
  read_loop zero handle mtu value = raise out_of_fuel
  read_loop (suc fuel) handle mtu value =
      let more : Exec P Bytes = (do
        blob ← read_blob handle (length value)
        add_blob (read_loop fuel handle mtu) value blob) in
      if leb (mtu - 1) (length value) then more else pure value

  -- read
  unfoldable pub read : ℕ → Exec P Bytes
  read handle = do
    h ← lift (to_bytes handle 2)
    b ← request answer (read_req ∷ h) read_rsp
    mtu ← gets (λ c. c.mtu)
    read_loop read_fuel handle mtu (drop 1 b)
