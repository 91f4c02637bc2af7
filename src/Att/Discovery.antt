-- ===== src/Att/Discovery.antt =====
-- The discovery primitives and `discover` of bluek/_att.py. `read_by_group_type`, `read_by_type` and
-- `find_information` are one loop, which differs in the PDUs and in how an entry is cut and read:
-- a `Walk`. The loop takes fuel; `walk_fuel` is enough, since the start handle grows and stays below
-- 0xFFFF.
mod Tests
pub mod Pages
pub mod Ranges
pub mod Complete
use bluek.Prelude.{
  ℕ, zero, suc, ◌+◌, List, [], ◌∷◌, ◌++◌, ◌||◌, Option, none, some, ltb, leb, ◌==◌, take, drop,
  length, if◌then◌else◌,
}
use bluek.Prelude.Result
use bluek.Prelude.Result.{Result, ok, err, Error, att_error, value_error, out_of_fuel}
use bluek.Bytes.{Bytes, byte_at, to_bytes}
use bluek.Att.Codes.{attribute_not_found}
use bluek.Att.Request.{Answer, Exec, pure, raise, lift, catch, ◌>>=◌, request}

pub record Walk (A : Type 0) : Type 0 where
  pub request_opcode : ℕ
  pub response_opcode : ℕ
  pub suffix : Bytes
  -- the length of an entry, from the second byte of the response
  pub entry_length : ℕ → ℕ
  pub decode : Bytes → Result A
  -- the handle behind which the next request starts
  pub last_handle : A → ℕ

-- entries[i : i + length] for i in range(0, len(entries) - length + 1, length), for a length
-- above 0
unfoldable pub chunks : ℕ → ℕ → Bytes → List Bytes
chunks zero n entries = []
chunks (suc fuel) n entries =
    let rest = chunks fuel n (drop n entries) in
    if ltb (length entries) n then [] else take n entries ∷ rest

module _ {A : Type 0} where
  unfoldable pub decode_all : (Bytes → Result A) → List Bytes → Result (List A)
  decode_all decode [] = ok []
  decode_all decode (e ∷ es) =
      Result.◌>>=◌ (decode e) (λ a. Result.◌>>=◌ (decode_all decode es) (λ as'. ok (a ∷ as')))

  abbrev pub last_of : (A → ℕ) → ℕ → List A → ℕ
  last_of f start [] = start
  last_of f start (a ∷ page) = last_of f (f a) page

  -- The entries of one response; `range` refuses a step of 0.
  unfoldable pub parse_page : Walk A → Bytes → Result (List A)
  unfolding chunks decode_all
  parse_page walk b = Result.◌>>=◌ (byte_at b 1) (λ n.
      let size = walk.entry_length n in
      let entries = drop 2 b in
      if size == 0
      then err value_error
      else decode_all walk.decode (chunks (length entries) size entries))

abbrev pub walk_fuel : ℕ
walk_fuel = 65537

-- except ATTError: attribute-not-found ends the walk, and every other error is raised again.
abbrev pub end_of_attributes : {P : Type 0} → Error → Exec P (Option Bytes)
end_of_attributes (att_error op handle code) =
    if code == attribute_not_found then pure none else raise (att_error op handle code)
end_of_attributes e = raise e

module _ {P A : Type 0} (answer : Answer P) (walk : Walk A) where
  abbrev pub ask : ℕ → ℕ → Exec P Bytes
  ask start stop = do
    s ← lift (to_bytes start 2)
    e ← lift (to_bytes stop 2)
    request answer (walk.request_opcode ∷ (s ++ (e ++ walk.suffix))) walk.response_opcode

  abbrev pub decode_response : Option Bytes → Exec P (Option (List A))
  decode_response none = pure none
  decode_response (some b) = do page ← lift (parse_page walk b); pure (some page)

  -- One round: the page, or `none` at the end of the attributes.
  unfoldable pub walk_page : ℕ → ℕ → Exec P (Option (List A))
  walk_page start stop = do
    response ← catch (do b ← ask start stop; pure (some b)) end_of_attributes
    decode_response response

  -- The end of a round: the loop stops, or goes on behind the last handle.
  abbrev pub next_round :
      (ℕ → List A → Exec P (List A)) → ℕ → List A → Option (List A) → Exec P (List A)
  next_round loop start results none = pure results
  next_round loop start results (some page) =
      let last = last_of walk.last_handle start page in
      if leb 0xFFFF last || ltb last start
      then pure (results ++ page)
      else loop (last + 1) (results ++ page)

  unfoldable pub walk_loop : ℕ → ℕ → ℕ → List A → Exec P (List A)
  walk_loop zero start stop results = raise out_of_fuel
  walk_loop (suc fuel) start stop results =
      let round : Exec P (List A) = (do
        found ← walk_page start stop
        next_round (λ next more. walk_loop fuel next stop more) start results found) in
      if leb start stop then round else pure results

  unfoldable pub run_walk : ℕ → ℕ → Exec P (List A)
  run_walk start stop = walk_loop walk_fuel start stop []
