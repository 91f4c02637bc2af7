-- ===== src/Att/Database/Server.antt =====
-- A server that holds a tree and answers with one attribute at a time.
use bluek.Prelude.{
  ◌≡◌, refl, ◌∙◌, ℕ, ◌+◌, ◌<◌, ◌≤◌, ◌^◌, List, [], ◌∷◌, ◌++◌, true, false, none, All, arith, length,
  ◌||◌, ◌==◌, if◌then◌else◌,
}
use bluek.Bytes.{Bytes, le_bytes, from_bytes, from_bytes-le_bytes}
use bluek.Att.Codes.{
  primary_service, characteristic, read_by_group_type_req, read_by_type_req, handle_value_ntf,
  handle_value_ind, exchange_mtu_req,
}
use bluek.Att.Gatt.{GattDescriptor, GattService}
use bluek.Att.State.{received}
use bluek.Att.State.Demux.{answers, answer_data}
use bluek.Att.Request.{Answer, World, request, check_response, await_future}
use bluek.Att.Request.Outcomes.{request-outcome}
use bluek.Att.Discovery.{Walk}
use bluek.Att.Discovery.Ranges.{within}
use bluek.Att.Discovery.Complete.{range_pdu}
use bluek.Att.Services.{Group, Attribute, group_walk, type_walk, info_walk}
use bluek.Att.Database.{wire, groups, declarations, attributes}
use bluek.Att.Database.Bounds.{group_start, group_stop, attribute_handle, descriptor_handle}
use bluek.Att.Database.Completed.{ServesTree}
use bluek.Att.Database.Single.{Writing, Encodes, one, one_by_one, one-answers, answer_data-one}

abbrev pub group_writing : Writing Group
group_writing = record {
  entry = λ g. le_bytes 2 g.start ++ (le_bytes 2 g.stop ++ g.value);
  code = λ g. length g.value + 4;
}

abbrev pub type_writing : Writing Attribute
type_writing = record {
  entry = λ a. le_bytes 2 a.handle ++ a.value;
  code = λ a. length a.value + 2;
}

abbrev pub info_writing : Writing GattDescriptor
info_writing = record {
  entry = λ d. le_bytes 2 d.handle ++ wire d.uuid;
  code = λ d. if length (wire d.uuid) == 2 then 1 else 2;
}

module _ (tree : List GattService) where
  -- The response to a request for a range.
  abbrev range_reply : ℕ → ℕ → ℕ → Bytes
  range_reply op start stop =
      if op == read_by_group_type_req
      then one (group_walk primary_service) group_writing
          (within group_start group_stop start stop (groups tree))
      else if op == read_by_type_req
      then one (type_walk characteristic) type_writing
          (within attribute_handle attribute_handle start stop (declarations tree))
      else one info_walk info_writing
          (within descriptor_handle descriptor_handle start stop (attributes tree))

  abbrev reply : Bytes → Bytes
  reply (op ∷ s₀ ∷ s₁ ∷ e₀ ∷ e₁ ∷ _) =
      range_reply op (from_bytes (s₀ ∷ s₁ ∷ [])) (from_bytes (e₀ ∷ e₁ ∷ []))
  reply _ = []

  abbrev pub tree_answer : Answer (Unit {0})
  tree_answer p pdu = (p, record { send_error = none; events = received (reply pdu) ∷ [] })

  -- A response that answers the request is what the client checks.
  request-reply :
      (pdu b : Bytes) (q : ℕ) (w : World (Unit {0}))
      → reply pdu ≡ b
      → answers q b ≡ true
      → answer_data b ≡ b
      → (request tree_answer pdu q w).0 ≡ check_response q b
  unfolding await_future
  request-reply pdu b q w e hit same = request-outcome tree_answer pdu q w ∙ rw (e, hit, same) refl

  reply-range :
      {A : Type 0} (walk : Walk A) (start stop : ℕ)
      → start < 2 ^ 16
      → stop < 2 ^ 16
      → reply (range_pdu walk start stop) ≡ range_reply walk.request_opcode start stop
  unfolding le_bytes
  reply-range walk start stop h k =
      rw (from_bytes-le_bytes 2 start h, from_bytes-le_bytes 2 stop k) refl

  one-reply :
      {A : Type 0} (walk : Walk A) (writing : Writing A) (found : List A) (start stop : ℕ)
      (w : World (Unit {0}))
      → start ≤ stop
      → stop < 2 ^ 16
      → range_reply walk.request_opcode start stop ≡ one walk writing found
      → (walk.response_opcode == handle_value_ntf || walk.response_opcode == handle_value_ind)
        ≡ false
      → (walk.response_opcode == exchange_mtu_req) ≡ false
      → (request tree_answer (range_pdu walk start stop) walk.response_opcode w).0
        ≡ check_response walk.response_opcode (one walk writing found)
  one-reply walk writing found start stop w h k e quiet no_mtu =
      request-reply (range_pdu walk start stop) (one walk writing found) walk.response_opcode w
        (reply-range walk start stop (omega arith) k ∙ e)
        (one-answers walk writing found quiet no_mtu) (answer_data-one walk writing found no_mtu)

  -- The server serves its tree, if its entries can be written.
  pub tree_answer-ServesTree :
      All (Encodes (group_walk primary_service) group_writing) (groups tree)
      → All (Encodes (type_walk characteristic) type_writing) (declarations tree)
      → All (Encodes info_walk info_writing) (attributes tree)
      → ServesTree tree_answer tree
  tree_answer-ServesTree written₁ written₂ written₃ = record {
    group_pages =
        one_by_one tree_answer (group_walk primary_service) group_writing group_start (groups tree)
          written₁ 65535
          (λ w start h.
            one-reply (group_walk primary_service) group_writing
              (within group_start group_stop start 65535 (groups tree)) start 65535 w h
              (omega arith) refl refl refl)
          refl;
    type_pages = λ stop small.
        one_by_one tree_answer (type_walk characteristic) type_writing attribute_handle
          (declarations tree) written₂ stop
          (λ w start h.
            one-reply (type_walk characteristic) type_writing
              (within attribute_handle attribute_handle start stop (declarations tree)) start stop w
              h small refl refl refl)
          refl;
    info_pages = λ stop small.
        one_by_one tree_answer info_walk info_writing descriptor_handle (attributes tree) written₃
          stop
          (λ w start h.
            one-reply info_walk info_writing
              (within descriptor_handle descriptor_handle start stop (attributes tree)) start stop w
              h small refl refl refl)
          refl;
  }
