-- ===== src/Bench/Runs.antt =====
-- Runs of the ATT client against the in-memory peripheral.
use bluek.Prelude.{◌≡◌, refl, [], ◌∷◌, false}
use bluek.Prelude.Result.{ok}
use bluek.Bytes.{to_bytes, le_bytes, from_bytes}
use bluek.Prelude.Dict.{lookup}
use bluek.Att.State.{new_client, handle_events}
use bluek.Att.Request.{World, request, send, await_future, check_response}
use bluek.Att.Reading.{read, read_loop, read_blob}
use bluek.Att.Services.{discover}
use bluek.Bench.Tree.{peripheral_tree, discover-peripheral}
use bluek.Bench.Peripheral.{FakePeripheral, new_peripheral, peripheral_answer}

abbrev start : World FakePeripheral
start = record {
  client = new_client false;
  sent = [];
  peer = unfold new_peripheral in new_peripheral 5;
}

reads : (read peripheral_answer 3 start).0 ≡ ok (0 ∷ 1 ∷ 2 ∷ 3 ∷ 4 ∷ [])
unfolding read read_loop read_blob request send handle_events lookup await_future check_response
    peripheral_answer to_bytes le_bytes from_bytes new_peripheral
reads = refl

tree_found : (discover peripheral_answer start).0 ≡ ok peripheral_tree
tree_found = discover-peripheral start
