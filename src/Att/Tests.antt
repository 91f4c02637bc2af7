-- ===== src/Att/Tests.antt =====
-- The ATT client against a peer that plays a script, and its theorems at such runs.
use bluek.Prelude.{List, [], ◌∷◌, ◌++◌, ◌≡◌, ◌↔◌, refl, none, some, false, codes, arith}
use bluek.Prelude.Result.{ok, err, timeout_error}
use bluek.Prelude.Dict.{lookup}
use bluek.Bytes.{to_bytes, le_bytes, from_bytes}
use bluek.Att.Codes.{read_rsp, exchange_mtu_rsp, properties_to_strings}
use bluek.Att.State.{Client, Event, new_client, waiting, received, closed, handle_events}
use bluek.Att.State.Inbox.{all_calls, all_tasks, handle_events-inbox}
use bluek.Att.State.Demux.{outcome}
use bluek.Att.Request.{Answer, World, Round, request, check_response, await_future, exchange_mtu}
use bluek.Att.Request.Outcomes.{IsReply, round_of, request-IsReply, request-outcome}
use bluek.Att.Request.Mtu.{
  exchange_mtu-result, exchange_mtu-timeout, mtu_events, mtu_client, mtu_result,
}
use bluek.Att.Session.{run_calls, exchange, read_value, quiet}
use bluek.Att.Session.Quiet.{IsQuiet, run_calls-IsQuiet}

properties_run : properties_to_strings 0x18 ≡ codes "write" ∷ codes "notify" ∷ []
unfolding properties_to_strings
properties_run = refl

-- The peer answers the n-th PDU by the n-th round, and is silent at the end of the script.
abbrev play : Answer (List Round)
play [] pdu = ([], record { send_error = none; events = [] })
play (r ∷ rest) pdu = (rest, r)

abbrev start : List Round → World (List Round)
start script = record { client = new_client false; sent = []; peer = script }

-- A late MTU response and a notification come before the response.
abbrev stray : List Round
stray =
    record {
      send_error = none;
      events =
          received (0x03 ∷ 0xf7 ∷ 0x00 ∷ [])
          ∷ received (0x1b ∷ 0x07 ∷ 0x00 ∷ 0x2a ∷ [])
          ∷ received (0x0b ∷ 0x2a ∷ [])
          ∷ [];
    }
    ∷ []

stray_is_dropped :
    (request play (0x0a ∷ 3 ∷ 0 ∷ []) read_rsp (start stray)).0 ≡ ok (0x0b ∷ 0x2a ∷ [])
unfolding request handle_events await_future check_response lookup
stray_is_dropped = refl

request-IsReply_example :
    IsReply read_rsp (request play (0x0a ∷ 3 ∷ 0 ∷ []) read_rsp (start stray)).0
request-IsReply_example =
    request-IsReply play (0x0a ∷ 3 ∷ 0 ∷ []) read_rsp (start stray) refl (tt, (tt, (tt, tt)))

request-outcome_example :
    (request play (0x0a ∷ 3 ∷ 0 ∷ []) read_rsp (start stray)).0
    ≡ await_future read_rsp
        (some (outcome read_rsp (round_of play (0x0a ∷ 3 ∷ 0 ∷ []) (start stray)).events))
request-outcome_example = request-outcome play (0x0a ∷ 3 ∷ 0 ∷ []) read_rsp (start stray)

-- The peer asks for the MTU instead of answering.
abbrev crossed : List Round
crossed = record { send_error = none; events = received (0x02 ∷ 0x64 ∷ 0x00 ∷ []) ∷ [] } ∷ []

exchange_mtu-crossed : (exchange_mtu play 247 (start crossed)).0 ≡ ok 100
unfolding exchange_mtu request handle_events await_future check_response to_bytes le_bytes
    from_bytes
exchange_mtu-crossed = refl

exchange_mtu-result_example :
    (exchange_mtu play 247 (start crossed)).0
    ≡ mtu_result 247 (mtu_client play 247 (start crossed)).mtu (
        await_future exchange_mtu_rsp
          (some (outcome exchange_mtu_rsp (mtu_events play 247 (start crossed)))))
exchange_mtu-result_example =
    exchange_mtu-result play 247 (start crossed) (omega arith) refl (tt, tt)

exchange_mtu-timeout_example :
    ((exchange_mtu play 247 (start [])).0 ≡ err timeout_error)
    ↔ (outcome exchange_mtu_rsp [] ≡ waiting)
exchange_mtu-timeout_example = exchange_mtu-timeout play 247 (start []) (omega arith) refl tt

run_calls-IsQuiet_example :
    IsQuiet
      (run_calls play
        (exchange ∷ quiet (closed none ∷ []) ∷ read_value 3 ∷ [])
        (start crossed)).client
run_calls-IsQuiet_example =
    run_calls-IsQuiet play (exchange ∷ quiet (closed none ∷ []) ∷ read_value 3 ∷ []) (start crossed)
      (record { no_pending = refl; no_opcode = refl; in_range = omega arith })

-- A client with a handler for the value handle 7.
abbrev listening : Client
listening = record (new_client false) { notify_handlers = (7, 1) ∷ [] }

abbrev inbox : List Event
inbox = received (0x1d ∷ 7 ∷ 0 ∷ 0x2a ∷ []) ∷ received (0x02 ∷ 0x64 ∷ 0 ∷ []) ∷ []

inbox_run : (handle_events inbox listening).delivered ≡ (1, 0x2a ∷ []) ∷ []
unfolding handle_events lookup from_bytes
inbox_run = refl

handle_events-inbox_example :
    ((handle_events inbox listening).delivered ≡ [] ++ all_calls ((7, 1) ∷ []) inbox)
    × ((handle_events inbox listening).scheduled ≡ [] ++ all_tasks inbox)
    × ((handle_events inbox listening).notify_handlers ≡ (7, 1) ∷ [])
handle_events-inbox_example = handle_events-inbox inbox listening
