-- ===== src/Mgmt/Tests.antt =====
-- Runs of the codecs and of the socket, and the theorems on them at those runs.
use bluek.Prelude.{◌≡◌, refl, List, true, false, [], ◌∷◌, ◌++◌, none, some, codes}
use bluek.Prelude.Dict.{lookup, insert, nat_eq}
use bluek.Prelude.Result.{ok, os_error}
use bluek.Bytes.{le_bytes, from_bytes, pack, unpack}
use bluek.Mgmt.Codec.{encode_command, parse_packet, parse_eir, eir_loop, eir_name}
use bluek.Mgmt.Utf8.{decode_utf8, decode_chars, character_of}
use bluek.Mgmt.Eir.{fields_bytes, parse_eir-fields_bytes}
use bluek.Mgmt.Socket.{new_socket, Kernel, command, await_reply, send_command}
use bluek.Mgmt.Socket.Packets.{first_reply}
use bluek.Mgmt.Socket.Replies.{IsWellFormed, command-reply}
use bluek.Mgmt.Socket.Runs.{Call, left_pending}

-- U+00E9, a byte that starts nothing, and a sequence that ends too soon.
decodes :
    decode_utf8 (0x41 ∷ 0xC3 ∷ 0xA9 ∷ 0xFF ∷ 0xE2 ∷ 0x82 ∷ []) ≡ 0x41 ∷ 0xE9 ∷ 0xFFFD ∷ 0xFFFD ∷ []
unfolding decode_utf8 character_of
decodes = refl

names : eir_name (parse_eir (3 ∷ 8 ∷ 0x61 ∷ 0x62 ∷ 1 ∷ 9 ∷ [])) ≡ some (codes "ab")
unfolding eir_name parse_eir eir_loop lookup insert decode_utf8 decode_chars character_of
names = refl

parse_eir-fields_bytes_example :
    lookup 9 (
      parse_eir (fields_bytes ((9, 0x61 ∷ []) ∷ (1, 6 ∷ []) ∷ (9, 0x62 ∷ []) ∷ []) ++ (0 ∷ 7 ∷ [])))
    ≡ some (0x62 ∷ [])
parse_eir-fields_bytes_example =
    parse_eir-fields_bytes ((9, 0x61 ∷ []) ∷ (1, 6 ∷ []) ∷ (9, 0x62 ∷ []) ∷ []) (0 ∷ 7 ∷ []) 9 refl

-- A reply to another opcode, a packet that is too short, and the reply.
abbrev kernel : Kernel
kernel = record {
  send_error = none;
  packets =
      (2 ∷ 0 ∷ 0 ∷ 0 ∷ 3 ∷ 0 ∷ 0x24 ∷ 0 ∷ 0 ∷ [])
      ∷ (2 ∷ 0 ∷ [])
      ∷ (1 ∷ 0 ∷ 0 ∷ 0 ∷ 4 ∷ 0 ∷ 0x23 ∷ 0 ∷ 0x0a ∷ 6 ∷ [])
      ∷ [];
}

new_socket-IsWellFormed : IsWellFormed new_socket
unfolding lookup
new_socket-IsWellFormed = record { fresh = λ n h. refl; made = λ op fut e. cc }

sends : send_command 0x23 0 (6 ∷ []) kernel ≡ ok tt
unfolding send_command encode_command pack le_bytes
sends = refl

replies : first_reply 0x23 kernel.packets ≡ some (0x0a, 6 ∷ [])
unfolding parse_packet unpack from_bytes
replies = refl

command-reply_example :
    (command 0x23 0 (6 ∷ []) kernel new_socket).0 ≡ await_reply (first_reply 0x23 kernel.packets)
command-reply_example =
    command-reply 0x23 0 (6 ∷ []) kernel new_socket new_socket-IsWellFormed sends

abbrev replied : Kernel
replied = record {
  send_error = none;
  packets = (1 ∷ 0 ∷ 0 ∷ 0 ∷ 4 ∷ 0 ∷ 0x23 ∷ 0 ∷ 0x0a ∷ 6 ∷ []) ∷ [];
}

-- A command whose send raises, and a command that gets its reply.
abbrev two_calls : List Call
two_calls =
    record {
      opcode = 0x24;
      index = 0;
      params = 6 ∷ [];
      kernel = record { send_error = some (os_error 105); packets = [] };
    }
    ∷ record { opcode = 0x23; index = 0; params = 6 ∷ []; kernel = replied }
    ∷ []

-- The opcode of the first is left behind.
left : left_pending 0x24 two_calls false ≡ true
unfolding send_command encode_command pack le_bytes parse_packet unpack from_bytes
left = refl
