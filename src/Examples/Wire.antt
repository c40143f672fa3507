-- ===== src/Examples/Wire.antt =====
-- Messages, frames and encryption at concrete inputs.
use go_steam_ws.Io.Carries.{Carries}
use go_steam_ws.SteamLang.Messages.{chat_member_info, serialize_of, deserialize_of, fresh}
use go_steam_ws.SteamLang.Messages.Chat.{MsgClientChatMemberInfo}
use go_steam_ws.SteamLang.RoundTrip.{struct_round_trip, bytes_of, size_of}
use go_steam_ws.Base.{ℕ, ◌+◌, ◌-◌, ◌^◌, ◌≡◌, refl, none, some, List, [], ◌∷◌, ◌++◌, length, arith}
use go_steam_ws.Io.{le_bytes, returns, panics, ok}
use go_steam_ws.SteamLang.{new_emsg, no_job}
use go_steam_ws.SteamLang.Bodies.{result_body, result_body-IsBodyOf, MsgChannelEncryptResult}
use go_steam_ws.ProtoBuf.{empty_proto_header}
use go_steam_ws.Protocol.ProtoMsg.{ClientMsgProtobuf}
use go_steam_ws.Protocol.ProtoMsg
use go_steam_ws.Protocol.StructMsg.{ClientMsg}
use go_steam_ws.Protocol.StructMsg
use go_steam_ws.Protocol.PlainMsg.{Msg}
use go_steam_ws.Protocol.PlainMsg
use go_steam_ws.Protocol.Packet.{new_packet, read_msg, read_client_msg, read_proto_msg}
use go_steam_ws.Protocol.Incoming.{
  msg_wire, msg_packet, read_msg-new_packet-serialize, client_wire, client_packet,
  read_client_msg-new_packet-serialize, proto_wire, proto_packet, sized_msg,
  read_proto_msg-new_packet-serialize,
}
use go_steam_ws.Protocol.Malformed.{new_packet_negative}
use go_steam_ws.CryptoUtil.{symmetric_encrypt, symmetric_decrypt}
use go_steam_ws.CryptoUtil.RoundTrip.{sealed, symmetric_decrypt-symmetric_encrypt}
use go_steam_ws.Connection.{Socket, write, read, with_rest}
use go_steam_ws.Connection.Frames.{frame, wire_form, read-write}
use go_steam_ws.Connection.Faults.{read_short_frame}
use go_steam_ws.Examples.{
  mirror, mirror-IsCipher, raw_codec, raw_codec-IsCodec, plain_codec, plain_codec-IsCodec,
  seven_bytes, zero_iv,
}

abbrev test_socket : Socket
test_socket = record { sent = 9 ∷ []; room = 100 }

abbrev sent_form : List ℕ
sent_form = frame (wire_form (some mirror) zero_iv seven_bytes)

symmetric_example :
    (symmetric_encrypt mirror zero_iv seven_bytes ≡ some (sealed mirror zero_iv seven_bytes))
    × (length (sealed mirror zero_iv seven_bytes) ≡ 32)
    × (symmetric_decrypt mirror (sealed mirror zero_iv seven_bytes) ≡ some seven_bytes)
symmetric_example =
    symmetric_decrypt-symmetric_encrypt mirror mirror-IsCipher zero_iv seven_bytes (ground arith)
      (ground arith)

wire_length : length (wire_form (some mirror) zero_iv seven_bytes) ≡ 32
wire_length =
    (symmetric_decrypt-symmetric_encrypt mirror mirror-IsCipher zero_iv seven_bytes (ground arith)
      (ground arith)).1

read-write_example :
    (write (some mirror) zero_iv seven_bytes test_socket
      ≡ returns (
        none,
        record {
          sent = (9 ∷ []) ++ sent_form;
          room = 100 - (length (wire_form (some mirror) zero_iv seven_bytes) + 8);
        },
      ))
    × (read plain_codec (some mirror) (sent_form ++ (5 ∷ []))
        ≡ with_rest plain_codec (some mirror) (5 ∷ []) (new_packet plain_codec seven_bytes))
read-write_example =
    read-write plain_codec (some mirror) zero_iv seven_bytes test_socket (5 ∷ [])
      (mirror-IsCipher, ground arith) (ground arith) (omega (arith, wire_length))
      (omega (arith, wire_length))

abbrev result_msg : Msg MsgChannelEncryptResult
result_msg = record {
  header = record { msg = 1305; target_job_id = no_job; source_job_id = 3 };
  body = record { result = 1 };
  payload = 8 ∷ [];
}

abbrev result_bytes : List ℕ
result_bytes = 1 ∷ 0 ∷ 0 ∷ 0 ∷ []

read_msg_example :
    (PlainMsg.serialize result_body result_msg []
      ≡ (none, msg_wire result_body result_msg result_bytes))
    × (new_packet plain_codec (msg_wire result_body result_msg result_bytes)
        ≡ returns (ok (msg_packet result_body result_msg result_bytes)))
    × (read_msg result_body (msg_packet result_body result_msg result_bytes) (record { result = 0 })
        ≡ result_msg)
unfolding le_bytes
read_msg_example =
    read_msg-new_packet-serialize result_body result_msg result_bytes plain_codec
      (record { result = 0 })
      (record { msg = ground arith; target = ground arith; source = ground arith }) refl
      (result_body-IsBodyOf (record { result = 1 }) (record { result = 0 }) (ground arith))

abbrev struct_msg : ClientMsg MsgChannelEncryptResult
struct_msg = record {
  header = record {
    msg = 5501;
    header_size = 36;
    header_version = 2;
    target_job_id = no_job;
    source_job_id = 3;
    header_canary = 239;
    steam_id = 76561197960265729;
    session_id = 12;
  };
  body = record { result = 1 };
  payload = 8 ∷ [];
}

read_client_msg_example :
    (StructMsg.serialize result_body struct_msg []
      ≡ (none, client_wire result_body struct_msg result_bytes))
    × (new_packet plain_codec (client_wire result_body struct_msg result_bytes)
        ≡ returns (ok (client_packet result_body struct_msg result_bytes)))
    × (read_client_msg result_body
          (client_packet result_body struct_msg result_bytes)
          (record { result = 0 })
        ≡ struct_msg)
unfolding le_bytes
read_client_msg_example =
    read_client_msg-new_packet-serialize result_body struct_msg result_bytes plain_codec
      (record { result = 0 })
      (record {
        msg = ground arith;
        size = ground arith;
        version = ground arith;
        target = ground arith;
        source = ground arith;
        canary = ground arith;
        steam = ground arith;
        session = ground arith;
      })
      (ground arith) refl
      (result_body-IsBodyOf (record { result = 1 }) (record { result = 0 }) (ground arith))

abbrev proto_test : ClientMsgProtobuf (List ℕ)
proto_test = record {
  header = record {
    msg = 5514;
    header_length = 0;
    proto = record empty_proto_header { others = 6 ∷ 7 ∷ [] };
  };
  body = seven_bytes;
}

read_proto_msg_example :
    (ProtoMsg.serialize plain_codec raw_codec proto_test [] ≡ (
      none,
      sized_msg plain_codec raw_codec proto_test (6 ∷ 7 ∷ []) seven_bytes,
      proto_wire plain_codec raw_codec proto_test (6 ∷ 7 ∷ []) seven_bytes,
    ))
    × (new_packet plain_codec (proto_wire plain_codec raw_codec proto_test (6 ∷ 7 ∷ []) seven_bytes)
        ≡ returns (ok (proto_packet plain_codec raw_codec proto_test (6 ∷ 7 ∷ []) seven_bytes)))
    × (read_proto_msg plain_codec raw_codec
          (proto_packet plain_codec raw_codec proto_test (6 ∷ 7 ∷ []) seven_bytes)
        ≡ returns (sized_msg plain_codec raw_codec proto_test (6 ∷ 7 ∷ []) seven_bytes))
read_proto_msg_example =
    read_proto_msg-new_packet-serialize plain_codec raw_codec proto_test (6 ∷ 7 ∷ []) seven_bytes
      plain_codec-IsCodec raw_codec-IsCodec (ground arith) refl refl refl

new_packet_negative_example :
    new_packet plain_codec (le_bytes 4 (2 ^ 31 + 5) ++ (le_bytes 4 (2 ^ 31) ++ (7 ∷ []))) ≡ panics
unfolding new_emsg
new_packet_negative_example =
    new_packet_negative plain_codec (2 ^ 31 + 5) (2 ^ 31) (7 ∷ []) (ground arith) (ground arith)
      refl (ground arith) (ground arith)

read_short_frame_example : read plain_codec (some mirror) (frame seven_bytes ++ (5 ∷ [])) ≡ panics
read_short_frame_example = read_short_frame plain_codec mirror seven_bytes (5 ∷ []) (ground arith)

abbrev member_info : MsgClientChatMemberInfo
member_info = record { steam_id_chat = 8; type = 1 }

struct_example :
    Carries
      (serialize_of chat_member_info member_info)
      (deserialize_of chat_member_info)
      (bytes_of chat_member_info member_info)
      (size_of chat_member_info)
      (fresh chat_member_info)
      member_info
struct_example = struct_round_trip chat_member_info member_info (omega arith, omega arith)
