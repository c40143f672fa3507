-- ===== src/Examples/Link.antt =====
-- Packets that do not come from Serialize, and the client's calls, at concrete inputs.
use go_steam_ws.Base.{
  ℕ, ◌≡◌, ◌≤◌, refl, not, ◌&&◌, false, none, some, List, [], ◌∷◌, ◌++◌, length, replicate, arith,
}
use go_steam_ws.Io.{le_value, read_int, Outcome, returns, ok, ◌>>=◌}
use go_steam_ws.Io.Steps.{◌>>>◌, convert, store}
use go_steam_ws.Rwu.{read_int32, read_uint64, read_uint32}
use go_steam_ws.SteamLang.{new_emsg, is_proto, deserialize_msg_hdr}
use go_steam_ws.SteamLang.Bodies.{MsgChannelEncryptResult, result_body}
use go_steam_ws.Protocol.ProtoMsg
use go_steam_ws.Protocol.Packet.{Packet, new_packet, is_channel_emsg, read_msg}
use go_steam_ws.Protocol.Malformed.{new_packet-keeps}
use go_steam_ws.Client.{
  Client, IMsg, proto_msg, open_chan, closed_chan, fatal_error_event, disconnected_event, Link,
  connected_event, new_client, write, handle_channel_encrypt_request, handle_channel_encrypt_result,
  is_public, is_ok,
}
use go_steam_ws.Client.Dispatch.{multi_loop}
use go_steam_ws.Client.Multi.{frames, handle_all, multi_loop_total, multi_loop-frames}
use go_steam_ws.Client.Session.{
  IsSession, connects, writes, write_turns, disconnects, Call, results,
}
use go_steam_ws.Client.Handshake.{
  marked, key_answer, write_lem, handshake_lem, handle_request_other,
}
use go_steam_ws.Examples.{raw_codec, plain_codec, seven_bytes}

-- EMsg 1305, no job ids set, and result 1.
abbrev ok_data : List ℕ
ok_data =
    25 ∷ 5 ∷ 0 ∷ 0 ∷ 255 ∷ 255 ∷ 255 ∷ 255 ∷ 255 ∷ 255 ∷ 255 ∷ 255 ∷ 255 ∷ 255 ∷ 255 ∷ 255 ∷ 255
    ∷ 255 ∷ 255 ∷ 255 ∷ 1 ∷ 0 ∷ 0 ∷ 0 ∷ []

abbrev ok_packet : Packet
ok_packet = record {
  emsg = 1305;
  is_proto = false;
  target_job_id = 0xffff_ffff_ffff_ffff;
  source_job_id = 0xffff_ffff_ffff_ffff;
  raw_data = ok_data;
}

ok_packet_lem : new_packet plain_codec ok_data ≡ returns (ok ok_packet)
unfolding new_packet read_int new_emsg le_value deserialize_msg_hdr ◌>>>◌ convert read_int32 store
    read_uint64
ok_packet_lem = refl

new_packet_keeps_example :
    (ok_packet.raw_data ≡ ok_data)
    × (ok_packet.emsg ≡ new_emsg (read_int 4 ok_data).0)
    × (ok_packet.is_proto
        ≡ (not (is_channel_emsg ok_packet.emsg) && is_proto (read_int 4 ok_data).0))
new_packet_keeps_example = new_packet-keeps plain_codec ok_data ok_packet ok_packet_lem

-- A connection that keeps what is written to it.
abbrev TestClient : Type 0
TestClient = Client (List ℕ) MsgChannelEncryptResult (List ℕ)

abbrev test_link : Link (List ℕ)
test_link = record {
  set_encryption_key = λ key l. returns l;
  write = λ bytes l. returns (none, l ++ bytes);
}

abbrev test_client : TestClient
test_client = record new_client {
  conn = some [];
  write_chan = open_chan [];
  steam_id = 5;
  session_id = 6;
}

test_client-IsSession : IsSession test_client
unfolding new_client
test_client-IsSession = record { chan = tt; key = tt }

abbrev test_msg : IMsg (List ℕ) MsgChannelEncryptResult
test_msg = proto_msg (ProtoMsg.new 703 seven_bytes)

abbrev request_packet : ℕ → Packet
request_packet universe = record {
  emsg = 1303;
  is_proto = false;
  target_job_id = 0;
  source_job_id = 0;
  raw_data = replicate 20 0 ++ (1 ∷ 0 ∷ 0 ∷ 0 ∷ universe ∷ 0 ∷ 0 ∷ 0 ∷ []);
}

abbrev test_handle : Packet → TestClient → Outcome TestClient
test_handle p c = returns (record c { session_id = p.emsg })

abbrev cut_short : List ℕ
cut_short = 4 ∷ 0 ∷ 0 ∷ 0 ∷ 7 ∷ []

multi_loop_total_example :
    (ds : List (List ℕ)) × ((fuel : ℕ) (c : TestClient)
      → length cut_short ≤ fuel
      → multi_loop plain_codec test_handle fuel cut_short c
        ≡ handle_all plain_codec test_handle ds c)
multi_loop_total_example = multi_loop_total plain_codec test_handle cut_short

multi_loop-frames_example :
    multi_loop plain_codec test_handle
      (length (frames (ok_data ∷ seven_bytes ∷ [])))
      (frames (ok_data ∷ seven_bytes ∷ []))
      test_client
    ≡ handle_all plain_codec test_handle (ok_data ∷ seven_bytes ∷ []) test_client
multi_loop-frames_example =
    multi_loop-frames plain_codec test_handle (ok_data ∷ seven_bytes ∷ []) test_client
      (ground arith)

-- A client that connects, writes and disconnects, and then has to handle a ChannelEncryptResult.
abbrev late_result : List (Call test_link plain_codec raw_codec result_body)
late_result =
    connects (some []) ∷ writes test_msg ∷ write_turns ∷ disconnects ∷ results ok_packet ∷ []

write_example :
    write test_msg test_client
    ≡ returns (record test_client { write_chan = open_chan (marked 6 5 test_msg ∷ []) })
unfolding new_client
write_example = write_lem test_msg test_client test_client-IsSession

handshake_example :
    (handle_channel_encrypt_request
        (replicate 32 1)
        (λ k. k)
        (λ k. 7)
        (request_packet 1)
        test_client
      >>= handle_channel_encrypt_result test_link ok_packet)
    ≡ returns (record test_client {
      conn = some [];
      write_chan = open_chan (key_answer (replicate 32 1) 7 ∷ []);
      temp_session_key = none;
      events = connected_event ∷ [];
    })
unfolding new_client is_ok is_public read_msg ◌>>>◌ store read_uint32 deserialize_msg_hdr convert
    read_int32 read_uint64 le_value
handshake_example =
    handshake_lem test_link [] [] [] test_client (replicate 32 1) (λ k. k) (λ k. 7)
      (request_packet 1) ok_packet refl refl refl refl refl

handle_request_other_example :
    handle_channel_encrypt_request (replicate 32 1) (λ k. k) (λ k. 7) (request_packet 2) test_client
    ≡ returns (record test_client {
      conn = none;
      write_chan = closed_chan [];
      temp_session_key = some (replicate 32 1);
      events = fatal_error_event ∷ (disconnected_event ∷ []);
    })
unfolding is_public read_msg ◌>>>◌ store read_uint32 deserialize_msg_hdr convert read_int32
    read_uint64 le_value new_client
handle_request_other_example =
    handle_request_other test_client (replicate 32 1) (λ k. k) (λ k. 7) (request_packet 2)
      test_client-IsSession refl
