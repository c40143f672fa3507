-- ===== src/SteamLang/RoundTrip/Handshake.antt =====
-- What Serialize writes and Deserialize reads back: the bodies of the channel handshake, and the
-- headers that are not protobuf messages.
use go_steam_ws.Base.{ℕ, ◌^◌, ◌<◌, List, ◌++◌}
use go_steam_ws.Io.{le_bytes}
use go_steam_ws.Io.Carries.{Carries, store_int, convert_int, ◌then◌}
use go_steam_ws.Rwu.{read_uint8, read_uint16, read_uint32, read_uint64, read_int32}
use go_steam_ws.SteamLang.{
  MsgHdr, new_msg_hdr, serialize_msg_hdr, deserialize_msg_hdr, ExtendedClientMsgHdr,
  new_extended_client_msg_hdr, serialize_extended_client_msg_hdr,
  deserialize_extended_client_msg_hdr,
}
use go_steam_ws.SteamLang.Bodies.{
  MsgChannelEncryptRequest, new_msg_channel_encrypt_request, request_body,
  MsgChannelEncryptResponse, new_msg_channel_encrypt_response, response_body,
  MsgChannelEncryptResult, new_msg_channel_encrypt_result, result_body,
}

abbrev pub FitsMsgChannelEncryptRequest : MsgChannelEncryptRequest → Type 0
FitsMsgChannelEncryptRequest b = (b.protocol_version < 2 ^ 32) × (b.universe < 2 ^ 32)

abbrev pub channel_encrypt_request_bytes : MsgChannelEncryptRequest → List ℕ
channel_encrypt_request_bytes b = le_bytes 4 b.protocol_version ++ le_bytes 4 b.universe

pub channel_encrypt_request-Carries :
    (b : MsgChannelEncryptRequest)
    → FitsMsgChannelEncryptRequest b
    → Carries
        (request_body.serialize b)
        (request_body.deserialize)
        (channel_encrypt_request_bytes b)
        8
        new_msg_channel_encrypt_request
        b
unfolding read_int32 read_uint32
channel_encrypt_request-Carries b h =
    store_int _ 4 b.protocol_version _ h.0 then store_int _ 4 b.universe _ h.1

abbrev pub FitsMsgChannelEncryptResponse : MsgChannelEncryptResponse → Type 0
FitsMsgChannelEncryptResponse b = (b.protocol_version < 2 ^ 32) × (b.key_size < 2 ^ 32)

abbrev pub channel_encrypt_response_bytes : MsgChannelEncryptResponse → List ℕ
channel_encrypt_response_bytes b = le_bytes 4 b.protocol_version ++ le_bytes 4 b.key_size

pub channel_encrypt_response-Carries :
    (b : MsgChannelEncryptResponse)
    → FitsMsgChannelEncryptResponse b
    → Carries
        (response_body.serialize b)
        (response_body.deserialize)
        (channel_encrypt_response_bytes b)
        8
        new_msg_channel_encrypt_response
        b
unfolding read_uint32
channel_encrypt_response-Carries b h =
    store_int _ 4 b.protocol_version _ h.0 then store_int _ 4 b.key_size _ h.1

abbrev pub FitsMsgChannelEncryptResult : MsgChannelEncryptResult → Type 0
FitsMsgChannelEncryptResult b = (b.result < 2 ^ 32)

abbrev pub channel_encrypt_result_bytes : MsgChannelEncryptResult → List ℕ
channel_encrypt_result_bytes b = le_bytes 4 b.result

pub channel_encrypt_result-Carries :
    (b : MsgChannelEncryptResult)
    → FitsMsgChannelEncryptResult b
    → Carries
        (result_body.serialize b)
        (result_body.deserialize)
        (channel_encrypt_result_bytes b)
        4
        new_msg_channel_encrypt_result
        b
unfolding read_int32
channel_encrypt_result-Carries b h = store_int _ 4 b.result _ h

abbrev pub FitsMsgHdr : MsgHdr → Type 0
FitsMsgHdr b = (b.msg < 2 ^ 32) × (b.target_job_id < 2 ^ 64) × (b.source_job_id < 2 ^ 64)

abbrev pub msg_hdr_bytes : MsgHdr → List ℕ
msg_hdr_bytes b = (le_bytes 4 b.msg ++ le_bytes 8 b.target_job_id) ++ le_bytes 8 b.source_job_id

pub msg_hdr-Carries :
    (b : MsgHdr)
    → FitsMsgHdr b
    → Carries (serialize_msg_hdr b) (deserialize_msg_hdr) (msg_hdr_bytes b) 20 new_msg_hdr b
unfolding deserialize_msg_hdr serialize_msg_hdr read_int32 read_uint64
msg_hdr-Carries b h =
    convert_int _ 4 b.msg _ h.0
    then store_int _ 8 b.target_job_id _ h.1
    then store_int _ 8 b.source_job_id _ h.2

abbrev pub FitsExtendedClientMsgHdr : ExtendedClientMsgHdr → Type 0
FitsExtendedClientMsgHdr b =
    (b.msg < 2 ^ 32)
    × (b.header_size < 2 ^ 8)
    × (b.header_version < 2 ^ 16)
    × (b.target_job_id < 2 ^ 64)
    × (b.source_job_id < 2 ^ 64)
    × (b.header_canary < 2 ^ 8)
    × (b.steam_id < 2 ^ 64)
    × (b.session_id < 2 ^ 32)

abbrev pub extended_client_msg_hdr_bytes : ExtendedClientMsgHdr → List ℕ
extended_client_msg_hdr_bytes b =
    ((((((le_bytes 4 b.msg ++ le_bytes 1 b.header_size) ++ le_bytes 2 b.header_version)
            ++ le_bytes 8 b.target_job_id)
          ++ le_bytes 8 b.source_job_id)
        ++ le_bytes 1 b.header_canary)
      ++ le_bytes 8 b.steam_id)
    ++ le_bytes 4 b.session_id

pub extended_client_msg_hdr-Carries :
    (b : ExtendedClientMsgHdr)
    → FitsExtendedClientMsgHdr b
    → Carries
        (serialize_extended_client_msg_hdr b)
        (deserialize_extended_client_msg_hdr)
        (extended_client_msg_hdr_bytes b)
        36
        new_extended_client_msg_hdr
        b
unfolding deserialize_extended_client_msg_hdr serialize_extended_client_msg_hdr read_int32
    read_uint8 read_uint16 read_uint64
extended_client_msg_hdr-Carries b h =
    convert_int _ 4 b.msg _ h.0
    then store_int _ 1 b.header_size _ h.1
    then store_int _ 2 b.header_version _ h.2
    then store_int _ 8 b.target_job_id _ h.3
    then store_int _ 8 b.source_job_id _ h.4
    then store_int _ 1 b.header_canary _ h.5
    then convert_int _ 8 b.steam_id _ h.6
    then store_int _ 4 b.session_id _ h.7
