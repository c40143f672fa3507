-- ===== src/SteamLang/RoundTrip/Service.antt =====
-- What Serialize writes and Deserialize reads back: the bodies that tell of passes, statistics, servers, peers and news.
use go_steam_ws.Base.{ℕ, ◌^◌, ◌<◌, ◌≡◌, List, ◌++◌, length, length-replicate}
use go_steam_ws.Io.{le_bytes}
use go_steam_ws.Io.Carries.{Carries, store_int, convert_int, fill_bytes, ◌then◌}
use go_steam_ws.Rwu.{read_uint32, read_uint64, read_int32}
use go_steam_ws.SteamLang.Messages.Service.{
  MsgClientUpdateGuestPassesList, new_msg_client_update_guest_passes_list,
  client_update_guest_passes_list_body, MsgClientRequestedClientStats,
  new_msg_client_requested_client_stats, client_requested_client_stats_body,
  MsgClientP2pIntroducerMessage, new_msg_client_p2p_introducer_message,
  client_p2p_introducer_message_body, MsgClientServerUnavailable, new_msg_client_server_unavailable,
  client_server_unavailable_body, MsgClientMarketingMessageUpdate2,
  new_msg_client_marketing_message_update2, client_marketing_message_update2_body,
}

abbrev pub FitsMsgClientUpdateGuestPassesList : MsgClientUpdateGuestPassesList → Type 0
FitsMsgClientUpdateGuestPassesList b =
    (b.result < 2 ^ 32)
    × (b.count_guest_passes_to_give < 2 ^ 32)
    × (b.count_guest_passes_to_redeem < 2 ^ 32)

abbrev pub msg_client_update_guest_passes_list_bytes : MsgClientUpdateGuestPassesList → List ℕ
msg_client_update_guest_passes_list_bytes b =
    (le_bytes 4 b.result ++ le_bytes 4 b.count_guest_passes_to_give)
    ++ le_bytes 4 b.count_guest_passes_to_redeem

pub msg_client_update_guest_passes_list-Carries :
    (b : MsgClientUpdateGuestPassesList)
    → FitsMsgClientUpdateGuestPassesList b
    → Carries
        (client_update_guest_passes_list_body.serialize b)
        client_update_guest_passes_list_body.deserialize
        (msg_client_update_guest_passes_list_bytes b)
        12
        new_msg_client_update_guest_passes_list
        b
unfolding read_int32
msg_client_update_guest_passes_list-Carries b h =
    convert_int _ 4 b.result _ h.0
    then store_int _ 4 b.count_guest_passes_to_give _ h.1
    then store_int _ 4 b.count_guest_passes_to_redeem _ h.2

abbrev pub FitsMsgClientRequestedClientStats : MsgClientRequestedClientStats → Type 0
FitsMsgClientRequestedClientStats b = b.count_stats < 2 ^ 32

abbrev pub msg_client_requested_client_stats_bytes : MsgClientRequestedClientStats → List ℕ
msg_client_requested_client_stats_bytes b = le_bytes 4 b.count_stats

pub msg_client_requested_client_stats-Carries :
    (b : MsgClientRequestedClientStats)
    → FitsMsgClientRequestedClientStats b
    → Carries
        (client_requested_client_stats_body.serialize b)
        client_requested_client_stats_body.deserialize
        (msg_client_requested_client_stats_bytes b)
        4
        new_msg_client_requested_client_stats
        b
unfolding read_int32
msg_client_requested_client_stats-Carries b h = store_int _ 4 b.count_stats _ h

abbrev pub FitsMsgClientP2pIntroducerMessage : MsgClientP2pIntroducerMessage → Type 0
FitsMsgClientP2pIntroducerMessage b =
    (b.steam_id < 2 ^ 64)
    × (b.routing_type < 2 ^ 32)
    × (length b.raw_data ≡ 1450)
    × (b.data_len < 2 ^ 32)

abbrev pub msg_client_p2p_introducer_message_bytes : MsgClientP2pIntroducerMessage → List ℕ
msg_client_p2p_introducer_message_bytes b =
    ((le_bytes 8 b.steam_id ++ le_bytes 4 b.routing_type) ++ b.raw_data) ++ le_bytes 4 b.data_len

pub msg_client_p2p_introducer_message-Carries :
    (b : MsgClientP2pIntroducerMessage)
    → FitsMsgClientP2pIntroducerMessage b
    → Carries
        (client_p2p_introducer_message_body.serialize b)
        client_p2p_introducer_message_body.deserialize
        (msg_client_p2p_introducer_message_bytes b)
        1466
        new_msg_client_p2p_introducer_message
        b
unfolding new_msg_client_p2p_introducer_message read_int32 read_uint32 read_uint64
msg_client_p2p_introducer_message-Carries b h =
    convert_int _ 8 b.steam_id _ h.0
    then convert_int _ 4 b.routing_type _ h.1
    then fill_bytes _ _ b.raw_data _ h.2 (rw (h.2, length-replicate {A = ℕ} 1450 0))
    then store_int _ 4 b.data_len _ h.3

abbrev pub FitsMsgClientServerUnavailable : MsgClientServerUnavailable → Type 0
FitsMsgClientServerUnavailable b =
    (b.jobid_sent < 2 ^ 64) × (b.e_msg_sent < 2 ^ 32) × (b.e_server_type_unavailable < 2 ^ 32)

abbrev pub msg_client_server_unavailable_bytes : MsgClientServerUnavailable → List ℕ
msg_client_server_unavailable_bytes b =
    (le_bytes 8 b.jobid_sent ++ le_bytes 4 b.e_msg_sent) ++ le_bytes 4 b.e_server_type_unavailable

pub msg_client_server_unavailable-Carries :
    (b : MsgClientServerUnavailable)
    → FitsMsgClientServerUnavailable b
    → Carries
        (client_server_unavailable_body.serialize b)
        client_server_unavailable_body.deserialize
        (msg_client_server_unavailable_bytes b)
        16
        new_msg_client_server_unavailable
        b
unfolding read_int32 read_uint32 read_uint64
msg_client_server_unavailable-Carries b h =
    store_int _ 8 b.jobid_sent _ h.0
    then store_int _ 4 b.e_msg_sent _ h.1
    then store_int _ 4 b.e_server_type_unavailable _ h.2

abbrev pub FitsMsgClientMarketingMessageUpdate2 : MsgClientMarketingMessageUpdate2 → Type 0
FitsMsgClientMarketingMessageUpdate2 b =
    (b.marketing_message_update_time < 2 ^ 32) × (b.count < 2 ^ 32)

abbrev pub msg_client_marketing_message_update2_bytes : MsgClientMarketingMessageUpdate2 → List ℕ
msg_client_marketing_message_update2_bytes b =
    le_bytes 4 b.marketing_message_update_time ++ le_bytes 4 b.count

pub msg_client_marketing_message_update2-Carries :
    (b : MsgClientMarketingMessageUpdate2)
    → FitsMsgClientMarketingMessageUpdate2 b
    → Carries
        (client_marketing_message_update2_body.serialize b)
        client_marketing_message_update2_body.deserialize
        (msg_client_marketing_message_update2_bytes b)
        8
        new_msg_client_marketing_message_update2
        b
unfolding read_uint32
msg_client_marketing_message_update2-Carries b h =
    store_int _ 4 b.marketing_message_update_time _ h.0 then store_int _ 4 b.count _ h.1
