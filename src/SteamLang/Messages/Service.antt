-- ===== src/SteamLang/Messages/Service.antt =====
-- protocol/steamlang/messages.go: the bodies that tell of passes, statistics, servers, peers and news.
use go_steam_ws.Base.{ℕ, List, replicate}
use go_steam_ws.Io.{◌>>◌, write_int, write_bytes}
use go_steam_ws.Io.Steps.{store, convert, ◌>>>◌}
use go_steam_ws.Io.Carries.{fill}
use go_steam_ws.Rwu.{read_uint32, read_uint64, read_int32}
use go_steam_ws.SteamLang.Bodies.{MessageBody}

pub record MsgClientUpdateGuestPassesList : Type 0 where
  pub result : ℕ
  pub count_guest_passes_to_give : ℕ
  pub count_guest_passes_to_redeem : ℕ

unfoldable pub new_msg_client_update_guest_passes_list : MsgClientUpdateGuestPassesList
new_msg_client_update_guest_passes_list = record {
  result = 0;
  count_guest_passes_to_give = 0;
  count_guest_passes_to_redeem = 0;
}

abbrev pub client_update_guest_passes_list_body : MessageBody MsgClientUpdateGuestPassesList
client_update_guest_passes_list_body = record {
  get_emsg = λ d. 798;
  serialize = λ d.
      write_int 4 d.result
      >> write_int 4 d.count_guest_passes_to_give
      >> write_int 4 d.count_guest_passes_to_redeem;
  deserialize =
      convert read_int32 (λ v d. record d { result = v })
      >>> store read_int32 (λ v d. record d { count_guest_passes_to_give = v })
      >>> store read_int32 (λ v d. record d { count_guest_passes_to_redeem = v });
}

pub record MsgClientRequestedClientStats : Type 0 where
  pub count_stats : ℕ

unfoldable pub new_msg_client_requested_client_stats : MsgClientRequestedClientStats
new_msg_client_requested_client_stats = record { count_stats = 0 }

abbrev pub client_requested_client_stats_body : MessageBody MsgClientRequestedClientStats
client_requested_client_stats_body = record {
  get_emsg = λ d. 5480;
  serialize = λ d. write_int 4 d.count_stats;
  deserialize = store read_int32 (λ v d. record d { count_stats = v });
}

pub record MsgClientP2pIntroducerMessage : Type 0 where
  pub steam_id : ℕ
  pub routing_type : ℕ
  pub raw_data : List ℕ
  pub data_len : ℕ

unfoldable pub new_msg_client_p2p_introducer_message : MsgClientP2pIntroducerMessage
new_msg_client_p2p_introducer_message = record {
  steam_id = 0;
  routing_type = 0;
  raw_data = replicate 1450 0;
  data_len = 0;
}

abbrev pub client_p2p_introducer_message_body : MessageBody MsgClientP2pIntroducerMessage
client_p2p_introducer_message_body = record {
  get_emsg = λ d. 813;
  serialize = λ d.
      write_int 8 d.steam_id
      >> write_int 4 d.routing_type
      >> write_bytes d.raw_data
      >> write_int 4 d.data_len;
  deserialize =
      convert read_uint64 (λ v d. record d { steam_id = v })
      >>> convert read_int32 (λ v d. record d { routing_type = v })
      >>> fill (λ d. d.raw_data) (λ v d. record d { raw_data = v })
      >>> store read_uint32 (λ v d. record d { data_len = v });
}

pub record MsgClientServerUnavailable : Type 0 where
  pub jobid_sent : ℕ
  pub e_msg_sent : ℕ
  pub e_server_type_unavailable : ℕ

unfoldable pub new_msg_client_server_unavailable : MsgClientServerUnavailable
new_msg_client_server_unavailable = record {
  jobid_sent = 0;
  e_msg_sent = 0;
  e_server_type_unavailable = 0;
}

abbrev pub client_server_unavailable_body : MessageBody MsgClientServerUnavailable
client_server_unavailable_body = record {
  get_emsg = λ d. 5500;
  serialize = λ d.
      write_int 8 d.jobid_sent
      >> write_int 4 d.e_msg_sent
      >> write_int 4 d.e_server_type_unavailable;
  deserialize =
      store read_uint64 (λ v d. record d { jobid_sent = v })
      >>> store read_uint32 (λ v d. record d { e_msg_sent = v })
      >>> store read_int32 (λ v d. record d { e_server_type_unavailable = v });
}

pub record MsgClientMarketingMessageUpdate2 : Type 0 where
  pub marketing_message_update_time : ℕ
  pub count : ℕ

unfoldable pub new_msg_client_marketing_message_update2 : MsgClientMarketingMessageUpdate2
new_msg_client_marketing_message_update2 = record { marketing_message_update_time = 0; count = 0 }

abbrev pub client_marketing_message_update2_body : MessageBody MsgClientMarketingMessageUpdate2
client_marketing_message_update2_body = record {
  get_emsg = λ d. 5510;
  serialize = λ d. write_int 4 d.marketing_message_update_time >> write_int 4 d.count;
  deserialize =
      store read_uint32 (λ v d. record d { marketing_message_update_time = v })
      >>> store read_uint32 (λ v d. record d { count = v });
}
