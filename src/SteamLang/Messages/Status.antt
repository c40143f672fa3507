-- ===== src/SteamLang/Messages/Status.antt =====
-- protocol/steamlang/messages.go: the bodies about the state of the account.
use go_steam_ws.Base.{ℕ, Bool, false}
use go_steam_ws.Io.{◌>>◌, write_int}
use go_steam_ws.Io.Steps.{store, convert, ◌>>>◌}
use go_steam_ws.Rwu.{read_bool, read_uint16, read_uint32, read_uint64, read_int32, write_bool}
use go_steam_ws.SteamLang.Bodies.{MessageBody}

pub record MsgClientVacBanStatus : Type 0 where
  pub num_bans : ℕ

unfoldable pub new_msg_client_vac_ban_status : MsgClientVacBanStatus
new_msg_client_vac_ban_status = record { num_bans = 0 }

abbrev pub client_vac_ban_status_body : MessageBody MsgClientVacBanStatus
client_vac_ban_status_body = record {
  get_emsg = λ d. 782;
  serialize = λ d. write_int 4 d.num_bans;
  deserialize = store read_uint32 (λ v d. record d { num_bans = v });
}

pub record MsgClientAppUsageEvent : Type 0 where
  pub app_usage_event : ℕ
  pub game_id : ℕ
  pub offline : ℕ

unfoldable pub new_msg_client_app_usage_event : MsgClientAppUsageEvent
new_msg_client_app_usage_event = record { app_usage_event = 0; game_id = 0; offline = 0 }

abbrev pub client_app_usage_event_body : MessageBody MsgClientAppUsageEvent
client_app_usage_event_body = record {
  get_emsg = λ d. 747;
  serialize = λ d. write_int 4 d.app_usage_event >> write_int 8 d.game_id >> write_int 2 d.offline;
  deserialize =
      convert read_int32 (λ v d. record d { app_usage_event = v })
      >>> store read_uint64 (λ v d. record d { game_id = v })
      >>> store read_uint16 (λ v d. record d { offline = v });
}

pub record MsgClientEmailAddrInfo : Type 0 where
  pub password_strength : ℕ
  pub flags_account_security_policy : ℕ
  pub validated : Bool

unfoldable pub new_msg_client_email_addr_info : MsgClientEmailAddrInfo
new_msg_client_email_addr_info = record {
  password_strength = 0;
  flags_account_security_policy = 0;
  validated = false;
}

abbrev pub client_email_addr_info_body : MessageBody MsgClientEmailAddrInfo
client_email_addr_info_body = record {
  get_emsg = λ d. 5456;
  serialize = λ d.
      write_int 4 d.password_strength
      >> write_int 4 d.flags_account_security_policy
      >> write_bool d.validated;
  deserialize =
      store read_uint32 (λ v d. record d { password_strength = v })
      >>> store read_uint32 (λ v d. record d { flags_account_security_policy = v })
      >>> store read_bool (λ v d. record d { validated = v });
}

pub record MsgClientLoggedOff : Type 0 where
  pub result : ℕ
  pub sec_min_reconnect_hint : ℕ
  pub sec_max_reconnect_hint : ℕ

unfoldable pub new_msg_client_logged_off : MsgClientLoggedOff
new_msg_client_logged_off = record {
  result = 0;
  sec_min_reconnect_hint = 0;
  sec_max_reconnect_hint = 0;
}

abbrev pub client_logged_off_body : MessageBody MsgClientLoggedOff
client_logged_off_body = record {
  get_emsg = λ d. 757;
  serialize = λ d.
      write_int 4 d.result
      >> write_int 4 d.sec_min_reconnect_hint
      >> write_int 4 d.sec_max_reconnect_hint;
  deserialize =
      convert read_int32 (λ v d. record d { result = v })
      >>> store read_int32 (λ v d. record d { sec_min_reconnect_hint = v })
      >>> store read_int32 (λ v d. record d { sec_max_reconnect_hint = v });
}

pub record MsgClientLogOnResponse : Type 0 where
  pub result : ℕ
  pub out_of_game_heartbeat_rate_sec : ℕ
  pub in_game_heartbeat_rate_sec : ℕ
  pub client_supplied_steam_id : ℕ
  pub ip_public : ℕ
  pub server_real_time : ℕ

unfoldable pub new_msg_client_log_on_response : MsgClientLogOnResponse
new_msg_client_log_on_response = record {
  result = 0;
  out_of_game_heartbeat_rate_sec = 0;
  in_game_heartbeat_rate_sec = 0;
  client_supplied_steam_id = 0;
  ip_public = 0;
  server_real_time = 0;
}

abbrev pub client_log_on_response_body : MessageBody MsgClientLogOnResponse
client_log_on_response_body = record {
  get_emsg = λ d. 751;
  serialize = λ d.
      write_int 4 d.result
      >> write_int 4 d.out_of_game_heartbeat_rate_sec
      >> write_int 4 d.in_game_heartbeat_rate_sec
      >> write_int 8 d.client_supplied_steam_id
      >> write_int 4 d.ip_public
      >> write_int 4 d.server_real_time;
  deserialize =
      convert read_int32 (λ v d. record d { result = v })
      >>> store read_int32 (λ v d. record d { out_of_game_heartbeat_rate_sec = v })
      >>> store read_int32 (λ v d. record d { in_game_heartbeat_rate_sec = v })
      >>> convert read_uint64 (λ v d. record d { client_supplied_steam_id = v })
      >>> store read_uint32 (λ v d. record d { ip_public = v })
      >>> store read_uint32 (λ v d. record d { server_real_time = v });
}
