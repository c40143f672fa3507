-- ===== src/SteamLang/RoundTrip/Status.antt =====
-- What Serialize writes and Deserialize reads back: the bodies about the state of the account.
use go_steam_ws.Base.{ℕ, ◌^◌, ◌<◌, List, ◌++◌}
use go_steam_ws.Io.{le_bytes}
use go_steam_ws.Io.Carries.{Carries, bool_byte, store_int, convert_int, store_bool, ◌then◌}
use go_steam_ws.Rwu.{read_uint16, read_uint32, read_uint64, read_int32}
use go_steam_ws.SteamLang.Messages.Status.{
  MsgClientVacBanStatus, new_msg_client_vac_ban_status, client_vac_ban_status_body,
  MsgClientAppUsageEvent, new_msg_client_app_usage_event, client_app_usage_event_body,
  MsgClientEmailAddrInfo, new_msg_client_email_addr_info, client_email_addr_info_body,
  MsgClientLoggedOff, new_msg_client_logged_off, client_logged_off_body, MsgClientLogOnResponse,
  new_msg_client_log_on_response, client_log_on_response_body,
}

abbrev pub FitsMsgClientVacBanStatus : MsgClientVacBanStatus → Type 0
FitsMsgClientVacBanStatus b = b.num_bans < 2 ^ 32

abbrev pub msg_client_vac_ban_status_bytes : MsgClientVacBanStatus → List ℕ
msg_client_vac_ban_status_bytes b = le_bytes 4 b.num_bans

pub msg_client_vac_ban_status-Carries :
    (b : MsgClientVacBanStatus)
    → FitsMsgClientVacBanStatus b
    → Carries
        (client_vac_ban_status_body.serialize b)
        client_vac_ban_status_body.deserialize
        (msg_client_vac_ban_status_bytes b)
        4
        new_msg_client_vac_ban_status
        b
unfolding read_uint32
msg_client_vac_ban_status-Carries b h = store_int _ 4 b.num_bans _ h

abbrev pub FitsMsgClientAppUsageEvent : MsgClientAppUsageEvent → Type 0
FitsMsgClientAppUsageEvent b =
    (b.app_usage_event < 2 ^ 32) × (b.game_id < 2 ^ 64) × (b.offline < 2 ^ 16)

abbrev pub msg_client_app_usage_event_bytes : MsgClientAppUsageEvent → List ℕ
msg_client_app_usage_event_bytes b =
    (le_bytes 4 b.app_usage_event ++ le_bytes 8 b.game_id) ++ le_bytes 2 b.offline

pub msg_client_app_usage_event-Carries :
    (b : MsgClientAppUsageEvent)
    → FitsMsgClientAppUsageEvent b
    → Carries
        (client_app_usage_event_body.serialize b)
        client_app_usage_event_body.deserialize
        (msg_client_app_usage_event_bytes b)
        14
        new_msg_client_app_usage_event
        b
unfolding read_int32 read_uint16 read_uint64
msg_client_app_usage_event-Carries b h =
    convert_int _ 4 b.app_usage_event _ h.0
    then store_int _ 8 b.game_id _ h.1
    then store_int _ 2 b.offline _ h.2

abbrev pub FitsMsgClientEmailAddrInfo : MsgClientEmailAddrInfo → Type 0
FitsMsgClientEmailAddrInfo b =
    (b.password_strength < 2 ^ 32) × (b.flags_account_security_policy < 2 ^ 32)

abbrev pub msg_client_email_addr_info_bytes : MsgClientEmailAddrInfo → List ℕ
msg_client_email_addr_info_bytes b =
    (le_bytes 4 b.password_strength ++ le_bytes 4 b.flags_account_security_policy)
    ++ bool_byte b.validated

pub msg_client_email_addr_info-Carries :
    (b : MsgClientEmailAddrInfo)
    → FitsMsgClientEmailAddrInfo b
    → Carries
        (client_email_addr_info_body.serialize b)
        client_email_addr_info_body.deserialize
        (msg_client_email_addr_info_bytes b)
        9
        new_msg_client_email_addr_info
        b
unfolding read_uint32
msg_client_email_addr_info-Carries b h =
    store_int _ 4 b.password_strength _ h.0
    then store_int _ 4 b.flags_account_security_policy _ h.1
    then store_bool _ b.validated _

abbrev pub FitsMsgClientLoggedOff : MsgClientLoggedOff → Type 0
FitsMsgClientLoggedOff b =
    (b.result < 2 ^ 32) × (b.sec_min_reconnect_hint < 2 ^ 32) × (b.sec_max_reconnect_hint < 2 ^ 32)

abbrev pub msg_client_logged_off_bytes : MsgClientLoggedOff → List ℕ
msg_client_logged_off_bytes b =
    (le_bytes 4 b.result ++ le_bytes 4 b.sec_min_reconnect_hint)
    ++ le_bytes 4 b.sec_max_reconnect_hint

pub msg_client_logged_off-Carries :
    (b : MsgClientLoggedOff)
    → FitsMsgClientLoggedOff b
    → Carries
        (client_logged_off_body.serialize b)
        client_logged_off_body.deserialize
        (msg_client_logged_off_bytes b)
        12
        new_msg_client_logged_off
        b
unfolding read_int32
msg_client_logged_off-Carries b h =
    convert_int _ 4 b.result _ h.0
    then store_int _ 4 b.sec_min_reconnect_hint _ h.1
    then store_int _ 4 b.sec_max_reconnect_hint _ h.2

abbrev pub FitsMsgClientLogOnResponse : MsgClientLogOnResponse → Type 0
FitsMsgClientLogOnResponse b =
    (b.result < 2 ^ 32)
    × (b.out_of_game_heartbeat_rate_sec < 2 ^ 32)
    × (b.in_game_heartbeat_rate_sec < 2 ^ 32)
    × (b.client_supplied_steam_id < 2 ^ 64)
    × (b.ip_public < 2 ^ 32)
    × (b.server_real_time < 2 ^ 32)

abbrev pub msg_client_log_on_response_bytes : MsgClientLogOnResponse → List ℕ
msg_client_log_on_response_bytes b =
    ((((le_bytes 4 b.result ++ le_bytes 4 b.out_of_game_heartbeat_rate_sec)
          ++ le_bytes 4 b.in_game_heartbeat_rate_sec)
        ++ le_bytes 8 b.client_supplied_steam_id)
      ++ le_bytes 4 b.ip_public)
    ++ le_bytes 4 b.server_real_time

pub msg_client_log_on_response-Carries :
    (b : MsgClientLogOnResponse)
    → FitsMsgClientLogOnResponse b
    → Carries
        (client_log_on_response_body.serialize b)
        client_log_on_response_body.deserialize
        (msg_client_log_on_response_bytes b)
        28
        new_msg_client_log_on_response
        b
unfolding read_int32 read_uint32 read_uint64
msg_client_log_on_response-Carries b h =
    convert_int _ 4 b.result _ h.0
    then store_int _ 4 b.out_of_game_heartbeat_rate_sec _ h.1
    then store_int _ 4 b.in_game_heartbeat_rate_sec _ h.2
    then convert_int _ 8 b.client_supplied_steam_id _ h.3
    then store_int _ 4 b.ip_public _ h.4
    then store_int _ 4 b.server_real_time _ h.5
