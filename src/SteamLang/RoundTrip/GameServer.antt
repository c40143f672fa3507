-- ===== src/SteamLang/RoundTrip/GameServer.antt =====
-- What Serialize writes and Deserialize reads back: the bodies that a game server exchanges.
use go_steam_ws.Base.{ℕ, ◌^◌, ◌<◌, List, ◌++◌}
use go_steam_ws.Io.{le_bytes}
use go_steam_ws.Io.Carries.{Carries, bool_byte, store_int, convert_int, store_bool, ◌then◌}
use go_steam_ws.Rwu.{read_uint16, read_uint32, read_uint64, read_int32}
use go_steam_ws.SteamLang.Messages.GameServer.{
  MsgGsGetPlayStatsResponse, new_msg_gs_get_play_stats_response, gs_get_play_stats_response_body,
  MsgGsGetReputationResponse, new_msg_gs_get_reputation_response, gs_get_reputation_response_body,
  MsgGsDeny, new_msg_gs_deny, gs_deny_body, MsgGsApprove, new_msg_gs_approve, gs_approve_body,
  MsgGsKick, new_msg_gs_kick, gs_kick_body, MsgGsGetUserGroupStatus,
  new_msg_gs_get_user_group_status, gs_get_user_group_status_body, MsgGsGetUserGroupStatusResponse,
  new_msg_gs_get_user_group_status_response, gs_get_user_group_status_response_body,
}

abbrev pub FitsMsgGsGetPlayStatsResponse : MsgGsGetPlayStatsResponse → Type 0
FitsMsgGsGetPlayStatsResponse b =
    (b.result < 2 ^ 32)
    × (b.rank < 2 ^ 32)
    × (b.lifetime_connects < 2 ^ 32)
    × (b.lifetime_minutes_played < 2 ^ 32)

abbrev pub msg_gs_get_play_stats_response_bytes : MsgGsGetPlayStatsResponse → List ℕ
msg_gs_get_play_stats_response_bytes b =
    ((le_bytes 4 b.result ++ le_bytes 4 b.rank) ++ le_bytes 4 b.lifetime_connects)
    ++ le_bytes 4 b.lifetime_minutes_played

pub msg_gs_get_play_stats_response-Carries :
    (b : MsgGsGetPlayStatsResponse)
    → FitsMsgGsGetPlayStatsResponse b
    → Carries
        (gs_get_play_stats_response_body.serialize b)
        gs_get_play_stats_response_body.deserialize
        (msg_gs_get_play_stats_response_bytes b)
        16
        new_msg_gs_get_play_stats_response
        b
unfolding read_int32 read_uint32
msg_gs_get_play_stats_response-Carries b h =
    convert_int _ 4 b.result _ h.0
    then store_int _ 4 b.rank _ h.1
    then store_int _ 4 b.lifetime_connects _ h.2
    then store_int _ 4 b.lifetime_minutes_played _ h.3

abbrev pub FitsMsgGsGetReputationResponse : MsgGsGetReputationResponse → Type 0
FitsMsgGsGetReputationResponse b =
    (b.result < 2 ^ 32)
    × (b.reputation_score < 2 ^ 32)
    × (b.banned_ip < 2 ^ 32)
    × (b.banned_port < 2 ^ 16)
    × (b.banned_game_id < 2 ^ 64)
    × (b.time_ban_expires < 2 ^ 32)

abbrev pub msg_gs_get_reputation_response_bytes : MsgGsGetReputationResponse → List ℕ
msg_gs_get_reputation_response_bytes b =
    (((((le_bytes 4 b.result ++ le_bytes 4 b.reputation_score) ++ bool_byte b.banned)
          ++ le_bytes 4 b.banned_ip)
        ++ le_bytes 2 b.banned_port)
      ++ le_bytes 8 b.banned_game_id)
    ++ le_bytes 4 b.time_ban_expires

pub msg_gs_get_reputation_response-Carries :
    (b : MsgGsGetReputationResponse)
    → FitsMsgGsGetReputationResponse b
    → Carries
        (gs_get_reputation_response_body.serialize b)
        gs_get_reputation_response_body.deserialize
        (msg_gs_get_reputation_response_bytes b)
        27
        new_msg_gs_get_reputation_response
        b
unfolding read_int32 read_uint16 read_uint32 read_uint64
msg_gs_get_reputation_response-Carries b h =
    convert_int _ 4 b.result _ h.0
    then store_int _ 4 b.reputation_score _ h.1
    then store_bool _ b.banned _
    then store_int _ 4 b.banned_ip _ h.2
    then store_int _ 2 b.banned_port _ h.3
    then store_int _ 8 b.banned_game_id _ h.4
    then store_int _ 4 b.time_ban_expires _ h.5

abbrev pub FitsMsgGsDeny : MsgGsDeny → Type 0
FitsMsgGsDeny b = (b.steam_id < 2 ^ 64) × (b.deny_reason < 2 ^ 32)

abbrev pub msg_gs_deny_bytes : MsgGsDeny → List ℕ
msg_gs_deny_bytes b = le_bytes 8 b.steam_id ++ le_bytes 4 b.deny_reason

pub msg_gs_deny-Carries :
    (b : MsgGsDeny)
    → FitsMsgGsDeny b
    → Carries
        (gs_deny_body.serialize b)
        gs_deny_body.deserialize
        (msg_gs_deny_bytes b)
        12
        new_msg_gs_deny
        b
unfolding read_int32 read_uint64
msg_gs_deny-Carries b h = convert_int _ 8 b.steam_id _ h.0 then store_int _ 4 b.deny_reason _ h.1

abbrev pub FitsMsgGsApprove : MsgGsApprove → Type 0
FitsMsgGsApprove b = b.steam_id < 2 ^ 64

abbrev pub msg_gs_approve_bytes : MsgGsApprove → List ℕ
msg_gs_approve_bytes b = le_bytes 8 b.steam_id

pub msg_gs_approve-Carries :
    (b : MsgGsApprove)
    → FitsMsgGsApprove b
    → Carries
        (gs_approve_body.serialize b)
        gs_approve_body.deserialize
        (msg_gs_approve_bytes b)
        8
        new_msg_gs_approve
        b
unfolding read_uint64
msg_gs_approve-Carries b h = convert_int _ 8 b.steam_id _ h

abbrev pub FitsMsgGsKick : MsgGsKick → Type 0
FitsMsgGsKick b =
    (b.steam_id < 2 ^ 64) × (b.deny_reason < 2 ^ 32) × (b.wait_til_map_change < 2 ^ 32)

abbrev pub msg_gs_kick_bytes : MsgGsKick → List ℕ
msg_gs_kick_bytes b =
    (le_bytes 8 b.steam_id ++ le_bytes 4 b.deny_reason) ++ le_bytes 4 b.wait_til_map_change

pub msg_gs_kick-Carries :
    (b : MsgGsKick)
    → FitsMsgGsKick b
    → Carries
        (gs_kick_body.serialize b)
        gs_kick_body.deserialize
        (msg_gs_kick_bytes b)
        16
        new_msg_gs_kick
        b
unfolding read_int32 read_uint64
msg_gs_kick-Carries b h =
    convert_int _ 8 b.steam_id _ h.0
    then convert_int _ 4 b.deny_reason _ h.1
    then store_int _ 4 b.wait_til_map_change _ h.2

abbrev pub FitsMsgGsGetUserGroupStatus : MsgGsGetUserGroupStatus → Type 0
FitsMsgGsGetUserGroupStatus b = (b.steam_id_user < 2 ^ 64) × (b.steam_id_group < 2 ^ 64)

abbrev pub msg_gs_get_user_group_status_bytes : MsgGsGetUserGroupStatus → List ℕ
msg_gs_get_user_group_status_bytes b = le_bytes 8 b.steam_id_user ++ le_bytes 8 b.steam_id_group

pub msg_gs_get_user_group_status-Carries :
    (b : MsgGsGetUserGroupStatus)
    → FitsMsgGsGetUserGroupStatus b
    → Carries
        (gs_get_user_group_status_body.serialize b)
        gs_get_user_group_status_body.deserialize
        (msg_gs_get_user_group_status_bytes b)
        16
        new_msg_gs_get_user_group_status
        b
unfolding read_uint64
msg_gs_get_user_group_status-Carries b h =
    convert_int _ 8 b.steam_id_user _ h.0 then convert_int _ 8 b.steam_id_group _ h.1

abbrev pub FitsMsgGsGetUserGroupStatusResponse : MsgGsGetUserGroupStatusResponse → Type 0
FitsMsgGsGetUserGroupStatusResponse b =
    (b.steam_id_user < 2 ^ 64)
    × (b.steam_id_group < 2 ^ 64)
    × (b.clan_relationship < 2 ^ 32)
    × (b.clan_rank < 2 ^ 32)

abbrev pub msg_gs_get_user_group_status_response_bytes : MsgGsGetUserGroupStatusResponse → List ℕ
msg_gs_get_user_group_status_response_bytes b =
    ((le_bytes 8 b.steam_id_user ++ le_bytes 8 b.steam_id_group) ++ le_bytes 4 b.clan_relationship)
    ++ le_bytes 4 b.clan_rank

pub msg_gs_get_user_group_status_response-Carries :
    (b : MsgGsGetUserGroupStatusResponse)
    → FitsMsgGsGetUserGroupStatusResponse b
    → Carries
        (gs_get_user_group_status_response_body.serialize b)
        gs_get_user_group_status_response_body.deserialize
        (msg_gs_get_user_group_status_response_bytes b)
        24
        new_msg_gs_get_user_group_status_response
        b
unfolding read_int32 read_uint64
msg_gs_get_user_group_status_response-Carries b h =
    convert_int _ 8 b.steam_id_user _ h.0
    then convert_int _ 8 b.steam_id_group _ h.1
    then convert_int _ 4 b.clan_relationship _ h.2
    then store_int _ 4 b.clan_rank _ h.3
