-- ===== src/SteamLang/Messages/GameServer.antt =====
-- protocol/steamlang/messages.go: the bodies that a game server exchanges.
use go_steam_ws.Base.{ℕ, Bool, false}
use go_steam_ws.Io.{◌>>◌, write_int}
use go_steam_ws.Io.Steps.{store, convert, ◌>>>◌}
use go_steam_ws.Rwu.{read_bool, read_uint16, read_uint32, read_uint64, read_int32, write_bool}
use go_steam_ws.SteamLang.Bodies.{MessageBody}

pub record MsgGsGetPlayStatsResponse : Type 0 where
  pub result : ℕ
  pub rank : ℕ
  pub lifetime_connects : ℕ
  pub lifetime_minutes_played : ℕ

unfoldable pub new_msg_gs_get_play_stats_response : MsgGsGetPlayStatsResponse
new_msg_gs_get_play_stats_response = record {
  result = 0;
  rank = 0;
  lifetime_connects = 0;
  lifetime_minutes_played = 0;
}

abbrev pub gs_get_play_stats_response_body : MessageBody MsgGsGetPlayStatsResponse
gs_get_play_stats_response_body = record {
  get_emsg = λ d. 919;
  serialize = λ d.
      write_int 4 d.result
      >> write_int 4 d.rank
      >> write_int 4 d.lifetime_connects
      >> write_int 4 d.lifetime_minutes_played;
  deserialize =
      convert read_int32 (λ v d. record d { result = v })
      >>> store read_int32 (λ v d. record d { rank = v })
      >>> store read_uint32 (λ v d. record d { lifetime_connects = v })
      >>> store read_uint32 (λ v d. record d { lifetime_minutes_played = v });
}

pub record MsgGsGetReputationResponse : Type 0 where
  pub result : ℕ
  pub reputation_score : ℕ
  pub banned : Bool
  pub banned_ip : ℕ
  pub banned_port : ℕ
  pub banned_game_id : ℕ
  pub time_ban_expires : ℕ

unfoldable pub new_msg_gs_get_reputation_response : MsgGsGetReputationResponse
new_msg_gs_get_reputation_response = record {
  result = 0;
  reputation_score = 0;
  banned = false;
  banned_ip = 0;
  banned_port = 0;
  banned_game_id = 0;
  time_ban_expires = 0;
}

abbrev pub gs_get_reputation_response_body : MessageBody MsgGsGetReputationResponse
gs_get_reputation_response_body = record {
  get_emsg = λ d. 937;
  serialize = λ d.
      write_int 4 d.result
      >> write_int 4 d.reputation_score
      >> write_bool d.banned
      >> write_int 4 d.banned_ip
      >> write_int 2 d.banned_port
      >> write_int 8 d.banned_game_id
      >> write_int 4 d.time_ban_expires;
  deserialize =
      convert read_int32 (λ v d. record d { result = v })
      >>> store read_uint32 (λ v d. record d { reputation_score = v })
      >>> store read_bool (λ v d. record d { banned = v })
      >>> store read_uint32 (λ v d. record d { banned_ip = v })
      >>> store read_uint16 (λ v d. record d { banned_port = v })
      >>> store read_uint64 (λ v d. record d { banned_game_id = v })
      >>> store read_uint32 (λ v d. record d { time_ban_expires = v });
}

pub record MsgGsDeny : Type 0 where
  pub steam_id : ℕ
  pub deny_reason : ℕ

unfoldable pub new_msg_gs_deny : MsgGsDeny
new_msg_gs_deny = record { steam_id = 0; deny_reason = 0 }

abbrev pub gs_deny_body : MessageBody MsgGsDeny
gs_deny_body = record {
  get_emsg = λ d. 759;
  serialize = λ d. write_int 8 d.steam_id >> write_int 4 d.deny_reason;
  deserialize =
      convert read_uint64 (λ v d. record d { steam_id = v })
      >>> store read_int32 (λ v d. record d { deny_reason = v });
}

pub record MsgGsApprove : Type 0 where
  pub steam_id : ℕ

unfoldable pub new_msg_gs_approve : MsgGsApprove
new_msg_gs_approve = record { steam_id = 0 }

abbrev pub gs_approve_body : MessageBody MsgGsApprove
gs_approve_body = record {
  get_emsg = λ d. 758;
  serialize = λ d. write_int 8 d.steam_id;
  deserialize = convert read_uint64 (λ v d. record d { steam_id = v });
}

pub record MsgGsKick : Type 0 where
  pub steam_id : ℕ
  pub deny_reason : ℕ
  pub wait_til_map_change : ℕ

unfoldable pub new_msg_gs_kick : MsgGsKick
new_msg_gs_kick = record { steam_id = 0; deny_reason = 0; wait_til_map_change = 0 }

abbrev pub gs_kick_body : MessageBody MsgGsKick
gs_kick_body = record {
  get_emsg = λ d. 760;
  serialize =
      λ d. write_int 8 d.steam_id >> write_int 4 d.deny_reason >> write_int 4 d.wait_til_map_change;
  deserialize =
      convert read_uint64 (λ v d. record d { steam_id = v })
      >>> convert read_int32 (λ v d. record d { deny_reason = v })
      >>> store read_int32 (λ v d. record d { wait_til_map_change = v });
}

pub record MsgGsGetUserGroupStatus : Type 0 where
  pub steam_id_user : ℕ
  pub steam_id_group : ℕ

unfoldable pub new_msg_gs_get_user_group_status : MsgGsGetUserGroupStatus
new_msg_gs_get_user_group_status = record { steam_id_user = 0; steam_id_group = 0 }

abbrev pub gs_get_user_group_status_body : MessageBody MsgGsGetUserGroupStatus
gs_get_user_group_status_body = record {
  get_emsg = λ d. 920;
  serialize = λ d. write_int 8 d.steam_id_user >> write_int 8 d.steam_id_group;
  deserialize =
      convert read_uint64 (λ v d. record d { steam_id_user = v })
      >>> convert read_uint64 (λ v d. record d { steam_id_group = v });
}

pub record MsgGsGetUserGroupStatusResponse : Type 0 where
  pub steam_id_user : ℕ
  pub steam_id_group : ℕ
  pub clan_relationship : ℕ
  pub clan_rank : ℕ

unfoldable pub new_msg_gs_get_user_group_status_response : MsgGsGetUserGroupStatusResponse
new_msg_gs_get_user_group_status_response = record {
  steam_id_user = 0;
  steam_id_group = 0;
  clan_relationship = 0;
  clan_rank = 0;
}

abbrev pub gs_get_user_group_status_response_body : MessageBody MsgGsGetUserGroupStatusResponse
gs_get_user_group_status_response_body = record {
  get_emsg = λ d. 923;
  serialize = λ d.
      write_int 8 d.steam_id_user
      >> write_int 8 d.steam_id_group
      >> write_int 4 d.clan_relationship
      >> write_int 4 d.clan_rank;
  deserialize =
      convert read_uint64 (λ v d. record d { steam_id_user = v })
      >>> convert read_uint64 (λ v d. record d { steam_id_group = v })
      >>> convert read_int32 (λ v d. record d { clan_relationship = v })
      >>> store read_int32 (λ v d. record d { clan_rank = v });
}
