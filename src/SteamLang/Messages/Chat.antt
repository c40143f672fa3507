-- ===== src/SteamLang/Messages/Chat.antt =====
-- protocol/steamlang/messages.go: the bodies of chat rooms that their members send and get.
use go_steam_ws.Base.{ℕ, Bool, false}
use go_steam_ws.Io.{◌>>◌, write_int}
use go_steam_ws.Io.Steps.{store, convert, ◌>>>◌}
use go_steam_ws.Rwu.{read_bool, read_uint8, read_uint64, read_int32, write_bool}
use go_steam_ws.SteamLang.Bodies.{MessageBody}

pub record MsgClientJoinChat : Type 0 where
  pub steam_id_chat : ℕ
  pub is_voice_speaker : Bool

unfoldable pub new_msg_client_join_chat : MsgClientJoinChat
new_msg_client_join_chat = record { steam_id_chat = 0; is_voice_speaker = false }

abbrev pub client_join_chat_body : MessageBody MsgClientJoinChat
client_join_chat_body = record {
  get_emsg = λ d. 801;
  serialize = λ d. write_int 8 d.steam_id_chat >> write_bool d.is_voice_speaker;
  deserialize =
      convert read_uint64 (λ v d. record d { steam_id_chat = v })
      >>> store read_bool (λ v d. record d { is_voice_speaker = v });
}

pub record MsgClientChatEnter : Type 0 where
  pub steam_id_chat : ℕ
  pub steam_id_friend : ℕ
  pub chat_room_type : ℕ
  pub steam_id_owner : ℕ
  pub steam_id_clan : ℕ
  pub chat_flags : ℕ
  pub enter_response : ℕ
  pub num_members : ℕ

unfoldable pub new_msg_client_chat_enter : MsgClientChatEnter
new_msg_client_chat_enter = record {
  steam_id_chat = 0;
  steam_id_friend = 0;
  chat_room_type = 0;
  steam_id_owner = 0;
  steam_id_clan = 0;
  chat_flags = 0;
  enter_response = 0;
  num_members = 0;
}

abbrev pub client_chat_enter_body : MessageBody MsgClientChatEnter
client_chat_enter_body = record {
  get_emsg = λ d. 807;
  serialize = λ d.
      write_int 8 d.steam_id_chat
      >> write_int 8 d.steam_id_friend
      >> write_int 4 d.chat_room_type
      >> write_int 8 d.steam_id_owner
      >> write_int 8 d.steam_id_clan
      >> write_int 1 d.chat_flags
      >> write_int 4 d.enter_response
      >> write_int 4 d.num_members;
  deserialize =
      convert read_uint64 (λ v d. record d { steam_id_chat = v })
      >>> convert read_uint64 (λ v d. record d { steam_id_friend = v })
      >>> convert read_int32 (λ v d. record d { chat_room_type = v })
      >>> convert read_uint64 (λ v d. record d { steam_id_owner = v })
      >>> convert read_uint64 (λ v d. record d { steam_id_clan = v })
      >>> store read_uint8 (λ v d. record d { chat_flags = v })
      >>> convert read_int32 (λ v d. record d { enter_response = v })
      >>> store read_int32 (λ v d. record d { num_members = v });
}

pub record MsgClientChatMsg : Type 0 where
  pub steam_id_chatter : ℕ
  pub steam_id_chat_room : ℕ
  pub chat_msg_type : ℕ

unfoldable pub new_msg_client_chat_msg : MsgClientChatMsg
new_msg_client_chat_msg = record { steam_id_chatter = 0; steam_id_chat_room = 0; chat_msg_type = 0 }

abbrev pub client_chat_msg_body : MessageBody MsgClientChatMsg
client_chat_msg_body = record {
  get_emsg = λ d. 799;
  serialize = λ d.
      write_int 8 d.steam_id_chatter
      >> write_int 8 d.steam_id_chat_room
      >> write_int 4 d.chat_msg_type;
  deserialize =
      convert read_uint64 (λ v d. record d { steam_id_chatter = v })
      >>> convert read_uint64 (λ v d. record d { steam_id_chat_room = v })
      >>> store read_int32 (λ v d. record d { chat_msg_type = v });
}

pub record MsgClientChatMemberInfo : Type 0 where
  pub steam_id_chat : ℕ
  pub type : ℕ

unfoldable pub new_msg_client_chat_member_info : MsgClientChatMemberInfo
new_msg_client_chat_member_info = record { steam_id_chat = 0; type = 0 }

abbrev pub client_chat_member_info_body : MessageBody MsgClientChatMemberInfo
client_chat_member_info_body = record {
  get_emsg = λ d. 802;
  serialize = λ d. write_int 8 d.steam_id_chat >> write_int 4 d.type;
  deserialize =
      convert read_uint64 (λ v d. record d { steam_id_chat = v })
      >>> store read_int32 (λ v d. record d { type = v });
}

pub record MsgClientChatAction : Type 0 where
  pub steam_id_chat : ℕ
  pub steam_id_user_to_act_on : ℕ
  pub chat_action : ℕ

unfoldable pub new_msg_client_chat_action : MsgClientChatAction
new_msg_client_chat_action = record {
  steam_id_chat = 0;
  steam_id_user_to_act_on = 0;
  chat_action = 0;
}

abbrev pub client_chat_action_body : MessageBody MsgClientChatAction
client_chat_action_body = record {
  get_emsg = λ d. 597;
  serialize = λ d.
      write_int 8 d.steam_id_chat
      >> write_int 8 d.steam_id_user_to_act_on
      >> write_int 4 d.chat_action;
  deserialize =
      convert read_uint64 (λ v d. record d { steam_id_chat = v })
      >>> convert read_uint64 (λ v d. record d { steam_id_user_to_act_on = v })
      >>> store read_int32 (λ v d. record d { chat_action = v });
}

pub record MsgClientChatActionResult : Type 0 where
  pub steam_id_chat : ℕ
  pub steam_id_user_acted_on : ℕ
  pub chat_action : ℕ
  pub action_result : ℕ

unfoldable pub new_msg_client_chat_action_result : MsgClientChatActionResult
new_msg_client_chat_action_result = record {
  steam_id_chat = 0;
  steam_id_user_acted_on = 0;
  chat_action = 0;
  action_result = 0;
}

abbrev pub client_chat_action_result_body : MessageBody MsgClientChatActionResult
client_chat_action_result_body = record {
  get_emsg = λ d. 814;
  serialize = λ d.
      write_int 8 d.steam_id_chat
      >> write_int 8 d.steam_id_user_acted_on
      >> write_int 4 d.chat_action
      >> write_int 4 d.action_result;
  deserialize =
      convert read_uint64 (λ v d. record d { steam_id_chat = v })
      >>> convert read_uint64 (λ v d. record d { steam_id_user_acted_on = v })
      >>> convert read_int32 (λ v d. record d { chat_action = v })
      >>> store read_int32 (λ v d. record d { action_result = v });
}

pub record MsgClientChatRoomInfo : Type 0 where
  pub steam_id_chat : ℕ
  pub type : ℕ

unfoldable pub new_msg_client_chat_room_info : MsgClientChatRoomInfo
new_msg_client_chat_room_info = record { steam_id_chat = 0; type = 0 }

abbrev pub client_chat_room_info_body : MessageBody MsgClientChatRoomInfo
client_chat_room_info_body = record {
  get_emsg = λ d. 4026;
  serialize = λ d. write_int 8 d.steam_id_chat >> write_int 4 d.type;
  deserialize =
      convert read_uint64 (λ v d. record d { steam_id_chat = v })
      >>> store read_int32 (λ v d. record d { type = v });
}
