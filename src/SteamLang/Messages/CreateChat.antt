-- ===== src/SteamLang/Messages/CreateChat.antt =====
-- protocol/steamlang/messages.go: the bodies that create a chat room.
use go_steam_ws.Base.{ℕ}
use go_steam_ws.Io.{◌>>◌, write_int}
use go_steam_ws.Io.Steps.{store, convert, ◌>>>◌}
use go_steam_ws.Rwu.{read_uint8, read_uint32, read_uint64, read_int32}
use go_steam_ws.SteamLang.Bodies.{MessageBody}

pub record MsgClientCreateChat : Type 0 where
  pub chat_room_type : ℕ
  pub game_id : ℕ
  pub steam_id_clan : ℕ
  pub permission_officer : ℕ
  pub permission_member : ℕ
  pub permission_all : ℕ
  pub members_max : ℕ
  pub chat_flags : ℕ
  pub steam_id_friend_chat : ℕ
  pub steam_id_invited : ℕ

unfoldable pub new_msg_client_create_chat : MsgClientCreateChat
new_msg_client_create_chat = record {
  chat_room_type = 0;
  game_id = 0;
  steam_id_clan = 0;
  permission_officer = 0;
  permission_member = 0;
  permission_all = 0;
  members_max = 0;
  chat_flags = 0;
  steam_id_friend_chat = 0;
  steam_id_invited = 0;
}

abbrev pub client_create_chat_body : MessageBody MsgClientCreateChat
client_create_chat_body = record {
  get_emsg = λ d. 809;
  serialize = λ d.
      write_int 4 d.chat_room_type
      >> write_int 8 d.game_id
      >> write_int 8 d.steam_id_clan
      >> write_int 4 d.permission_officer
      >> write_int 4 d.permission_member
      >> write_int 4 d.permission_all
      >> write_int 4 d.members_max
      >> write_int 1 d.chat_flags
      >> write_int 8 d.steam_id_friend_chat
      >> write_int 8 d.steam_id_invited;
  deserialize =
      convert read_int32 (λ v d. record d { chat_room_type = v })
      >>> store read_uint64 (λ v d. record d { game_id = v })
      >>> convert read_uint64 (λ v d. record d { steam_id_clan = v })
      >>> convert read_int32 (λ v d. record d { permission_officer = v })
      >>> convert read_int32 (λ v d. record d { permission_member = v })
      >>> convert read_int32 (λ v d. record d { permission_all = v })
      >>> store read_uint32 (λ v d. record d { members_max = v })
      >>> store read_uint8 (λ v d. record d { chat_flags = v })
      >>> convert read_uint64 (λ v d. record d { steam_id_friend_chat = v })
      >>> convert read_uint64 (λ v d. record d { steam_id_invited = v });
}

pub record MsgClientCreateChatResponse : Type 0 where
  pub result : ℕ
  pub steam_id_chat : ℕ
  pub chat_room_type : ℕ
  pub steam_id_friend_chat : ℕ

unfoldable pub new_msg_client_create_chat_response : MsgClientCreateChatResponse
new_msg_client_create_chat_response = record {
  result = 0;
  steam_id_chat = 0;
  chat_room_type = 0;
  steam_id_friend_chat = 0;
}

abbrev pub client_create_chat_response_body : MessageBody MsgClientCreateChatResponse
client_create_chat_response_body = record {
  get_emsg = λ d. 810;
  serialize = λ d.
      write_int 4 d.result
      >> write_int 8 d.steam_id_chat
      >> write_int 4 d.chat_room_type
      >> write_int 8 d.steam_id_friend_chat;
  deserialize =
      convert read_int32 (λ v d. record d { result = v })
      >>> convert read_uint64 (λ v d. record d { steam_id_chat = v })
      >>> convert read_int32 (λ v d. record d { chat_room_type = v })
      >>> convert read_uint64 (λ v d. record d { steam_id_friend_chat = v });
}
