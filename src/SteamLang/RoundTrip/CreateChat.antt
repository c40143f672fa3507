-- ===== src/SteamLang/RoundTrip/CreateChat.antt =====
-- What Serialize writes and Deserialize reads back: the bodies that create a chat room.
use go_steam_ws.Base.{ℕ, ◌^◌, ◌<◌, List, ◌++◌}
use go_steam_ws.Io.{le_bytes}
use go_steam_ws.Io.Carries.{Carries, store_int, convert_int, ◌then◌}
use go_steam_ws.Rwu.{read_uint8, read_uint32, read_uint64, read_int32}
use go_steam_ws.SteamLang.Messages.CreateChat.{
  MsgClientCreateChat, new_msg_client_create_chat, client_create_chat_body,
  MsgClientCreateChatResponse, new_msg_client_create_chat_response,
  client_create_chat_response_body,
}

abbrev pub FitsMsgClientCreateChat : MsgClientCreateChat → Type 0
FitsMsgClientCreateChat b =
    (b.chat_room_type < 2 ^ 32)
    × (b.game_id < 2 ^ 64)
    × (b.steam_id_clan < 2 ^ 64)
    × (b.permission_officer < 2 ^ 32)
    × (b.permission_member < 2 ^ 32)
    × (b.permission_all < 2 ^ 32)
    × (b.members_max < 2 ^ 32)
    × (b.chat_flags < 2 ^ 8)
    × (b.steam_id_friend_chat < 2 ^ 64)
    × (b.steam_id_invited < 2 ^ 64)

abbrev pub msg_client_create_chat_bytes : MsgClientCreateChat → List ℕ
msg_client_create_chat_bytes b =
    ((((((((le_bytes 4 b.chat_room_type ++ le_bytes 8 b.game_id) ++ le_bytes 8 b.steam_id_clan)
                ++ le_bytes 4 b.permission_officer)
              ++ le_bytes 4 b.permission_member)
            ++ le_bytes 4 b.permission_all)
          ++ le_bytes 4 b.members_max)
        ++ le_bytes 1 b.chat_flags)
      ++ le_bytes 8 b.steam_id_friend_chat)
    ++ le_bytes 8 b.steam_id_invited

pub msg_client_create_chat-Carries :
    (b : MsgClientCreateChat)
    → FitsMsgClientCreateChat b
    → Carries
        (client_create_chat_body.serialize b)
        client_create_chat_body.deserialize
        (msg_client_create_chat_bytes b)
        53
        new_msg_client_create_chat
        b
unfolding read_int32 read_uint32 read_uint64 read_uint8
msg_client_create_chat-Carries b h =
    convert_int _ 4 b.chat_room_type _ h.0
    then store_int _ 8 b.game_id _ h.1
    then convert_int _ 8 b.steam_id_clan _ h.2
    then convert_int _ 4 b.permission_officer _ h.3
    then convert_int _ 4 b.permission_member _ h.4
    then convert_int _ 4 b.permission_all _ h.5
    then store_int _ 4 b.members_max _ h.6
    then store_int _ 1 b.chat_flags _ h.7
    then convert_int _ 8 b.steam_id_friend_chat _ h.8
    then convert_int _ 8 b.steam_id_invited _ h.9

abbrev pub FitsMsgClientCreateChatResponse : MsgClientCreateChatResponse → Type 0
FitsMsgClientCreateChatResponse b =
    (b.result < 2 ^ 32)
    × (b.steam_id_chat < 2 ^ 64)
    × (b.chat_room_type < 2 ^ 32)
    × (b.steam_id_friend_chat < 2 ^ 64)

abbrev pub msg_client_create_chat_response_bytes : MsgClientCreateChatResponse → List ℕ
msg_client_create_chat_response_bytes b =
    ((le_bytes 4 b.result ++ le_bytes 8 b.steam_id_chat) ++ le_bytes 4 b.chat_room_type)
    ++ le_bytes 8 b.steam_id_friend_chat

pub msg_client_create_chat_response-Carries :
    (b : MsgClientCreateChatResponse)
    → FitsMsgClientCreateChatResponse b
    → Carries
        (client_create_chat_response_body.serialize b)
        client_create_chat_response_body.deserialize
        (msg_client_create_chat_response_bytes b)
        24
        new_msg_client_create_chat_response
        b
unfolding read_int32 read_uint64
msg_client_create_chat_response-Carries b h =
    convert_int _ 4 b.result _ h.0
    then convert_int _ 8 b.steam_id_chat _ h.1
    then convert_int _ 4 b.chat_room_type _ h.2
    then convert_int _ 8 b.steam_id_friend_chat _ h.3
