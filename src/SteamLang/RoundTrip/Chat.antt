-- ===== src/SteamLang/RoundTrip/Chat.antt =====
-- What Serialize writes and Deserialize reads back: the bodies of chat rooms that their members send and get.
use go_steam_ws.Base.{ℕ, ◌^◌, ◌<◌, List, ◌++◌}
use go_steam_ws.Io.{le_bytes}
use go_steam_ws.Io.Carries.{Carries, bool_byte, store_int, convert_int, store_bool, ◌then◌}
use go_steam_ws.Rwu.{read_uint8, read_uint64, read_int32}
use go_steam_ws.SteamLang.Messages.Chat.{
  MsgClientJoinChat, new_msg_client_join_chat, client_join_chat_body, MsgClientChatEnter,
  new_msg_client_chat_enter, client_chat_enter_body, MsgClientChatMsg, new_msg_client_chat_msg,
  client_chat_msg_body, MsgClientChatMemberInfo, new_msg_client_chat_member_info,
  client_chat_member_info_body, MsgClientChatAction, new_msg_client_chat_action,
  client_chat_action_body, MsgClientChatActionResult, new_msg_client_chat_action_result,
  client_chat_action_result_body, MsgClientChatRoomInfo, new_msg_client_chat_room_info,
  client_chat_room_info_body,
}

abbrev pub FitsMsgClientJoinChat : MsgClientJoinChat → Type 0
FitsMsgClientJoinChat b = b.steam_id_chat < 2 ^ 64

abbrev pub msg_client_join_chat_bytes : MsgClientJoinChat → List ℕ
msg_client_join_chat_bytes b = le_bytes 8 b.steam_id_chat ++ bool_byte b.is_voice_speaker

pub msg_client_join_chat-Carries :
    (b : MsgClientJoinChat)
    → FitsMsgClientJoinChat b
    → Carries
        (client_join_chat_body.serialize b)
        client_join_chat_body.deserialize
        (msg_client_join_chat_bytes b)
        9
        new_msg_client_join_chat
        b
unfolding read_uint64
msg_client_join_chat-Carries b h =
    convert_int _ 8 b.steam_id_chat _ h then store_bool _ b.is_voice_speaker _

abbrev pub FitsMsgClientChatEnter : MsgClientChatEnter → Type 0
FitsMsgClientChatEnter b =
    (b.steam_id_chat < 2 ^ 64)
    × (b.steam_id_friend < 2 ^ 64)
    × (b.chat_room_type < 2 ^ 32)
    × (b.steam_id_owner < 2 ^ 64)
    × (b.steam_id_clan < 2 ^ 64)
    × (b.chat_flags < 2 ^ 8)
    × (b.enter_response < 2 ^ 32)
    × (b.num_members < 2 ^ 32)

abbrev pub msg_client_chat_enter_bytes : MsgClientChatEnter → List ℕ
msg_client_chat_enter_bytes b =
    ((((((le_bytes 8 b.steam_id_chat ++ le_bytes 8 b.steam_id_friend)
              ++ le_bytes 4 b.chat_room_type)
            ++ le_bytes 8 b.steam_id_owner)
          ++ le_bytes 8 b.steam_id_clan)
        ++ le_bytes 1 b.chat_flags)
      ++ le_bytes 4 b.enter_response)
    ++ le_bytes 4 b.num_members

pub msg_client_chat_enter-Carries :
    (b : MsgClientChatEnter)
    → FitsMsgClientChatEnter b
    → Carries
        (client_chat_enter_body.serialize b)
        client_chat_enter_body.deserialize
        (msg_client_chat_enter_bytes b)
        45
        new_msg_client_chat_enter
        b
unfolding read_int32 read_uint64 read_uint8
msg_client_chat_enter-Carries b h =
    convert_int _ 8 b.steam_id_chat _ h.0
    then convert_int _ 8 b.steam_id_friend _ h.1
    then convert_int _ 4 b.chat_room_type _ h.2
    then convert_int _ 8 b.steam_id_owner _ h.3
    then convert_int _ 8 b.steam_id_clan _ h.4
    then store_int _ 1 b.chat_flags _ h.5
    then convert_int _ 4 b.enter_response _ h.6
    then store_int _ 4 b.num_members _ h.7

abbrev pub FitsMsgClientChatMsg : MsgClientChatMsg → Type 0
FitsMsgClientChatMsg b =
    (b.steam_id_chatter < 2 ^ 64) × (b.steam_id_chat_room < 2 ^ 64) × (b.chat_msg_type < 2 ^ 32)

abbrev pub msg_client_chat_msg_bytes : MsgClientChatMsg → List ℕ
msg_client_chat_msg_bytes b =
    (le_bytes 8 b.steam_id_chatter ++ le_bytes 8 b.steam_id_chat_room) ++ le_bytes 4 b.chat_msg_type

pub msg_client_chat_msg-Carries :
    (b : MsgClientChatMsg)
    → FitsMsgClientChatMsg b
    → Carries
        (client_chat_msg_body.serialize b)
        client_chat_msg_body.deserialize
        (msg_client_chat_msg_bytes b)
        20
        new_msg_client_chat_msg
        b
unfolding read_int32 read_uint64
msg_client_chat_msg-Carries b h =
    convert_int _ 8 b.steam_id_chatter _ h.0
    then convert_int _ 8 b.steam_id_chat_room _ h.1
    then store_int _ 4 b.chat_msg_type _ h.2

abbrev pub FitsMsgClientChatMemberInfo : MsgClientChatMemberInfo → Type 0
FitsMsgClientChatMemberInfo b = (b.steam_id_chat < 2 ^ 64) × (b.type < 2 ^ 32)

abbrev pub msg_client_chat_member_info_bytes : MsgClientChatMemberInfo → List ℕ
msg_client_chat_member_info_bytes b = le_bytes 8 b.steam_id_chat ++ le_bytes 4 b.type

pub msg_client_chat_member_info-Carries :
    (b : MsgClientChatMemberInfo)
    → FitsMsgClientChatMemberInfo b
    → Carries
        (client_chat_member_info_body.serialize b)
        client_chat_member_info_body.deserialize
        (msg_client_chat_member_info_bytes b)
        12
        new_msg_client_chat_member_info
        b
unfolding read_int32 read_uint64
msg_client_chat_member_info-Carries b h =
    convert_int _ 8 b.steam_id_chat _ h.0 then store_int _ 4 b.type _ h.1

abbrev pub FitsMsgClientChatAction : MsgClientChatAction → Type 0
FitsMsgClientChatAction b =
    (b.steam_id_chat < 2 ^ 64) × (b.steam_id_user_to_act_on < 2 ^ 64) × (b.chat_action < 2 ^ 32)

abbrev pub msg_client_chat_action_bytes : MsgClientChatAction → List ℕ
msg_client_chat_action_bytes b =
    (le_bytes 8 b.steam_id_chat ++ le_bytes 8 b.steam_id_user_to_act_on) ++ le_bytes 4 b.chat_action

pub msg_client_chat_action-Carries :
    (b : MsgClientChatAction)
    → FitsMsgClientChatAction b
    → Carries
        (client_chat_action_body.serialize b)
        client_chat_action_body.deserialize
        (msg_client_chat_action_bytes b)
        20
        new_msg_client_chat_action
        b
unfolding read_int32 read_uint64
msg_client_chat_action-Carries b h =
    convert_int _ 8 b.steam_id_chat _ h.0
    then convert_int _ 8 b.steam_id_user_to_act_on _ h.1
    then store_int _ 4 b.chat_action _ h.2

abbrev pub FitsMsgClientChatActionResult : MsgClientChatActionResult → Type 0
FitsMsgClientChatActionResult b =
    (b.steam_id_chat < 2 ^ 64)
    × (b.steam_id_user_acted_on < 2 ^ 64)
    × (b.chat_action < 2 ^ 32)
    × (b.action_result < 2 ^ 32)

abbrev pub msg_client_chat_action_result_bytes : MsgClientChatActionResult → List ℕ
msg_client_chat_action_result_bytes b =
    ((le_bytes 8 b.steam_id_chat ++ le_bytes 8 b.steam_id_user_acted_on)
      ++ le_bytes 4 b.chat_action)
    ++ le_bytes 4 b.action_result

pub msg_client_chat_action_result-Carries :
    (b : MsgClientChatActionResult)
    → FitsMsgClientChatActionResult b
    → Carries
        (client_chat_action_result_body.serialize b)
        client_chat_action_result_body.deserialize
        (msg_client_chat_action_result_bytes b)
        24
        new_msg_client_chat_action_result
        b
unfolding read_int32 read_uint64
msg_client_chat_action_result-Carries b h =
    convert_int _ 8 b.steam_id_chat _ h.0
    then convert_int _ 8 b.steam_id_user_acted_on _ h.1
    then convert_int _ 4 b.chat_action _ h.2
    then store_int _ 4 b.action_result _ h.3

abbrev pub FitsMsgClientChatRoomInfo : MsgClientChatRoomInfo → Type 0
FitsMsgClientChatRoomInfo b = (b.steam_id_chat < 2 ^ 64) × (b.type < 2 ^ 32)

abbrev pub msg_client_chat_room_info_bytes : MsgClientChatRoomInfo → List ℕ
msg_client_chat_room_info_bytes b = le_bytes 8 b.steam_id_chat ++ le_bytes 4 b.type

pub msg_client_chat_room_info-Carries :
    (b : MsgClientChatRoomInfo)
    → FitsMsgClientChatRoomInfo b
    → Carries
        (client_chat_room_info_body.serialize b)
        client_chat_room_info_body.deserialize
        (msg_client_chat_room_info_bytes b)
        12
        new_msg_client_chat_room_info
        b
unfolding read_int32 read_uint64
msg_client_chat_room_info-Carries b h =
    convert_int _ 8 b.steam_id_chat _ h.0 then store_int _ 4 b.type _ h.1
