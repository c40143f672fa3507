-- ===== src/Social/Rooms.antt =====
-- social.go: the handlers for the chat rooms, on the message that ReadClientMsg gave. The errors of
-- the reads of package rwu are dropped, as in the code.
use go_steam_ws.Base.{
  ℕ, zero, suc, Bool, false, ◌||◌, none, List, [], ◌∷◌, ◌==◌, ltb, if◌then◌else◌, ◌^◌,
}
use go_steam_ws.Io.{Reader, read_full}
use go_steam_ws.Protocol.StructMsg.{ClientMsg}
use go_steam_ws.Rwu.{read_byte, read_string, read_int32, read_uint64}
use go_steam_ws.Social.{Social, emit}
use go_steam_ws.Social.Events.{
  chat_msg_event, chat_enter_event, chat_member_info_event, chat_action_result_event,
  ignore_friend_event,
}
use go_steam_ws.SocialCache.Chats
use go_steam_ws.SocialCache.Chats.{ChatMember, ChatsList}
use go_steam_ws.SteamLang.Messages.Chat.{
  MsgClientChatMsg, MsgClientChatEnter, MsgClientChatMemberInfo, MsgClientChatActionResult,
}
use go_steam_ws.SteamLang.Messages.Friends.{MsgClientSetIgnoreFriendResponse}

-- string(bytes.Split(bs, []byte{0x0})[0])
unfoldable pub until_zero : List ℕ → List ℕ
until_zero [] = []
until_zero (b ∷ bs) = if b == 0 then [] else b ∷ until_zero bs

unfoldable pub handle_chat_msg : ClientMsg MsgClientChatMsg → Social → Social
unfolding until_zero
handle_chat_msg msg s =
    emit
      (chat_msg_event (record {
        chat_room_id = msg.body.steam_id_chat_room;
        chatter_id = msg.body.steam_id_chatter;
        message = until_zero msg.payload;
        entry_type = msg.body.chat_msg_type;
        timestamp = none;
        offline = false;
      }))
      s

-- readChatMember: the member, and what the reader has left.
unfoldable pub read_chat_member : Reader → ChatMember × Reader
read_chat_member r =
    let (object, e1, r1) = read_string r in
    let (seven, e2, r2) = read_byte r1 in
    let (steam_id, e3, r3) = read_string r2 in
    let (id, e4, r4) = read_uint64 r3 in
    let (two, e5, r5) = read_byte r4 in
    let (permissions, e6, r6) = read_string r5 in
    let (chat, e7, r7) = read_int32 r6 in
    let (two_again, e8, r8) = read_byte r7 in
    let (details, e9, r9) = read_string r8 in
    let (clan, e10, r10) = read_int32 r9 in
    (record { steam_id = id; chat_permissions = chat; clan_permissions = clan }, r10)

-- The loop of handleChatEnter: a member, then rwu.ReadBytes(reader, 6).
unfoldable pub enter_members : ℕ → ℕ → Reader → ChatsList → ChatsList
enter_members zero id r list = list
enter_members (suc n) id r list =
    let (member, r1) = read_chat_member r in
    let (e, unknown, r2) = read_full 6 r1 in
    enter_members n id r2 (Chats.add_chat_member list id member)

-- How often `i < int(count)` lets the loop run: a negative count, not at all.
unfoldable pub rounds : ℕ → ℕ
rounds count = if ltb count (2 ^ 31) then count else 0

unfoldable pub handle_chat_enter : ClientMsg MsgClientChatEnter → Social → Social
unfolding enter_members rounds
handle_chat_enter msg s =
    let b = msg.body in
    let (name, e, r1) = read_string msg.payload in
    let (zero_byte, e', r2) = read_byte r1 in
    let list =
      Chats.add s.chats
        (record { steam_id = b.steam_id_chat; group_id = b.steam_id_clan; chat_members = none }) in
    emit
      (chat_enter_event (record {
        chat_room_id = b.steam_id_chat;
        friend_id = b.steam_id_friend;
        chat_room_type = b.chat_room_type;
        owner_id = b.steam_id_owner;
        clan_id = b.steam_id_clan;
        chat_flags = b.chat_flags;
        enter_response = b.enter_response;
        name = name;
      }))
      (record s { chats = enter_members (rounds b.num_members) b.steam_id_chat r2 list })

-- EChatMemberStateChange: 1 entered, 2 left, 4 disconnected, 8 kicked, 16 banned.
unfoldable pub is_gone : ℕ → Bool
is_gone change = change == 16 || change == 8 || change == 4 || change == 2

-- What the state change does to the chat; `r` is what the payload has left.
unfoldable pub change_member : ℕ → ℕ → ℕ → Reader → ChatsList → ChatsList
unfolding read_chat_member is_gone
change_member chat change acted_on r list =
    if change == 1
    then (let (member, r1) = read_chat_member r in
        Chats.add_chat_member list chat (record member { steam_id = acted_on }))
    else if is_gone change
    then Chats.remove_chat_member list chat acted_on
    else list

unfoldable pub handle_state_change : ClientMsg MsgClientChatMemberInfo → Social → Social
unfolding change_member
handle_state_change msg s =
    let (acted_on, e1, r1) = read_uint64 msg.payload in
    let (change, e2, r2) = read_int32 r1 in
    let (acted_by, e3, r3) = read_uint64 r2 in
    let (zero_byte, e4, r4) = read_byte r3 in
    emit
      (chat_member_info_event (record {
        chat_room_id = msg.body.steam_id_chat;
        type = msg.body.type;
        state_change_info = record {
          chatter_acted_on = acted_on;
          state_change = change;
          chatter_acted_by = acted_by;
        };
      }))
      (record s { chats = change_member msg.body.steam_id_chat change acted_on r4 s.chats })

-- EChatInfoType_StateChange is 1.
unfoldable pub handle_chat_member_info : ClientMsg MsgClientChatMemberInfo → Social → Social
unfolding handle_state_change
handle_chat_member_info msg s = if msg.body.type == 1 then handle_state_change msg s else s

unfoldable pub handle_chat_action_result : ClientMsg MsgClientChatActionResult → Social → Social
handle_chat_action_result msg s =
    emit
      (chat_action_result_event (record {
        chat_room_id = msg.body.steam_id_chat;
        chatter_id = msg.body.steam_id_user_acted_on;
        action = msg.body.chat_action;
        result = msg.body.action_result;
      }))
      s

unfoldable pub handle_ignore_friend_response :
    ClientMsg MsgClientSetIgnoreFriendResponse → Social → Social
handle_ignore_friend_response msg s =
    emit (ignore_friend_event (record { result = msg.body.result })) s
