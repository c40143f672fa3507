-- ===== src/Social/Requests.antt =====
-- social.go: what the user of the client calls.
use go_steam_ws.Base.{ℕ, Bool, ◌||◌, none, some, List, [], ◌∷◌, ◌==◌, if◌then◌else◌}
use go_steam_ws.Io.{◌>>◌, write_int}
use go_steam_ws.Social.{Social, send_proto, send_struct}
use go_steam_ws.Social.Messages.{
  change_status, friend_msg, add_friend, remove_friend, request_friend_data, friend_profile_info,
  offline_messages, chat_msg, set_ignore_friend, join_chat, chat_member_info, chat_action,
}
use go_steam_ws.SteamLang.Messages.Chat.{MsgClientChatMemberInfo}
use go_steam_ws.SteamId.{get_account_type, clan_to_chat}

unfoldable pub set_persona_name : List ℕ → Social → Social
set_persona_name name s =
    send_proto 716 (change_status s.persona_state (some name)) (record s { name = name })

unfoldable pub set_persona_state : ℕ → Social → Social
set_persona_state state s =
    send_proto 716 (change_status state none) (record s { persona_state = state })

-- EAccountType_Individual and _ConsoleUser; EAccountType_Clan and _Chat.
unfoldable pub is_person : ℕ → Bool
is_person to = get_account_type to == 1 || get_account_type to == 9

unfoldable pub is_room : ℕ → Bool
is_room to = get_account_type to == 7 || get_account_type to == 8

unfoldable pub send_message : ℕ → ℕ → List ℕ → Social → Social
unfolding is_person is_room
send_message to entry_type message s =
    if is_person to
    then send_proto 718 (friend_msg to entry_type message) s
    else if is_room to
    then send_struct
        (chat_msg (record {
          steam_id_chatter = s.client_id;
          steam_id_chat_room = clan_to_chat to;
          chat_msg_type = entry_type;
        }))
        message s
    else s

unfoldable pub request_add_friend : ℕ → Social → Social
request_add_friend id s = send_proto 791 (add_friend id) s

unfoldable pub request_remove_friend : ℕ → Social → Social
request_remove_friend id s = send_proto 714 (remove_friend id) s

unfoldable pub ignore_friend : ℕ → Bool → Social → Social
ignore_friend id set_ignore s =
    send_struct
      (set_ignore_friend (record {
        my_steam_id = s.client_id;
        steam_id_friend = id;
        ignore = if set_ignore then 1 else 0;
      }))
      [] s

unfoldable pub request_friend_list_info : List ℕ → ℕ → Social → Social
request_friend_list_info ids requested s = send_proto 815 (request_friend_data requested ids) s

unfoldable pub request_friend_info : ℕ → ℕ → Social → Social
unfolding request_friend_list_info
request_friend_info id requested s = request_friend_list_info (id ∷ []) requested s

unfoldable pub request_profile_info : ℕ → Social → Social
request_profile_info id s = send_proto 5535 (friend_profile_info id) s

unfoldable pub request_offline_messages : Social → Social
request_offline_messages s = send_proto 7527 offline_messages s

unfoldable pub request_join_chat : ℕ → Social → Social
request_join_chat id s =
    send_struct
      (join_chat (record { steam_id_chat = clan_to_chat id; is_voice_speaker = Bool.false })) [] s

-- The payload of LeaveChat: who left, EChatMemberStateChange_Left, and who made them.
unfoldable pub leave_payload : ℕ → List ℕ
leave_payload id = ((write_int 8 id >> write_int 4 2 >> write_int 8 id) []).1

abbrev pub leave_body : ℕ → MsgClientChatMemberInfo
leave_body id = record { steam_id_chat = clan_to_chat id; type = 1 }

unfoldable pub leave_chat : ℕ → Social → Social
leave_chat id s = send_struct (chat_member_info (leave_body id)) (leave_payload s.client_id) s

-- The chat actions: 2 kicks, 3 bans and 4 unbans.
abbrev act_on_member : ℕ → ℕ → ℕ → Social → Social
act_on_member action room user s =
    send_struct
      (chat_action (record {
        steam_id_chat = clan_to_chat room;
        steam_id_user_to_act_on = user;
        chat_action = action;
      }))
      [] s

unfoldable pub kick_chat_member : ℕ → ℕ → Social → Social
kick_chat_member room user s = act_on_member 2 room user s

unfoldable pub ban_chat_member : ℕ → ℕ → Social → Social
ban_chat_member room user s = act_on_member 3 room user s

unfoldable pub unban_chat_member : ℕ → ℕ → Social → Social
unban_chat_member room user s = act_on_member 4 room user s
