-- ===== src/Social/RoomMessages.antt =====
-- What the user does in a chat room, as another client reads it.
use go_steam_ws.Base.{ℕ, ◌<◌, ◌^◌, ◌≡◌, refl, none, [], ◌∷◌, ◌++◌, ◌==◌, if◌then◌else◌, arith}
use go_steam_ws.Client.{client_msg}
use go_steam_ws.Io.{le_bytes, write_int}
use go_steam_ws.Io.Laws.{read_int-le_bytes}
use go_steam_ws.Protocol.StructMsg.{ClientMsg}
use go_steam_ws.Protocol.StructMsg
use go_steam_ws.Rwu.{read_int32, read_uint64}
use go_steam_ws.Social.{Social, sends}
use go_steam_ws.Social.Messages.{social_body, chat_member_info}
use go_steam_ws.Social.Requests.{leave_chat, leave_body, leave_payload}
use go_steam_ws.Social.Rooms.{change_member, handle_state_change, handle_chat_member_info, is_gone}
use go_steam_ws.SocialCache.ChatLaws.{member_of, member_of-remove_chat_member}
use go_steam_ws.SteamLang.{ExtendedClientMsgHdr}
use go_steam_ws.SteamLang.Messages.Chat.{MsgClientChatMsg}
use go_steam_ws.SteamId.{clan_to_chat}

-- The message that SendMessage gives to the client for a room.
abbrev pub room_message : ℕ → ℕ → ℕ → MsgClientChatMsg
room_message from to entry_type = record {
  steam_id_chatter = from;
  steam_id_chat_room = clan_to_chat to;
  chat_msg_type = entry_type;
}

leave_payload_lem :
    (me : ℕ) → leave_payload me ≡ le_bytes 8 me ++ (le_bytes 4 2 ++ (le_bytes 8 me ++ []))
unfolding leave_payload write_int le_bytes
leave_payload_lem me = refl

-- Who leaves a chat room tells it by one message, and a client that handles that message has them
-- no longer among the members of that chat, with every other member of every chat as before.
pub handle_chat_member_info-leave_chat :
    (id c m : ℕ) (header : ExtendedClientMsgHdr) (s t : Social)
    → s.client_id < 2 ^ 64
    → ((leave_chat id s).output
        ≡ s.output
          ++ (sends (
                client_msg (
                  StructMsg.new social_body
                    (chat_member_info (leave_body id))
                    (leave_payload s.client_id)))
              ∷ []))
      × (member_of
            (handle_chat_member_info
              (record {
                header = header;
                body = leave_body id;
                payload = leave_payload s.client_id;
              })
              t).chats
            c
            m
          ≡ (if clan_to_chat id == c
              then if s.client_id == m then none else member_of t.chats c m
              else member_of t.chats c m))
unfolding leave_chat handle_chat_member_info handle_state_change change_member is_gone read_uint64
    read_int32
handle_chat_member_info-leave_chat id c m header s t h = (
  refl,
  rw
      (
        leave_payload_lem s.client_id,
        read_int-le_bytes 8 s.client_id _ h,
        read_int-le_bytes 4 2 _ (omega arith),
      )
      (member_of-remove_chat_member t.chats (clan_to_chat id) c m s.client_id),
)
