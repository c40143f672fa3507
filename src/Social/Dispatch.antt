-- ===== src/Social/Dispatch.antt =====
-- social.go: the handlers that only tell of a message, and HandlePacket.
use go_steam_ws.Base.{ℕ, true, false, some, List, [], ◌∷◌, ◌==◌, if◌then◌else◌}
use go_steam_ws.Io.{Outcome, returns, ◌>>=◌}
use go_steam_ws.ProtoBuf.{ProtoHeader, Codec}
use go_steam_ws.Protocol.Packet.{Packet, read_proto_msg, read_client_msg}
use go_steam_ws.Social.{Social, emit}
use go_steam_ws.Social.Clans.{handle_clan_state}
use go_steam_ws.Social.Events.{
  friend_added_event, chat_msg_event, chat_invite_event, profile_info_event,
}
use go_steam_ws.Social.Messages.{
  SocialCodecs, CMsgClientAddFriendResponse, CMsgClientFriendMsgIncoming, CMsgClientChatInvite,
  CMsgClientFriendProfileInfoResponse, FriendMessage, CMsgClientChatGetFriendMessageHistoryResponse,
}
use go_steam_ws.Social.Presence.{handle_account_info, handle_friends_list, handle_persona_state}
use go_steam_ws.Social.Rooms.{
  until_zero, handle_chat_msg, handle_chat_enter, handle_chat_member_info,
  handle_chat_action_result, handle_ignore_friend_response,
}
use go_steam_ws.SteamLang.Messages.Chat.{
  client_chat_msg_body, client_chat_enter_body, client_chat_member_info_body,
  client_chat_action_result_body, new_msg_client_chat_msg, new_msg_client_chat_enter,
  new_msg_client_chat_member_info, new_msg_client_chat_action_result,
}
use go_steam_ws.SteamLang.Messages.Friends.{
  client_set_ignore_friend_response_body, new_msg_client_set_ignore_friend_response,
}

unfoldable pub handle_friend_response : CMsgClientAddFriendResponse → Social → Social
handle_friend_response body s =
    emit
      (friend_added_event (record {
        result = body.eresult;
        steam_id = body.steam_id_added;
        persona_name = body.persona_name_added;
      }))
      s

unfoldable pub handle_friend_msg : CMsgClientFriendMsgIncoming → Social → Social
unfolding until_zero
handle_friend_msg body s =
    emit
      (chat_msg_event (record {
        chat_room_id = 0;
        chatter_id = body.steamid_from;
        message = until_zero body.message;
        entry_type = body.chat_entry_type;
        timestamp = some body.rtime32_server_timestamp;
        offline = false;
      }))
      s

unfoldable pub handle_chat_invite : CMsgClientChatInvite → Social → Social
handle_chat_invite body s =
    emit
      (chat_invite_event (record {
        invited_id = body.steam_id_invited;
        chat_room_id = body.steam_id_chat;
        patron_id = body.steam_id_patron;
        chat_room_type = body.chatroom_type;
        friend_chat_id = body.steam_id_friend_chat;
        chat_room_name = body.chat_name;
        game_id = body.game_id;
      }))
      s

unfoldable pub handle_profile_info_response : CMsgClientFriendProfileInfoResponse → Social → Social
handle_profile_info_response body s =
    emit
      (profile_info_event (record {
        result = body.eresult;
        steam_id = body.steamid_friend;
        time_created = body.time_created;
        real_name = body.real_name;
        city_name = body.city_name;
        state_name = body.state_name;
        country_name = body.country_name;
        headline = body.headline;
        summary = body.summary;
      }))
      s

-- The loop of handleFriendMessageHistoryResponse skips what was read. EChatEntryType_ChatMsg is 1.
unfoldable pub tell_history : ℕ → List FriendMessage → Social → Social
tell_history friend [] s = s
tell_history friend (m ∷ ms) s = tell_history friend ms (
    if m.unread
    then emit
        (chat_msg_event (record {
          chat_room_id = 0;
          chatter_id = friend;
          message = m.message;
          entry_type = 1;
          timestamp = some m.timestamp;
          offline = true;
        }))
        s
    else s)

unfoldable pub handle_friend_message_history_response :
    CMsgClientChatGetFriendMessageHistoryResponse → Social → Social
unfolding tell_history
handle_friend_message_history_response body s = tell_history body.steamid body.messages s

module _ (codec : Codec ProtoHeader) (bodies : SocialCodecs) where
  -- packet.ReadProtoMsg, and a handler on what it gives.
  abbrev pub on_proto :
      {M : Type 0} → Codec M → (M → Social → Social) → Packet → Social → Outcome Social
  on_proto c handler packet s =
      read_proto_msg codec c packet >>= λ msg. returns (handler msg.body s)

  unfoldable pub handle_packet : Packet → Social → Outcome Social
  unfolding handle_account_info handle_friends_list handle_persona_state handle_clan_state
      handle_chat_msg handle_chat_enter handle_chat_member_info handle_chat_action_result
      handle_ignore_friend_response handle_friend_response handle_friend_msg handle_chat_invite
      handle_profile_info_response handle_friend_message_history_response
  handle_packet packet s =
      if packet.emsg == 766
      then on_proto bodies.persona_state handle_persona_state packet s
      else if packet.emsg == 822
      then on_proto bodies.clan_state handle_clan_state packet s
      else if packet.emsg == 767
      then on_proto bodies.friends_list handle_friends_list packet s
      else if packet.emsg == 5427
      then on_proto bodies.friend_msg_incoming handle_friend_msg packet s
      else if packet.emsg == 768
      then returns (handle_account_info s)
      else if packet.emsg == 792
      then on_proto bodies.add_friend_response handle_friend_response packet s
      else if packet.emsg == 807
      then returns (
          handle_chat_enter
            (read_client_msg client_chat_enter_body packet new_msg_client_chat_enter) s)
      else if packet.emsg == 799
      then returns
          (handle_chat_msg (read_client_msg client_chat_msg_body packet new_msg_client_chat_msg) s)
      else if packet.emsg == 802
      then returns (
          handle_chat_member_info
            (read_client_msg client_chat_member_info_body packet new_msg_client_chat_member_info) s)
      else if packet.emsg == 814
      then returns (
          handle_chat_action_result
            (read_client_msg client_chat_action_result_body packet
              new_msg_client_chat_action_result)
            s)
      else if packet.emsg == 800
      then on_proto bodies.chat_invite handle_chat_invite packet s
      else if packet.emsg == 856
      then returns (
          handle_ignore_friend_response
            (read_client_msg client_set_ignore_friend_response_body packet
              new_msg_client_set_ignore_friend_response)
            s)
      else if packet.emsg == 5536
      then on_proto bodies.profile_info handle_profile_info_response packet s
      else if packet.emsg == 7526
      then on_proto bodies.message_history handle_friend_message_history_response packet s
      else returns s

  -- The packets that come in, one after the other.
  unfoldable pub handle_packets : List Packet → Social → Outcome Social
  unfolding handle_packet
  handle_packets [] s = returns s
  handle_packets (p ∷ ps) s = handle_packet p s >>= λ s1. handle_packets ps s1
