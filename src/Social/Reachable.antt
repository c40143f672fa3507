-- ===== src/Social/Reachable.antt =====
-- The lists of the social part stay well formed whatever packets come in.
use go_steam_ws.Base.{ℕ, List, [], ◌∷◌, ◌==◌}
use go_steam_ws.Io.{Outcome, returns, panics, ◌>>=◌}
use go_steam_ws.ProtoBuf.{ProtoHeader, Codec}
use go_steam_ws.Protocol.Packet.{Packet, read_proto_msg, read_client_msg}
use go_steam_ws.Protocol.ProtoMsg.{ClientMsgProtobuf}
use go_steam_ws.Social.{Output, Social, new_social}
use go_steam_ws.Social.Caches.{
  IsSocial, either, handle_friends_list-IsSocial, persona_entries-IsSocial,
}
use go_steam_ws.Social.Clans.{handle_clan_state}
use go_steam_ws.Social.Dispatch.{
  on_proto, handle_friend_response, handle_friend_msg, handle_chat_invite,
  handle_profile_info_response, handle_friend_message_history_response, handle_packet,
  handle_packets,
}
use go_steam_ws.Social.Messages.{SocialCodecs}
use go_steam_ws.Social.Presence.{handle_friends_list, handle_persona_state, handle_account_info}
use go_steam_ws.Social.Requests.{request_friend_list_info, request_friend_info}
use go_steam_ws.Social.RoomCaches.{
  handle_clan_state-IsSocial, handle_chat_enter-IsSocial, handle_chat_member_info-IsSocial,
  tell_history-IsSocial,
}
use go_steam_ws.Social.Rooms.{
  handle_chat_msg, handle_chat_action_result, handle_ignore_friend_response,
}
use go_steam_ws.SteamLang.Messages.Chat.{
  client_chat_enter_body, new_msg_client_chat_enter, client_chat_member_info_body,
  new_msg_client_chat_member_info,
}
use go_steam_ws.SocialCache.Chats.{new_chats_list}
use go_steam_ws.SocialCache.Friends.{new_friends_list}
use go_steam_ws.SocialCache.Groups.{new_groups_list}

-- What holds of the value of a call that returns.
abbrev pub OnReturn : (Social → Type 0) → Outcome Social → Type 0
OnReturn P (returns s) = P s
OnReturn P panics = Unit {0}

quiet : (s : Social) (o : List Output) → IsSocial s → IsSocial (record s { output = o })
quiet s o h = record { friends = h.friends; groups = h.groups; chats = h.chats }

module _ (codec : Codec ProtoHeader) (bodies : SocialCodecs) where
  after_read :
      {M : Type 0} (o : Outcome (ClientMsgProtobuf M)) (handler : M → Social → Social) (s : Social)
      → ((body : M) → IsSocial (handler body s))
      → OnReturn IsSocial (o >>= λ msg. returns (handler msg.body s))
  after_read (returns msg) handler s h = h msg.body
  after_read panics handler s h = tt

  on_proto-IsSocial :
      {M : Type 0} (c : Codec M) (handler : M → Social → Social) (packet : Packet) (s : Social)
      → ((body : M) → IsSocial (handler body s))
      → OnReturn IsSocial (on_proto codec bodies c handler packet s)
  on_proto-IsSocial c handler packet s h = after_read (read_proto_msg codec c packet) handler s h

  handle_packet-IsSocial :
      (packet : Packet) (s : Social)
      → IsSocial s
      → OnReturn IsSocial (handle_packet codec bodies packet s)
  unfolding handle_packet handle_persona_state handle_friend_msg handle_account_info
      handle_friend_response handle_chat_msg handle_chat_action_result handle_chat_invite
      handle_ignore_friend_response handle_profile_info_response
      handle_friend_message_history_response request_friend_info request_friend_list_info
  handle_packet-IsSocial packet s h =
      either (OnReturn IsSocial) (packet.emsg == 766) _ _
        (on_proto-IsSocial bodies.persona_state handle_persona_state packet s
          (λ m. persona_entries-IsSocial m.status_flags m.friends s h))
        (either (OnReturn IsSocial) (packet.emsg == 822) _ _
          (on_proto-IsSocial bodies.clan_state handle_clan_state packet s
            (λ m. handle_clan_state-IsSocial m s h))
          (either (OnReturn IsSocial) (packet.emsg == 767) _ _
            (on_proto-IsSocial bodies.friends_list handle_friends_list packet s
              (λ m. handle_friends_list-IsSocial m s h))
            (either (OnReturn IsSocial) (packet.emsg == 5427) _ _
              (on_proto-IsSocial bodies.friend_msg_incoming handle_friend_msg packet s
                (λ m. quiet s _ h))
              (either (OnReturn IsSocial) (packet.emsg == 768) _ _ (quiet s _ h) (
                either (OnReturn IsSocial) (packet.emsg == 792) _ _
                  (on_proto-IsSocial bodies.add_friend_response handle_friend_response packet s
                    (λ m. quiet s _ h))
                  (either (OnReturn IsSocial) (packet.emsg == 807) _ _
                    (handle_chat_enter-IsSocial
                      (read_client_msg client_chat_enter_body packet new_msg_client_chat_enter) s h)
                    (either (OnReturn IsSocial) (packet.emsg == 799) _ _ (quiet s _ h) (
                      either (OnReturn IsSocial) (packet.emsg == 802) _ _
                        (handle_chat_member_info-IsSocial
                          (read_client_msg client_chat_member_info_body packet
                            new_msg_client_chat_member_info)
                          s h)
                        (either (OnReturn IsSocial) (packet.emsg == 814) _ _ (quiet s _ h) (
                          either (OnReturn IsSocial) (packet.emsg == 800) _ _
                            (on_proto-IsSocial bodies.chat_invite handle_chat_invite packet s
                              (λ m. quiet s _ h))
                            (either (OnReturn IsSocial) (packet.emsg == 856) _ _ (quiet s _ h) (
                              either (OnReturn IsSocial) (packet.emsg == 5536) _ _
                                (on_proto-IsSocial bodies.profile_info handle_profile_info_response
                                  packet s (λ m. quiet s _ h))
                                (either (OnReturn IsSocial) (packet.emsg == 7526) _ _
                                  (on_proto-IsSocial bodies.message_history
                                    handle_friend_message_history_response packet s
                                    (λ m. tell_history-IsSocial m.steamid m.messages s h))
                                  h)))))))))))))

  handle_packets_after :
      (ps : List Packet) (o : Outcome Social)
      → OnReturn IsSocial o
      → ((s : Social) → IsSocial s → OnReturn IsSocial (handle_packets codec bodies ps s))
      → OnReturn IsSocial (o >>= handle_packets codec bodies ps)
  handle_packets_after ps (returns s) h next = next s h
  handle_packets_after ps panics h next = tt

  handle_packets_keep :
      (ps : List Packet) (s : Social)
      → IsSocial s
      → OnReturn IsSocial (handle_packets codec bodies ps s)
  unfolding handle_packets
  handle_packets_keep [] s h = h
  handle_packets_keep (p ∷ ps) s h =
      handle_packets_after ps (handle_packet codec bodies p s) (handle_packet-IsSocial p s h)
        (handle_packets_keep ps)

  -- After any packets that a fresh Social handles without a panic, each of the maps of friends, of
  -- groups and of chats has each id once, over an entry with that id; whatever the protobuf library
  -- makes of the packets.
  pub handle_packets-IsSocial :
      (id : ℕ) (ps : List Packet)
      → OnReturn IsSocial (handle_packets codec bodies ps (new_social id))
  unfolding new_social new_friends_list new_groups_list new_chats_list
  handle_packets-IsSocial id ps = handle_packets_keep ps (new_social id) (record {
    friends = record { once = tt; keyed = tt };
    groups = record { once = tt; keyed = tt };
    chats = record { once = tt; keyed = tt };
  })
