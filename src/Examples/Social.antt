-- ===== src/Examples/Social.antt =====
-- The social part at concrete inputs.
use go_steam_ws.Base.{
  ℕ, ◌≡◌, refl, true, false, none, some, List, [], ◌∷◌, ◌++◌, ◌==◌, if◌then◌else◌, replicate, arith,
}
use go_steam_ws.Base.Store.{lookup}
use go_steam_ws.Client.{proto_msg, client_msg}
use go_steam_ws.Examples.{plain_codec}
use go_steam_ws.ProtoBuf.{Codec}
use go_steam_ws.Protocol.Packet.{Packet}
use go_steam_ws.Protocol.ProtoMsg
use go_steam_ws.Protocol.StructMsg
use go_steam_ws.Protocol.StructMsg.{ClientMsg}
use go_steam_ws.Social.{Social, new_social, sends, emits}
use go_steam_ws.Social.Dispatch.{handle_packets}
use go_steam_ws.Social.Events.{friends_list_event, persona_state_event}
use go_steam_ws.Social.Messages.{
  CMsgClientFriendsListFriend, CMsgClientPersonaStateFriend, SocialCodecs, request_friend_data,
  social_body, chat_member_info,
}
use go_steam_ws.Social.PersonaEntries.{by_id-friend_persona, with_name, with_presence, with_game}
use go_steam_ws.Social.Presence.{
  handle_friends_list, handle_persona_state, friend_persona, plain_friend,
}
use go_steam_ws.Social.Reachable.{OnReturn, handle_packets-IsSocial}
use go_steam_ws.Social.Caches.{IsSocial}
use go_steam_ws.Social.Requests.{leave_chat, leave_body, leave_payload}
use go_steam_ws.Social.RoomEntries.{
  FitsMember, Labels, members_bytes, add_members, handle_chat_enter-members_bytes,
}
use go_steam_ws.Social.RoomMessages.{handle_chat_member_info-leave_chat}
use go_steam_ws.Social.Rooms.{handle_chat_enter, handle_chat_member_info}
use go_steam_ws.Social.Told.{told_persona, handle_friends_list-output, handle_persona_state-output}
use go_steam_ws.SocialCache.ChatLaws.{member_of}
use go_steam_ws.SocialCache.Chats
use go_steam_ws.SocialCache.Chats.{ChatMember}
use go_steam_ws.SocialCache.Friends.{by_id}
use go_steam_ws.SteamId.{clan_to_chat}
use go_steam_ws.SteamLang.{new_extended_client_msg_hdr}
use go_steam_ws.SteamLang.Messages.Chat.{MsgClientChatEnter}

-- An account of the public universe, and a clan.
abbrev alice : ℕ
alice = 0x110000100000002

abbrev clan : ℕ
clan = 0x170000000000005

abbrev me : Social
me = record {
  name = [];
  avatar = [];
  persona_state = 0;
  friends = [];
  groups = [];
  chats = [];
  client_id = 7;
  output = [];
}

abbrev entry : ℕ → ℕ → CMsgClientFriendsListFriend
entry id rel = record { ulfriendid = id; efriendrelationship = rel }

abbrev three_entries : List CMsgClientFriendsListFriend
three_entries = entry alice 2 ∷ entry clan 3 ∷ entry alice 3 ∷ []

friends_list_example :
    (handle_friends_list (record { bincremental = false; friends = three_entries }) me).output ≡ (
      sends (proto_msg (ProtoMsg.new 815 (request_friend_data 282 (alice ∷ clan ∷ alice ∷ []))))
      ∷ (emits friends_list_event ∷ []))
friends_list_example = handle_friends_list-output false three_entries me

abbrev persona : CMsgClientPersonaStateFriend
persona = record {
  friendid = alice;
  persona_state = 1;
  game_played_app_id = 0;
  game_server_ip = 0;
  game_server_port = 0;
  persona_state_flags = 0;
  online_session_instances = 0;
  persona_set_by_user = false;
  player_name = 65 ∷ [];
  query_port = 0;
  steamid_source = 0;
  avatar_hash = [];
  last_logoff = 0;
  last_logon = 0;
  clan_rank = 0;
  game_name = [];
  gameid = 0;
  game_data_blob = [];
  clan_tag = [];
  rich_presence = [];
}

abbrev with_alice : Social
with_alice = record me { friends = (alice, plain_friend alice 3) ∷ [] }

by_id-friend_persona_example :
    by_id (friend_persona 2 persona with_alice).friends alice
    ≡ some
        (with_game 2 persona (with_presence 2 persona (with_name 2 persona (plain_friend alice 3))))
unfolding by_id lookup
by_id-friend_persona_example = by_id-friend_persona 2 alice persona with_alice

persona_example :
    (handle_persona_state (record { status_flags = 2; friends = persona ∷ [] }) with_alice).output
    ≡ emits (persona_state_event (told_persona 2 persona)) ∷ []
persona_example = handle_persona_state-output 2 (persona ∷ []) with_alice

abbrev labels : Labels
labels = record { object = 77 ∷ []; steam_id = 115 ∷ []; permissions = []; details = 68 ∷ [] }

abbrev bob : ChatMember
bob = record { steam_id = 4; chat_permissions = 26; clan_permissions = 8 }

bob_fits : FitsMember bob
bob_fits = record { id = omega arith; chat = omega arith; clan = omega arith }

abbrev six : List ℕ
six = 8 ∷ 8 ∷ 0 ∷ 0 ∷ 0 ∷ 1 ∷ []

abbrev enter_body : MsgClientChatEnter
enter_body = record {
  steam_id_chat = 8;
  steam_id_friend = 0;
  chat_room_type = 1;
  steam_id_owner = 0;
  steam_id_clan = 9;
  chat_flags = 0;
  enter_response = 1;
  num_members = 2;
}

abbrev enter_msg : ClientMsg MsgClientChatEnter
enter_msg = record {
  header = new_extended_client_msg_hdr;
  body = enter_body;
  payload = (65 ∷ []) ++ (0 ∷ (0 ∷ members_bytes labels six (bob ∷ bob ∷ []) (1 ∷ [])));
}

chat_enter_example :
    (handle_chat_enter enter_msg me).chats
    ≡ add_members 8
        (bob ∷ bob ∷ [])
        (Chats.add [] (record { steam_id = 8; group_id = 9; chat_members = none }))
chat_enter_example =
    handle_chat_enter-members_bytes labels six (65 ∷ []) (bob ∷ bob ∷ []) (1 ∷ []) enter_msg me
      (record {
        object = ground arith;
        steam_id = ground arith;
        permissions = tt;
        details = ground arith;
      })
      refl (ground arith) (bob_fits, (bob_fits, tt)) (omega arith) refl refl

abbrev sent_text : List ℕ
sent_text = 104 ∷ 105 ∷ []

leave_example :
    ((leave_chat clan me).output
      ≡ sends (
          client_msg
            (StructMsg.new social_body (chat_member_info (leave_body clan)) (leave_payload 7)))
        ∷ [])
    × (member_of
          (handle_chat_member_info
            (record {
              header = new_extended_client_msg_hdr;
              body = leave_body clan;
              payload = leave_payload 7;
            })
            with_alice).chats
          8
          7
        ≡ (if clan_to_chat clan == 8
            then if 7 == 7 then none else member_of [] 8 7
            else member_of [] 8 7))
leave_example =
    handle_chat_member_info-leave_chat clan 8 7 new_extended_client_msg_hdr me with_alice
      (omega arith)

-- A codec that gives the same message for all bytes.
abbrev always : {M : Type 0} → M → Codec M
always m = record { encode = λ x. none; decode = λ bs. (none, m) }

abbrev codecs : SocialCodecs
codecs = record {
  friends_list = always (record { bincremental = true; friends = three_entries });
  persona_state = always (record { status_flags = 2; friends = persona ∷ [] });
  clan_state = always (record {
    steamid_clan = clan;
    clan_account_flags = 0;
    name_info = none;
    user_counts = none;
    events = [];
    announcements = [];
  });
  add_friend_response =
      always (record { eresult = 1; steam_id_added = alice; persona_name_added = [] });
  friend_msg_incoming = always (record {
    steamid_from = alice;
    chat_entry_type = 1;
    message = [];
    rtime32_server_timestamp = 0;
  });
  chat_invite = always (record {
    steam_id_invited = 7;
    steam_id_chat = 8;
    steam_id_patron = alice;
    chatroom_type = 1;
    steam_id_friend_chat = 0;
    chat_name = [];
    game_id = 0;
  });
  profile_info = always (record {
    eresult = 1;
    steamid_friend = alice;
    time_created = 0;
    real_name = [];
    city_name = [];
    state_name = [];
    country_name = [];
    headline = [];
    summary = [];
  });
  message_history = always (record { steamid = alice; messages = [] });
}

abbrev packet_of : ℕ → Packet
packet_of emsg = record {
  emsg = emsg;
  is_proto = true;
  target_job_id = 0;
  source_job_id = 0;
  raw_data = replicate 8 0;
}

handle_packets_example : OnReturn IsSocial (
    handle_packets plain_codec codecs
      (packet_of 767 ∷ packet_of 766 ∷ packet_of 802 ∷ [])
      (new_social 7))
handle_packets_example =
    handle_packets-IsSocial plain_codec codecs 7
      (packet_of 767 ∷ packet_of 766 ∷ packet_of 802 ∷ [])
