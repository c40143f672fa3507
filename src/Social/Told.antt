-- ===== src/Social/Told.antt =====
-- What the social part tells the client: the events and the messages of each handler.
use go_steam_ws.Base.{
  sym, ℕ, Bool, true, false, ◌≡◌, some, List, [], ◌∷◌, ◌++◌, append_assoc, append-nil, map,
  if◌then◌else◌, arith,
}
use go_steam_ws.Client.{proto_msg}
use go_steam_ws.Protocol.ProtoMsg
use go_steam_ws.Social.{Social, Output, sends, emits}
use go_steam_ws.Social.Dispatch.{tell_history}
use go_steam_ws.Social.Events.{
  PersonaStateEvent, SocialEvent, friends_list_event, friend_state_event, group_state_event,
  persona_state_event, chat_msg_event,
}
use go_steam_ws.Social.Messages.{
  CMsgClientFriendsListFriend, CMsgClientPersonaStateFriend, FriendMessage, request_friend_data,
}
use go_steam_ws.Social.Presence.{
  is_clan, list_group, list_friend, list_entry, list_entries, handle_friends_list, persona_entries,
  persona_entry, note_persona, persona_event, handle_persona_state, own_persona, friend_persona,
  group_persona,
}
use go_steam_ws.Social.Requests.{request_friend_list_info}

-- The event for one entry of an incremental friends list.
unfoldable pub entry_event : CMsgClientFriendsListFriend → SocialEvent
entry_event f =
    if is_clan f.ulfriendid
    then group_state_event
        (record { steam_id = f.ulfriendid; relationship = f.efriendrelationship })
    else friend_state_event
        (record { steam_id = f.ulfriendid; relationship = f.efriendrelationship })

list_entry-output :
    (incremental : Bool) (f : CMsgClientFriendsListFriend) (s : Social)
    → (list_entry incremental f s).output
      ≡ s.output ++ (if incremental then emits (entry_event f) ∷ [] else [])
unfolding list_entry list_group list_friend entry_event
list_entry-output incremental f s = ground (arith, append-nil s.output)

list_entries-output :
    (incremental : Bool) (fs : List CMsgClientFriendsListFriend) (s : Social)
    → (list_entries incremental fs s).output
      ≡ s.output ++ (if incremental then map (λ f. emits (entry_event f)) fs else [])
unfolding list_entries
list_entries-output true [] s = sym (append-nil s.output)
list_entries-output false [] s = sym (append-nil s.output)
list_entries-output true (f ∷ fs) s =
    rw (list_entries-output true fs (list_entry true f s), list_entry-output true f s)
      (append_assoc s.output (emits (entry_event f) ∷ []) (map (λ g. emits (entry_event g)) fs))
list_entries-output false (f ∷ fs) s =
    rw (list_entries-output false fs (list_entry false f s), list_entry-output false f s)
      (append_assoc s.output [] [])

-- An incremental friends list is told one event for each entry, in order, and nothing is asked; a
-- full one asks once for the default information (name, source, presence and game: 2 + 8 + 16 + 256) on all its ids, in order,
-- and then is told by one FriendsListEvent.
pub handle_friends_list-output :
    (incremental : Bool) (fs : List CMsgClientFriendsListFriend) (s : Social)
    → (handle_friends_list (record { bincremental = incremental; friends = fs }) s).output
      ≡ s.output
        ++ (if incremental
            then map (λ f. emits (entry_event f)) fs
            else sends (
                proto_msg (ProtoMsg.new 815 (request_friend_data 282 (map (λ f. f.ulfriendid) fs))))
              ∷ (emits friends_list_event ∷ []))
unfolding handle_friends_list request_friend_list_info
handle_friends_list-output true fs s = list_entries-output true fs s
handle_friends_list-output false fs s =
    rw (list_entries-output false fs s, append-nil s.output) (append_assoc s.output _ _)

note_persona-output :
    (flags : ℕ) (f : CMsgClientPersonaStateFriend) (s : Social)
    → (note_persona flags f s).output ≡ s.output
unfolding note_persona own_persona friend_persona group_persona
note_persona-output flags f s = ground arith

-- The event that tells of one friend of a persona state.
abbrev pub told_persona : ℕ → CMsgClientPersonaStateFriend → PersonaStateEvent
told_persona flags f = record {
  status_flags = flags;
  friend_id = f.friendid;
  state = f.persona_state;
  state_flags = f.persona_state_flags;
  game_app_id = f.game_played_app_id;
  game_id = f.gameid;
  game_name = f.game_name;
  game_server_ip = f.game_server_ip;
  game_server_port = f.game_server_port;
  query_port = f.query_port;
  source_steam_id = f.steamid_source;
  game_data_blob = f.game_data_blob;
  name = f.player_name;
  avatar = f.avatar_hash;
  last_log_off = f.last_logoff;
  last_log_on = f.last_logon;
  clan_rank = f.clan_rank;
  clan_tag = f.clan_tag;
  online_session_instances = f.online_session_instances;
  persona_set_by_user = f.persona_set_by_user;
  rich_presence = f.rich_presence;
}

-- A persona state is told by one event for each of its friends, in order, whether or not the lists
-- have them. The event has the flags of the message and, under the names of `told_persona`, the
-- friend's id, state, game, server, query port, source, data, name, avatar, times of logging off
-- and on, clan rank and tag, sessions, whether the user set it, and rich presence, all as the
-- message gives them, whatever the flags; it has nothing else of what a message may say.
pub handle_persona_state-output :
    (flags : ℕ) (fs : List CMsgClientPersonaStateFriend) (s : Social)
    → (handle_persona_state (record { status_flags = flags; friends = fs }) s).output
      ≡ s.output ++ map (λ f. emits (persona_state_event (told_persona flags f))) fs
unfolding handle_persona_state persona_entries persona_entry persona_event
handle_persona_state-output flags [] s = sym (append-nil s.output)
handle_persona_state-output flags (f ∷ fs) s =
    rw
      (
        handle_persona_state-output flags fs (persona_entry flags f s),
        note_persona-output flags f s,
      )
      (append_assoc s.output _ _)

-- The unread messages, in order.
unfoldable pub unread_of : List FriendMessage → List FriendMessage
unread_of [] = []
unread_of (m ∷ ms) = if m.unread then m ∷ unread_of ms else unread_of ms

unfoldable pub offline_message : ℕ → FriendMessage → Output
offline_message friend m = emits (
    chat_msg_event (record {
      chat_room_id = 0;
      chatter_id = friend;
      message = m.message;
      entry_type = 1;
      timestamp = some m.timestamp;
      offline = true;
    }))

-- Of a history of messages only those that the user has not read are told, each by one event that
-- says so, in order.
pub tell_history-output :
    (friend : ℕ) (ms : List FriendMessage) (s : Social)
    → (tell_history friend ms s).output ≡ s.output ++ map (offline_message friend) (unread_of ms)
unfolding tell_history unread_of offline_message
tell_history-output friend [] s = sym (append-nil s.output)
tell_history-output friend (m ∷ ms) s =
    grind (arith, tell_history-output friend ms, append_assoc, append-nil)
