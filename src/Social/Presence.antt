-- ===== src/Social/Presence.antt =====
-- social.go: the handlers for friends, groups and their states, on the message that ReadProtoMsg
-- gave.
use go_steam_ws.Social.Events.{persona_state_event, PersonaStateEvent}
use go_steam_ws.Social.Messages.{CMsgClientPersonaState}
use go_steam_ws.Base.{ℕ, Bool, ◌&&◌, not, List, [], ◌∷◌, ◌==◌, if◌then◌else◌, bit_and, bit_or, map}
use go_steam_ws.Social.{Social, emit}
use go_steam_ws.Social.Avatar.{same_text, valid_avatar}
use go_steam_ws.Social.Events.{friends_list_event, friend_state_event, group_state_event}
use go_steam_ws.Social.Messages.{
  CMsgClientFriendsList, CMsgClientFriendsListFriend, CMsgClientPersonaStateFriend,
}
use go_steam_ws.Social.Requests.{request_friend_list_info, request_friend_info}
use go_steam_ws.SocialCache.Friends
use go_steam_ws.SocialCache.Friends.{Friend}
use go_steam_ws.SocialCache.Groups
use go_steam_ws.SocialCache.Groups.{Group}
use go_steam_ws.SteamId.{get_account_type}

-- EClientPersonaStateFlag_PlayerName, _SourceID, _Presence, _GameExtraInfo and _GameDataBlob.
abbrev pub player_name_flag : ℕ
player_name_flag = 2

abbrev pub source_id_flag : ℕ
source_id_flag = 8

abbrev pub presence_flag : ℕ
presence_flag = 16

abbrev pub game_extra_info_flag : ℕ
game_extra_info_flag = 256

abbrev pub game_data_blob_flag : ℕ
game_data_blob_flag = 512

abbrev pub default_info_request : ℕ
default_info_request =
    bit_or (bit_or (bit_or player_name_flag presence_flag) source_id_flag) game_extra_info_flag

unfoldable pub handle_account_info : Social → Social
handle_account_info s =
    request_friend_info s.client_id (bit_or (bit_or player_name_flag presence_flag) source_id_flag)
      s

unfoldable pub is_clan : ℕ → Bool
is_clan id = get_account_type id == 7

abbrev pub plain_friend : ℕ → ℕ → Friend
plain_friend id rel = record {
  steam_id = id;
  name = [];
  avatar = [];
  relationship = rel;
  persona_state = 0;
  persona_state_flags = 0;
  game_app_id = 0;
  game_id = 0;
  game_name = [];
}

abbrev pub plain_group : ℕ → ℕ → Group
plain_group id rel = record {
  steam_id = id;
  name = [];
  avatar = [];
  relationship = rel;
  member_total_count = 0;
  member_online_count = 0;
  member_chatting_count = 0;
  member_in_game_count = 0;
}

-- Relationship 0 is EClanRelationship_None or EFriendRelationship_None.
unfoldable pub list_group : ℕ → ℕ → Social → Social
list_group id rel s = record s {
  groups = if rel == 0 then Groups.remove s.groups id else Groups.add s.groups (plain_group id rel);
}

unfoldable pub list_friend : ℕ → ℕ → Social → Social
list_friend id rel s = record s {
  friends =
      if rel == 0 then Friends.remove s.friends id else Friends.add s.friends (plain_friend id rel);
}

-- One round of the loop of handleFriendsList.
unfoldable pub list_entry : Bool → CMsgClientFriendsListFriend → Social → Social
unfolding is_clan list_group list_friend
list_entry incremental f s =
    let id = f.ulfriendid in
    let rel = f.efriendrelationship in
    if is_clan id
    then (let s1 = list_group id rel s in
        if incremental
        then emit (group_state_event (record { steam_id = id; relationship = rel })) s1
        else s1)
    else (let s1 = list_friend id rel s in
        if incremental
        then emit (friend_state_event (record { steam_id = id; relationship = rel })) s1
        else s1)

unfoldable pub list_entries : Bool → List CMsgClientFriendsListFriend → Social → Social
unfolding list_entry
list_entries incremental [] s = s
list_entries incremental (f ∷ fs) s = list_entries incremental fs (list_entry incremental f s)

unfoldable pub handle_friends_list : CMsgClientFriendsList → Social → Social
unfolding list_entries request_friend_list_info
handle_friends_list list s =
    let s1 = list_entries list.bincremental list.friends s in
    if list.bincremental
    then s1
    else emit friends_list_event
        (request_friend_list_info (map (λ f. f.ulfriendid) list.friends) default_info_request s1)

unfoldable pub has_flag : ℕ → ℕ → Bool
has_flag flags flag = bit_and flags flag == flag

-- `friend.GetPlayerName() != ""`
unfoldable pub named : CMsgClientPersonaStateFriend → Bool
named f = not (same_text f.player_name [])

-- The three cases of the loop of handlePersonaState: the client itself, an individual, a clan.
unfoldable pub own_persona : CMsgClientPersonaStateFriend → Social → Social
unfolding named
own_persona f s = record s {
  name = if named f then f.player_name else s.name;
  avatar = if valid_avatar f.avatar_hash then f.avatar_hash else s.avatar;
}

unfoldable pub friend_name :
    ℕ → CMsgClientPersonaStateFriend → Friends.FriendsList → Friends.FriendsList
unfolding named has_flag
friend_name flags f list =
    if has_flag flags player_name_flag && named f
    then Friends.set_name list f.friendid f.player_name
    else list

unfoldable pub friend_avatar :
    CMsgClientPersonaStateFriend → Friends.FriendsList → Friends.FriendsList
friend_avatar f list =
    if valid_avatar f.avatar_hash then Friends.set_avatar list f.friendid f.avatar_hash else list

unfoldable pub friend_presence :
    ℕ → CMsgClientPersonaStateFriend → Friends.FriendsList → Friends.FriendsList
unfolding friend_avatar has_flag
friend_presence flags f list =
    if has_flag flags presence_flag
    then Friends.set_persona_state_flags
        (Friends.set_persona_state (friend_avatar f list) f.friendid f.persona_state) f.friendid
        f.persona_state_flags
    else list

unfoldable pub friend_game :
    ℕ → CMsgClientPersonaStateFriend → Friends.FriendsList → Friends.FriendsList
unfolding has_flag
friend_game flags f list =
    if has_flag flags game_data_blob_flag
    then Friends.set_game_name
        (Friends.set_game_id (Friends.set_game_app_id list f.friendid f.game_played_app_id)
          f.friendid f.gameid)
        f.friendid f.game_name
    else list

unfoldable pub friend_persona : ℕ → CMsgClientPersonaStateFriend → Social → Social
unfolding friend_name friend_presence friend_game
friend_persona flags f s = record s {
  friends = friend_game flags f (friend_presence flags f (friend_name flags f s.friends));
}

unfoldable pub group_name : ℕ → CMsgClientPersonaStateFriend → Groups.GroupsList → Groups.GroupsList
unfolding named has_flag
group_name flags f list =
    if has_flag flags player_name_flag && named f
    then Groups.set_name list f.friendid f.player_name
    else list

unfoldable pub group_avatar :
    ℕ → CMsgClientPersonaStateFriend → Groups.GroupsList → Groups.GroupsList
unfolding has_flag
group_avatar flags f list =
    if has_flag flags presence_flag && valid_avatar f.avatar_hash
    then Groups.set_avatar list f.friendid f.avatar_hash
    else list

unfoldable pub group_persona : ℕ → CMsgClientPersonaStateFriend → Social → Social
unfolding group_name group_avatar
group_persona flags f s = record s { groups = group_avatar flags f (group_name flags f s.groups) }

unfoldable pub persona_event : ℕ → CMsgClientPersonaStateFriend → PersonaStateEvent
persona_event flags f = record {
  status_flags = flags;
  friend_id = f.friendid;
  state = f.persona_state;
  state_flags = f.persona_state_flags;
  game_app_id = f.game_played_app_id;
  game_id = f.gameid;
  game_name = f.game_name;
  game_server_ip = f.game_server_ip;
  game_server_port = f.game_server_port;
  query_port = f.query_port;
  source_steam_id = f.steamid_source;
  game_data_blob = f.game_data_blob;
  name = f.player_name;
  avatar = f.avatar_hash;
  last_log_off = f.last_logoff;
  last_log_on = f.last_logon;
  clan_rank = f.clan_rank;
  clan_tag = f.clan_tag;
  online_session_instances = f.online_session_instances;
  persona_set_by_user = f.persona_set_by_user;
  rich_presence = f.rich_presence;
}

-- What one round of the loop does to the state, and the round.
unfoldable pub note_persona : ℕ → CMsgClientPersonaStateFriend → Social → Social
unfolding own_persona friend_persona group_persona
note_persona flags f s =
    if f.friendid == s.client_id
    then own_persona f s
    else if get_account_type f.friendid == 1
    then friend_persona flags f s
    else if get_account_type f.friendid == 7
    then group_persona flags f s
    else s

unfoldable pub persona_entry : ℕ → CMsgClientPersonaStateFriend → Social → Social
unfolding note_persona persona_event
persona_entry flags f s =
    emit (persona_state_event (persona_event flags f)) (note_persona flags f s)

unfoldable pub persona_entries : ℕ → List CMsgClientPersonaStateFriend → Social → Social
unfolding persona_entry
persona_entries flags [] s = s
persona_entries flags (f ∷ fs) s = persona_entries flags fs (persona_entry flags f s)

unfoldable pub handle_persona_state : CMsgClientPersonaState → Social → Social
unfolding persona_entries
handle_persona_state list s = persona_entries list.status_flags list.friends s
