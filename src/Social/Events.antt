-- ===== src/Social/Events.antt =====
-- social_events.go: the events of the social part. A text is a list of bytes; a Timestamp is the
-- number of seconds that time.Unix got, or `none` for the zero time.
use go_steam_ws.Base.{ℕ, Bool, Option, List, ◌==◌}

pub record FriendStateEvent : Type 0 where
  pub steam_id : ℕ
  pub relationship : ℕ

unfoldable pub is_friend : FriendStateEvent → Bool
is_friend f = f.relationship == 3

pub record GroupStateEvent : Type 0 where
  pub steam_id : ℕ
  pub relationship : ℕ

unfoldable pub is_member : GroupStateEvent → Bool
is_member g = g.relationship == 3

pub record PersonaStateEvent : Type 0 where
  pub status_flags : ℕ
  pub friend_id : ℕ
  pub state : ℕ
  pub state_flags : ℕ
  pub game_app_id : ℕ
  pub game_id : ℕ
  pub game_name : List ℕ
  pub game_server_ip : ℕ
  pub game_server_port : ℕ
  pub query_port : ℕ
  pub source_steam_id : ℕ
  pub game_data_blob : List ℕ
  pub name : List ℕ
  pub avatar : List ℕ
  pub last_log_off : ℕ
  pub last_log_on : ℕ
  pub clan_rank : ℕ
  pub clan_tag : List ℕ
  pub online_session_instances : ℕ
  pub persona_set_by_user : Bool
  pub rich_presence : List (List ℕ × List ℕ)

pub record ClanEventDetails : Type 0 where
  pub id : ℕ
  pub event_time : ℕ
  pub headline : List ℕ
  pub game_id : ℕ
  pub just_posted : Bool

pub record ClanStateEvent : Type 0 where
  pub clan_id : ℕ
  pub account_flags : ℕ
  pub clan_name : List ℕ
  pub avatar : List ℕ
  pub member_total_count : ℕ
  pub member_online_count : ℕ
  pub member_chatting_count : ℕ
  pub member_in_game_count : ℕ
  pub events : List ClanEventDetails
  pub announcements : List ClanEventDetails

pub record FriendAddedEvent : Type 0 where
  pub result : ℕ
  pub steam_id : ℕ
  pub persona_name : List ℕ

pub record ChatMsgEvent : Type 0 where
  pub chat_room_id : ℕ
  pub chatter_id : ℕ
  pub message : List ℕ
  pub entry_type : ℕ
  pub timestamp : Option ℕ
  pub offline : Bool

unfoldable pub is_message : ChatMsgEvent → Bool
is_message c = c.entry_type == 1

pub record ChatEnterEvent : Type 0 where
  pub chat_room_id : ℕ
  pub friend_id : ℕ
  pub chat_room_type : ℕ
  pub owner_id : ℕ
  pub clan_id : ℕ
  pub chat_flags : ℕ
  pub enter_response : ℕ
  pub name : List ℕ

pub record StateChangeDetails : Type 0 where
  pub chatter_acted_on : ℕ
  pub state_change : ℕ
  pub chatter_acted_by : ℕ

pub record ChatMemberInfoEvent : Type 0 where
  pub chat_room_id : ℕ
  pub type : ℕ
  pub state_change_info : StateChangeDetails

pub record ChatActionResultEvent : Type 0 where
  pub chat_room_id : ℕ
  pub chatter_id : ℕ
  pub action : ℕ
  pub result : ℕ

pub record ChatInviteEvent : Type 0 where
  pub invited_id : ℕ
  pub chat_room_id : ℕ
  pub patron_id : ℕ
  pub chat_room_type : ℕ
  pub friend_chat_id : ℕ
  pub chat_room_name : List ℕ
  pub game_id : ℕ

pub record IgnoreFriendEvent : Type 0 where
  pub result : ℕ

pub record ProfileInfoEvent : Type 0 where
  pub result : ℕ
  pub steam_id : ℕ
  pub time_created : ℕ
  pub real_name : List ℕ
  pub city_name : List ℕ
  pub state_name : List ℕ
  pub country_name : List ℕ
  pub headline : List ℕ
  pub summary : List ℕ

pub data SocialEvent : Type 0 where
  friends_list_event : SocialEvent
  friend_state_event : FriendStateEvent → SocialEvent
  group_state_event : GroupStateEvent → SocialEvent
  persona_state_event : PersonaStateEvent → SocialEvent
  clan_state_event : ClanStateEvent → SocialEvent
  friend_added_event : FriendAddedEvent → SocialEvent
  chat_msg_event : ChatMsgEvent → SocialEvent
  chat_enter_event : ChatEnterEvent → SocialEvent
  chat_member_info_event : ChatMemberInfoEvent → SocialEvent
  chat_action_result_event : ChatActionResultEvent → SocialEvent
  chat_invite_event : ChatInviteEvent → SocialEvent
  ignore_friend_event : IgnoreFriendEvent → SocialEvent
  profile_info_event : ProfileInfoEvent → SocialEvent
