-- ===== src/Social/Messages.antt =====
-- The bodies of the messages of social.go: the protobuf messages as their getters read them, those
-- that it sends, and its struct backed ones.
use go_steam_ws.Base.{ℕ, Bool, Option, List}
use go_steam_ws.Io.{Error, Reader, Write}
use go_steam_ws.Io.Steps.{Step}
use go_steam_ws.ProtoBuf.{Codec}
use go_steam_ws.SteamLang.Bodies.{MessageBody}
use go_steam_ws.SteamLang.Messages.Chat.{
  MsgClientChatMsg, client_chat_msg_body, MsgClientJoinChat, client_join_chat_body,
  MsgClientChatMemberInfo, client_chat_member_info_body, MsgClientChatAction,
  client_chat_action_body,
}
use go_steam_ws.SteamLang.Messages.Friends.{MsgClientSetIgnoreFriend, client_set_ignore_friend_body}

pub record CMsgClientFriendsListFriend : Type 0 where
  pub ulfriendid : ℕ
  pub efriendrelationship : ℕ

pub record CMsgClientFriendsList : Type 0 where
  pub bincremental : Bool
  pub friends : List CMsgClientFriendsListFriend

pub record CMsgClientPersonaStateFriend : Type 0 where
  pub friendid : ℕ
  pub persona_state : ℕ
  pub game_played_app_id : ℕ
  pub game_server_ip : ℕ
  pub game_server_port : ℕ
  pub persona_state_flags : ℕ
  pub online_session_instances : ℕ
  pub persona_set_by_user : Bool
  pub player_name : List ℕ
  pub query_port : ℕ
  pub steamid_source : ℕ
  pub avatar_hash : List ℕ
  pub last_logoff : ℕ
  pub last_logon : ℕ
  pub clan_rank : ℕ
  pub game_name : List ℕ
  pub gameid : ℕ
  pub game_data_blob : List ℕ
  pub clan_tag : List ℕ
  pub rich_presence : List (List ℕ × List ℕ)

pub record CMsgClientPersonaState : Type 0 where
  pub status_flags : ℕ
  pub friends : List CMsgClientPersonaStateFriend

pub record CMsgClientClanStateNameInfo : Type 0 where
  pub clan_name : List ℕ
  pub sha_avatar : List ℕ

pub record CMsgClientClanStateUserCounts : Type 0 where
  pub members : ℕ
  pub online : ℕ
  pub chatting : ℕ
  pub in_game : ℕ

pub record CMsgClientClanStateEvent : Type 0 where
  pub gid : ℕ
  pub event_time : ℕ
  pub headline : List ℕ
  pub game_id : ℕ
  pub just_posted : Bool

pub record CMsgClientClanState : Type 0 where
  pub steamid_clan : ℕ
  pub clan_account_flags : ℕ
  pub name_info : Option CMsgClientClanStateNameInfo
  pub user_counts : Option CMsgClientClanStateUserCounts
  pub events : List CMsgClientClanStateEvent
  pub announcements : List CMsgClientClanStateEvent

pub record CMsgClientAddFriendResponse : Type 0 where
  pub eresult : ℕ
  pub steam_id_added : ℕ
  pub persona_name_added : List ℕ

pub record CMsgClientFriendMsgIncoming : Type 0 where
  pub steamid_from : ℕ
  pub chat_entry_type : ℕ
  pub message : List ℕ
  pub rtime32_server_timestamp : ℕ

pub record CMsgClientChatInvite : Type 0 where
  pub steam_id_invited : ℕ
  pub steam_id_chat : ℕ
  pub steam_id_patron : ℕ
  pub chatroom_type : ℕ
  pub steam_id_friend_chat : ℕ
  pub chat_name : List ℕ
  pub game_id : ℕ

pub record CMsgClientFriendProfileInfoResponse : Type 0 where
  pub eresult : ℕ
  pub steamid_friend : ℕ
  pub time_created : ℕ
  pub real_name : List ℕ
  pub city_name : List ℕ
  pub state_name : List ℕ
  pub country_name : List ℕ
  pub headline : List ℕ
  pub summary : List ℕ

pub record FriendMessage : Type 0 where
  pub timestamp : ℕ
  pub message : List ℕ
  pub unread : Bool

pub record CMsgClientChatGetFriendMessageHistoryResponse : Type 0 where
  pub steamid : ℕ
  pub messages : List FriendMessage

-- The protobuf library at the types of the messages that come in.
pub record SocialCodecs : Type 0 where
  pub friends_list : Codec CMsgClientFriendsList
  pub persona_state : Codec CMsgClientPersonaState
  pub clan_state : Codec CMsgClientClanState
  pub add_friend_response : Codec CMsgClientAddFriendResponse
  pub friend_msg_incoming : Codec CMsgClientFriendMsgIncoming
  pub chat_invite : Codec CMsgClientChatInvite
  pub profile_info : Codec CMsgClientFriendProfileInfoResponse
  pub message_history : Codec CMsgClientChatGetFriendMessageHistoryResponse

-- The protobuf bodies that go out, with the fields that the code sets.
pub data SocialProto : Type 0 where
  change_status : ℕ → Option (List ℕ) → SocialProto
  friend_msg : ℕ → ℕ → List ℕ → SocialProto
  add_friend : ℕ → SocialProto
  remove_friend : ℕ → SocialProto
  request_friend_data : ℕ → List ℕ → SocialProto
  friend_profile_info : ℕ → SocialProto
  offline_messages : SocialProto

-- The struct backed bodies that go out.
pub data SocialStruct : Type 0 where
  chat_msg : MsgClientChatMsg → SocialStruct
  set_ignore_friend : MsgClientSetIgnoreFriend → SocialStruct
  join_chat : MsgClientJoinChat → SocialStruct
  chat_member_info : MsgClientChatMemberInfo → SocialStruct
  chat_action : MsgClientChatAction → SocialStruct

abbrev struct_emsg : SocialStruct → ℕ
struct_emsg (chat_msg b) = client_chat_msg_body.get_emsg b
struct_emsg (set_ignore_friend b) = client_set_ignore_friend_body.get_emsg b
struct_emsg (join_chat b) = client_join_chat_body.get_emsg b
struct_emsg (chat_member_info b) = client_chat_member_info_body.get_emsg b
struct_emsg (chat_action b) = client_chat_action_body.get_emsg b

abbrev write_struct : SocialStruct → Write
write_struct (chat_msg b) = client_chat_msg_body.serialize b
write_struct (set_ignore_friend b) = client_set_ignore_friend_body.serialize b
write_struct (join_chat b) = client_join_chat_body.serialize b
write_struct (chat_member_info b) = client_chat_member_info_body.serialize b
write_struct (chat_action b) = client_chat_action_body.serialize b

abbrev as_struct :
    {B : Type 0}
    → (B → SocialStruct)
    → Option Error × B × Reader
    → Option Error × SocialStruct × Reader
as_struct f (e, b, r) = (e, f b, r)

abbrev read_struct : Step SocialStruct
read_struct (chat_msg b) r = as_struct chat_msg (client_chat_msg_body.deserialize b r)
read_struct (set_ignore_friend b) r =
    as_struct set_ignore_friend (client_set_ignore_friend_body.deserialize b r)
read_struct (join_chat b) r = as_struct join_chat (client_join_chat_body.deserialize b r)
read_struct (chat_member_info b) r =
    as_struct chat_member_info (client_chat_member_info_body.deserialize b r)
read_struct (chat_action b) r = as_struct chat_action (client_chat_action_body.deserialize b r)

-- The body behind the interface protocol.MessageBody.
abbrev pub social_body : MessageBody SocialStruct
social_body = record { get_emsg = struct_emsg; serialize = write_struct; deserialize = read_struct }
