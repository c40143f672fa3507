-- ===== src/Social.antt =====
-- social.go: the friends, the groups and the chats. `output` is what the component gives to the
-- client, in order: the messages of client.Write and the events of client.Emit; `client_id` is
-- what client.SteamId() gives. A call that holds the mutex is one function of the state.
pub mod Events
pub mod Messages
pub mod Avatar
pub mod Requests
pub mod Presence
pub mod Clans
pub mod Rooms
pub mod Dispatch
pub mod FriendEntries
pub mod PersonaEntries
pub mod RoomMessages
pub mod Told
pub mod RoomEntries
pub mod Caches
pub mod RoomCaches
pub mod Reachable
use go_steam_ws.Base.{ℕ, List, [], ◌∷◌, ◌++◌}
use go_steam_ws.Client.{IMsg, proto_msg, client_msg}
use go_steam_ws.Protocol.ProtoMsg
use go_steam_ws.Protocol.StructMsg
use go_steam_ws.SocialCache.Friends.{FriendsList, new_friends_list}
use go_steam_ws.SocialCache.Groups.{GroupsList, new_groups_list}
use go_steam_ws.SocialCache.Chats.{ChatsList, new_chats_list}
use Events.{SocialEvent}
use Messages.{SocialProto, SocialStruct, social_body}

pub data Output : Type 0 where
  sends : IMsg SocialProto SocialStruct → Output
  emits : SocialEvent → Output

pub record Social : Type 0 where
  pub name : List ℕ
  pub avatar : List ℕ
  pub persona_state : ℕ
  pub friends : FriendsList
  pub groups : GroupsList
  pub chats : ChatsList
  pub client_id : ℕ
  pub output : List Output

unfoldable pub new_social : ℕ → Social
new_social id = record {
  name = [];
  avatar = [];
  persona_state = 0;
  friends = new_friends_list;
  groups = new_groups_list;
  chats = new_chats_list;
  client_id = id;
  output = [];
}

abbrev pub put_out : Output → Social → Social
put_out o s = record s { output = s.output ++ (o ∷ []) }

abbrev pub emit : SocialEvent → Social → Social
emit e s = put_out (emits e) s

-- client.Write of NewClientMsgProtobuf(emsg, body), and of NewClientMsg(body, payload).
abbrev pub send_proto : ℕ → SocialProto → Social → Social
send_proto emsg body s = put_out (sends (proto_msg (ProtoMsg.new emsg body))) s

abbrev pub send_struct : SocialStruct → List ℕ → Social → Social
send_struct body payload s = put_out (sends (client_msg (StructMsg.new social_body body payload))) s
