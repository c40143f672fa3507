-- ===== src/SteamLang/Messages/Friends.antt =====
-- protocol/steamlang/messages.go: the bodies about friends.
use go_steam_ws.Base.{ℕ}
use go_steam_ws.Io.{◌>>◌, write_int}
use go_steam_ws.Io.Steps.{store, convert, ◌>>>◌}
use go_steam_ws.Rwu.{read_uint8, read_uint32, read_uint64, read_int32}
use go_steam_ws.SteamLang.Bodies.{MessageBody}

pub record MsgClientGetFriendsWhoPlayGame : Type 0 where
  pub game_id : ℕ

unfoldable pub new_msg_client_get_friends_who_play_game : MsgClientGetFriendsWhoPlayGame
new_msg_client_get_friends_who_play_game = record { game_id = 0 }

abbrev pub client_get_friends_who_play_game_body : MessageBody MsgClientGetFriendsWhoPlayGame
client_get_friends_who_play_game_body = record {
  get_emsg = λ d. 5488;
  serialize = λ d. write_int 8 d.game_id;
  deserialize = store read_uint64 (λ v d. record d { game_id = v });
}

pub record MsgClientGetFriendsWhoPlayGameResponse : Type 0 where
  pub result : ℕ
  pub game_id : ℕ
  pub count_friends : ℕ

unfoldable pub new_msg_client_get_friends_who_play_game_response :
    MsgClientGetFriendsWhoPlayGameResponse
new_msg_client_get_friends_who_play_game_response = record {
  result = 0;
  game_id = 0;
  count_friends = 0;
}

abbrev pub client_get_friends_who_play_game_response_body :
    MessageBody MsgClientGetFriendsWhoPlayGameResponse
client_get_friends_who_play_game_response_body = record {
  get_emsg = λ d. 5489;
  serialize = λ d. write_int 4 d.result >> write_int 8 d.game_id >> write_int 4 d.count_friends;
  deserialize =
      convert read_int32 (λ v d. record d { result = v })
      >>> store read_uint64 (λ v d. record d { game_id = v })
      >>> store read_uint32 (λ v d. record d { count_friends = v });
}

pub record MsgClientSetIgnoreFriend : Type 0 where
  pub my_steam_id : ℕ
  pub steam_id_friend : ℕ
  pub ignore : ℕ

unfoldable pub new_msg_client_set_ignore_friend : MsgClientSetIgnoreFriend
new_msg_client_set_ignore_friend = record { my_steam_id = 0; steam_id_friend = 0; ignore = 0 }

abbrev pub client_set_ignore_friend_body : MessageBody MsgClientSetIgnoreFriend
client_set_ignore_friend_body = record {
  get_emsg = λ d. 855;
  serialize =
      λ d. write_int 8 d.my_steam_id >> write_int 8 d.steam_id_friend >> write_int 1 d.ignore;
  deserialize =
      convert read_uint64 (λ v d. record d { my_steam_id = v })
      >>> convert read_uint64 (λ v d. record d { steam_id_friend = v })
      >>> store read_uint8 (λ v d. record d { ignore = v });
}

pub record MsgClientSetIgnoreFriendResponse : Type 0 where
  pub friend_id : ℕ
  pub result : ℕ

unfoldable pub new_msg_client_set_ignore_friend_response : MsgClientSetIgnoreFriendResponse
new_msg_client_set_ignore_friend_response = record { friend_id = 0; result = 0 }

abbrev pub client_set_ignore_friend_response_body : MessageBody MsgClientSetIgnoreFriendResponse
client_set_ignore_friend_response_body = record {
  get_emsg = λ d. 856;
  serialize = λ d. write_int 8 d.friend_id >> write_int 4 d.result;
  deserialize =
      convert read_uint64 (λ v d. record d { friend_id = v })
      >>> store read_int32 (λ v d. record d { result = v });
}
