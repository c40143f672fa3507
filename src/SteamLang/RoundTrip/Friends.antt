-- ===== src/SteamLang/RoundTrip/Friends.antt =====
-- What Serialize writes and Deserialize reads back: the bodies about friends.
use go_steam_ws.Base.{ℕ, ◌^◌, ◌<◌, List, ◌++◌}
use go_steam_ws.Io.{le_bytes}
use go_steam_ws.Io.Carries.{Carries, store_int, convert_int, ◌then◌}
use go_steam_ws.Rwu.{read_uint8, read_uint32, read_uint64, read_int32}
use go_steam_ws.SteamLang.Messages.Friends.{
  MsgClientGetFriendsWhoPlayGame, new_msg_client_get_friends_who_play_game,
  client_get_friends_who_play_game_body, MsgClientGetFriendsWhoPlayGameResponse,
  new_msg_client_get_friends_who_play_game_response, client_get_friends_who_play_game_response_body,
  MsgClientSetIgnoreFriend, new_msg_client_set_ignore_friend, client_set_ignore_friend_body,
  MsgClientSetIgnoreFriendResponse, new_msg_client_set_ignore_friend_response,
  client_set_ignore_friend_response_body,
}

abbrev pub FitsMsgClientGetFriendsWhoPlayGame : MsgClientGetFriendsWhoPlayGame → Type 0
FitsMsgClientGetFriendsWhoPlayGame b = b.game_id < 2 ^ 64

abbrev pub msg_client_get_friends_who_play_game_bytes : MsgClientGetFriendsWhoPlayGame → List ℕ
msg_client_get_friends_who_play_game_bytes b = le_bytes 8 b.game_id

pub msg_client_get_friends_who_play_game-Carries :
    (b : MsgClientGetFriendsWhoPlayGame)
    → FitsMsgClientGetFriendsWhoPlayGame b
    → Carries
        (client_get_friends_who_play_game_body.serialize b)
        client_get_friends_who_play_game_body.deserialize
        (msg_client_get_friends_who_play_game_bytes b)
        8
        new_msg_client_get_friends_who_play_game
        b
unfolding read_uint64
msg_client_get_friends_who_play_game-Carries b h = store_int _ 8 b.game_id _ h

abbrev pub FitsMsgClientGetFriendsWhoPlayGameResponse :
    MsgClientGetFriendsWhoPlayGameResponse → Type 0
FitsMsgClientGetFriendsWhoPlayGameResponse b =
    (b.result < 2 ^ 32) × (b.game_id < 2 ^ 64) × (b.count_friends < 2 ^ 32)

abbrev pub msg_client_get_friends_who_play_game_response_bytes :
    MsgClientGetFriendsWhoPlayGameResponse → List ℕ
msg_client_get_friends_who_play_game_response_bytes b =
    (le_bytes 4 b.result ++ le_bytes 8 b.game_id) ++ le_bytes 4 b.count_friends

pub msg_client_get_friends_who_play_game_response-Carries :
    (b : MsgClientGetFriendsWhoPlayGameResponse)
    → FitsMsgClientGetFriendsWhoPlayGameResponse b
    → Carries
        (client_get_friends_who_play_game_response_body.serialize b)
        client_get_friends_who_play_game_response_body.deserialize
        (msg_client_get_friends_who_play_game_response_bytes b)
        16
        new_msg_client_get_friends_who_play_game_response
        b
unfolding read_int32 read_uint32 read_uint64
msg_client_get_friends_who_play_game_response-Carries b h =
    convert_int _ 4 b.result _ h.0
    then store_int _ 8 b.game_id _ h.1
    then store_int _ 4 b.count_friends _ h.2

abbrev pub FitsMsgClientSetIgnoreFriend : MsgClientSetIgnoreFriend → Type 0
FitsMsgClientSetIgnoreFriend b =
    (b.my_steam_id < 2 ^ 64) × (b.steam_id_friend < 2 ^ 64) × (b.ignore < 2 ^ 8)

abbrev pub msg_client_set_ignore_friend_bytes : MsgClientSetIgnoreFriend → List ℕ
msg_client_set_ignore_friend_bytes b =
    (le_bytes 8 b.my_steam_id ++ le_bytes 8 b.steam_id_friend) ++ le_bytes 1 b.ignore

pub msg_client_set_ignore_friend-Carries :
    (b : MsgClientSetIgnoreFriend)
    → FitsMsgClientSetIgnoreFriend b
    → Carries
        (client_set_ignore_friend_body.serialize b)
        client_set_ignore_friend_body.deserialize
        (msg_client_set_ignore_friend_bytes b)
        17
        new_msg_client_set_ignore_friend
        b
unfolding read_uint64 read_uint8
msg_client_set_ignore_friend-Carries b h =
    convert_int _ 8 b.my_steam_id _ h.0
    then convert_int _ 8 b.steam_id_friend _ h.1
    then store_int _ 1 b.ignore _ h.2

abbrev pub FitsMsgClientSetIgnoreFriendResponse : MsgClientSetIgnoreFriendResponse → Type 0
FitsMsgClientSetIgnoreFriendResponse b = (b.friend_id < 2 ^ 64) × (b.result < 2 ^ 32)

abbrev pub msg_client_set_ignore_friend_response_bytes : MsgClientSetIgnoreFriendResponse → List ℕ
msg_client_set_ignore_friend_response_bytes b = le_bytes 8 b.friend_id ++ le_bytes 4 b.result

pub msg_client_set_ignore_friend_response-Carries :
    (b : MsgClientSetIgnoreFriendResponse)
    → FitsMsgClientSetIgnoreFriendResponse b
    → Carries
        (client_set_ignore_friend_response_body.serialize b)
        client_set_ignore_friend_response_body.deserialize
        (msg_client_set_ignore_friend_response_bytes b)
        12
        new_msg_client_set_ignore_friend_response
        b
unfolding read_int32 read_uint64
msg_client_set_ignore_friend_response-Carries b h =
    convert_int _ 8 b.friend_id _ h.0 then store_int _ 4 b.result _ h.1
