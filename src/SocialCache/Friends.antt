-- ===== src/SocialCache/Friends.antt =====
-- socialcache/friends.go. Texts and hashes are lists of bytes.
use go_steam_ws.Base.{ℕ, Option, List, []}
use go_steam_ws.Base.Store.{Store, lookup, erase, adjust}
use go_steam_ws.Base.{length}
use go_steam_ws.SocialCache.Keyed.{add_new}

pub record Friend : Type 0 where
  pub steam_id : ℕ
  pub name : List ℕ
  pub avatar : List ℕ
  pub relationship : ℕ
  pub persona_state : ℕ
  pub persona_state_flags : ℕ
  pub game_app_id : ℕ
  pub game_id : ℕ
  pub game_name : List ℕ

abbrev pub friend_key : Friend → ℕ
friend_key f = f.steam_id

abbrev pub FriendsList : Type 0
FriendsList = Store Friend

unfoldable pub new_friends_list : FriendsList
new_friends_list = []

unfoldable pub add : FriendsList → Friend → FriendsList
unfolding add_new
add list friend = add_new friend_key friend list

unfoldable pub remove : FriendsList → ℕ → FriendsList
remove list id = erase id list

unfoldable pub get_copy : FriendsList → FriendsList
get_copy list = list

-- `none` is the error "Friend not found".
unfoldable pub by_id : FriendsList → ℕ → Option Friend
by_id list id = lookup id list

unfoldable pub count : FriendsList → ℕ
count list = length list

unfoldable pub set_name : FriendsList → ℕ → List ℕ → FriendsList
set_name list id name = adjust id (λ f. record f { name = name }) list

unfoldable pub set_avatar : FriendsList → ℕ → List ℕ → FriendsList
set_avatar list id hash = adjust id (λ f. record f { avatar = hash }) list

unfoldable pub set_relationship : FriendsList → ℕ → ℕ → FriendsList
set_relationship list id relationship =
    adjust id (λ f. record f { relationship = relationship }) list

unfoldable pub set_persona_state : FriendsList → ℕ → ℕ → FriendsList
set_persona_state list id state = adjust id (λ f. record f { persona_state = state }) list

unfoldable pub set_persona_state_flags : FriendsList → ℕ → ℕ → FriendsList
set_persona_state_flags list id flags =
    adjust id (λ f. record f { persona_state_flags = flags }) list

unfoldable pub set_game_app_id : FriendsList → ℕ → ℕ → FriendsList
set_game_app_id list id app = adjust id (λ f. record f { game_app_id = app }) list

unfoldable pub set_game_id : FriendsList → ℕ → ℕ → FriendsList
set_game_id list id game = adjust id (λ f. record f { game_id = game }) list

unfoldable pub set_game_name : FriendsList → ℕ → List ℕ → FriendsList
set_game_name list id name = adjust id (λ f. record f { game_name = name }) list
