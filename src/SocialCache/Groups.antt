-- ===== src/SocialCache/Groups.antt =====
-- socialcache/groups.go. ById and the setters take the id of a group's chat for that of the
-- group; Add and Remove take the id as it is.
use go_steam_ws.Base.{ℕ, Option, List, [], length}
use go_steam_ws.Base.Store.{Store, lookup, erase, adjust}
use go_steam_ws.SocialCache.Keyed.{add_new}
use go_steam_ws.SteamId.{chat_to_clan}

pub record Group : Type 0 where
  pub steam_id : ℕ
  pub name : List ℕ
  pub avatar : List ℕ
  pub relationship : ℕ
  pub member_total_count : ℕ
  pub member_online_count : ℕ
  pub member_chatting_count : ℕ
  pub member_in_game_count : ℕ

abbrev pub group_key : Group → ℕ
group_key g = g.steam_id

abbrev pub GroupsList : Type 0
GroupsList = Store Group

unfoldable pub new_groups_list : GroupsList
new_groups_list = []

unfoldable pub add : GroupsList → Group → GroupsList
unfolding add_new
add list group = add_new group_key group list

unfoldable pub remove : GroupsList → ℕ → GroupsList
remove list id = erase id list

unfoldable pub get_copy : GroupsList → GroupsList
get_copy list = list

-- `none` is the error "Group not found".
unfoldable pub by_id : GroupsList → ℕ → Option Group
by_id list id = lookup (chat_to_clan id) list

unfoldable pub count : GroupsList → ℕ
count list = length list

unfoldable pub set_name : GroupsList → ℕ → List ℕ → GroupsList
set_name list id name = adjust (chat_to_clan id) (λ g. record g { name = name }) list

unfoldable pub set_avatar : GroupsList → ℕ → List ℕ → GroupsList
set_avatar list id hash = adjust (chat_to_clan id) (λ g. record g { avatar = hash }) list

unfoldable pub set_relationship : GroupsList → ℕ → ℕ → GroupsList
set_relationship list id relationship =
    adjust (chat_to_clan id) (λ g. record g { relationship = relationship }) list

unfoldable pub set_member_total_count : GroupsList → ℕ → ℕ → GroupsList
set_member_total_count list id n =
    adjust (chat_to_clan id) (λ g. record g { member_total_count = n }) list

unfoldable pub set_member_online_count : GroupsList → ℕ → ℕ → GroupsList
set_member_online_count list id n =
    adjust (chat_to_clan id) (λ g. record g { member_online_count = n }) list

unfoldable pub set_member_chatting_count : GroupsList → ℕ → ℕ → GroupsList
set_member_chatting_count list id n =
    adjust (chat_to_clan id) (λ g. record g { member_chatting_count = n }) list

unfoldable pub set_member_in_game_count : GroupsList → ℕ → ℕ → GroupsList
set_member_in_game_count list id n =
    adjust (chat_to_clan id) (λ g. record g { member_in_game_count = n }) list
