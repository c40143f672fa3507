-- ===== src/Examples/Caches.antt =====
-- The cached lists at concrete inputs.
use go_steam_ws.Base.{ℕ, ◌≡◌, refl, none, some, [], ◌∷◌, arith}
use go_steam_ws.Base.Store.{lookup}
use go_steam_ws.SteamId.{get, get_account_type}
use go_steam_ws.SocialCache.Keyed.{IsCache}
use go_steam_ws.SocialCache.Friends
use go_steam_ws.SocialCache.Friends.{Friend, FriendsList, friend_key, new_friends_list}
use go_steam_ws.SocialCache.FriendLaws.{names, change, by_id-change}
use go_steam_ws.SocialCache.Groups
use go_steam_ws.SocialCache.Groups.{Group, GroupsList}
use go_steam_ws.SocialCache.GroupLaws.{by_id_chat_never}
use go_steam_ws.SocialCache.Chats.{ChatMember, ChatsList}

abbrev friend : ℕ → Friend
friend id = record {
  steam_id = id;
  name = 65 ∷ [];
  avatar = [];
  relationship = 3;
  persona_state = 1;
  persona_state_flags = 0;
  game_app_id = 0;
  game_id = 0;
  game_name = [];
}

abbrev two_friends : FriendsList
two_friends = (1, friend 1) ∷ (2, friend 2) ∷ []

by_id-change_example :
    Friends.by_id (change two_friends (names 2 (66 ∷ []))) 2
    ≡ some (record (friend 2) { name = 66 ∷ [] })
unfolding Friends.by_id lookup
by_id-change_example = by_id-change two_friends (names 2 (66 ∷ [])) 2

two_friends-IsCache : IsCache friend_key two_friends
two_friends-IsCache = record { once = ((ground arith, tt), (tt, tt)); keyed = (refl, (refl, tt)) }

abbrev clan : ℕ
clan = 103582791429521412

abbrev chat : ℕ
chat = 110338190870577156

abbrev group : ℕ → Group
group id = record {
  steam_id = id;
  name = [];
  avatar = [];
  relationship = 3;
  member_total_count = 0;
  member_online_count = 0;
  member_chatting_count = 0;
  member_in_game_count = 0;
}

abbrev one_group : GroupsList
one_group = (clan, group clan) ∷ []

by_id-chat_example :
    Groups.by_id (Groups.add one_group (group chat)) chat ≡ Groups.by_id one_group chat
unfolding get_account_type get
by_id-chat_example = by_id_chat_never one_group (group chat) chat (ground arith) refl

abbrev member : ℕ → ChatMember
member id = record { steam_id = id; chat_permissions = 0; clan_permissions = 0 }

abbrev one_chat : ChatsList
one_chat = (8, record { steam_id = 8; group_id = 0; chat_members = none }) ∷ []
