-- ===== src/SocialCache/Chats.antt =====
-- socialcache/chats.go. A nil map of members and an empty one read alike: both are the empty
-- store, but `none` is kept apart where the code tests for nil.
use go_steam_ws.Base.{ℕ, Option, none, some, [], length}
use go_steam_ws.Base.Store.{Store, lookup, insert, erase}
use go_steam_ws.SocialCache.Keyed.{add_new}

pub record ChatMember : Type 0 where
  pub steam_id : ℕ
  pub chat_permissions : ℕ
  pub clan_permissions : ℕ

pub record Chat : Type 0 where
  pub steam_id : ℕ
  pub group_id : ℕ
  pub chat_members : Option (Store ChatMember)

abbrev pub chat_key : Chat → ℕ
chat_key c = c.steam_id

abbrev pub ChatsList : Type 0
ChatsList = Store Chat

unfoldable pub new_chats_list : ChatsList
new_chats_list = []

unfoldable pub add : ChatsList → Chat → ChatsList
unfolding add_new
add list chat = add_new chat_key chat list

unfoldable pub remove : ChatsList → ℕ → ChatsList
remove list id = erase id list

-- `chat.ChatMembers[...]`, of a nil map as of an empty one.
abbrev pub members_of : Option (Store ChatMember) → Store ChatMember
members_of none = []
members_of (some m) = m

-- make(map), if it is nil, and then the write.
abbrev pub with_member : ChatMember → Chat → Chat
with_member member chat = record chat {
  chat_members = some (insert member.steam_id member (members_of chat.chat_members));
}

unfoldable pub add_chat_member : ChatsList → ℕ → ChatMember → ChatsList
add_chat_member list id member = elim (lookup id list) [
  | none ↦
      insert id (with_member member (record { steam_id = id; group_id = 0; chat_members = none }))
        list
  | some chat ↦ insert id (with_member member chat) list
]

unfoldable pub without_member : ℕ → Chat → Option (Store ChatMember) → Chat
without_member member chat none = chat
without_member member chat (some m) = record chat { chat_members = some (erase member m) }

unfoldable pub remove_chat_member : ChatsList → ℕ → ℕ → ChatsList
unfolding without_member
remove_chat_member list id member = elim (lookup id list) [
  | none ↦ list
  | some chat ↦ insert id (without_member member chat chat.chat_members) list
]

unfoldable pub get_copy : ChatsList → ChatsList
get_copy list = list

-- `none` is the error "Chat not found".
unfoldable pub by_id : ChatsList → ℕ → Option Chat
by_id list id = lookup id list

unfoldable pub count : ChatsList → ℕ
count list = length list
