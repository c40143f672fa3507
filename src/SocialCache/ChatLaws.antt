-- ===== src/SocialCache/ChatLaws.antt =====
-- The members of the chats in the chats list.
use go_steam_ws.Base.{ℕ, ◌≡◌, refl, Option, none, some, [], ◌==◌, if◌then◌else◌, arith}
use go_steam_ws.Base.Store.{Store, lookup, lookup-insert, lookup-erase}
use go_steam_ws.SocialCache.Chats
use go_steam_ws.SocialCache.Chats.{
  Chat, ChatMember, ChatsList, chat_key, members_of, new_chats_list,
}

-- The member `m` of the chat `c`, if there are both.
unfoldable pub member_of : ChatsList → ℕ → ℕ → Option ChatMember
member_of list c m = elim (Chats.by_id list c) [
  | none ↦ none
  | some chat ↦ lookup m (members_of chat.chat_members)
]

without_member_lem :
    (gone m : ℕ) (chat : Chat) (ms : Option (Store ChatMember))
    → chat.chat_members ≡ ms
    → lookup m (members_of (Chats.without_member gone chat ms).chat_members)
      ≡ (if gone == m then none else lookup m (members_of ms))
unfolding Chats.without_member lookup
without_member_lem gone m chat none e = ground arith
without_member_lem gone m chat (some ms) e = ground (arith, lookup-erase gone m ms)

lookup-nil : (m : ℕ) → lookup {V = ChatMember} m [] ≡ none
unfolding lookup
lookup-nil m = refl

-- After AddChatMember the chat has that member, and every other member of every chat is as before.
pub member_of-add_chat_member :
    (l : ChatsList) (id c m : ℕ) (new : ChatMember)
    → member_of (Chats.add_chat_member l id new) c m ≡ (
        if id == c
        then if new.steam_id == m then some new else member_of l c m
        else member_of l c m)
unfolding member_of Chats.by_id Chats.add_chat_member
member_of-add_chat_member l id c m new = grind (arith, lookup-insert, lookup-nil)

-- After RemoveChatMember the chat has no such member, and every other member of every chat is as before.
pub member_of-remove_chat_member :
    (l : ChatsList) (id c m gone : ℕ)
    → member_of (Chats.remove_chat_member l id gone) c m
      ≡ (if id == c then if gone == m then none else member_of l c m else member_of l c m)
unfolding member_of Chats.by_id Chats.remove_chat_member
member_of-remove_chat_member l id c m gone = grind (arith, lookup-insert, without_member_lem)
