-- ===== src/Social/RoomCaches.antt =====
-- The handlers for clans, chat rooms and histories keep the lists of the social part well formed.
use go_steam_ws.Base.{
  Option-cases, ◌∙◌, inl, inr, ℕ, zero, suc, ◌≡◌, refl, none, some, List, [], ◌∷◌, ◌==◌, Option,
}
use go_steam_ws.Base.Store.{insert, lookup, Store}
use go_steam_ws.Io.{Reader}
use go_steam_ws.Protocol.StructMsg.{ClientMsg}
use go_steam_ws.Social.{Social}
use go_steam_ws.Social.Caches.{IsGroups, IsChats, IsSocial, either}
use go_steam_ws.Social.Clans.{put_name, put_counts, handle_clan_state}
use go_steam_ws.Social.Dispatch.{tell_history}
use go_steam_ws.Social.Messages.{
  CMsgClientClanState, CMsgClientClanStateNameInfo, CMsgClientClanStateUserCounts, FriendMessage,
}
use go_steam_ws.Social.Rooms.{
  enter_members, handle_chat_enter, change_member, handle_state_change, handle_chat_member_info,
  is_gone,
}
use go_steam_ws.SocialCache.Chats
use go_steam_ws.SocialCache.Chats.{
  Chat, ChatMember, ChatsList, chat_key, new_chats_list, with_member, without_member,
}
use go_steam_ws.SocialCache.Groups
use go_steam_ws.SocialCache.Groups.{GroupsList, group_key, new_groups_list}
use go_steam_ws.SocialCache.Keyed.{add_new-IsCache, insert-IsCache, adjust-IsCache, keyed-lookup}
use go_steam_ws.SteamLang.Messages.Chat.{MsgClientChatEnter, MsgClientChatMemberInfo}
use go_steam_ws.SteamId.{chat_to_clan}

put_name-IsGroups :
    (id : ℕ) (o : Option CMsgClientClanStateNameInfo) (l : GroupsList)
    → IsGroups l
    → IsGroups (put_name id o l)
unfolding put_name Groups.set_name Groups.set_avatar
put_name-IsGroups id none l h = h
put_name-IsGroups id (some info) l h =
    adjust-IsCache group_key (chat_to_clan id) _ _ (λ g. refl)
      (adjust-IsCache group_key (chat_to_clan id) _ l (λ g. refl) h)

put_counts-IsGroups :
    (id : ℕ) (o : Option CMsgClientClanStateUserCounts) (l : GroupsList)
    → IsGroups l
    → IsGroups (put_counts id o l)
unfolding put_counts Groups.set_member_total_count Groups.set_member_online_count
    Groups.set_member_chatting_count Groups.set_member_in_game_count
put_counts-IsGroups id none l h = h
put_counts-IsGroups id (some counts) l h =
    adjust-IsCache group_key (chat_to_clan id) _ _ (λ g. refl)
      (adjust-IsCache group_key (chat_to_clan id) _ _ (λ g. refl)
        (adjust-IsCache group_key (chat_to_clan id) _ _ (λ g. refl)
          (adjust-IsCache group_key (chat_to_clan id) _ l (λ g. refl) h)))

pub handle_clan_state-IsSocial :
    (body : CMsgClientClanState) (s : Social) → IsSocial s → IsSocial (handle_clan_state body s)
unfolding handle_clan_state
handle_clan_state-IsSocial body s h = record {
  friends = h.friends;
  groups =
      put_counts-IsGroups body.steamid_clan body.user_counts _
        (put_name-IsGroups body.steamid_clan body.name_info _ h.groups);
  chats = h.chats;
}

-- A chat that the map has keeps its key.
stored-IsChats :
    (l : ChatsList) (id : ℕ) (chat new : Chat)
    → IsChats l
    → lookup id l ≡ some chat
    → new.steam_id ≡ chat.steam_id
    → IsChats (insert id new l)
stored-IsChats l id chat new h e same =
    insert-IsCache chat_key id new l (same ∙ keyed-lookup chat_key id chat l h.keyed e) h

add_chat_member-IsChats :
    (l : ChatsList) (id : ℕ) (m : ChatMember) → IsChats l → IsChats (Chats.add_chat_member l id m)
unfolding Chats.add_chat_member
add_chat_member-IsChats l id m h = elim (Option-cases (lookup id l)) [
  | inl e ↦ rw (Chats.add_chat_member, e) (insert-IsCache chat_key id _ l refl h)
  | inr (chat, e) ↦ rw (Chats.add_chat_member, e) (stored-IsChats l id chat _ h e refl)
]

without_member_key :
    (gone : ℕ) (chat : Chat) (o : Option (Store ChatMember))
    → (without_member gone chat o).steam_id ≡ chat.steam_id
unfolding without_member
without_member_key gone chat none = refl
without_member_key gone chat (some ms) = refl

remove_chat_member-IsChats :
    (l : ChatsList) (id gone : ℕ) → IsChats l → IsChats (Chats.remove_chat_member l id gone)
unfolding Chats.remove_chat_member
remove_chat_member-IsChats l id gone h = elim (Option-cases (lookup id l)) [
  | inl e ↦ rw (Chats.remove_chat_member, e) h
  | inr (chat, e) ↦
      rw (Chats.remove_chat_member, e)
        (stored-IsChats l id chat _ h e (without_member_key gone chat chat.chat_members))
]

enter_members-IsChats :
    (n id : ℕ) (r : Reader) (l : ChatsList) → IsChats l → IsChats (enter_members n id r l)
unfolding enter_members
enter_members-IsChats zero id r l h = h
enter_members-IsChats (suc n) id r l h =
    enter_members-IsChats n id _ _ (add_chat_member-IsChats l id _ h)

rooms-IsSocial :
    (s : Social) (l : ChatsList) → IsSocial s → IsChats l → IsSocial (record s { chats = l })
rooms-IsSocial s l h k = record { friends = h.friends; groups = h.groups; chats = k }

pub handle_chat_enter-IsSocial :
    (msg : ClientMsg MsgClientChatEnter) (s : Social)
    → IsSocial s
    → IsSocial (handle_chat_enter msg s)
unfolding handle_chat_enter Chats.add
handle_chat_enter-IsSocial msg s h = record {
  friends = h.friends;
  groups = h.groups;
  chats = search (enter_members-IsChats, add_new-IsCache);
}

change_member-IsChats :
    (chat change acted_on : ℕ) (r : Reader) (l : ChatsList)
    → IsChats l
    → IsChats (change_member chat change acted_on r l)
unfolding change_member
change_member-IsChats chat change acted_on r l h =
    either IsChats (change == 1) _ _ (add_chat_member-IsChats l chat _ h)
      (either IsChats (is_gone change) _ _ (remove_chat_member-IsChats l chat acted_on h) h)

handle_state_change-IsSocial :
    (msg : ClientMsg MsgClientChatMemberInfo) (s : Social)
    → IsSocial s
    → IsSocial (handle_state_change msg s)
unfolding handle_state_change
handle_state_change-IsSocial msg s h = record {
  friends = h.friends;
  groups = h.groups;
  chats = search change_member-IsChats;
}

pub handle_chat_member_info-IsSocial :
    (msg : ClientMsg MsgClientChatMemberInfo) (s : Social)
    → IsSocial s
    → IsSocial (handle_chat_member_info msg s)
unfolding handle_chat_member_info
handle_chat_member_info-IsSocial msg s h =
    either IsSocial (msg.body.type == 1) _ _ (handle_state_change-IsSocial msg s h) h

pub tell_history-IsSocial :
    (friend : ℕ) (ms : List FriendMessage) (s : Social)
    → IsSocial s
    → IsSocial (tell_history friend ms s)
unfolding tell_history
tell_history-IsSocial friend [] s h = h
tell_history-IsSocial friend (m ∷ ms) s h = tell_history-IsSocial friend ms _ (
    either IsSocial m.unread _ _
      (record { friends = h.friends; groups = h.groups; chats = h.chats }) h)
