-- ===== src/Social/Caches.antt =====
-- The three lists of the social part stay maps of ids to what has that id.
use go_steam_ws.Base.{ℕ, Bool, true, false, refl, List, [], ◌∷◌, if◌then◌else◌, ◌==◌}
use go_steam_ws.Social.{Social}
use go_steam_ws.Social.Messages.{
  CMsgClientFriendsListFriend, CMsgClientFriendsList, CMsgClientPersonaStateFriend,
}
use go_steam_ws.Social.Presence.{
  list_group, list_friend, list_entry, list_entries, handle_friends_list, own_persona, friend_name,
  friend_avatar, friend_presence, friend_game, friend_persona, group_name, group_avatar,
  group_persona, note_persona, persona_entry, persona_entries, plain_group, plain_friend,
}
use go_steam_ws.Social.Requests.{request_friend_list_info}
use go_steam_ws.SocialCache.Chats.{ChatsList, chat_key}
use go_steam_ws.SocialCache.Friends
use go_steam_ws.SocialCache.Friends.{FriendsList, friend_key, new_friends_list}
use go_steam_ws.SocialCache.Groups
use go_steam_ws.SocialCache.Groups.{GroupsList, group_key, new_groups_list}
use go_steam_ws.SocialCache.Keyed.{IsCache, add_new-IsCache, erase-IsCache, adjust-IsCache}
use go_steam_ws.SteamId.{chat_to_clan, get_account_type}

abbrev pub IsFriends : FriendsList → Type 0
IsFriends list = IsCache friend_key list

abbrev pub IsGroups : GroupsList → Type 0
IsGroups list = IsCache group_key list

abbrev pub IsChats : ChatsList → Type 0
IsChats list = IsCache chat_key list

pub record IsSocial (s : Social) : Type 0 where
  pub friends : IsFriends s.friends
  pub groups : IsGroups s.groups
  pub chats : IsChats s.chats

-- Both branches of a test.
pub either : {A : Type 0} (P : A → Type 0) (b : Bool) (x y : A) → P x → P y → P (if b then x else y)
either P true x y p q = p
either P false x y p q = q

list_group-IsGroups :
    (id rel : ℕ) (s : Social) → IsGroups s.groups → IsGroups (list_group id rel s).groups
unfolding list_group Groups.add Groups.remove
list_group-IsGroups id rel s h =
    either IsGroups (rel == 0) _ _ (erase-IsCache group_key id s.groups h)
      (add_new-IsCache group_key (plain_group id rel) s.groups h)

list_friend-IsFriends :
    (id rel : ℕ) (s : Social) → IsFriends s.friends → IsFriends (list_friend id rel s).friends
unfolding list_friend Friends.add Friends.remove
list_friend-IsFriends id rel s h =
    either IsFriends (rel == 0) _ _ (erase-IsCache friend_key id s.friends h)
      (add_new-IsCache friend_key (plain_friend id rel) s.friends h)

list_entry-IsSocial :
    (incremental : Bool) (f : CMsgClientFriendsListFriend) (s : Social)
    → IsSocial s
    → IsSocial (list_entry incremental f s)
unfolding list_entry list_group list_friend
list_entry-IsSocial incremental f s h =
    let g = list_group-IsGroups f.ulfriendid f.efriendrelationship s h.groups in
    let k = list_friend-IsFriends f.ulfriendid f.efriendrelationship s h.friends in
    either IsSocial _ _ _
      (either IsSocial incremental _ _ (record { friends = h.friends; groups = g; chats = h.chats })
        (record { friends = h.friends; groups = g; chats = h.chats }))
      (either IsSocial incremental _ _ (record { friends = k; groups = h.groups; chats = h.chats })
        (record { friends = k; groups = h.groups; chats = h.chats }))

list_entries-IsSocial :
    (incremental : Bool) (fs : List CMsgClientFriendsListFriend) (s : Social)
    → IsSocial s
    → IsSocial (list_entries incremental fs s)
unfolding list_entries
list_entries-IsSocial incremental [] s h = h
list_entries-IsSocial incremental (f ∷ fs) s h =
    list_entries-IsSocial incremental fs (list_entry incremental f s)
      (list_entry-IsSocial incremental f s h)

pub handle_friends_list-IsSocial :
    (list : CMsgClientFriendsList) (s : Social) → IsSocial s → IsSocial (handle_friends_list list s)
unfolding handle_friends_list request_friend_list_info
handle_friends_list-IsSocial list s h =
    let k = list_entries-IsSocial list.bincremental list.friends s h in
    either IsSocial list.bincremental _ _ k
      (record { friends = k.friends; groups = k.groups; chats = k.chats })

friend_name-IsFriends :
    (flags : ℕ) (f : CMsgClientPersonaStateFriend) (l : FriendsList)
    → IsFriends l
    → IsFriends (friend_name flags f l)
unfolding friend_name Friends.set_name
friend_name-IsFriends flags f l h =
    either IsFriends _ _ _ (adjust-IsCache friend_key f.friendid _ l (λ g. refl) h) h

friend_avatar-IsFriends :
    (f : CMsgClientPersonaStateFriend) (l : FriendsList)
    → IsFriends l
    → IsFriends (friend_avatar f l)
unfolding friend_avatar Friends.set_avatar
friend_avatar-IsFriends f l h =
    either IsFriends _ _ _ (adjust-IsCache friend_key f.friendid _ l (λ g. refl) h) h

friend_presence-IsFriends :
    (flags : ℕ) (f : CMsgClientPersonaStateFriend) (l : FriendsList)
    → IsFriends l
    → IsFriends (friend_presence flags f l)
unfolding friend_presence Friends.set_persona_state Friends.set_persona_state_flags
friend_presence-IsFriends flags f l h =
    either IsFriends _ _ _
      (adjust-IsCache friend_key f.friendid _ _ (λ g. refl)
        (adjust-IsCache friend_key f.friendid _ _ (λ g. refl) (friend_avatar-IsFriends f l h)))
      h

friend_game-IsFriends :
    (flags : ℕ) (f : CMsgClientPersonaStateFriend) (l : FriendsList)
    → IsFriends l
    → IsFriends (friend_game flags f l)
unfolding friend_game Friends.set_game_app_id Friends.set_game_id Friends.set_game_name
friend_game-IsFriends flags f l h =
    either IsFriends _ _ _
      (adjust-IsCache friend_key f.friendid _ _ (λ g. refl)
        (adjust-IsCache friend_key f.friendid _ _ (λ g. refl)
          (adjust-IsCache friend_key f.friendid _ l (λ g. refl) h)))
      h

group_name-IsGroups :
    (flags : ℕ) (f : CMsgClientPersonaStateFriend) (l : GroupsList)
    → IsGroups l
    → IsGroups (group_name flags f l)
unfolding group_name Groups.set_name
group_name-IsGroups flags f l h =
    either IsGroups _ _ _ (adjust-IsCache group_key (chat_to_clan f.friendid) _ l (λ g. refl) h) h

group_avatar-IsGroups :
    (flags : ℕ) (f : CMsgClientPersonaStateFriend) (l : GroupsList)
    → IsGroups l
    → IsGroups (group_avatar flags f l)
unfolding group_avatar Groups.set_avatar
group_avatar-IsGroups flags f l h =
    either IsGroups _ _ _ (adjust-IsCache group_key (chat_to_clan f.friendid) _ l (λ g. refl) h) h

note_persona-IsSocial :
    (flags : ℕ) (f : CMsgClientPersonaStateFriend) (s : Social)
    → IsSocial s
    → IsSocial (note_persona flags f s)
unfolding note_persona own_persona friend_persona group_persona
note_persona-IsSocial flags f s h =
    either IsSocial (f.friendid == s.client_id) (own_persona f s) _
      (record { friends = h.friends; groups = h.groups; chats = h.chats })
      (either IsSocial (get_account_type f.friendid == 1) (friend_persona flags f s) _
        (record {
          friends =
              friend_game-IsFriends flags f _
                (friend_presence-IsFriends flags f _ (friend_name-IsFriends flags f _ h.friends));
          groups = h.groups;
          chats = h.chats;
        })
        (either IsSocial (get_account_type f.friendid == 7) (group_persona flags f s) s
          (record {
            friends = h.friends;
            groups = group_avatar-IsGroups flags f _ (group_name-IsGroups flags f _ h.groups);
            chats = h.chats;
          })
          h))

pub persona_entries-IsSocial :
    (flags : ℕ) (fs : List CMsgClientPersonaStateFriend) (s : Social)
    → IsSocial s
    → IsSocial (persona_entries flags fs s)
unfolding persona_entries persona_entry
persona_entries-IsSocial flags [] s h = h
persona_entries-IsSocial flags (f ∷ fs) s h =
    let k = note_persona-IsSocial flags f s h in
    persona_entries-IsSocial flags fs (persona_entry flags f s)
      (record { friends = k.friends; groups = k.groups; chats = k.chats })
