-- ===== src/Social/PersonaEntries.antt =====
-- What a persona state does to the entry of each id in the friends list.
use go_steam_ws.Base.{ℕ, true, false, ◌&&◌, ◌≡◌, Option, none, some, ◌==◌, if◌then◌else◌, arith}
use go_steam_ws.Base.Store.{lookup, lookup-adjust, adjust}
use go_steam_ws.Social.{Social}
use go_steam_ws.Social.Avatar.{valid_avatar}
use go_steam_ws.Social.Messages.{CMsgClientPersonaStateFriend}
use go_steam_ws.Social.Presence.{
  has_flag, named, player_name_flag, presence_flag, game_data_blob_flag, friend_name, friend_avatar,
  friend_presence, friend_game, friend_persona,
}
use go_steam_ws.SocialCache.Friends
use go_steam_ws.SocialCache.Friends.{Friend, FriendsList, friend_key, by_id}
use mathlib.Core.Option

-- A change of the friend that the message is about.
abbrev about : ℕ → ℕ → (Friend → Friend) → Option Friend → Option Friend
about id j u o = if id == j then Option.map u o else o

about_twice :
    (id j : ℕ) (u v : Friend → Friend) (o : Option Friend)
    → about id j u (about id j v o) ≡ about id j (λ g. u (v g)) o
about_twice id j u v none = ground arith
about_twice id j u v (some g) = ground arith

-- A further change of the same friend.
and_also :
    (id j : ℕ) (u v : Friend → Friend) (l : FriendsList) (o : Option Friend)
    → lookup j l ≡ about id j v o
    → lookup j (adjust id u l) ≡ about id j (λ g. u (v g)) o
and_also id j u v l o e = rw (lookup-adjust id j u l, e) (about_twice id j u v o)

about_nothing : (id j : ℕ) (o : Option Friend) → o ≡ about id j (λ g. g) o
about_nothing id j none = ground arith
about_nothing id j (some g) = ground arith

unfoldable pub with_name : ℕ → CMsgClientPersonaStateFriend → Friend → Friend
with_name flags f g = record g {
  name = if has_flag flags player_name_flag && named f then f.player_name else g.name;
}

unfoldable pub with_presence : ℕ → CMsgClientPersonaStateFriend → Friend → Friend
with_presence flags f g =
    if has_flag flags presence_flag
    then record g {
      avatar = if valid_avatar f.avatar_hash then f.avatar_hash else g.avatar;
      persona_state = f.persona_state;
      persona_state_flags = f.persona_state_flags;
    }
    else g

unfoldable pub with_game : ℕ → CMsgClientPersonaStateFriend → Friend → Friend
with_game flags f g =
    if has_flag flags game_data_blob_flag
    then record g {
      game_app_id = f.game_played_app_id;
      game_id = f.gameid;
      game_name = f.game_name;
    }
    else g

by_id-friend_name :
    (flags j : ℕ) (f : CMsgClientPersonaStateFriend) (l : FriendsList)
    → lookup j (friend_name flags f l) ≡ about f.friendid j (with_name flags f) (lookup j l)
unfolding friend_name with_name Friends.set_name
by_id-friend_name flags j f l =
    elim (has_flag flags player_name_flag && named f)
      as (λ b.
        lookup j (if b then adjust f.friendid (λ g. record g { name = f.player_name }) l else l)
        ≡ about f.friendid j (λ g. record g { name = if b then f.player_name else g.name })
            (lookup j l)) [
              | true ↦ lookup-adjust f.friendid j _ l
              | false ↦ about_nothing f.friendid j (lookup j l)
            ]

by_id-friend_avatar :
    (j : ℕ) (f : CMsgClientPersonaStateFriend) (l : FriendsList)
    → lookup j (friend_avatar f l)
      ≡ about f.friendid j
          (λ g. record g {
            avatar = if valid_avatar f.avatar_hash then f.avatar_hash else g.avatar;
          })
          (lookup j l)
unfolding friend_avatar Friends.set_avatar
by_id-friend_avatar j f l =
    elim (valid_avatar f.avatar_hash)
      as (λ b.
        lookup j (if b then adjust f.friendid (λ g. record g { avatar = f.avatar_hash }) l else l)
        ≡ about f.friendid j (λ g. record g { avatar = if b then f.avatar_hash else g.avatar })
            (lookup j l)) [
              | true ↦ lookup-adjust f.friendid j _ l
              | false ↦ about_nothing f.friendid j (lookup j l)
            ]

by_id-friend_presence :
    (flags j : ℕ) (f : CMsgClientPersonaStateFriend) (l : FriendsList)
    → lookup j (friend_presence flags f l) ≡ about f.friendid j (with_presence flags f) (lookup j l)
unfolding friend_presence with_presence Friends.set_persona_state Friends.set_persona_state_flags
by_id-friend_presence flags j f l =
    elim (has_flag flags presence_flag)
      as (λ b.
        lookup j (
          if b
          then adjust f.friendid (λ g. record g { persona_state_flags = f.persona_state_flags })
              (adjust f.friendid (λ g. record g { persona_state = f.persona_state })
                (friend_avatar f l))
          else l)
        ≡ about f.friendid j
            (λ g.
              if b
              then record g {
                avatar = if valid_avatar f.avatar_hash then f.avatar_hash else g.avatar;
                persona_state = f.persona_state;
                persona_state_flags = f.persona_state_flags;
              }
              else g)
            (lookup j l)) [
              | true ↦
                  and_also f.friendid j _ _ _ (lookup j l)
                    (and_also f.friendid j _ _ _ (lookup j l) (by_id-friend_avatar j f l))
              | false ↦ about_nothing f.friendid j (lookup j l)
            ]

by_id-friend_game :
    (flags j : ℕ) (f : CMsgClientPersonaStateFriend) (l : FriendsList)
    → lookup j (friend_game flags f l) ≡ about f.friendid j (with_game flags f) (lookup j l)
unfolding friend_game with_game Friends.set_game_app_id Friends.set_game_id Friends.set_game_name
by_id-friend_game flags j f l =
    elim (has_flag flags game_data_blob_flag)
      as (λ b.
        lookup j (
          if b
          then adjust f.friendid (λ g. record g { game_name = f.game_name })
              (adjust f.friendid (λ g. record g { game_id = f.gameid })
                (adjust f.friendid (λ g. record g { game_app_id = f.game_played_app_id }) l))
          else l)
        ≡ about f.friendid j
            (λ g.
              if b
              then record g {
                game_app_id = f.game_played_app_id;
                game_id = f.gameid;
                game_name = f.game_name;
              }
              else g)
            (lookup j l)) [
              | true ↦
                  and_also f.friendid j _ _ _ (lookup j l)
                    (and_also f.friendid j _ _ _ (lookup j l) (lookup-adjust f.friendid j _ l))
              | false ↦ about_nothing f.friendid j (lookup j l)
            ]

-- A persona state about a friend changes the entry of that id and no other: the name if the flags
-- announce it and it is not empty, the presence and a valid avatar if the flags announce them, the
-- game if they announce its data.
pub by_id-friend_persona :
    (flags j : ℕ) (f : CMsgClientPersonaStateFriend) (s : Social)
    → by_id (friend_persona flags f s).friends j ≡ (
        if f.friendid == j
        then Option.map
            (λ g. with_game flags f (with_presence flags f (with_name flags f g)))
            (by_id s.friends j)
        else by_id s.friends j)
unfolding friend_persona by_id
by_id-friend_persona flags j f s =
    rw
      (
        by_id-friend_game flags j f (friend_presence flags f (friend_name flags f s.friends)),
        by_id-friend_presence flags j f (friend_name flags f s.friends),
        by_id-friend_name flags j f s.friends,
        about_twice f.friendid j (with_presence flags f) (with_name flags f) (lookup j s.friends),
      )
      (about_twice f.friendid j (with_game flags f) _ (lookup j s.friends))
