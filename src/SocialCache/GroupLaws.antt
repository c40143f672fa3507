-- ===== src/SocialCache/GroupLaws.antt =====
-- The groups list, which may be asked by the id of a group or by that of its chat.
use go_steam_ws.Base.{ℕ, ◌≡◌, refl, none, some, List, ◌==◌, if◌then◌else◌, arith}
use go_steam_ws.Base.Store.{lookup, lookup-adjust}
use go_steam_ws.SocialCache.Keyed.{lookup-add_new}
use go_steam_ws.SocialCache.Groups
use go_steam_ws.SocialCache.Groups.{Group, GroupsList, group_key, new_groups_list}
use go_steam_ws.SteamId.{chat_to_clan, clan_to_chat, get_account_type, get_account_instance}
use go_steam_ws.SteamId.Fields.{IsSteamId}
use go_steam_ws.SteamId.Chat.{chat_to_clan-clan_to_chat, chat_to_clan_idem}
use mathlib.Core.Option

-- The setters, as one call each.
pub data Setter : Type 0 where
  names : List ℕ → Setter
  avatars : List ℕ → Setter
  relationships : ℕ → Setter
  member_totals : ℕ → Setter
  members_online : ℕ → Setter
  members_chatting : ℕ → Setter
  members_in_game : ℕ → Setter

unfoldable pub set : GroupsList → ℕ → Setter → GroupsList
set l id (names v) = Groups.set_name l id v
set l id (avatars v) = Groups.set_avatar l id v
set l id (relationships v) = Groups.set_relationship l id v
set l id (member_totals v) = Groups.set_member_total_count l id v
set l id (members_online v) = Groups.set_member_online_count l id v
set l id (members_chatting v) = Groups.set_member_chatting_count l id v
set l id (members_in_game v) = Groups.set_member_in_game_count l id v

-- The field that a setter writes.
abbrev pub written : Setter → Group → Group
written (names v) g = record g { name = v }
written (avatars v) g = record g { avatar = v }
written (relationships v) g = record g { relationship = v }
written (member_totals v) g = record g { member_total_count = v }
written (members_online v) g = record g { member_online_count = v }
written (members_chatting v) g = record g { member_chatting_count = v }
written (members_in_game v) g = record g { member_in_game_count = v }

-- After a setter, ById finds for every id the group with the written field if both ids stand for
-- the same group, and what it found before if not.
pub by_id-set :
    (l : GroupsList) (id j : ℕ) (c : Setter)
    → Groups.by_id (set l id c) j ≡ (
        if chat_to_clan id == chat_to_clan j
        then Option.map (written c) (Groups.by_id l j)
        else Groups.by_id l j)
unfolding set Groups.by_id Groups.set_name Groups.set_avatar Groups.set_relationship
    Groups.set_member_total_count Groups.set_member_online_count Groups.set_member_chatting_count
    Groups.set_member_in_game_count
by_id-set l id j (names v) = lookup-adjust (chat_to_clan id) (chat_to_clan j) _ l
by_id-set l id j (avatars v) = lookup-adjust (chat_to_clan id) (chat_to_clan j) _ l
by_id-set l id j (relationships v) = lookup-adjust (chat_to_clan id) (chat_to_clan j) _ l
by_id-set l id j (member_totals v) = lookup-adjust (chat_to_clan id) (chat_to_clan j) _ l
by_id-set l id j (members_online v) = lookup-adjust (chat_to_clan id) (chat_to_clan j) _ l
by_id-set l id j (members_chatting v) = lookup-adjust (chat_to_clan id) (chat_to_clan j) _ l
by_id-set l id j (members_in_game v) = lookup-adjust (chat_to_clan id) (chat_to_clan j) _ l

-- A clan, of a uint64 id with instance 0, is found by the id of its chat as by its own.
pub by_id-clan_to_chat :
    (l : GroupsList) (id : ℕ)
    → IsSteamId id
    → get_account_type id ≡ 7
    → get_account_instance id ≡ 0
    → (Groups.by_id l (clan_to_chat id) ≡ lookup id l) × (Groups.by_id l id ≡ lookup id l)
unfolding Groups.by_id chat_to_clan
by_id-clan_to_chat l id h t i = (rw (chat_to_clan-clan_to_chat id h t i) refl, ground arith)

by_id-add :
    (l : GroupsList) (g : Group) (j : ℕ)
    → Groups.by_id (Groups.add l g) j ≡ (elim (Groups.by_id l j) [
      | none ↦ if g.steam_id == chat_to_clan j then some g else none
      | some w ↦ some w
    ])
unfolding Groups.by_id Groups.add
by_id-add l g j = lookup-add_new group_key g (chat_to_clan j) l

-- Adding a group whose own id is that of a chat changes what ById finds for no uint64 at all, since
-- ById looks for the id of a clan and Add takes the id as it is.
pub by_id_chat_never :
    (l : GroupsList) (g : Group) (j : ℕ)
    → IsSteamId j
    → get_account_type g.steam_id ≡ 8
    → Groups.by_id (Groups.add l g) j ≡ Groups.by_id l j
unfolding Groups.by_id Groups.add
by_id_chat_never l g j h t = ground (arith, by_id-add l g j, (chat_to_clan_idem j h).0)
