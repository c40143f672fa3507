-- ===== src/SteamId/Chat.antt =====
-- ClanToChat and ChatToClan.
use go_steam_ws.Base.{ℕ, ◌≡◌, ◌≢◌, ◌==◌, if◌then◌else◌}
use go_steam_ws.SteamId.{
  clan_flag, get_account_type, get_account_instance, clan_to_chat, chat_to_clan,
}
use go_steam_ws.SteamId.Fields.{gets, sets, parts, IsSteamId}

-- On a uint64, ClanToChat turns a clan id into the id of its chat, which has the instance of the
-- clan flag, and leaves any other id alone.
pub parts-clan_to_chat :
    (s : ℕ)
    → IsSteamId s
    → parts (clan_to_chat s) ≡ (
        if get_account_type s == 7
        then record (parts s) { instance_ = clan_flag; account_type = 8 }
        else parts s)
unfolding clan_to_chat
parts-clan_to_chat s h = grind (gets, sets)

-- On a uint64, ChatToClan turns the id of a clan's chat into a clan id with instance 0, and leaves any other id
-- alone.
pub parts-chat_to_clan :
    (s : ℕ)
    → IsSteamId s
    → parts (chat_to_clan s) ≡ (
        if get_account_type s == 8
        then record (parts s) { instance_ = 0; account_type = 7 }
        else parts s)
unfolding chat_to_clan
parts-chat_to_clan s h = grind (gets, sets)

-- On a uint64, a clan id with instance 0 comes back from its chat id.
pub chat_to_clan-clan_to_chat :
    (s : ℕ)
    → IsSteamId s
    → get_account_type s ≡ 7
    → get_account_instance s ≡ 0
    → chat_to_clan (clan_to_chat s) ≡ s
unfolding chat_to_clan clan_to_chat
chat_to_clan-clan_to_chat s h t i = grind (gets, sets)

-- On a uint64, after ChatToClan no chat id is left, so a second call changes nothing.
pub chat_to_clan_idem :
    (s : ℕ)
    → IsSteamId s
    → (get_account_type (chat_to_clan s) ≢ 8) × (chat_to_clan (chat_to_clan s) ≡ chat_to_clan s)
unfolding chat_to_clan
chat_to_clan_idem s h = (grind (gets, sets), grind (gets, sets))
