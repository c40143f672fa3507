-- ===== src/Examples/Ids.antt =====
-- Steam ids at concrete inputs.
use go_steam_ws.Base.{ℕ, ◌≡◌, refl, arith}
use go_steam_ws.SteamId.{
  get, get_account_instance, get_account_type, set_account_id, set_account_instance,
  set_account_type, set_account_universe, clan_to_chat, chat_to_clan,
}
use go_steam_ws.SteamId.Fields.{parts, parts-set}
use go_steam_ws.SteamId.Chat.{chat_to_clan-clan_to_chat}

-- A user, a clan and the chat of the clan.
abbrev user : ℕ
user = 76561197960265729

abbrev clan : ℕ
clan = 103582791429521412

abbrev chat : ℕ
chat = 110338190870577156

set_example :
    (parts (set_account_id user 7) ≡ record (parts user) { account_id = 7 })
    × (parts (set_account_instance user 7) ≡ record (parts user) { instance_ = 7 })
    × (parts (set_account_type user 7) ≡ record (parts user) { account_type = 7 })
    × (parts (set_account_universe user 7) ≡ record (parts user) { universe = 7 })
set_example = parts-set user 7 (ground arith) (ground arith)

clan_and_back_example : chat_to_clan (clan_to_chat clan) ≡ clan
unfolding get_account_type get_account_instance get
clan_and_back_example = chat_to_clan-clan_to_chat clan (ground arith) refl refl
