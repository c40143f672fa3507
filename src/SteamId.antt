-- ===== src/SteamId.antt =====
-- steamid/steamid.go: the 64-bit id and its four fields. A SteamId and a uintN are numbers below
-- 2 ^ N, an int32 is its bit pattern.
pub mod Fields
pub mod Chat
use go_steam_ws.Base.{ℕ, ◌+◌, ◌-◌, ◌*◌, ◌/◌, ◌%◌, ◌^◌, bit_and, bit_or, ltb, ◌==◌, if◌then◌else◌}

-- ChatInstanceFlag
abbrev pub clan_flag : ℕ
clan_flag = 0x100000 / 2

-- `<<` and `^` on a uint64, and uint64(t) of an int32, which extends the sign.
abbrev shl64 : ℕ → ℕ → ℕ
shl64 x k = x * 2 ^ k % 2 ^ 64

abbrev compl64 : ℕ → ℕ
compl64 x = 2 ^ 64 - 1 - x

abbrev extend32 : ℕ → ℕ
extend32 t = if ltb t (2 ^ 31) then t else t + (2 ^ 64 - 2 ^ 32)

unfoldable pub get : ℕ → ℕ → ℕ → ℕ
get s offset mask = bit_and (s / 2 ^ offset) mask

unfoldable pub set : ℕ → ℕ → ℕ → ℕ → ℕ
set s offset mask value =
    bit_or (bit_and s (compl64 (shl64 mask offset))) (shl64 (bit_and value mask) offset)

unfoldable pub get_account_id : ℕ → ℕ
unfolding get
get_account_id s = get s 0 0xffff_ffff % 2 ^ 32

unfoldable pub set_account_id : ℕ → ℕ → ℕ
unfolding set
set_account_id s id = set s 0 0xffff_ffff id

unfoldable pub get_account_instance : ℕ → ℕ
unfolding get
get_account_instance s = get s 32 0xfffff % 2 ^ 32

unfoldable pub set_account_instance : ℕ → ℕ → ℕ
unfolding set
set_account_instance s value = set s 32 0xfffff value

unfoldable pub get_account_type : ℕ → ℕ
unfolding get
get_account_type s = get s 52 0xf % 2 ^ 32

unfoldable pub set_account_type : ℕ → ℕ → ℕ
unfolding set
set_account_type s t = set s 52 0xf (extend32 t)

unfoldable pub get_account_universe : ℕ → ℕ
unfolding get
get_account_universe s = get s 56 0xf % 2 ^ 32

unfoldable pub set_account_universe : ℕ → ℕ → ℕ
unfolding set
set_account_universe s universe = set s 56 0xf (extend32 universe)

unfoldable pub new_id_adv : ℕ → ℕ → ℕ → ℕ → ℕ
new_id_adv account_id instance_ universe account_type =
    let s = set_account_id 0 account_id in
    let s = set_account_instance s instance_ in
    let s = set_account_universe s universe in set_account_type s account_type

unfoldable pub to_uint64 : ℕ → ℕ
to_uint64 s = s

-- EAccountType_Clan is 7 and EAccountType_Chat is 8.
unfoldable pub clan_to_chat : ℕ → ℕ
clan_to_chat s =
    if get_account_type s == 7 then set_account_type (set_account_instance s clan_flag) 8 else s

unfoldable pub chat_to_clan : ℕ → ℕ
chat_to_clan s =
    if get_account_type s == 8 then set_account_type (set_account_instance s 0) 7 else s
