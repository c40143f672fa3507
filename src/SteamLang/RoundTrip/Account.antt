-- ===== src/SteamLang/RoundTrip/Account.antt =====
-- What Serialize writes and Deserialize reads back: the bodies about the account and its session.
use go_steam_ws.Base.{ℕ, ◌^◌, ◌<◌, ◌≡◌, List, [], ◌++◌, length, length-replicate}
use go_steam_ws.Io.{le_bytes}
use go_steam_ws.Io.Carries.{Carries, store_int, fill_bytes, nothing, ◌then◌}
use go_steam_ws.Rwu.{read_uint32, read_int32}
use go_steam_ws.SteamLang.Messages.Account.{
  MsgClientJustStrings, new_msg_client_just_strings, client_just_strings_body,
  MsgClientGenericResponse, new_msg_client_generic_response, client_generic_response_body,
  MsgClientNewLoginKey, new_msg_client_new_login_key, client_new_login_key_body,
  MsgClientNewLoginKeyAccepted, new_msg_client_new_login_key_accepted,
  client_new_login_key_accepted_body, MsgClientLogon, new_msg_client_logon, client_logon_body,
}

abbrev pub FitsMsgClientJustStrings : MsgClientJustStrings → Type 0
FitsMsgClientJustStrings b = Unit

abbrev pub msg_client_just_strings_bytes : MsgClientJustStrings → List ℕ
msg_client_just_strings_bytes b = []

pub msg_client_just_strings-Carries :
    (b : MsgClientJustStrings)
    → FitsMsgClientJustStrings b
    → Carries
        (client_just_strings_body.serialize b)
        client_just_strings_body.deserialize
        (msg_client_just_strings_bytes b)
        0
        new_msg_client_just_strings
        b
unfolding new_msg_client_just_strings
msg_client_just_strings-Carries b h = nothing _

abbrev pub FitsMsgClientGenericResponse : MsgClientGenericResponse → Type 0
FitsMsgClientGenericResponse b = b.result < 2 ^ 32

abbrev pub msg_client_generic_response_bytes : MsgClientGenericResponse → List ℕ
msg_client_generic_response_bytes b = le_bytes 4 b.result

pub msg_client_generic_response-Carries :
    (b : MsgClientGenericResponse)
    → FitsMsgClientGenericResponse b
    → Carries
        (client_generic_response_body.serialize b)
        client_generic_response_body.deserialize
        (msg_client_generic_response_bytes b)
        4
        new_msg_client_generic_response
        b
unfolding read_int32
msg_client_generic_response-Carries b h = store_int _ 4 b.result _ h

abbrev pub FitsMsgClientNewLoginKey : MsgClientNewLoginKey → Type 0
FitsMsgClientNewLoginKey b = (b.unique_id < 2 ^ 32) × (length b.login_key ≡ 20)

abbrev pub msg_client_new_login_key_bytes : MsgClientNewLoginKey → List ℕ
msg_client_new_login_key_bytes b = le_bytes 4 b.unique_id ++ b.login_key

pub msg_client_new_login_key-Carries :
    (b : MsgClientNewLoginKey)
    → FitsMsgClientNewLoginKey b
    → Carries
        (client_new_login_key_body.serialize b)
        client_new_login_key_body.deserialize
        (msg_client_new_login_key_bytes b)
        24
        new_msg_client_new_login_key
        b
unfolding new_msg_client_new_login_key read_uint32
msg_client_new_login_key-Carries b h =
    store_int _ 4 b.unique_id _ h.0
    then fill_bytes _ _ b.login_key _ h.1 (rw (h.1, length-replicate {A = ℕ} 20 0))

abbrev pub FitsMsgClientNewLoginKeyAccepted : MsgClientNewLoginKeyAccepted → Type 0
FitsMsgClientNewLoginKeyAccepted b = b.unique_id < 2 ^ 32

abbrev pub msg_client_new_login_key_accepted_bytes : MsgClientNewLoginKeyAccepted → List ℕ
msg_client_new_login_key_accepted_bytes b = le_bytes 4 b.unique_id

pub msg_client_new_login_key_accepted-Carries :
    (b : MsgClientNewLoginKeyAccepted)
    → FitsMsgClientNewLoginKeyAccepted b
    → Carries
        (client_new_login_key_accepted_body.serialize b)
        client_new_login_key_accepted_body.deserialize
        (msg_client_new_login_key_accepted_bytes b)
        4
        new_msg_client_new_login_key_accepted
        b
unfolding read_uint32
msg_client_new_login_key_accepted-Carries b h = store_int _ 4 b.unique_id _ h

abbrev pub FitsMsgClientLogon : MsgClientLogon → Type 0
FitsMsgClientLogon b = Unit

abbrev pub msg_client_logon_bytes : MsgClientLogon → List ℕ
msg_client_logon_bytes b = []

pub msg_client_logon-Carries :
    (b : MsgClientLogon)
    → FitsMsgClientLogon b
    → Carries
        (client_logon_body.serialize b)
        client_logon_body.deserialize
        (msg_client_logon_bytes b)
        0
        new_msg_client_logon
        b
unfolding new_msg_client_logon
msg_client_logon-Carries b h = nothing _
