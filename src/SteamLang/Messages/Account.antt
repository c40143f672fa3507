-- ===== src/SteamLang/Messages/Account.antt =====
-- protocol/steamlang/messages.go: the bodies about the account and its session.
use go_steam_ws.Base.{ℕ, List, replicate}
use go_steam_ws.Io.{◌>>◌, write_int, write_bytes}
use go_steam_ws.Io.Steps.{store, ◌>>>◌}
use go_steam_ws.Io.Carries.{fill, write_nothing, read_nothing}
use go_steam_ws.Rwu.{read_uint32, read_int32}
use go_steam_ws.SteamLang.Bodies.{MessageBody}

pub record MsgClientJustStrings : Type 0 where

unfoldable pub new_msg_client_just_strings : MsgClientJustStrings
new_msg_client_just_strings = record {}

abbrev pub client_just_strings_body : MessageBody MsgClientJustStrings
client_just_strings_body = record {
  get_emsg = λ d. 0;
  serialize = λ d. write_nothing;
  deserialize = read_nothing;
}

pub record MsgClientGenericResponse : Type 0 where
  pub result : ℕ

unfoldable pub new_msg_client_generic_response : MsgClientGenericResponse
new_msg_client_generic_response = record { result = 0 }

abbrev pub client_generic_response_body : MessageBody MsgClientGenericResponse
client_generic_response_body = record {
  get_emsg = λ d. 0;
  serialize = λ d. write_int 4 d.result;
  deserialize = store read_int32 (λ v d. record d { result = v });
}

pub record MsgClientNewLoginKey : Type 0 where
  pub unique_id : ℕ
  pub login_key : List ℕ

unfoldable pub new_msg_client_new_login_key : MsgClientNewLoginKey
new_msg_client_new_login_key = record { unique_id = 0; login_key = replicate 20 0 }

abbrev pub client_new_login_key_body : MessageBody MsgClientNewLoginKey
client_new_login_key_body = record {
  get_emsg = λ d. 5463;
  serialize = λ d. write_int 4 d.unique_id >> write_bytes d.login_key;
  deserialize =
      store read_uint32 (λ v d. record d { unique_id = v })
      >>> fill (λ d. d.login_key) (λ v d. record d { login_key = v });
}

pub record MsgClientNewLoginKeyAccepted : Type 0 where
  pub unique_id : ℕ

unfoldable pub new_msg_client_new_login_key_accepted : MsgClientNewLoginKeyAccepted
new_msg_client_new_login_key_accepted = record { unique_id = 0 }

abbrev pub client_new_login_key_accepted_body : MessageBody MsgClientNewLoginKeyAccepted
client_new_login_key_accepted_body = record {
  get_emsg = λ d. 5464;
  serialize = λ d. write_int 4 d.unique_id;
  deserialize = store read_uint32 (λ v d. record d { unique_id = v });
}

pub record MsgClientLogon : Type 0 where

unfoldable pub new_msg_client_logon : MsgClientLogon
new_msg_client_logon = record {}

abbrev pub client_logon_body : MessageBody MsgClientLogon
client_logon_body = record {
  get_emsg = λ d. 5514;
  serialize = λ d. write_nothing;
  deserialize = read_nothing;
}
