-- ===== src/Auth/Messages.antt =====
-- auth.go and auth_events.go: what the user gives to log on, the bodies of the messages and the
-- events. A body that comes in is what its getters give.
use go_steam_ws.Base.{ℕ, Bool, Option, List}
use go_steam_ws.ProtoBuf.{Codec}

-- A slice that may be nil is an Option.
pub record LogOnDetails : Type 0 where
  pub username : List ℕ
  pub password : List ℕ
  pub auth_code : List ℕ
  pub two_factor_code : List ℕ
  pub sentry_file_hash : Option (List ℕ)
  pub login_key : List ℕ
  pub should_remember_password : Bool
  pub machine_id : Option (List ℕ)
  pub access_token : List ℕ

-- The fields of protobuf.CMsgClientLogon that the code sets.
pub record CMsgClientLogon : Type 0 where
  pub account_name : Option (List ℕ)
  pub password : Option (List ℕ)
  pub auth_code : Option (List ℕ)
  pub two_factor_code : Option (List ℕ)
  pub client_language : Option (List ℕ)
  pub protocol_version : Option ℕ
  pub sha_sentryfile : Option (List ℕ)
  pub login_key : Option (List ℕ)
  pub access_token : Option (List ℕ)
  pub should_remember_password : Option Bool
  pub machine_id : Option (List ℕ)
  pub machine_name : Option (List ℕ)
  pub client_package_version : Option ℕ
  pub client_os_type : Option ℕ
  pub chat_mode : Option ℕ
  pub obfuscated_private_ip : Option ℕ
  pub deprecated_obfustucated_private_ip : Option ℕ
  pub eresult_sentryfile : Option ℕ
  pub supports_rate_limit_response : Option Bool

pub record MachineAuthResponse : Type 0 where
  pub filename : List ℕ
  pub eresult : ℕ
  pub filesize : ℕ
  pub sha_file : List ℕ
  pub getlasterror : ℕ
  pub offset : ℕ
  pub cubwrote : ℕ

-- The bodies that go out.
pub data AuthBody : Type 0 where
  client_logon : CMsgClientLogon → AuthBody
  new_login_key_accepted : ℕ → AuthBody
  machine_auth_response : MachineAuthResponse → AuthBody

pub record CMsgClientLogonResponse : Type 0 where
  pub eresult : ℕ
  pub eresult_extended : ℕ
  pub out_of_game_heartbeat_seconds : ℕ
  pub in_game_heartbeat_seconds : ℕ
  pub deprecated_public_ip : ℕ
  pub rtime32_server_time : ℕ
  pub account_flags : ℕ
  pub client_supplied_steamid : ℕ
  pub email_domain : List ℕ
  pub cell_id : ℕ
  pub cell_id_ping_threshold : ℕ
  pub steam2_ticket : List ℕ
  pub deprecated_use_pics : Bool
  pub webapi_authenticate_user_nonce : Option (List ℕ)
  pub ip_country_code : List ℕ
  pub vanity_url : List ℕ
  pub count_loginfailures_to_migrate : ℕ
  pub count_disconnects_to_migrate : ℕ

pub record CMsgClientNewLoginKey : Type 0 where
  pub unique_id : ℕ
  pub login_key : List ℕ

pub record CMsgClientUpdateMachineAuth : Type 0 where
  pub filename : List ℕ
  pub offset : ℕ
  pub cubtowrite : ℕ
  pub bytes : List ℕ

pub record CMsgClientAccountInfo : Type 0 where
  pub persona_name : List ℕ
  pub ip_country : List ℕ
  pub count_authed_computers : ℕ
  pub account_flags : ℕ
  pub facebook_id : ℕ
  pub facebook_name : List ℕ

-- The bodies that come in; a CMsgClientLoggedOff is its eresult.
pub record AuthCodecs : Type 0 where
  pub logon_response : Codec CMsgClientLogonResponse
  pub new_login_key : Codec CMsgClientNewLoginKey
  pub logged_off : Codec ℕ
  pub update_machine_auth : Codec CMsgClientUpdateMachineAuth
  pub account_info : Codec CMsgClientAccountInfo

pub record LoggedOnEvent : Type 0 where
  pub result : ℕ
  pub extended_result : ℕ
  pub out_of_game_secs_per_heartbeat : ℕ
  pub in_game_secs_per_heartbeat : ℕ
  pub public_ip : ℕ
  pub server_time : ℕ
  pub account_flags : ℕ
  pub client_steam_id : ℕ
  pub email_domain : List ℕ
  pub cell_id : ℕ
  pub cell_id_ping_threshold : ℕ
  pub steam2_ticket : List ℕ
  pub use_pics : Bool
  pub web_api_user_nonce : List ℕ
  pub ip_country_code : List ℕ
  pub vanity_url : List ℕ
  pub num_login_failures_to_migrate : ℕ
  pub num_disconnects_to_migrate : ℕ

pub record LogOnFailedEvent : Type 0 where
  pub result : ℕ
  pub extended_result : ℕ

pub record LoginKeyEvent : Type 0 where
  pub unique_id : ℕ
  pub login_key : List ℕ

pub record AccountInfoEvent : Type 0 where
  pub persona_name : List ℕ
  pub country : List ℕ
  pub count_authed_computers : ℕ
  pub account_flags : ℕ
  pub facebook_id : ℕ
  pub facebook_name : List ℕ

pub data AuthEvent : Type 0 where
  logged_on_event : LoggedOnEvent → AuthEvent
  log_on_failed_event : LogOnFailedEvent → AuthEvent
  login_key_event : LoginKeyEvent → AuthEvent
  logged_off_event : ℕ → AuthEvent
  machine_auth_update_event : List ℕ → AuthEvent
  account_info_event : AccountInfoEvent → AuthEvent
