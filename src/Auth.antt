-- ===== src/Auth.antt =====
-- auth.go: logging on, and the packets that answer. The events that the handlers emit are kept
-- beside those of the client itself; the key of the web session is that of client.Web. What
-- `go heartbeatLoop` does at its start belongs to the handler. SHA-1 is an argument.
pub mod Messages
pub mod Fields
use go_steam_ws.Base.{
  ℕ, ◌%◌, ◌^◌, Bool, true, false, ◌&&◌, ◌||◌, Option, none, some, List, [], ◌∷◌, ◌++◌, ◌==◌, leb,
  not, if◌then◌else◌, length,
}
use go_steam_ws.Client.{Client, IMsg, proto_msg, write, disconnect, fatalf, start_heartbeat}
use go_steam_ws.Io.{Outcome, returns, panics, ◌>>=◌}
use go_steam_ws.MachineId.{generate_machine_id, machine_name, obfuscated_private_ip}
use go_steam_ws.ProtoBuf.{ProtoHeader, Codec, get_client_sessionid, get_steamid}
use go_steam_ws.Protocol.Packet.{Packet, read_proto_msg, read_client_msg}
use go_steam_ws.Protocol.ProtoMsg
use go_steam_ws.Protocol.ProtoMsg.{ClientMsgProtobuf}
use go_steam_ws.SteamId.{new_id_adv}
use go_steam_ws.SteamLang.Messages.Status.{client_logged_off_body, new_msg_client_logged_off}
use Messages.*

pub record Auth (B C : Type 0) : Type 0 where
  pub client : Client AuthBody B C
  pub web_login_key : List ℕ
  pub auth_events : List AuthEvent

-- s == ""
unfoldable pub is_empty : List ℕ → Bool
is_empty [] = true
is_empty (c ∷ cs) = false

-- A field that is set only to a text that is not empty.
unfoldable pub unless_empty : List ℕ → Option (List ℕ)
unless_empty [] = none
unless_empty (c ∷ cs) = some (c ∷ cs)

unfoldable pub can_log_on : LogOnDetails → Bool
unfolding is_empty
can_log_on d =
    not (is_empty d.username)
    && not (is_empty d.password && is_empty d.login_key && is_empty d.access_token)

-- len of a slice that may be nil, and details.MachineID or the one made of the account's name.
unfoldable pub has_bytes : Option (List ℕ) → Bool
has_bytes none = false
has_bytes (some []) = false
has_bytes (some (b ∷ bs)) = true

unfoldable pub machine_id_or : List ℕ → Option (List ℕ) → List ℕ
machine_id_or made none = made
machine_id_or made (some id) = id

unfoldable pub nonce_or_empty : Option (List ℕ) → List ℕ → List ℕ
nonce_or_empty none old = old
nonce_or_empty (some nonce) old = nonce

-- EResult_Fail, EResult_ServiceUnavailable and EResult_TryAnotherCM.
unfoldable pub on_steams_side : ℕ → Bool
on_steams_side result = result == 2 || result == 20 || result == 48

-- "english"; EResult_OK is 1 and EResult_FileNotFound is 9.
unfoldable pub logon_body : (List ℕ → List ℕ) → LogOnDetails → CMsgClientLogon
unfolding unless_empty is_empty has_bytes machine_id_or
logon_body sha1 d = record {
  account_name = some d.username;
  password = if is_empty d.access_token then some d.password else none;
  auth_code = unless_empty d.auth_code;
  two_factor_code = unless_empty d.two_factor_code;
  client_language = some (101 ∷ 110 ∷ 103 ∷ 108 ∷ 105 ∷ 115 ∷ 104 ∷ []);
  protocol_version = some 65581;
  sha_sentryfile = d.sentry_file_hash;
  login_key = unless_empty d.login_key;
  access_token = unless_empty d.access_token;
  should_remember_password = if d.should_remember_password then some true else none;
  machine_id = some (machine_id_or (generate_machine_id sha1 d.username) d.machine_id);
  machine_name = some (machine_name sha1 d.username);
  client_package_version = some 1771;
  client_os_type = some 16;
  chat_mode = some 2;
  obfuscated_private_ip = some (obfuscated_private_ip sha1 d.username);
  deprecated_obfustucated_private_ip = some (obfuscated_private_ip sha1 d.username);
  eresult_sentryfile = if has_bytes d.sentry_file_hash then some 1 else some 9;
  supports_rate_limit_response = some true;
}

abbrev pub anonymous_body : CMsgClientLogon
anonymous_body = record {
  account_name = none;
  password = none;
  auth_code = none;
  two_factor_code = none;
  client_language = none;
  protocol_version = some 65581;
  sha_sentryfile = none;
  login_key = none;
  access_token = none;
  should_remember_password = none;
  machine_id = none;
  machine_name = none;
  client_package_version = none;
  client_os_type = none;
  chat_mode = none;
  obfuscated_private_ip = none;
  deprecated_obfustucated_private_ip = none;
  eresult_sentryfile = none;
  supports_rate_limit_response = none;
}

unfoldable pub logged_on : CMsgClientLogonResponse → LoggedOnEvent
unfolding nonce_or_empty
logged_on body = record {
  result = body.eresult;
  extended_result = body.eresult_extended;
  out_of_game_secs_per_heartbeat = body.out_of_game_heartbeat_seconds;
  in_game_secs_per_heartbeat = body.in_game_heartbeat_seconds;
  public_ip = body.deprecated_public_ip;
  server_time = body.rtime32_server_time;
  account_flags = body.account_flags;
  client_steam_id = body.client_supplied_steamid;
  email_domain = body.email_domain;
  cell_id = body.cell_id;
  cell_id_ping_threshold = body.cell_id_ping_threshold;
  steam2_ticket = body.steam2_ticket;
  use_pics = body.deprecated_use_pics;
  web_api_user_nonce = nonce_or_empty body.webapi_authenticate_user_nonce [];
  ip_country_code = body.ip_country_code;
  vanity_url = body.vanity_url;
  num_login_failures_to_migrate = body.count_loginfailures_to_migrate;
  num_disconnects_to_migrate = body.count_disconnects_to_migrate;
}

-- The answer to the sentry file, with the job that asks as its target.
unfoldable pub sentry_answer :
    (List ℕ → List ℕ) → ℕ → CMsgClientUpdateMachineAuth → ClientMsgProtobuf AuthBody
sentry_answer sha1 job body =
    ProtoMsg.set_target_job_id
      (ProtoMsg.new 5538 (
        machine_auth_response (record {
          filename = body.filename;
          eresult = 1;
          filesize = length body.bytes % 2 ^ 32;
          sha_file = sha1 body.bytes;
          getlasterror = 0;
          offset = body.offset;
          cubwrote = body.cubtowrite;
        })))
      job

module _ {B C : Type 0} where
  unfoldable pub emit : AuthEvent → Auth B C → Auth B C
  emit e a = record a { auth_events = a.auth_events ++ (e ∷ []) }

  -- A call of the client.
  unfoldable pub with_client :
      (Client AuthBody B C → Outcome (Client AuthBody B C)) → Auth B C → Outcome (Auth B C)
  with_client call a = call a.client >>= λ c. returns (record a { client = c })

  unfoldable pub log_on : (List ℕ → List ℕ) → LogOnDetails → Auth B C → Outcome (Auth B C)
  log_on sha1 d a =
      if can_log_on d
      then with_client (write (proto_msg (ProtoMsg.new 5514 (client_logon (logon_body sha1 d)))))
          (record a { client = record a.client { steam_id = new_id_adv 0 1 1 1 } })
      else panics

  unfoldable pub log_on_anonymous_gs : Auth B C → Outcome (Auth B C)
  log_on_anonymous_gs a =
      with_client (write (proto_msg (ProtoMsg.new 5514 (client_logon anonymous_body))))
        (record a { client = record a.client { steam_id = new_id_adv 0 0 1 4 } })

  unfoldable pub accept : ProtoHeader → CMsgClientLogonResponse → Auth B C → Outcome (Auth B C)
  unfolding with_client emit
  accept header body a =
      with_client (start_heartbeat body.out_of_game_heartbeat_seconds) (record a {
        client = record a.client {
          session_id = get_client_sessionid header;
          steam_id = get_steamid header;
        };
        web_login_key = nonce_or_empty body.webapi_authenticate_user_nonce a.web_login_key;
      })
      >>= λ a1. returns (emit (logged_on_event (logged_on body)) a1)

  -- EResult_OK is 1.
  unfoldable pub on_log_on_response :
      ProtoHeader → CMsgClientLogonResponse → Auth B C → Outcome (Auth B C)
  unfolding emit with_client
  on_log_on_response header body a =
      if body.eresult == 1
      then accept header body a
      else if on_steams_side body.eresult
      then returns a
      else with_client disconnect (
          emit
            (log_on_failed_event
              (record { result = body.eresult; extended_result = body.eresult_extended }))
            a)

  unfoldable pub on_login_key : CMsgClientNewLoginKey → Auth B C → Outcome (Auth B C)
  unfolding with_client emit
  on_login_key body a =
      with_client (write (proto_msg (ProtoMsg.new 5464 (new_login_key_accepted body.unique_id)))) a
      >>= λ a1. returns (
          emit (login_key_event (record { unique_id = body.unique_id; login_key = body.login_key }))
            a1)

  unfoldable pub on_update_machine_auth :
      (List ℕ → List ℕ) → ℕ → CMsgClientUpdateMachineAuth → Auth B C → Outcome (Auth B C)
  unfolding with_client emit sentry_answer
  on_update_machine_auth sha1 job body a =
      with_client (write (proto_msg (sentry_answer sha1 job body))) a >>= λ a1.
      returns (emit (machine_auth_update_event (sha1 body.bytes)) a1)

  unfoldable pub on_account_info : CMsgClientAccountInfo → Auth B C → Auth B C
  unfolding emit
  on_account_info body a =
      emit
        (account_info_event (record {
          persona_name = body.persona_name;
          country = body.ip_country;
          count_authed_computers = body.count_authed_computers;
          account_flags = body.account_flags;
          facebook_id = body.facebook_id;
          facebook_name = body.facebook_name;
        }))
        a

  module _ (codec : Codec ProtoHeader) (bodies : AuthCodecs) (sha1 : List ℕ → List ℕ) where
    unfoldable pub handle_log_on_response : Packet → Auth B C → Outcome (Auth B C)
    unfolding with_client
    handle_log_on_response packet a =
        if packet.is_proto
        then (read_proto_msg codec bodies.logon_response packet >>= λ msg.
            on_log_on_response msg.header.proto msg.body a)
        else with_client fatalf a

    unfoldable pub handle_logged_off : Packet → Auth B C → Outcome (Auth B C)
    unfolding emit
    handle_logged_off packet a =
        if packet.is_proto
        then (read_proto_msg codec bodies.logged_off packet >>= λ msg.
            returns (emit (logged_off_event msg.body) a))
        else returns (
            emit
              (logged_off_event
                (read_client_msg client_logged_off_body packet
                  new_msg_client_logged_off).body.result)
              a)

    unfoldable pub handle_packet : Packet → Auth B C → Outcome (Auth B C)
    handle_packet packet a =
        if packet.emsg == 751
        then handle_log_on_response packet a
        else if packet.emsg == 5463
        then (read_proto_msg codec bodies.new_login_key packet >>= λ msg. on_login_key msg.body a)
        else if packet.emsg == 757
        then handle_logged_off packet a
        else if packet.emsg == 5537
        then (read_proto_msg codec bodies.update_machine_auth packet >>= λ msg.
            on_update_machine_auth sha1 packet.source_job_id msg.body a)
        else if packet.emsg == 768
        then (read_proto_msg codec bodies.account_info packet >>= λ msg.
            returns (on_account_info msg.body a))
        else returns a
