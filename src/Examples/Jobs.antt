-- ===== src/Examples/Jobs.antt =====
-- Calls of service methods, messages of game coordinators, machine ids and log-ons at concrete inputs.
use go_steam_ws.Auth.{Auth, log_on, logon_body}
use go_steam_ws.Auth.Fields.{queued_logon, log_on_lem, Enough, Missing}
use go_steam_ws.Auth.Messages.{LogOnDetails}
use go_steam_ws.Authentication.{
  Authentication, AuthProto, get_rsa_key, Pending, handle_packets, call, RsaResponse, BeginResponse,
  PollResponse,
}
use go_steam_ws.Authentication.Bounds.{log_on-Adds}
use go_steam_ws.Authentication.Calls.{
  request, result_of, first_answer, held, lookup-handle_packets, call_lem,
}
use go_steam_ws.Authentication.LogOn.{Crypto, log_on_with_credentials}
use go_steam_ws.Authentication.Sent.{AfterRun, Sent, chan_length}
use go_steam_ws.Base.{
  ◌⊎◌, List, replicate, ◌^◌, ◌%◌, ◌<◌, get_or, bit_xor, ◌++◌, ◌+◌, ◌*◌, ℕ, ◌≡◌, refl, true, false,
  none, some, [], ◌∷◌, arith,
}
use go_steam_ws.Base.Store.{lookup, insert, erase}
use go_steam_ws.Client.{Client, proto_msg, open_chan, no_ticker}
use go_steam_ws.Examples.{plain_codec, plain_codec-IsCodec, seven_bytes}
use go_steam_ws.GameCoordinator.{wrapper}
use go_steam_ws.GameCoordinator.Messages.{GcMsgProtobuf, GcMsg, gc_proto, gc_struct, new_gc_packet}
use go_steam_ws.GameCoordinator.RoundTrip.{new_gc_packet-wrapper, new_gc_packet-wrapper_struct}
use go_steam_ws.Io.{returns, panics, ok, write_bytes, ◌>>=◌}
use go_steam_ws.Io.Steps.{write_bytes-Writes}
use go_steam_ws.MachineId.{
  private_ip_salt, generate_machine_id, obfuscated_private_ip, steam_private_ip_magic,
}
use go_steam_ws.MachineId.Shape.{
  machine_tokens, read_tokens-generate_machine_id, obfuscated_private_ip_lem,
}
use go_steam_ws.MachineId.Tokens.{read_tokens}
use go_steam_ws.ProtoBuf.{Codec, empty_proto_header, get_jobid_target}
use go_steam_ws.Protocol.Packet.{Packet}

abbrev packet_for : ℕ → ℕ → Packet
packet_for emsg job = record {
  emsg = emsg;
  is_proto = true;
  target_job_id = job;
  source_job_id = 0;
  raw_data = 0 ∷ 0 ∷ 0 ∷ 0 ∷ 0 ∷ 0 ∷ 0 ∷ 0 ∷ [];
}

abbrev waiting : Pending
waiting = (1, none) ∷ (2, none) ∷ []

first_answer_example :
    lookup 2 (handle_packets (packet_for 147 1 ∷ packet_for 147 2 ∷ []) waiting)
    ≡ held 2 (packet_for 147 1 ∷ packet_for 147 2 ∷ []) (lookup 2 waiting)
first_answer_example = lookup-handle_packets 2 (packet_for 147 1 ∷ packet_for 147 2 ∷ []) waiting

abbrev online : Client AuthProto ℕ ℕ
online = record {
  session_id = 0;
  steam_id = 0;
  current_job_id = 4;
  temp_session_key = none;
  conn = some 0;
  write_chan = open_chan [];
  heartbeat = no_ticker;
  events = [];
}

abbrev always : {M : Type 0} → M → Codec M
always m = record { encode = λ x. none; decode = λ bs. (none, m) }

abbrev keys : Codec RsaResponse
keys =
    always (record { publickey_mod = 65 ∷ 66 ∷ []; publickey_exp = 51 ∷ 52 ∷ []; timestamp = none })

abbrev begins : Codec BeginResponse
begins =
    always (record {
      client_id = some 1;
      request_id = none;
      steamid = 7;
      allowed_confirmations = 1 ∷ [];
    })

abbrev polls : Codec PollResponse
polls = always (record { refresh_token = 84 ∷ []; access_token = []; account_name = [] })

abbrev start : Authentication ℕ ℕ
start = record {
  client = online;
  pending = [];
  arrivals = (packet_for 147 5 ∷ []) ∷ ((packet_for 147 6 ∷ []) ∷ ((packet_for 147 7 ∷ []) ∷ []));
}

abbrev crypto : Crypto
crypto = record { rsa_encrypt = λ m e p. some p; base64 = λ bs. bs; sha1 = λ bs. replicate 20 7 }

log_on_example :
    AfterRun
      (Sent 33 0)
      (log_on_with_credentials plain_codec crypto keys begins polls (97 ∷ []) (98 ∷ []) start)
unfolding chan_length
log_on_example = log_on-Adds plain_codec crypto keys begins polls (97 ∷ []) (98 ∷ []) start refl

call_example :
    (call plain_codec (77 ∷ []) (get_rsa_key (97 ∷ [])) keys start ≡ (
      result_of plain_codec keys (first_answer 5 (packet_for 147 5 ∷ [])) >>= λ r. returns (
        r,
        record start {
          client = record online {
            current_job_id = 5;
            write_chan = open_chan (proto_msg (request (77 ∷ []) (get_rsa_key (97 ∷ [])) 5) ∷ []);
          };
          pending = erase 5 (handle_packets (packet_for 147 5 ∷ []) (insert 5 none []));
          arrivals = (packet_for 147 6 ∷ []) ∷ ((packet_for 147 7 ∷ []) ∷ []);
        },
      )))
    × (lookup 9 (erase 5 (handle_packets (packet_for 147 5 ∷ []) (insert 5 none [])))
        ≡ held 9 (packet_for 147 5 ∷ []) (lookup 9 []))
call_example = call_lem plain_codec keys (77 ∷ []) (get_rsa_key (97 ∷ [])) start 0 [] 9 refl refl

abbrev hello_gc : GcMsgProtobuf
hello_gc = record {
  app_id = 570;
  header = record { msg = 4006; header_length = 0; proto = empty_proto_header };
  body = some seven_bytes;
}

gc_proto_example :
    new_gc_packet plain_codec (wrapper plain_codec (gc_proto hello_gc))
    ≡ returns (
        ok (record {
          app_id = 570;
          msg_type = 4006;
          is_proto = true;
          gc_name = [];
          body = seven_bytes;
          target_job_id = get_jobid_target empty_proto_header;
        }))
gc_proto_example =
    new_gc_packet-wrapper plain_codec plain_codec-IsCodec hello_gc [] seven_bytes (omega arith) refl
      refl

abbrev plain_gc : GcMsg
plain_gc = record {
  app_id = 440;
  msg_type = 1001;
  header = record { header_version = 1; target_job_id = 3; source_job_id = 0 };
  body = write_bytes seven_bytes;
}

gc_struct_example :
    new_gc_packet plain_codec (wrapper plain_codec (gc_struct plain_gc))
    ≡ returns (
        ok (record {
          app_id = 440;
          msg_type = 1001;
          is_proto = false;
          gc_name = [];
          body = seven_bytes;
          target_job_id = 3;
        }))
gc_struct_example =
    new_gc_packet-wrapper_struct plain_codec plain_gc seven_bytes (omega arith)
      (omega arith, omega arith, omega arith) (write_bytes-Writes seven_bytes)

-- Stands for SHA-1.
abbrev sevens : List ℕ → List ℕ
sevens bs = replicate 20 7

machine_id_example :
    read_tokens 6 (generate_machine_id sevens (97 ∷ [])) ≡ some (machine_tokens sevens (97 ∷ []))
machine_id_example = read_tokens-generate_machine_id sevens (97 ∷ [])

private_ip_example :
    (obfuscated_private_ip sevens (97 ∷ []) < 2 ^ 32)
    × (y : ℕ) × (y < 256)
    × (y % 2 ≡ 1)
    × (bit_xor (obfuscated_private_ip sevens (97 ∷ [])) steam_private_ip_magic
        ≡ ((192 * 256 + 168) * 256 + get_or (sevens (private_ip_salt ++ (97 ∷ []))) 0 0) * 256 + y)
private_ip_example = obfuscated_private_ip_lem sevens (97 ∷ []) (omega arith)

-- The account "a" with the password "b" and the token "c".
abbrev details : LogOnDetails
details = record {
  username = 97 ∷ [];
  password = 98 ∷ [];
  auth_code = [];
  two_factor_code = [];
  sentry_file_hash = none;
  login_key = [];
  should_remember_password = false;
  machine_id = none;
  access_token = 99 ∷ [];
}

abbrev before_log_on : Auth ℕ ℕ
before_log_on = record {
  client = record {
    session_id = 0;
    steam_id = 0;
    current_job_id = 0;
    temp_session_key = none;
    conn = some 3;
    write_chan = open_chan [];
    heartbeat = no_ticker;
    events = [];
  };
  web_login_key = [];
  auth_events = [];
}

auth_log_on_example :
    ((Enough details
        × (log_on sevens details before_log_on
            ≡ returns (record before_log_on {
              client = record before_log_on.client {
                steam_id = 76561197960265728;
                write_chan = open_chan ([] ++ (queued_logon sevens details before_log_on ∷ []));
              };
            })))
      ⊎ (Missing details × (log_on sevens details before_log_on ≡ panics)))
    × ((logon_body sevens details).password ≡ none
        ⊎ (logon_body sevens details).access_token ≡ none)
auth_log_on_example = log_on_lem sevens details before_log_on 3 [] refl refl
