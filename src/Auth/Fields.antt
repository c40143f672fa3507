-- ===== src/Auth/Fields.antt =====
-- auth.go: what a log-on sends, and what an answer leaves.
use go_steam_ws.Auth.{
  Auth, is_empty, unless_empty, can_log_on, has_bytes, machine_id_or, logon_body, log_on,
  with_client, on_log_on_response, accept, logged_on, on_steams_side, nonce_or_empty,
}
use go_steam_ws.Auth.Messages.{
  LogOnDetails, CMsgClientLogon, CMsgClientLogonResponse, AuthBody, client_logon, logged_on_event,
  log_on_failed_event,
}
use go_steam_ws.Base.{
  ◌≢◌, Option, ℕ, ◌≡◌, Bool, true, false, ◌&&◌, none, some, List, [], ◌∷◌, ◌++◌, ◌==◌, ◌⊎◌, inl,
  inr, ◌<◌, ◌^◌, if◌then◌else◌, arith, refl, ◌+◌, length, length-append,
}
use go_steam_ws.Client.{
  Client, IMsg, Chan, open_chan, closed_chan, proto_msg, write, send, stamp, disconnect, close,
  start_heartbeat, connected, stop,
}
use go_steam_ws.Auth
use go_steam_ws.Client
use go_steam_ws.Client.Session.{IsSession}
use go_steam_ws.MachineId.{generate_machine_id, machine_name, obfuscated_private_ip}
use go_steam_ws.Io.{Outcome, returns, panics}
use go_steam_ws.ProtoBuf.{ProtoHeader, empty_proto_header, get_steamid}
use go_steam_ws.Protocol.ProtoMsg
use go_steam_ws.SteamId.{
  new_id_adv, set_account_id, set_account_instance, set_account_universe, set_account_type,
}

-- What holds after a call that does not panic.
abbrev pub Leaves : {A : Type 0} → (A → Type 0) → Outcome A → Type 0
Leaves P (returns a) = P a
Leaves P panics = ⊥

either_credential :
    (sha1 : List ℕ → List ℕ) (d : LogOnDetails)
    → (logon_body sha1 d).password ≡ none ⊎ (logon_body sha1 d).access_token ≡ none
unfolding logon_body is_empty unless_empty
either_credential sha1 d =
    elim d.access_token
      as (λ t. (if is_empty t then some d.password else none) ≡ none ⊎ unless_empty t ≡ none) [
        | [] ↦ inr refl
        | c ∷ cs ↦ inl refl
      ]

individual : new_id_adv 0 1 1 1 ≡ 76561197960265728
unfolding new_id_adv set_account_id set_account_instance set_account_universe set_account_type
individual = refl

-- A text that is there, and none if it is empty.
abbrev given : List ℕ → Option (List ℕ)
given [] = none
given (c ∷ cs) = some (c ∷ cs)

-- A name, and a password, a login key or a token.
abbrev pub Enough : LogOnDetails → Type 0
Enough d = (d.username ≢ []) × ((d.password ≢ []) ⊎ ((d.login_key ≢ []) ⊎ (d.access_token ≢ [])))

abbrev pub Missing : LogOnDetails → Type 0
Missing d = (d.username ≡ []) ⊎ ((d.password ≡ []) × (d.login_key ≡ []) × (d.access_token ≡ []))

Enough-or_Missing :
    (d : LogOnDetails) → (Enough d × (can_log_on d ≡ true)) ⊎ (Missing d × (can_log_on d ≡ false))
unfolding can_log_on is_empty
Enough-or_Missing d = ground arith

-- What a log-on says of the details: the password only without a token; the other texts only if
-- they are there; the sentry file is there (1) if its hash is not empty and else not found (9). The
-- rest is what a client of Windows 10 says of itself in English.
abbrev pub logon_fields : (List ℕ → List ℕ) → LogOnDetails → CMsgClientLogon
logon_fields sha1 d = record {
  account_name = some d.username;
  password = elim d.access_token [ [] ↦ some d.password | c ∷ cs ↦ none ];
  auth_code = given d.auth_code;
  two_factor_code = given d.two_factor_code;
  client_language = some (101 ∷ 110 ∷ 103 ∷ 108 ∷ 105 ∷ 115 ∷ 104 ∷ []);
  protocol_version = some 65581;
  sha_sentryfile = d.sentry_file_hash;
  login_key = given d.login_key;
  access_token = given d.access_token;
  should_remember_password = elim d.should_remember_password [ true ↦ some true | false ↦ none ];
  machine_id =
      some (elim d.machine_id [ none ↦ generate_machine_id sha1 d.username | some id ↦ id ]);
  machine_name = some (machine_name sha1 d.username);
  client_package_version = some 1771;
  client_os_type = some 16;
  chat_mode = some 2;
  obfuscated_private_ip = some (obfuscated_private_ip sha1 d.username);
  deprecated_obfustucated_private_ip = some (obfuscated_private_ip sha1 d.username);
  eresult_sentryfile = elim d.sentry_file_hash [
    | none ↦ some 9
    | some [] ↦ some 9
    | some (b ∷ bs) ↦ some 1
  ];
  supports_rate_limit_response = some true;
}

logon_fields-logon_body :
    (sha1 : List ℕ → List ℕ) (d : LogOnDetails) → logon_body sha1 d ≡ logon_fields sha1 d
unfolding logon_body unless_empty is_empty has_bytes machine_id_or
logon_fields-logon_body sha1 d = ground arith

module _ {B C : Type 0} where
  write_open :
      (m : IMsg AuthBody B) (c : Client AuthBody B C) (l : C) (q : List (IMsg AuthBody B))
      → c.conn ≡ some l
      → c.write_chan ≡ open_chan q
      → write m c ≡ returns (record c { write_chan = open_chan (q ++ (stamp c m ∷ [])) })
  unfolding write send
  write_open m c l q on queue = ground arith

  -- The message of a log-on as it stands in the queue.
  unfoldable pub queued_logon : (List ℕ → List ℕ) → LogOnDetails → Auth B C → IMsg AuthBody B
  queued_logon sha1 d a = proto_msg (record {
    header = record {
      msg = 5514;
      header_length = 0;
      proto = record empty_proto_header {
        steamid = some 76561197960265728;
        client_sessionid = some a.client.session_id;
      };
    };
    body = client_logon (logon_fields sha1 d);
  })

  sent_logon :
      (sha1 : List ℕ → List ℕ) (d : LogOnDetails) (a : Auth B C) (l : C)
      (q : List (IMsg AuthBody B))
      → a.client.conn ≡ some l
      → a.client.write_chan ≡ open_chan q
      → with_client
          (write (proto_msg (ProtoMsg.new 5514 (client_logon (logon_body sha1 d)))))
          (record a { client = record a.client { steam_id = new_id_adv 0 1 1 1 } })
        ≡ returns (record a {
          client = record a.client {
            steam_id = 76561197960265728;
            write_chan = open_chan (q ++ (queued_logon sha1 d a ∷ []));
          };
        })
  unfolding queued_logon stamp with_client ProtoMsg.set_steam_id ProtoMsg.set_session_id
      ProtoMsg.new
  sent_logon sha1 d a l q on queue =
      rw
        (
          individual,
          logon_fields-logon_body sha1 d,
          write_open (proto_msg (ProtoMsg.new 5514 (client_logon (logon_fields sha1 d))))
              (record a.client { steam_id = 76561197960265728 }) l q on queue,
        )
        refl

  -- LogOn on a connected client with an open queue: with a name and a password, login key or token
  -- it queues one message with all of the details, the session id and the SteamID of an individual
  -- account of the public universe that has no number yet, which is the client's from then on;
  -- without a name, or with none of the three, it panics. The message never has both a password and
  -- a token.
  pub log_on_lem :
      (sha1 : List ℕ → List ℕ) (d : LogOnDetails) (a : Auth B C) (l : C)
      (q : List (IMsg AuthBody B))
      → a.client.conn ≡ some l
      → a.client.write_chan ≡ open_chan q
      → ((Enough d
            × (log_on sha1 d a
                ≡ returns (record a {
                  client = record a.client {
                    steam_id = 76561197960265728;
                    write_chan = open_chan (q ++ (queued_logon sha1 d a ∷ []));
                  };
                })))
          ⊎ (Missing d × (log_on sha1 d a ≡ panics)))
        × ((logon_body sha1 d).password ≡ none ⊎ (logon_body sha1 d).access_token ≡ none)
  unfolding log_on
  log_on_lem sha1 d a l q on queue = (
    elim (Enough-or_Missing d) [
      | inl (enough, can) ↦ inl (enough, rw can (sent_logon sha1 d a l q on queue))
      | inr (missing, cannot) ↦ inr (missing, rw cannot refl)
    ],
    either_credential sha1 d,
  )

  -- A well formed session with one more event, the given SteamID, and still the connection or not.
  abbrev pub Answered : Bool → ℕ → Auth B C → Auth B C → Type 0
  Answered stays id a a' =
      IsSession a'.client
      × (connected a'.client ≡ (connected a.client && stays))
      × (a'.client.steam_id ≡ id)
      × (length a'.auth_events ≡ length a.auth_events + 1)

  -- A log-on that succeeds, with a positive number of seconds below 2 ^ 31 for the heartbeat, leaves
  -- a well formed session well formed and connected as it was; the client takes the SteamID of the
  -- answer, and one event is added.
  pub accept-Answered :
      (header : ProtoHeader) (body : CMsgClientLogonResponse) (a : Auth B C)
      → IsSession a.client
      → body.eresult ≡ 1
      → 0 < body.out_of_game_heartbeat_seconds
      → body.out_of_game_heartbeat_seconds < 2 ^ 31
      → Leaves (Answered true (get_steamid header) a) (on_log_on_response header body a)
  unfolding on_log_on_response accept with_client start_heartbeat Auth.emit connected
  accept-Answered header body a h ok' low high =
      ground (arith, length-append a.auth_events (logged_on_event (logged_on body) ∷ []))

  -- A log-on that is refused for a reason of the user's gives up the connection of a well formed session,
  -- which stays well formed and keeps its SteamID, and one event is added.
  pub refuse-Answered :
      (header : ProtoHeader) (body : CMsgClientLogonResponse) (a : Auth B C)
      → IsSession a.client
      → (body.eresult == 1) ≡ false
      → on_steams_side body.eresult ≡ false
      → Leaves (Answered false a.client.steam_id a) (on_log_on_response header body a)
  unfolding on_log_on_response with_client Auth.emit Client.emit disconnect close connected
  refuse-Answered header body a h other ours = ground (
    arith,
    length-append a.auth_events (
        log_on_failed_event
          (record { result = body.eresult; extended_result = body.eresult_extended })
        ∷ []),
  )
