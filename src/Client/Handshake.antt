-- ===== src/Client/Handshake.antt =====
-- What the handshake of client.go and the calls Write and Disconnect do to the state.
use go_steam_ws.Base.{
  ◌%◌, ◌/◌, ◌^◌, ◌-◌, refl, append_assoc, ℕ, ◌≡◌, true, false, none, some, List, [], ◌∷◌, ◌++◌,
  if◌then◌else◌, arith,
}
use go_steam_ws.Io.{le_bytes, returns, ◌>>=◌}
use go_steam_ws.Protocol.Packet.{Packet}
use go_steam_ws.Protocol.PlainMsg
use go_steam_ws.Protocol.ProtoMsg
use go_steam_ws.Protocol.StructMsg
use go_steam_ws.SteamLang.{new_msg_hdr}
use go_steam_ws.SteamLang.Bodies.{new_msg_channel_encrypt_response}
use go_steam_ws.Client.{
  Client, IMsg, Chan, nil_chan, open_chan, closed_chan, Link, disconnected_event, connected_event,
  fatal_error_event, Ticker, no_ticker, running, stopped, proto_msg, client_msg, plain_msg, emit,
  connected, close, send, stop, stamp, disconnect, fatalf, fatal_if, write,
  handle_channel_encrypt_request, handle_channel_encrypt_result, accept_key, channel_answer,
  is_public, is_ok,
}
use go_steam_ws.Client.Session.{IsSession}

abbrev queued : {A : Type 0} → Chan A → List A
queued nil_chan = []
queued (open_chan q) = q
queued (closed_chan q) = q

abbrev halted : Ticker → Ticker
halted no_ticker = no_ticker
halted (running n) = stopped
halted stopped = stopped

-- The 32 bits of a checksum, least significant byte first.
abbrev checksum_bytes : ℕ → List ℕ
checksum_bytes n = n % 256 ∷ (n / 256) % 256 ∷ (n / 65536) % 256 ∷ (n / 16777216) % 256 ∷ []

module _ {M B : Type 0} where
  -- The message with a session id and a SteamID in its header, if its kind of header has them.
  abbrev pub marked : ℕ → ℕ → IMsg M B → IMsg M B
  marked session id (proto_msg m) = proto_msg (record m {
    header = record (m.header) {
      proto = record (m.header.proto) { client_sessionid = some session; steamid = some id };
    };
  })
  marked session id (client_msg m) =
      client_msg (record m { header = record (m.header) { session_id = session; steam_id = id } })
  marked session id (plain_msg m) = plain_msg m

  -- The answer to a ChannelEncryptRequest: EMsg 1304, no job, protocol version 1 and a key of 128
  -- bytes, and behind it the encrypted key, its checksum and four zero bytes.
  abbrev pub key_answer : List ℕ → ℕ → IMsg M B
  key_answer encrypted crc = plain_msg (record {
    header = record { msg = 1304; target_job_id = 2 ^ 64 - 1; source_job_id = 2 ^ 64 - 1 };
    body = record { protocol_version = 1; key_size = 128 };
    payload = encrypted ++ (checksum_bytes crc ++ (0 ∷ 0 ∷ 0 ∷ 0 ∷ []));
  })

  key_answer-channel_answer :
      (crc32 : List ℕ → ℕ) (encrypted : List ℕ)
      → channel_answer {M = M} {B = B} crc32 encrypted ≡ key_answer encrypted (crc32 encrypted)
  unfolding channel_answer PlainMsg.new new_msg_hdr new_msg_channel_encrypt_response le_bytes
  key_answer-channel_answer crc32 encrypted = ground arith

module _ {M B C : Type 0} where
  marked-stamp : (m : IMsg M B) (c : Client M B C) → stamp c m ≡ marked c.session_id c.steam_id m
  unfolding stamp ProtoMsg.set_steam_id ProtoMsg.set_session_id StructMsg.set_steam_id
      StructMsg.set_session_id
  marked-stamp (proto_msg m) c = refl
  marked-stamp (client_msg m) c = refl
  marked-stamp (plain_msg m) c = refl

  -- If the queue is open exactly while there is a connection: a write to a client that is not
  -- connected changes nothing; otherwise the message is the last in the queue, and nothing else
  -- changes. A protobuf message and a struct backed one carry the client's session id and SteamID
  -- in their headers; a message of the handshake is as it was.
  pub write_lem :
      (m : IMsg M B) (c : Client M B C)
      → IsSession c
      → write m c ≡ (elim c.conn [
        | none ↦ returns c
        | some l ↦ elim c.write_chan [
          | open_chan q ↦
              returns
                (record c { write_chan = open_chan (q ++ (marked c.session_id c.steam_id m ∷ [])) })
          | _ ↦ returns c
        ]
      ])
  unfolding write send
  write_lem m c h = ground (arith, marked-stamp m c)

  -- If the queue is open exactly while there is a connection: Disconnect on a connected client drops the connection, closes the queue with the messages
  -- that are in it, stops the heartbeat and emits a DisconnectedEvent; it does nothing on a client
  -- that is not connected, so a second call changes nothing.
  pub disconnect_lem :
      (c : Client M B C)
      → IsSession c
      → (disconnect c ≡ (
          if connected c
          then returns (record c {
            conn = none;
            heartbeat = stop c.heartbeat;
            write_chan = closed_chan (queued c.write_chan);
            events = c.events ++ (disconnected_event ∷ []);
          })
          else returns c))
        × ((disconnect c >>= disconnect) ≡ disconnect c)
  unfolding disconnect connected close emit
  disconnect_lem c h = ground arith

  -- On a connected client with an open queue, a ChannelEncryptRequest for
  -- the public universe queues the answer, which has the encrypted key, its CRC32 and four zero
  -- bytes as its payload, and a ChannelEncryptResult that is OK then gives the connection that same key, forgets it and
  -- emits a ConnectedEvent.
  pub handshake_lem :
      (link : Link C) (l l' : C) (q : List (IMsg M B)) (c : Client M B C) (key : List ℕ)
      (rsa : List ℕ → List ℕ) (crc32 : List ℕ → ℕ) (request result : Packet)
      → c.conn ≡ some l
      → c.write_chan ≡ open_chan q
      → is_public request ≡ true
      → is_ok result ≡ true
      → link.set_encryption_key (some key) l ≡ returns l'
      → (handle_channel_encrypt_request key rsa crc32 request c
          >>= handle_channel_encrypt_result link result)
        ≡ returns (record c {
          conn = some l';
          write_chan = open_chan (q ++ (key_answer (rsa key) (crc32 (rsa key)) ∷ []));
          temp_session_key = none;
          events = c.events ++ (connected_event ∷ []);
        })
  unfolding handle_channel_encrypt_request handle_channel_encrypt_result fatal_if write send
      accept_key emit stamp
  handshake_lem link l l' q c key rsa crc32 request result on queue public good set =
      ground (arith, key_answer-channel_answer {M = M} {B = B} crc32 (rsa key))

  -- If the queue is open exactly while there is a connection: after a ChannelEncryptRequest for
  -- another universe a fatal error is emitted and the connection, if there is one, is given up: its
  -- queue is closed with what was in it, so that no answer is sent, the heartbeat is stopped and a
  -- DisconnectedEvent follows; but the handler goes on and leaves a session key in the client.
  pub handle_request_other :
      (c : Client M B C) (key : List ℕ) (rsa : List ℕ → List ℕ) (crc32 : List ℕ → ℕ)
      (request : Packet)
      → IsSession c
      → is_public request ≡ false
      → handle_channel_encrypt_request key rsa crc32 request c
        ≡ returns (elim c.conn [
          | none ↦ record c {
            temp_session_key = some key;
            events = c.events ++ (fatal_error_event ∷ []);
          }
          | some l ↦ record c {
            conn = none;
            write_chan = closed_chan (queued c.write_chan);
            heartbeat = halted c.heartbeat;
            temp_session_key = some key;
            events = c.events ++ (fatal_error_event ∷ (disconnected_event ∷ []));
          }
        ])
  unfolding handle_channel_encrypt_request fatal_if fatalf write send disconnect close emit stop
  handle_request_other c key rsa crc32 request h other =
      ground (arith, append_assoc c.events (fatal_error_event ∷ []) (disconnected_event ∷ []))
