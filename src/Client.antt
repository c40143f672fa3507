-- ===== src/Client.antt =====
-- client.go: the connection's state, the queue of outgoing messages, and the calls that change
-- them. A call holds the mutex, or is a step of one of the loops, and is one function of the state;
-- `panics` is a panic of the run-time. Events are in the order of their emission. The dialers, the
-- RSA key and the random numbers are arguments; a `Link` is the interface `connection`.
pub mod Multi
pub mod Dispatch
pub mod WriteLoop
pub mod Session
pub mod Handshake
use go_steam_ws.Base.{
  ℕ, ◌+◌, ◌%◌, ◌^◌, Bool, true, false, not, Option, none, some, List, [], ◌∷◌, ◌++◌, ◌==◌,
  if◌then◌else◌, ◌||◌, leb,
}
use go_steam_ws.Io.{Error, Write, le_bytes, Outcome, returns, panics, ◌>>=◌}
use go_steam_ws.SteamLang.Bodies.{
  MessageBody, MsgChannelEncryptResponse, response_body, request_body, result_body,
  new_msg_channel_encrypt_request, new_msg_channel_encrypt_response, new_msg_channel_encrypt_result,
}
use go_steam_ws.ProtoBuf.{ProtoHeader, Codec}
use go_steam_ws.Protocol.ProtoMsg.{ClientMsgProtobuf}
use go_steam_ws.Protocol.ProtoMsg
use go_steam_ws.Protocol.StructMsg.{ClientMsg}
use go_steam_ws.Protocol.StructMsg
use go_steam_ws.Protocol.PlainMsg.{Msg}
use go_steam_ws.Protocol.PlainMsg
use go_steam_ws.Protocol.Packet.{Packet, read_msg}

-- The methods of `connection` that change it. Close fails without consequences.
pub record Link (C : Type 0) : Type 0 where
  pub set_encryption_key : Option (List ℕ) → C → Outcome C
  pub write : List ℕ → C → Outcome (Option Error × C)

-- protocol.IMsg; `M` holds the protobuf bodies and `B` the bodies of struct backed messages.
pub data IMsg (M B : Type 0) : Type 0 where
  proto_msg : ClientMsgProtobuf M → IMsg M B
  client_msg : ClientMsg B → IMsg M B
  plain_msg : Msg MsgChannelEncryptResponse → IMsg M B

-- A Go channel: nil, open with the messages in it, or closed.
pub data Chan (A : Type 0) : Type 0 where
  nil_chan : Chan A
  open_chan closed_chan : List A → Chan A

pub data Ticker : Type 0 where
  no_ticker : Ticker
  running : ℕ → Ticker
  stopped : Ticker

pub data ClientEvent : Type 0 where
  fatal_error_event error_event connected_event disconnected_event : ClientEvent
  client_cm_list_event : List (List ℕ × ℕ) → ClientEvent

pub record Client (M B C : Type 0) : Type 0 where
  pub session_id : ℕ
  pub steam_id : ℕ
  pub current_job_id : ℕ
  pub temp_session_key : Option (List ℕ)
  pub conn : Option C
  pub write_chan : Chan (IMsg M B)
  pub heartbeat : Ticker
  pub events : List ClientEvent

-- A panic if the channel is closed already or nil.
unfoldable pub close : {A : Type 0} → Chan A → Outcome (Chan A)
close nil_chan = panics
close (open_chan q) = returns (closed_chan q)
close (closed_chan q) = panics

-- A send waits for room, which the write loop makes. One on a nil channel would wait for ever; it
-- stands with the panics here.
unfoldable pub send : {A : Type 0} → A → Chan A → Outcome (Chan A)
send a nil_chan = panics
send a (open_chan q) = returns (open_chan (q ++ (a ∷ [])))
send a (closed_chan q) = panics

unfoldable pub stop : Ticker → Ticker
stop no_ticker = no_ticker
stop (running n) = stopped
stop stopped = stopped

-- body.Universe == EUniverse_Public and body.Result == EResult_OK
unfoldable pub is_public : Packet → Bool
is_public packet = (read_msg request_body packet new_msg_channel_encrypt_request).body.universe == 1

unfoldable pub is_ok : Packet → Bool
is_ok packet = (read_msg result_body packet new_msg_channel_encrypt_result).body.result == 1

-- The encrypted session key and its CRC32, as the answer to a ChannelEncryptRequest.
unfoldable pub channel_answer : {M B : Type 0} → (List ℕ → ℕ) → List ℕ → IMsg M B
channel_answer crc32 encrypted = plain_msg (
    PlainMsg.new response_body new_msg_channel_encrypt_response
      (encrypted ++ (le_bytes 4 (crc32 encrypted) ++ (0 ∷ 0 ∷ 0 ∷ 0 ∷ []))))

module _ {M B C : Type 0} where
  unfoldable pub new_client : Client M B C
  new_client = record {
    session_id = 0;
    steam_id = 0;
    current_job_id = 0;
    temp_session_key = none;
    conn = none;
    write_chan = nil_chan;
    heartbeat = no_ticker;
    events = [];
  }

  unfoldable pub emit : ClientEvent → Client M B C → Client M B C
  emit e c = record c { events = c.events ++ (e ∷ []) }

  unfoldable pub connected : Client M B C → Bool
  connected c = elim c.conn [ none ↦ false | some l ↦ true ]

  unfoldable pub get_next_job_id : Client M B C → ℕ × Client M B C
  get_next_job_id c =
      let job = (c.current_job_id + 1) % 2 ^ 64 in (job, record c { current_job_id = job })

  unfoldable pub disconnect : Client M B C → Outcome (Client M B C)
  unfolding close stop emit
  disconnect c = elim c.conn [
    | none ↦ returns c
    | some l ↦ close c.write_chan >>= λ chan. returns (
        emit disconnected_event
          (record c { conn = none; heartbeat = stop c.heartbeat; write_chan = chan }))
  ]

  unfoldable pub fatalf : Client M B C → Outcome (Client M B C)
  unfolding emit disconnect
  fatalf c = disconnect (emit fatal_error_event c)

  -- A test that emits a fatal error and goes on.
  unfoldable pub fatal_if : Bool → Client M B C → Outcome (Client M B C)
  unfolding fatalf
  fatal_if true c = fatalf c
  fatal_if false c = returns c

  unfoldable pub after_dial : Option C → Client M B C → Outcome (Client M B C)
  unfolding fatalf
  after_dial none c = fatalf c
  after_dial (some l) c = returns (record c { conn = some l; write_chan = open_chan [] })

  -- ConnectToBind and ConnectTo: `dial` is what the dialer gives, `none` if it fails.
  unfoldable pub connect_to_bind : Option C → Client M B C → Outcome (Client M B C)
  unfolding disconnect after_dial
  connect_to_bind dial c = disconnect c >>= after_dial dial

  unfoldable pub after_dial_web : Option C → Client M B C → Outcome (Client M B C)
  unfolding fatalf emit
  after_dial_web none c = fatalf c
  after_dial_web (some l) c =
      returns (emit connected_event (record c { conn = some l; write_chan = open_chan [] }))

  unfoldable pub connect_to_web_socket : Option C → Client M B C → Outcome (Client M B C)
  unfolding disconnect after_dial_web
  connect_to_web_socket dial c = disconnect c >>= after_dial_web dial

  -- The IClientMsgs get the client's session id and SteamID.
  unfoldable pub stamp : Client M B C → IMsg M B → IMsg M B
  stamp c (proto_msg m) =
      proto_msg (ProtoMsg.set_steam_id (ProtoMsg.set_session_id m c.session_id) c.steam_id)
  stamp c (client_msg m) =
      client_msg (StructMsg.set_steam_id (StructMsg.set_session_id m c.session_id) c.steam_id)
  stamp c (plain_msg m) = plain_msg m

  unfoldable pub write : IMsg M B → Client M B C → Outcome (Client M B C)
  unfolding stamp send
  write msg c = elim c.conn [
    | none ↦ returns c
    | some l ↦ send (stamp c msg) c.write_chan >>= λ chan. returns (record c { write_chan = chan })
  ]

  -- The start of heartbeatLoop, and one tick of it with the heartbeat message. time.NewTicker
  -- panics unless the time is positive; the seconds are an int32.
  unfoldable pub start_heartbeat : ℕ → Client M B C → Outcome (Client M B C)
  start_heartbeat seconds c =
      if seconds == 0 || leb (2 ^ 31) seconds
      then panics
      else returns (record c { heartbeat = running seconds })

  unfoldable pub tick : M → Client M B C → Outcome (Client M B C)
  unfolding write
  tick body c = elim c.heartbeat [
    | running n ↦ write (proto_msg (ProtoMsg.new 703 body)) c
    | _ ↦ returns c
  ]

  -- `key` is the random session key.
  unfoldable pub handle_channel_encrypt_request :
      List ℕ → (List ℕ → List ℕ) → (List ℕ → ℕ) → Packet → Client M B C → Outcome (Client M B C)
  unfolding is_public fatal_if write channel_answer
  handle_channel_encrypt_request key rsa crc32 packet c =
      fatal_if (not (is_public packet)) c >>= λ c1.
      write (channel_answer crc32 (rsa key)) (record c1 { temp_session_key = some key })

  module _ (link : Link C) where
    -- c.conn.SetEncryptionKey and what follows it. A nil interface panics.
    unfoldable pub accept_key : Option C → Client M B C → Outcome (Client M B C)
    unfolding emit
    accept_key none c = panics
    accept_key (some l) c = link.set_encryption_key c.temp_session_key l >>= λ l'.
        returns (emit connected_event (record c { conn = some l'; temp_session_key = none }))

    unfoldable pub handle_channel_encrypt_result : Packet → Client M B C → Outcome (Client M B C)
    unfolding is_ok fatalf accept_key
    handle_channel_encrypt_result packet c = elim (is_ok packet) [
      | false ↦ fatalf c
      | true ↦ accept_key c.conn c
    ]
