-- ===== src/Authentication.antt =====
-- authentication.go: logging on with credentials, by calls of service methods. The map of waiting
-- calls has for each job the buffer of its channel, which holds one packet at most. `arrivals` has
-- for each call to come what HandlePacket gets while that call waits; the call takes the answer
-- that its channel holds by then, or times out. The RSA encryption, base64 and SHA-1 are arguments.
pub mod LogOn
pub mod Calls
pub mod Sent
pub mod Bounds
use go_steam_ws.Base.{
  ℕ, zero, suc, ◌+◌, ◌*◌, Bool, true, false, ◌&&◌, ◌||◌, Option, none, some, List, [], ◌∷◌, ◌==◌,
  leb, if◌then◌else◌,
}
use go_steam_ws.Base.Store.{Store, lookup, insert, erase}
use go_steam_ws.Client.{Client, IMsg, proto_msg, send, get_next_job_id}
use go_steam_ws.Io.{Error, invalid, Outcome, returns, panics, Result, ok, err, ◌>>=◌}
use go_steam_ws.ProtoBuf.{ProtoHeader, Codec, get_eresult}
use go_steam_ws.Protocol.Packet.{Packet, read_proto_msg}
use go_steam_ws.Protocol.ProtoMsg
use go_steam_ws.Protocol.ProtoMsg.{ClientMsgProtobuf}
use go_steam_ws.Social.Avatar.{same_text}

abbrev pub Pending : Type 0
Pending = Store (Option Packet)

-- `ch <- packet`, unless the buffer is full.
unfoldable pub offer : Packet → Option (Option Packet) → Pending → Pending
offer p none pending = pending
offer p (some none) pending = insert p.target_job_id (some p) pending
offer p (some (some q)) pending = pending

-- EMsg_ServiceMethodResponse is 147.
unfoldable pub handle_packet : Packet → Pending → Pending
unfolding offer
handle_packet p pending =
    if p.emsg == 147 then offer p (lookup p.target_job_id pending) pending else pending

unfoldable pub handle_packets : List Packet → Pending → Pending
unfolding handle_packet
handle_packets [] pending = pending
handle_packets (p ∷ ps) pending = handle_packets ps (handle_packet p pending)

pub record DeviceDetails : Type 0 where
  pub device_friendly_name : List ℕ
  pub platform_type : ℕ
  pub os_type : ℕ

pub record BeginRequest : Type 0 where
  pub account_name : List ℕ
  pub encrypted_password : List ℕ
  pub encryption_timestamp : Option ℕ
  pub persistence : ℕ
  pub website_id : List ℕ
  pub device_friendly_name : List ℕ
  pub platform_type : ℕ
  pub device_details : DeviceDetails

-- The bodies that go out.
pub data AuthProto : Type 0 where
  client_hello : ℕ → AuthProto
  get_rsa_key : List ℕ → AuthProto
  begin_session : BeginRequest → AuthProto
  poll_status : Option ℕ → Option (List ℕ) → AuthProto

-- The bodies that come in, by their getters.
pub record RsaResponse : Type 0 where
  pub publickey_mod : List ℕ
  pub publickey_exp : List ℕ
  pub timestamp : Option ℕ

pub record BeginResponse : Type 0 where
  pub client_id : Option ℕ
  pub request_id : Option (List ℕ)
  pub steamid : ℕ
  pub allowed_confirmations : List ℕ

pub record PollResponse : Type 0 where
  pub refresh_token : List ℕ
  pub access_token : List ℕ
  pub account_name : List ℕ

pub record CredentialsAuthResult : Type 0 where
  pub refresh_token : List ℕ
  pub access_token : List ℕ
  pub account_name : List ℕ
  pub steam_id : ℕ

pub record Authentication (B C : Type 0) : Type 0 where
  pub client : Client AuthProto B C
  pub pending : Pending
  pub arrivals : List (List Packet)

-- A call that may fail, and may change the state.
abbrev pub Run : Type 0 → Type 0 → Type 0 → Type 0
Run B C A = Authentication B C → Outcome (Result A × Authentication B C)

-- The message of a call: 9804 is the EMsg of calls before the log-on.
unfoldable pub call_message : List ℕ → AuthProto → ℕ → ClientMsgProtobuf AuthProto
call_message method req job =
    ProtoMsg.set_source_job_id
      (ProtoMsg.on_proto (λ h. record h { target_job_name = some method }) (ProtoMsg.new 9804 req))
      job

-- What the call waits for, and its answer: the channel holds a packet, or the time is up.
abbrev next_arrivals : List (List Packet) → List Packet
next_arrivals [] = []
next_arrivals (ps ∷ more) = ps

abbrev later_arrivals : List (List Packet) → List (List Packet)
later_arrivals [] = []
later_arrivals (ps ∷ more) = more

unfoldable pub answer :
    {A : Type 0} → Codec ProtoHeader → Codec A → Option (Option Packet) → Outcome (Result (ℕ × A))
unfolding get_eresult
answer codec resp none = returns (err invalid)
answer codec resp (some none) = returns (err invalid)
answer codec resp (some (some p)) =
    read_proto_msg codec resp p >>= λ msg. returns (ok (get_eresult msg.header.proto, msg.body))

module _ {B C : Type 0} where
  abbrev on_ok :
      {A D : Type 0}
      → (A → Run B C D)
      → Result A × Authentication B C
      → Outcome (Result D × Authentication B C)
  on_ok k (ok x, a) = k x a
  on_ok k (err e, a) = returns (err e, a)

  -- `x, err := m; if err != nil { return nil, err }; k`
  infixl 5 ◌>>?◌
  abbrev pub ◌>>?◌ : {A D : Type 0} → Run B C A → (A → Run B C D) → Run B C D
  ◌>>?◌ m k a = m a >>= on_ok k

  unfoldable pub new_authentication : Client AuthProto B C → List (List Packet) → Authentication B C
  new_authentication c arrivals = record { client = c; pending = []; arrivals = arrivals }

  unfoldable pub send_no_stamp :
      IMsg AuthProto B → Client AuthProto B C → Outcome (Client AuthProto B C)
  unfolding send
  send_no_stamp msg c = elim c.conn [
    | none ↦ returns c
    | some l ↦ send msg c.write_chan >>= λ chan. returns (record c { write_chan = chan })
  ]

  module _ (codec : Codec ProtoHeader) where
    -- The wait and the deferred deletion.
    unfoldable pub wait : {A : Type 0} → Codec A → ℕ → Run B C (ℕ × A)
    unfolding answer handle_packets
    wait resp job a =
        let pending = handle_packets (next_arrivals a.arrivals) a.pending in
        answer codec resp (lookup job pending) >>= λ r.
        returns (r, record a { pending = erase job pending; arrivals = later_arrivals a.arrivals })

    unfoldable pub call : {A : Type 0} → List ℕ → AuthProto → Codec A → Run B C (ℕ × A)
    unfolding send_no_stamp call_message wait get_next_job_id
    call method req resp a =
        let (job, c) = get_next_job_id a.client in
        send_no_stamp (proto_msg (call_message method req job)) c >>= λ c1.
        wait resp job (record a { client = c1; pending = insert job none a.pending })
