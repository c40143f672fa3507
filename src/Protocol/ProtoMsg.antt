-- ===== src/Protocol/ProtoMsg.antt =====
-- ClientMsgProtobuf of protocol/msg.go: a protobuf message with session data.
use go_steam_ws.Base.{ℕ, Bool, true, Option, none, some, List}
use go_steam_ws.Io.{Error, marshal, Buffer, write_bytes}
use go_steam_ws.SteamLang.{new_emsg}
use go_steam_ws.ProtoBuf.{
  ProtoHeader, Codec, MsgHdrProtoBuf, new_msg_hdr_proto_buf, serialize_msg_hdr_proto_buf,
  get_client_sessionid, get_steamid, get_jobid_target, get_jobid_source,
}

pub record ClientMsgProtobuf (M : Type 0) : Type 0 where
  pub header : MsgHdrProtoBuf
  pub body : M

module _ {M : Type 0} where
  unfoldable pub new : ℕ → M → ClientMsgProtobuf M
  unfolding new_msg_hdr_proto_buf
  new emsg body = record { header = record new_msg_hdr_proto_buf { msg = emsg }; body = body }

  -- Assignment to fields of c.Header.Proto.
  abbrev pub on_proto : (ProtoHeader → ProtoHeader) → ClientMsgProtobuf M → ClientMsgProtobuf M
  on_proto f c = record c { header = record (c.header) { proto = f c.header.proto } }

  unfoldable pub is_proto : ClientMsgProtobuf M → Bool
  is_proto c = true

  unfoldable pub get_msg_type : ClientMsgProtobuf M → ℕ
  get_msg_type c = new_emsg c.header.msg

  unfoldable pub get_session_id : ClientMsgProtobuf M → ℕ
  unfolding get_client_sessionid
  get_session_id c = get_client_sessionid c.header.proto

  unfoldable pub set_session_id : ClientMsgProtobuf M → ℕ → ClientMsgProtobuf M
  set_session_id c session = on_proto (λ h. record h { client_sessionid = some session }) c

  unfoldable pub get_steam_id : ClientMsgProtobuf M → ℕ
  unfolding get_steamid
  get_steam_id c = get_steamid c.header.proto

  unfoldable pub set_steam_id : ClientMsgProtobuf M → ℕ → ClientMsgProtobuf M
  set_steam_id c s = on_proto (λ h. record h { steamid = some s }) c

  unfoldable pub get_target_job_id : ClientMsgProtobuf M → ℕ
  unfolding get_jobid_target
  get_target_job_id c = get_jobid_target c.header.proto

  unfoldable pub set_target_job_id : ClientMsgProtobuf M → ℕ → ClientMsgProtobuf M
  set_target_job_id c job = on_proto (λ h. record h { jobid_target = some job }) c

  unfoldable pub get_source_job_id : ClientMsgProtobuf M → ℕ
  unfolding get_jobid_source
  get_source_job_id c = get_jobid_source c.header.proto

  unfoldable pub set_source_job_id : ClientMsgProtobuf M → ℕ → ClientMsgProtobuf M
  set_source_job_id c job = on_proto (λ h. record h { jobid_source = some job }) c

module _ {M : Type 0} (codec : Codec ProtoHeader) (bodies : Codec M) where
  append_body :
      ClientMsgProtobuf M → Buffer → Option (List ℕ) → Option Error × ClientMsgProtobuf M × Buffer
  append_body c buf none = (some marshal, c, buf)
  append_body c buf (some body) = let (e, out) = write_bytes body buf in (e, c, out)

  after_header :
      ClientMsgProtobuf M
      → Option Error × MsgHdrProtoBuf × Buffer
      → Option Error × ClientMsgProtobuf M × Buffer
  unfolding append_body
  after_header c (some e, h, buf) = (some e, record c { header = h }, buf)
  after_header c (none, h, buf) = append_body (record c { header = h }) buf (bodies.encode c.body)

  -- The header's Serialize writes into the header, so the message changes too.
  unfoldable pub serialize :
      ClientMsgProtobuf M → Buffer → Option Error × ClientMsgProtobuf M × Buffer
  unfolding after_header
  serialize c buf = after_header c (serialize_msg_hdr_proto_buf codec c.header buf)
