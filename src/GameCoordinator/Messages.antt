-- ===== src/GameCoordinator/Messages.antt =====
-- protocol/gamecoordinator: the messages to a game coordinator (msg.go) and the packets from one
-- (packet.go). MsgGCHdrProtoBuf of messages.go is MsgHdrProtoBuf, field for field and step for
-- step: a uint32 and an int32 are both their bit pattern here.
use go_steam_ws.Base.{ℕ, Bool, true, false, Option, none, some, List, if◌then◌else◌, bit_and}
use go_steam_ws.Io.{
  Error, marshal, Reader, Buffer, Write, ◌>>◌, write_bytes, Outcome, returns, Result, ok, err,
  ◌>>=◌,
}
use go_steam_ws.ProtoBuf.{
  ProtoHeader, Codec, MsgHdrProtoBuf, new_msg_hdr_proto_buf, serialize_msg_hdr_proto_buf,
  deserialize_msg_hdr_proto_buf, get_jobid_target, get_jobid_source,
}
use go_steam_ws.SteamLang.{emsg_mask, is_proto}
use go_steam_ws.SteamLang.Bodies.{MessageBody}
use go_steam_ws.SteamLang.Messages.Udp.{
  MsgGcHdr, new_msg_gc_hdr, serialize_msg_gc_hdr, deserialize_msg_gc_hdr,
}

abbrev pub MsgGcHdrProtoBuf : Type 0
MsgGcHdrProtoBuf = MsgHdrProtoBuf

unfoldable pub new_msg_gc_hdr_proto_buf : MsgGcHdrProtoBuf
unfolding new_msg_hdr_proto_buf
new_msg_gc_hdr_proto_buf = new_msg_hdr_proto_buf

unfoldable pub serialize_msg_gc_hdr_proto_buf :
    Codec ProtoHeader → MsgGcHdrProtoBuf → Buffer → Option Error × MsgGcHdrProtoBuf × Buffer
serialize_msg_gc_hdr_proto_buf codec d buf = serialize_msg_hdr_proto_buf codec d buf

unfoldable pub deserialize_msg_gc_hdr_proto_buf :
    Codec ProtoHeader
    → MsgGcHdrProtoBuf
    → Reader
    → Outcome (Option Error × MsgGcHdrProtoBuf × Reader)
deserialize_msg_gc_hdr_proto_buf codec d r = deserialize_msg_hdr_proto_buf codec d r

-- `body` is what proto.Marshal gives for the body, `none` if it fails.
pub record GcMsgProtobuf : Type 0 where
  pub app_id : ℕ
  pub header : MsgGcHdrProtoBuf
  pub body : Option (List ℕ)

-- `body` is the Serialize of the protocol.Serializer.
pub record GcMsg : Type 0 where
  pub app_id : ℕ
  pub msg_type : ℕ
  pub header : MsgGcHdr
  pub body : Write

unfoldable pub new_gc_msg_protobuf : ℕ → ℕ → Option (List ℕ) → GcMsgProtobuf
unfolding new_msg_gc_hdr_proto_buf
new_gc_msg_protobuf app msg_type body = record {
  app_id = app;
  header = record new_msg_gc_hdr_proto_buf { msg = msg_type };
  body = body;
}

unfoldable pub new_gc_msg : ℕ → ℕ → Write → GcMsg
unfolding new_msg_gc_hdr
new_gc_msg app msg_type body = record {
  app_id = app;
  msg_type = msg_type;
  header = new_msg_gc_hdr;
  body = body;
}

-- The interface IGCMsg.
pub data IGcMsg : Type 0 where
  gc_proto : GcMsgProtobuf → IGcMsg
  gc_struct : GcMsg → IGcMsg

unfoldable pub gc_is_proto : IGcMsg → Bool
gc_is_proto (gc_proto g) = true
gc_is_proto (gc_struct g) = false

unfoldable pub get_app_id : IGcMsg → ℕ
get_app_id (gc_proto g) = g.app_id
get_app_id (gc_struct g) = g.app_id

unfoldable pub get_msg_type : IGcMsg → ℕ
get_msg_type (gc_proto g) = g.header.msg
get_msg_type (gc_struct g) = g.msg_type

unfoldable pub get_target_job_id : IGcMsg → ℕ
unfolding get_jobid_target
get_target_job_id (gc_proto g) = get_jobid_target g.header.proto
get_target_job_id (gc_struct g) = g.header.target_job_id

unfoldable pub set_target_job_id : ℕ → IGcMsg → IGcMsg
set_target_job_id job (gc_proto g) = gc_proto (record g {
  header = record (g.header) { proto = record (g.header.proto) { jobid_target = some job } };
})
set_target_job_id job (gc_struct g) =
    gc_struct (record g { header = record (g.header) { target_job_id = job } })

unfoldable pub get_source_job_id : IGcMsg → ℕ
unfolding get_jobid_source
get_source_job_id (gc_proto g) = get_jobid_source g.header.proto
get_source_job_id (gc_struct g) = g.header.source_job_id

unfoldable pub set_source_job_id : ℕ → IGcMsg → IGcMsg
set_source_job_id job (gc_proto g) = gc_proto (record g {
  header = record (g.header) { proto = record (g.header.proto) { jobid_source = some job } };
})
set_source_job_id job (gc_struct g) =
    gc_struct (record g { header = record (g.header) { source_job_id = job } })

-- protobuf.CMsgGCClient, read by its getters.
pub record CMsgGcClient : Type 0 where
  pub appid : ℕ
  pub msgtype : ℕ
  pub payload : List ℕ
  pub gcname : List ℕ

pub record GcPacket : Type 0 where
  pub app_id : ℕ
  pub msg_type : ℕ
  pub is_proto : Bool
  pub gc_name : List ℕ
  pub body : List ℕ
  pub target_job_id : ℕ

-- The two branches of NewGCPacket, after their header.Deserialize; what the reader has left is the
-- body.
unfoldable pub of_gc_proto_hdr :
    CMsgGcClient → Option Error × MsgGcHdrProtoBuf × Reader → Result GcPacket
unfolding get_jobid_target
of_gc_proto_hdr w (some e, header, r) = err e
of_gc_proto_hdr w (none, header, r) = ok (record {
  app_id = w.appid;
  msg_type = bit_and w.msgtype emsg_mask;
  is_proto = true;
  gc_name = w.gcname;
  body = r;
  target_job_id = get_jobid_target header.proto;
})

unfoldable pub of_gc_hdr : CMsgGcClient → Option Error × MsgGcHdr × Reader → Result GcPacket
of_gc_hdr w (some e, header, r) = err e
of_gc_hdr w (none, header, r) = ok (record {
  app_id = w.appid;
  msg_type = w.msgtype;
  is_proto = false;
  gc_name = w.gcname;
  body = r;
  target_job_id = header.target_job_id;
})

module _ (codec : Codec ProtoHeader) where
  after_gc_header :
      Option (List ℕ) → Option Error × MsgGcHdrProtoBuf × Buffer → Option Error × Buffer
  after_gc_header body (some e, h, buf) = (some e, buf)
  after_gc_header none (none, h, buf) = (some marshal, buf)
  after_gc_header (some bs) (none, h, buf) = write_bytes bs buf

  unfoldable pub serialize_gc_msg : IGcMsg → Write
  unfolding after_gc_header serialize_msg_gc_hdr
  serialize_gc_msg (gc_proto g) buf =
      after_gc_header g.body (serialize_msg_gc_hdr_proto_buf codec g.header buf)
  serialize_gc_msg (gc_struct g) buf = (serialize_msg_gc_hdr g.header >> g.body) buf

  unfoldable pub new_gc_packet : CMsgGcClient → Outcome (Result GcPacket)
  unfolding of_gc_proto_hdr of_gc_hdr new_msg_gc_hdr_proto_buf new_msg_gc_hdr
  new_gc_packet w =
      if is_proto w.msgtype
      then (deserialize_msg_gc_hdr_proto_buf codec new_msg_gc_hdr_proto_buf w.payload >>= λ h.
          returns (of_gc_proto_hdr w h))
      else returns (of_gc_hdr w (deserialize_msg_gc_hdr new_msg_gc_hdr w.payload))

-- GCPacket.ReadProtoMsg and ReadMsg: the errors are dropped.
unfoldable pub read_gc_proto_msg : {M : Type 0} → Codec M → GcPacket → M
read_gc_proto_msg bodies p = (bodies.decode p.body).1

unfoldable pub read_gc_msg : {B : Type 0} → MessageBody B → B → GcPacket → B
read_gc_msg m body0 p = (m.deserialize body0 p.body).1
