-- ===== src/ProtoBuf.antt =====
-- Messages with a protobuf header: protobuf.CMsgProtoBufHeader of protocol/protobuf/base.pb.go and
-- MsgHdrProtoBuf of protocol/steamlang/messages.go. The protobuf library is a parameter, a `Codec`.
pub mod Wire
use go_steam_ws.Base.{
  ℕ, ◌-◌, ◌^◌, ◌<◌, ◌%◌, ◌≡◌, Bool, Option, none, some, List, ◌++◌, leb, if◌then◌else◌, bit_and,
  bit_or, length,
}
use go_steam_ws.Io.{
  Error, marshal, Reader, Buffer, Write, ◌>>◌, write_int, write_bytes, Outcome, returns, panics,
  read_full,
}
use go_steam_ws.Rwu.{read_int32, read_uint32}
use go_steam_ws.SteamLang.{no_job, proto_mask, emsg_mask}

-- protobuf.CMsgProtoBufHeader: an optional field is a pointer in Go. `others` stands for the
-- encoded fields that no code of the repository sets or reads.
pub record ProtoHeader : Type 0 where
  pub steamid : Option ℕ
  pub client_sessionid : Option ℕ
  pub routing_appid : Option ℕ
  pub jobid_source : Option ℕ
  pub jobid_target : Option ℕ
  pub target_job_name : Option (List ℕ)
  pub eresult : Option ℕ
  pub others : List ℕ

abbrev pub empty_proto_header : ProtoHeader
empty_proto_header = record {
  steamid = none;
  client_sessionid = none;
  routing_appid = none;
  jobid_source = none;
  jobid_target = none;
  target_job_name = none;
  eresult = none;
  others = List.[];
}

abbrev pub get_or_default : Option ℕ → ℕ → ℕ
get_or_default none d = d
get_or_default (some v) d = v

unfoldable pub get_steamid : ProtoHeader → ℕ
get_steamid h = get_or_default h.steamid 0

unfoldable pub get_client_sessionid : ProtoHeader → ℕ
get_client_sessionid h = get_or_default h.client_sessionid 0

unfoldable pub get_jobid_source : ProtoHeader → ℕ
get_jobid_source h = get_or_default h.jobid_source no_job

unfoldable pub get_jobid_target : ProtoHeader → ℕ
get_jobid_target h = get_or_default h.jobid_target no_job

unfoldable pub get_eresult : ProtoHeader → ℕ
get_eresult h = get_or_default h.eresult 2

-- google.golang.org/protobuf/proto at one message type `M`:
-- `encode` is proto.Marshal, which gives bytes or fails, and `decode` is
-- proto.Unmarshal, which overwrites the message, also when it fails half way.
pub record Codec (M : Type 0) : Type 0 where
  pub encode : M → Option (List ℕ)
  pub decode : List ℕ → Option Error × M

-- `decode` reads back what `encode` wrote, and the wire form of a message is below 2 GiB.
pub record IsCodec {M : Type 0} (c : Codec M) : Type 0 where
  pub round_trip : (m : M) (bs : List ℕ) → c.encode m ≡ some bs → c.decode bs ≡ (none, m)
  pub short : (m : M) (bs : List ℕ) → c.encode m ≡ some bs → length bs < 2 ^ 31

pub record MsgHdrProtoBuf : Type 0 where
  pub msg : ℕ
  pub header_length : ℕ
  pub proto : ProtoHeader

unfoldable pub new_msg_hdr_proto_buf : MsgHdrProtoBuf
new_msg_hdr_proto_buf = record { msg = 0; header_length = 0; proto = empty_proto_header }

module _ (codec : Codec ProtoHeader) where
  -- Serialize sets HeaderLength in the struct.
  serialize_as : MsgHdrProtoBuf → Buffer → Option (List ℕ) → Option Error × MsgHdrProtoBuf × Buffer
  serialize_as d buf none = (some marshal, d, buf)
  serialize_as d buf (some buf0) =
      let len = length buf0 % 2 ^ 32 in
      let (e, out) =
        (write_int 4 (bit_or d.msg proto_mask) >> write_int 4 len >> write_bytes buf0) buf in
      (e, record d { header_length = len }, out)

  unfoldable pub serialize_msg_hdr_proto_buf :
      MsgHdrProtoBuf → Buffer → Option Error × MsgHdrProtoBuf × Buffer
  unfolding serialize_as
  serialize_msg_hdr_proto_buf d buf = serialize_as d buf (codec.encode d.proto)

  -- proto.Unmarshal(buf1, d.Proto)
  decoded :
      MsgHdrProtoBuf → Reader → Option Error × ProtoHeader → Option Error × MsgHdrProtoBuf × Reader
  decoded d r (e, h) = (e, record d { proto = h }, r)

  -- io.ReadFull(r, buf1)
  filled : MsgHdrProtoBuf → Option Error × List ℕ × Reader → Option Error × MsgHdrProtoBuf × Reader
  unfolding decoded
  filled d (none, buf1, r) = decoded d r (codec.decode buf1)
  filled d (some e, buf1, r) = (some e, d, r)

  -- make([]byte, d.HeaderLength) panics at a negative int32.
  sized :
      MsgHdrProtoBuf → ℕ × Option Error × Reader → Outcome (Option Error × MsgHdrProtoBuf × Reader)
  unfolding filled
  sized d (len, some e, r) = returns (some e, record d { header_length = len }, r)
  sized d (len, none, r) =
      if leb (2 ^ 31) len
      then panics
      else returns (filled (record d { header_length = len }) (read_full len r))

  named :
      MsgHdrProtoBuf → ℕ × Option Error × Reader → Outcome (Option Error × MsgHdrProtoBuf × Reader)
  unfolding sized
  named d (t0, some e, r) = returns (some e, d, r)
  named d (t0, none, r) = sized (record d { msg = bit_and t0 emsg_mask }) (read_int32 r)

  unfoldable pub deserialize_msg_hdr_proto_buf :
      MsgHdrProtoBuf → Reader → Outcome (Option Error × MsgHdrProtoBuf × Reader)
  unfolding named
  deserialize_msg_hdr_proto_buf d r = named d (read_int32 r)
