-- ===== src/Protocol/Packet.antt =====
-- protocol/packet.go: incoming, partially unread messages.
use go_steam_ws.Base.{ℕ, Bool, true, false, ◌||◌, Option, none, some, List, ◌==◌, if◌then◌else◌}
use go_steam_ws.Io.{Error, Reader, read_int, Outcome, returns, Result, ok, err, ◌>>=◌}
use go_steam_ws.SteamLang.{
  new_emsg, is_proto, MsgHdr, new_msg_hdr, deserialize_msg_hdr, ExtendedClientMsgHdr,
  new_extended_client_msg_hdr, deserialize_extended_client_msg_hdr,
}
use go_steam_ws.SteamLang.Bodies.{MessageBody}
use go_steam_ws.ProtoBuf.{
  ProtoHeader, Codec, MsgHdrProtoBuf, new_msg_hdr_proto_buf, deserialize_msg_hdr_proto_buf,
  get_jobid_target, get_jobid_source,
}
use go_steam_ws.Protocol.ProtoMsg.{ClientMsgProtobuf}
use go_steam_ws.Protocol.StructMsg.{ClientMsg}
use go_steam_ws.Protocol.PlainMsg.{Msg}

pub record Packet : Type 0 where
  pub emsg : ℕ
  pub is_proto : Bool
  pub target_job_id : ℕ
  pub source_job_id : ℕ
  pub raw_data : List ℕ

-- The three branches of NewPacket, after their header.Deserialize.
of_msg_hdr : ℕ → List ℕ → Option Error × MsgHdr × Reader → Result Packet
of_msg_hdr emsg bytes (some e, header, r) = err e
of_msg_hdr emsg bytes (none, header, r) = ok (record {
  emsg = emsg;
  is_proto = false;
  target_job_id = header.target_job_id;
  source_job_id = header.source_job_id;
  raw_data = bytes;
})

of_proto_hdr : ℕ → List ℕ → Option Error × MsgHdrProtoBuf × Reader → Result Packet
unfolding get_jobid_target get_jobid_source
of_proto_hdr emsg bytes (some e, header, r) = err e
of_proto_hdr emsg bytes (none, header, r) = ok (record {
  emsg = emsg;
  is_proto = true;
  target_job_id = get_jobid_target header.proto;
  source_job_id = get_jobid_source header.proto;
  raw_data = bytes;
})

of_extended_hdr : ℕ → List ℕ → Option Error × ExtendedClientMsgHdr × Reader → Result Packet
of_extended_hdr emsg bytes (some e, header, r) = err e
of_extended_hdr emsg bytes (none, header, r) = ok (record {
  emsg = emsg;
  is_proto = false;
  target_job_id = header.target_job_id;
  source_job_id = header.source_job_id;
  raw_data = bytes;
})

-- EMsg_ChannelEncryptRequest and EMsg_ChannelEncryptResult.
abbrev pub is_channel_emsg : ℕ → Bool
is_channel_emsg emsg = emsg == 1303 || emsg == 1305

module _ (codec : Codec ProtoHeader) where
  dispatch_raw : List ℕ → ℕ × Option Error × Reader → Outcome (Result Packet)
  unfolding of_msg_hdr of_proto_hdr of_extended_hdr new_msg_hdr new_msg_hdr_proto_buf
      new_extended_client_msg_hdr
  dispatch_raw bytes (raw, some e, r) = returns (err e)
  dispatch_raw bytes (raw, none, r) =
      let emsg = new_emsg raw in
      if is_channel_emsg emsg
      then returns
          (of_msg_hdr emsg bytes (deserialize_msg_hdr (record new_msg_hdr { msg = emsg }) bytes))
      else if is_proto raw
      then (deserialize_msg_hdr_proto_buf codec (record new_msg_hdr_proto_buf { msg = emsg }) bytes
          >>= λ h. returns (of_proto_hdr emsg bytes h))
      else returns (
          of_extended_hdr emsg bytes (
            deserialize_extended_client_msg_hdr (record new_extended_client_msg_hdr { msg = emsg })
              bytes))

  unfoldable pub new_packet : List ℕ → Outcome (Result Packet)
  unfolding dispatch_raw
  new_packet bytes = dispatch_raw bytes (read_int 4 bytes)

  -- ReadProtoMsg unmarshals what the header leaves, and reports no error of either.
  unfoldable pub read_proto_msg : {M : Type 0} → Codec M → Packet → Outcome (ClientMsgProtobuf M)
  unfolding new_msg_hdr_proto_buf
  read_proto_msg bodies p =
      deserialize_msg_hdr_proto_buf codec new_msg_hdr_proto_buf p.raw_data >>= λ h.
      returns (record { header = h.1; body = (bodies.decode h.2).1 })

module _ {B : Type 0} (m : MessageBody B) where
  -- The rest of the reader is the payload.
  unfoldable pub read_client_msg : Packet → B → ClientMsg B
  unfolding new_extended_client_msg_hdr
  read_client_msg p body0 =
      let (e, header, r) =
        deserialize_extended_client_msg_hdr new_extended_client_msg_hdr p.raw_data in
      let (e', body, payload) = m.deserialize body0 r in
      record { header = header; body = body; payload = payload }

  unfoldable pub read_msg : Packet → B → Msg B
  unfolding new_msg_hdr
  read_msg p body0 =
      let (e, header, r) = deserialize_msg_hdr new_msg_hdr p.raw_data in
      let (e', body, payload) = m.deserialize body0 r in
      record { header = header; body = body; payload = payload }
