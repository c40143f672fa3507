-- ===== src/Protocol/Incoming.antt =====
-- What NewPacket and the Read* methods make of a message that its Serialize wrote.
use go_steam_ws.Base.{
  ℕ, ◌^◌, ◌<◌, ◌≡◌, ap, ◌∙◌, true, false, none, some, List, [], ◌++◌, arith, append_assoc, bit_or,
  length,
}
use go_steam_ws.Io.{le_bytes, write_bytes, Reader, read_int, returns, ok}
use go_steam_ws.Io.Steps.{>>-Writes, write_bytes-Writes}
use go_steam_ws.SteamLang.{proto_mask, new_emsg, MsgHdr, ExtendedClientMsgHdr}
use go_steam_ws.SteamLang.Flag.{flag_round_trip, bit_or-proto_mask}
use go_steam_ws.SteamLang.Bodies.{MessageBody, IsBodyOf}
use go_steam_ws.SteamLang.Wire.{
  FitsMsgHdr, msg_hdr_bytes, serialize_msg_hdr-Writes, deserialize_msg_hdr-Reads, FitsExtended,
  extended_bytes, serialize_extended-Writes, deserialize_extended-Reads,
}
use go_steam_ws.ProtoBuf.{ProtoHeader, Codec, IsCodec}
use go_steam_ws.ProtoBuf.Wire.{proto_bytes, with_length, serialize_proto_lem, deserialize_proto_lem}
use go_steam_ws.Protocol.ProtoMsg.{ClientMsgProtobuf}
use go_steam_ws.Protocol.ProtoMsg
use go_steam_ws.Protocol.StructMsg.{ClientMsg}
use go_steam_ws.Protocol.StructMsg
use go_steam_ws.Protocol.PlainMsg.{Msg}
use go_steam_ws.Protocol.PlainMsg
use go_steam_ws.Protocol.Packet.{
  Packet, is_channel_emsg, new_packet, read_proto_msg, read_client_msg, read_msg,
}
use go_steam_ws.Protocol.Branches.{first_int, channel_branch, proto_branch, extended_branch}

first_of_msg_hdr :
    (d : MsgHdr) (tail : List ℕ)
    → FitsMsgHdr d
    → (r : Reader) × (read_int 4 (msg_hdr_bytes d ++ tail) ≡ (d.msg, none, r))
first_of_msg_hdr d tail f = (
  le_bytes 8 d.target_job_id ++ (le_bytes 8 d.source_job_id ++ tail),
  rw (append_assoc _ _ tail, append_assoc _ _ (le_bytes 8 d.source_job_id ++ tail))
      (first_int d.msg _ f.msg),
)

first_of_extended :
    (d : ExtendedClientMsgHdr) (tail : List ℕ)
    → FitsExtended d
    → (r : Reader) × (read_int 4 (extended_bytes d ++ tail) ≡ (d.msg, none, r))
first_of_extended d tail f = (
  (le_bytes 1 d.header_size
      ++ (le_bytes 2 d.header_version
          ++ (le_bytes 8 d.target_job_id
              ++ (le_bytes 8 d.source_job_id
                  ++ (le_bytes 1 d.header_canary
                      ++ (le_bytes 8 d.steam_id ++ (le_bytes 4 d.session_id ++ tail))))))),
  simp append_assoc (first_int d.msg _ f.msg),
)

module _ {B : Type 0} (m : MessageBody B) (c : Msg B) (bs : List ℕ) where
  abbrev pub msg_wire : List ℕ
  msg_wire = msg_hdr_bytes c.header ++ (bs ++ c.payload)

  abbrev pub msg_packet : Packet
  msg_packet = record {
    emsg = PlainMsg.get_msg_type c;
    is_proto = PlainMsg.is_proto c;
    target_job_id = PlainMsg.get_target_job_id c;
    source_job_id = PlainMsg.get_source_job_id c;
    raw_data = msg_wire;
  }

  -- A message with one of the two EMsgs of the channel handshake, and job ids and a body that fit
  -- their types: NewPacket accepts what Serialize wrote, with the message's EMsg, job ids and
  -- IsProto, and ReadMsg gives header, body and payload back.
  pub read_msg-new_packet-serialize :
      (codec : Codec ProtoHeader) (s : B)
      → FitsMsgHdr c.header
      → is_channel_emsg c.header.msg ≡ true
      → IsBodyOf m c.body s bs
      → (PlainMsg.serialize m c [] ≡ (none, msg_wire))
        × (new_packet codec msg_wire ≡ returns (ok msg_packet))
        × (read_msg m msg_packet s ≡ c)
  unfolding PlainMsg.serialize PlainMsg.get_msg_type PlainMsg.get_target_job_id
      PlainMsg.get_source_job_id PlainMsg.is_proto read_msg
  read_msg-new_packet-serialize codec s f h b = (
    >>-Writes _ _ _ _ (>>-Writes _ _ _ _ (serialize_msg_hdr-Writes c.header) b.writes)
          (write_bytes-Writes c.payload) []
        ∙ ap (λ (w : List ℕ). (none, w)) (append_assoc (msg_hdr_bytes c.header) bs c.payload),
    let (r, first) = first_of_msg_hdr c.header (bs ++ c.payload) f in
        rw plain at (
          channel_branch codec c.header.msg msg_wire r _ c.header first (rw plain h)
            (deserialize_msg_hdr-Reads c.header _ f (bs ++ c.payload))),
    rw (deserialize_msg_hdr-Reads c.header _ f (bs ++ c.payload), b.reads c.payload),
  )
    where
      plain : new_emsg c.header.msg ≡ c.header.msg
      plain = (flag_round_trip c.header.msg (ground arith)).3

module _ {B : Type 0} (m : MessageBody B) (c : ClientMsg B) (bs : List ℕ) where
  abbrev pub client_wire : List ℕ
  client_wire = extended_bytes c.header ++ (bs ++ c.payload)

  -- IsProto of the packet is false, though that of the message is true.
  abbrev pub client_packet : Packet
  client_packet = record {
    emsg = StructMsg.get_msg_type c;
    is_proto = false;
    target_job_id = StructMsg.get_target_job_id c;
    source_job_id = StructMsg.get_source_job_id c;
    raw_data = client_wire;
  }

  -- A struct backed client message with an EMsg below 2 ^ 31 that is not of the channel handshake, and header fields and a body
  -- that fit their types: NewPacket accepts what Serialize wrote, with the message's EMsg and job
  -- ids, and ReadClientMsg gives header, body and payload back.
  pub read_client_msg-new_packet-serialize :
      (codec : Codec ProtoHeader) (s : B)
      → FitsExtended c.header
      → c.header.msg < 2 ^ 31
      → is_channel_emsg c.header.msg ≡ false
      → IsBodyOf m c.body s bs
      → (StructMsg.serialize m c [] ≡ (none, client_wire))
        × (new_packet codec client_wire ≡ returns (ok client_packet))
        × (read_client_msg m client_packet s ≡ c)
  unfolding StructMsg.serialize StructMsg.get_msg_type StructMsg.get_target_job_id
      StructMsg.get_source_job_id read_client_msg
  read_client_msg-new_packet-serialize codec s f small h b = (
    >>-Writes _ _ _ _ (>>-Writes _ _ _ _ (serialize_extended-Writes c.header) b.writes)
          (write_bytes-Writes c.payload) []
        ∙ ap (λ (w : List ℕ). (none, w)) (append_assoc (extended_bytes c.header) bs c.payload),
    let (r, first) = first_of_extended c.header (bs ++ c.payload) f in
        rw plain at (
          extended_branch codec c.header.msg client_wire r _ c.header first (rw plain h)
            (flag_round_trip c.header.msg small).2
            (deserialize_extended-Reads c.header _ f (bs ++ c.payload))),
    rw (deserialize_extended-Reads c.header _ f (bs ++ c.payload), b.reads c.payload),
  )
    where
      plain : new_emsg c.header.msg ≡ c.header.msg
      plain = (flag_round_trip c.header.msg small).3

module _ {M : Type 0} (codec : Codec ProtoHeader) (bodies : Codec M) (c : ClientMsgProtobuf M)
    (hs bs : List ℕ) where
  abbrev pub proto_wire : List ℕ
  proto_wire = proto_bytes c.header.msg hs ++ bs

  abbrev pub proto_packet : Packet
  proto_packet = record {
    emsg = ProtoMsg.get_msg_type c;
    is_proto = ProtoMsg.is_proto c;
    target_job_id = ProtoMsg.get_target_job_id c;
    source_job_id = ProtoMsg.get_source_job_id c;
    raw_data = proto_wire;
  }

  -- Serialize sets HeaderLength.
  abbrev pub sized_msg : ClientMsgProtobuf M
  sized_msg = record c { header = with_length c.header hs }

  -- A protobuf message with an EMsg below 2 ^ 31 that is not of the channel handshake, whose header
  -- and body the protobuf library, which reads back what it wrote, encodes as `hs` and `bs`: NewPacket accepts what Serialize wrote, with the message's
  -- EMsg, job ids and IsProto, and ReadProtoMsg gives header and body back.
  pub read_proto_msg-new_packet-serialize :
      IsCodec codec
      → IsCodec bodies
      → c.header.msg < 2 ^ 31
      → is_channel_emsg c.header.msg ≡ false
      → codec.encode c.header.proto ≡ some hs
      → bodies.encode c.body ≡ some bs
      → (ProtoMsg.serialize codec bodies c [] ≡ (none, sized_msg, proto_wire))
        × (new_packet codec proto_wire ≡ returns (ok proto_packet))
        × (read_proto_msg codec bodies proto_packet ≡ returns sized_msg)
  unfolding ProtoMsg.serialize ProtoMsg.get_msg_type ProtoMsg.get_target_job_id
      ProtoMsg.get_source_job_id ProtoMsg.is_proto read_proto_msg write_bytes
  read_proto_msg-new_packet-serialize isc isb small h eh eb = (
    rw (serialize_proto_lem codec isc c.header hs [] eh, eb),
    rw (flag_round_trip c.header.msg small).3 (
        rw plain at (
          proto_branch codec raw proto_wire _ _ (with_length c.header hs) first (rw plain h)
            (flag_round_trip c.header.msg small).0
            (deserialize_proto_lem codec isc c.header _ hs bs small eh))),
    rw (deserialize_proto_lem codec isc c.header _ hs bs small eh, isb.round_trip c.body bs eb),
  )
    where
      raw : ℕ
      raw = bit_or c.header.msg proto_mask

      plain : new_emsg raw ≡ c.header.msg
      plain = (flag_round_trip c.header.msg small).1

      first : read_int 4 proto_wire ≡ (raw, none, (le_bytes 4 (length hs) ++ hs) ++ bs)
      first =
          rw (append_assoc (le_bytes 4 raw) _ bs)
            (first_int raw _ (rw (bit_or-proto_mask c.header.msg small) (omega arith)))
