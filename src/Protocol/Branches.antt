-- ===== src/Protocol/Branches.antt =====
-- NewPacket of packet.go, branch by branch, given what its reads of the data come to.
use go_steam_ws.Base.{ℕ, ◌^◌, ◌<◌, ◌≡◌, true, false, none, List, ◌++◌, arith}
use go_steam_ws.Io.{le_bytes, read_int, returns, ok, Reader}
use go_steam_ws.Io.Laws.{read_int-le_bytes}
use go_steam_ws.SteamLang.{
  new_emsg, is_proto, MsgHdr, ExtendedClientMsgHdr, new_msg_hdr, new_extended_client_msg_hdr,
  deserialize_msg_hdr, deserialize_extended_client_msg_hdr,
}
use go_steam_ws.ProtoBuf.{
  ProtoHeader, Codec, MsgHdrProtoBuf, deserialize_msg_hdr_proto_buf, get_jobid_target,
  get_jobid_source, new_msg_hdr_proto_buf,
}
use go_steam_ws.Protocol.Packet.{is_channel_emsg, new_packet}

-- The first read of NewPacket sees the message number that the header begins with.
pub first_int :
    (v : ℕ) (tail : List ℕ) → v < 2 ^ 32 → read_int 4 (le_bytes 4 v ++ tail) ≡ (v, none, tail)
first_int v tail h = read_int-le_bytes 4 v tail (omega arith)

module _ (codec : Codec ProtoHeader) where
  -- NewPacket, given what its two reads of the data come to.
  pub channel_branch :
      (raw : ℕ) (wire : List ℕ) (r r' : Reader) (h : MsgHdr)
      → read_int 4 wire ≡ (raw, none, r)
      → is_channel_emsg (new_emsg raw) ≡ true
      → deserialize_msg_hdr (record new_msg_hdr { msg = new_emsg raw }) wire ≡ (none, h, r')
      → new_packet codec wire
        ≡ returns (
            ok (record {
              emsg = new_emsg raw;
              is_proto = false;
              target_job_id = h.target_job_id;
              source_job_id = h.source_job_id;
              raw_data = wire;
            }))
  unfolding new_packet
  channel_branch raw wire r r' h e t d = rw (e, t, d)

  pub proto_branch :
      (raw : ℕ) (wire : List ℕ) (r r' : Reader) (h : MsgHdrProtoBuf)
      → read_int 4 wire ≡ (raw, none, r)
      → is_channel_emsg (new_emsg raw) ≡ false
      → is_proto raw ≡ true
      → deserialize_msg_hdr_proto_buf codec
          (record new_msg_hdr_proto_buf { msg = new_emsg raw })
          wire
        ≡ returns (none, h, r')
      → new_packet codec wire
        ≡ returns (
            ok (record {
              emsg = new_emsg raw;
              is_proto = true;
              target_job_id = get_jobid_target h.proto;
              source_job_id = get_jobid_source h.proto;
              raw_data = wire;
            }))
  unfolding new_packet
  proto_branch raw wire r r' h e t u d = rw (e, t, u, d)

  pub extended_branch :
      (raw : ℕ) (wire : List ℕ) (r r' : Reader) (h : ExtendedClientMsgHdr)
      → read_int 4 wire ≡ (raw, none, r)
      → is_channel_emsg (new_emsg raw) ≡ false
      → is_proto raw ≡ false
      → deserialize_extended_client_msg_hdr
          (record new_extended_client_msg_hdr { msg = new_emsg raw })
          wire
        ≡ (none, h, r')
      → new_packet codec wire
        ≡ returns (
            ok (record {
              emsg = new_emsg raw;
              is_proto = false;
              target_job_id = h.target_job_id;
              source_job_id = h.source_job_id;
              raw_data = wire;
            }))
  unfolding new_packet
  extended_branch raw wire r r' h e t u d = rw (e, t, u, d)
