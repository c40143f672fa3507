-- ===== src/GameCoordinator/RoundTrip.antt =====
-- A game coordinator message that GameCoordinator.Write puts in its envelope, and the packet that
-- NewGCPacket makes of such an envelope.
use go_steam_ws.Base.{refl, ◌+◌, bit_or, ℕ, ◌^◌, ◌<◌, ◌≡◌, true, false, some, List, [], ◌++◌, arith}
use go_steam_ws.GameCoordinator.{wrapper}
use go_steam_ws.GameCoordinator.Messages.{
  get_app_id, get_msg_type, gc_is_proto, new_msg_gc_hdr_proto_buf, GcMsgProtobuf, GcMsg, gc_proto,
  gc_struct, serialize_gc_msg, new_gc_packet, serialize_msg_gc_hdr_proto_buf,
  deserialize_msg_gc_hdr_proto_buf, of_gc_proto_hdr, of_gc_hdr,
}
use go_steam_ws.Io.{returns, ok, write_bytes}
use go_steam_ws.Io.Steps.{Writes}
use go_steam_ws.ProtoBuf.{ProtoHeader, Codec, IsCodec, get_jobid_target}
use go_steam_ws.ProtoBuf.Wire.{proto_bytes, serialize_proto_lem, deserialize_proto_lem}
use go_steam_ws.SteamLang.{proto_mask}
use go_steam_ws.SteamLang.Flag.{is_proto_lem, bit_or-proto_mask, bit_and-emsg_mask}
use go_steam_ws.SteamLang.RoundTrip.Udp.{msg_gc_hdr-Carries, FitsMsgGcHdr, msg_gc_hdr_bytes}

module _ (codec : Codec ProtoHeader) (good : IsCodec codec) where
  gc_payload :
      (g : GcMsgProtobuf) (hbs bs : List ℕ)
      → codec.encode g.header.proto ≡ some hbs
      → g.body ≡ some bs
      → (serialize_gc_msg codec (gc_proto g) []).1 ≡ proto_bytes g.header.msg hbs ++ bs
  unfolding serialize_gc_msg serialize_msg_gc_hdr_proto_buf write_bytes
  gc_payload g hbs bs e e' = rw (serialize_proto_lem codec good g.header hbs [] e, e') refl

  -- A protobuf message to a game coordinator, whose type is below 2 ^ 31 and whose header and body
  -- the protobuf library can encode: NewGCPacket makes of the wrapper that Write sends a packet
  -- with the application, the type without the flag, the target job and the bytes of the body.
  pub new_gc_packet-wrapper :
      (g : GcMsgProtobuf) (hbs bs : List ℕ)
      → g.header.msg < 2 ^ 31
      → codec.encode g.header.proto ≡ some hbs
      → g.body ≡ some bs
      → new_gc_packet codec (wrapper codec (gc_proto g))
        ≡ returns (
            ok (record {
              app_id = g.app_id;
              msg_type = g.header.msg;
              is_proto = true;
              gc_name = [];
              body = bs;
              target_job_id = get_jobid_target g.header.proto;
            }))
  unfolding new_gc_packet wrapper deserialize_msg_gc_hdr_proto_buf of_gc_proto_hdr get_app_id
      get_msg_type gc_is_proto
  new_gc_packet-wrapper g hbs bs h e e' = ground (
    arith,
    gc_payload g hbs bs e e',
    deserialize_proto_lem codec good g.header new_msg_gc_hdr_proto_buf hbs bs h e,
    is_proto_lem (bit_or g.header.msg proto_mask),
    bit_or-proto_mask g.header.msg,
    bit_and-emsg_mask (g.header.msg + 2 ^ 31),
  )

-- A struct backed message to a game coordinator, whose type is below 2 ^ 31 and whose body writes
-- `bs`: NewGCPacket makes of the wrapper that Write sends a packet with the application, the type,
-- the target job and the bytes of the body.
pub new_gc_packet-wrapper_struct :
    (codec : Codec ProtoHeader) (g : GcMsg) (bs : List ℕ)
    → g.msg_type < 2 ^ 31
    → FitsMsgGcHdr g.header
    → Writes g.body bs
    → new_gc_packet codec (wrapper codec (gc_struct g))
      ≡ returns (
          ok (record {
            app_id = g.app_id;
            msg_type = g.msg_type;
            is_proto = false;
            gc_name = [];
            body = bs;
            target_job_id = g.header.target_job_id;
          }))
unfolding new_gc_packet wrapper serialize_gc_msg of_gc_hdr get_app_id get_msg_type gc_is_proto
new_gc_packet-wrapper_struct codec g bs h f w =
    let c = msg_gc_hdr-Carries g.header f in
    ground (arith, c.writes [], w (msg_gc_hdr_bytes g.header), c.reads bs, is_proto_lem g.msg_type)
