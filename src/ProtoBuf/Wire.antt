-- ===== src/ProtoBuf/Wire.antt =====
-- The protobuf header on the wire.
use go_steam_ws.Base.{
  ℕ, ◌+◌, ◌^◌, ◌≤◌, ◌<◌, ◌≡◌, none, some, List, ◌++◌, arith, length, append_assoc, bit_or,
}
use go_steam_ws.Io.{Buffer, Reader, le_bytes, returns, panics, write_int, write_bytes}
use go_steam_ws.Io.Laws.{read_int-le_bytes, read_full-append}
use go_steam_ws.SteamLang.{proto_mask}
use go_steam_ws.SteamLang.Flag.{bit_or-proto_mask, bit_and-emsg_mask}
use go_steam_ws.ProtoBuf.{
  ProtoHeader, Codec, IsCodec, MsgHdrProtoBuf, serialize_msg_hdr_proto_buf,
  deserialize_msg_hdr_proto_buf,
}
use go_steam_ws.Rwu.{read_int32}

abbrev pub proto_bytes : ℕ → List ℕ → List ℕ
proto_bytes msg bs = le_bytes 4 (bit_or msg proto_mask) ++ (le_bytes 4 (length bs) ++ bs)

-- What the struct holds after Serialize, and what Deserialize makes of the bytes.
abbrev pub with_length : MsgHdrProtoBuf → List ℕ → MsgHdrProtoBuf
with_length d bs = record d { header_length = length bs }

module _ (codec : Codec ProtoHeader) (ok : IsCodec codec) where
  pub serialize_proto_lem :
      (d : MsgHdrProtoBuf) (bs : List ℕ) (buf : Buffer)
      → codec.encode d.proto ≡ some bs
      → serialize_msg_hdr_proto_buf codec d buf
        ≡ (none, with_length d bs, buf ++ proto_bytes d.msg bs)
  unfolding serialize_msg_hdr_proto_buf write_int write_bytes
  serialize_proto_lem d bs buf e = ground (
    arith,
    ok.short d.proto bs e,
    append_assoc buf (le_bytes 4 (bit_or d.msg proto_mask)) (le_bytes 4 (length bs)),
    append_assoc buf (le_bytes 4 (bit_or d.msg proto_mask)) (le_bytes 4 (length bs) ++ bs),
    append_assoc (buf ++ le_bytes 4 (bit_or d.msg proto_mask)) (le_bytes 4 (length bs)) bs,
  )

  pub deserialize_proto_lem :
      (d s : MsgHdrProtoBuf) (bs : List ℕ) (rest : Reader)
      → d.msg < 2 ^ 31
      → codec.encode d.proto ≡ some bs
      → deserialize_msg_hdr_proto_buf codec s (proto_bytes d.msg bs ++ rest)
        ≡ returns (none, with_length d bs, rest)
  unfolding deserialize_msg_hdr_proto_buf read_int32
  deserialize_proto_lem d s bs rest h e = ground (
    arith,
    ok.short d.proto bs e,
    ok.round_trip d.proto bs e,
    append_assoc (le_bytes 4 (bit_or d.msg proto_mask)) (le_bytes 4 (length bs) ++ bs) rest,
    append_assoc (le_bytes 4 (length bs)) bs rest,
    read_int-le_bytes 4 (bit_or d.msg proto_mask) (le_bytes 4 (length bs) ++ (bs ++ rest)),
    read_int-le_bytes 4 (length bs) (bs ++ rest),
    read_full-append bs rest,
    bit_or-proto_mask d.msg,
    bit_and-emsg_mask (d.msg + 2 ^ 31),
  )

-- A header length with its top bit set is a negative int32: the run-time panics.
pub deserialize_proto_negative :
    (codec : Codec ProtoHeader) (s : MsgHdrProtoBuf) (e len : ℕ) (rest : Reader)
    → e < 2 ^ 32
    → 2 ^ 31 ≤ len
    → len < 2 ^ 32
    → deserialize_msg_hdr_proto_buf codec s (le_bytes 4 e ++ (le_bytes 4 len ++ rest)) ≡ panics
unfolding deserialize_msg_hdr_proto_buf read_int32
deserialize_proto_negative codec s e len rest he lo hi =
    ground (arith, read_int-le_bytes 4 e (le_bytes 4 len ++ rest), read_int-le_bytes 4 len rest)
