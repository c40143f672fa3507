-- ===== src/Protocol/Malformed.antt =====
-- NewPacket on data that no Serialize wrote.
use go_steam_ws.Base.{
  ℕ, ◌^◌, ◌≤◌, ◌<◌, ◌≡◌, refl, true, false, not, ◌&&◌, List, ◌++◌, arith, length,
}
use go_steam_ws.Io.{Error, le_bytes, read_int, returns, panics, ok, err}
use go_steam_ws.Io.Laws.{read_int_short}
use go_steam_ws.SteamLang.{is_proto, new_emsg}
use go_steam_ws.SteamLang.Flag.{is_proto_lem}
use go_steam_ws.ProtoBuf.{ProtoHeader, Codec}
use go_steam_ws.ProtoBuf.Wire.{deserialize_proto_negative}
use go_steam_ws.Protocol.Packet.{Packet, is_channel_emsg, new_packet}
use go_steam_ws.Protocol.Branches.{first_int}

module _ (codec : Codec ProtoHeader) where
  -- Data of fewer than four bytes is an error, whatever the bytes are.
  pub new_packet_short :
      (bytes : List ℕ) → length bytes < 4 → (e : Error) × (new_packet codec bytes ≡ returns (err e))
  unfolding new_packet
  new_packet_short bytes h = let (e, p) = read_int_short 4 bytes h in (e, rw p)

  -- Data with the protobuf flag, an EMsg outside the channel handshake and a header length that is
  -- a negative int32 makes NewPacket panic, whatever follows: no error is returned.
  pub new_packet_negative :
      (raw len : ℕ) (rest : List ℕ)
      → 2 ^ 31 ≤ raw
      → raw < 2 ^ 32
      → is_channel_emsg (new_emsg raw) ≡ false
      → 2 ^ 31 ≤ len
      → len < 2 ^ 32
      → new_packet codec (le_bytes 4 raw ++ (le_bytes 4 len ++ rest)) ≡ panics
  unfolding new_packet
  new_packet_negative raw len rest lo hi h neg fits =
      rw
        (
          first_int raw (le_bytes 4 len ++ rest) hi,
          h,
          flag,
          deserialize_proto_negative codec _ raw len rest hi neg fits,
        )
        refl
    where
      flag : is_proto raw ≡ true
      flag = rw (is_proto_lem raw hi) (ground arith)

  -- A packet that NewPacket accepts carries the data that it was given, header included, and the
  -- EMsg that the first four bytes hold without the flag; it is marked as protobuf exactly
  -- if the flag is set and the EMsg is not one of the channel handshake.
  pub new_packet-keeps :
      (bytes : List ℕ) (p : Packet)
      → new_packet codec bytes ≡ returns (ok p)
      → (p.raw_data ≡ bytes)
        × (p.emsg ≡ new_emsg (read_int 4 bytes).0)
        × (p.is_proto ≡ (not (is_channel_emsg p.emsg) && is_proto (read_int 4 bytes).0))
  unfolding new_packet
  new_packet-keeps bytes p h = (ground arith, ground arith, ground arith)
