-- ===== src/SteamLang/RoundTrip/Udp.antt =====
-- What Serialize writes and Deserialize reads back: the headers and the data of Steam over UDP, and the header of a game coordinator message.
use go_steam_ws.Base.{ℕ, ◌^◌, ◌<◌, List, [], ◌++◌}
use go_steam_ws.Io.{le_bytes}
use go_steam_ws.Io.Carries.{Carries, store_int, convert_int, nothing, ◌then◌}
use go_steam_ws.Rwu.{read_uint8, read_uint16, read_uint32, read_uint64}
use go_steam_ws.SteamLang.Messages.Udp.{
  UdpHeader, new_udp_header, serialize_udp_header, deserialize_udp_header, ChallengeData,
  new_challenge_data, serialize_challenge_data, deserialize_challenge_data, ConnectData,
  new_connect_data, serialize_connect_data, deserialize_connect_data, Accept, new_accept,
  serialize_accept, deserialize_accept, Datagram, new_datagram, serialize_datagram,
  deserialize_datagram, Disconnect, new_disconnect, serialize_disconnect, deserialize_disconnect,
  MsgGcHdr, new_msg_gc_hdr, serialize_msg_gc_hdr, deserialize_msg_gc_hdr,
}

abbrev pub FitsUdpHeader : UdpHeader → Type 0
FitsUdpHeader b =
    (b.magic < 2 ^ 32)
    × (b.payload_size < 2 ^ 16)
    × (b.packet_type < 2 ^ 8)
    × (b.flags < 2 ^ 8)
    × (b.source_conn_id < 2 ^ 32)
    × (b.dest_conn_id < 2 ^ 32)
    × (b.seq_this < 2 ^ 32)
    × (b.seq_ack < 2 ^ 32)
    × (b.packets_in_msg < 2 ^ 32)
    × (b.msg_start_seq < 2 ^ 32)
    × (b.msg_size < 2 ^ 32)

abbrev pub udp_header_bytes : UdpHeader → List ℕ
udp_header_bytes b =
    (((((((((le_bytes 4 b.magic ++ le_bytes 2 b.payload_size) ++ le_bytes 1 b.packet_type)
                  ++ le_bytes 1 b.flags)
                ++ le_bytes 4 b.source_conn_id)
              ++ le_bytes 4 b.dest_conn_id)
            ++ le_bytes 4 b.seq_this)
          ++ le_bytes 4 b.seq_ack)
        ++ le_bytes 4 b.packets_in_msg)
      ++ le_bytes 4 b.msg_start_seq)
    ++ le_bytes 4 b.msg_size

pub udp_header-Carries :
    (b : UdpHeader)
    → FitsUdpHeader b
    → Carries
        (serialize_udp_header b)
        deserialize_udp_header
        (udp_header_bytes b)
        36
        new_udp_header
        b
unfolding serialize_udp_header deserialize_udp_header read_uint16 read_uint32 read_uint8
udp_header-Carries b h =
    store_int _ 4 b.magic _ h.0
    then store_int _ 2 b.payload_size _ h.1
    then convert_int _ 1 b.packet_type _ h.2
    then store_int _ 1 b.flags _ h.3
    then store_int _ 4 b.source_conn_id _ h.4
    then store_int _ 4 b.dest_conn_id _ h.5
    then store_int _ 4 b.seq_this _ h.6
    then store_int _ 4 b.seq_ack _ h.7
    then store_int _ 4 b.packets_in_msg _ h.8
    then store_int _ 4 b.msg_start_seq _ h.9
    then store_int _ 4 b.msg_size _ h.10

abbrev pub FitsChallengeData : ChallengeData → Type 0
FitsChallengeData b = (b.challenge_value < 2 ^ 32) × (b.server_load < 2 ^ 32)

abbrev pub challenge_data_bytes : ChallengeData → List ℕ
challenge_data_bytes b = le_bytes 4 b.challenge_value ++ le_bytes 4 b.server_load

pub challenge_data-Carries :
    (b : ChallengeData)
    → FitsChallengeData b
    → Carries
        (serialize_challenge_data b)
        deserialize_challenge_data
        (challenge_data_bytes b)
        8
        new_challenge_data
        b
unfolding serialize_challenge_data deserialize_challenge_data read_uint32
challenge_data-Carries b h =
    store_int _ 4 b.challenge_value _ h.0 then store_int _ 4 b.server_load _ h.1

abbrev pub FitsConnectData : ConnectData → Type 0
FitsConnectData b = b.challenge_value < 2 ^ 32

abbrev pub connect_data_bytes : ConnectData → List ℕ
connect_data_bytes b = le_bytes 4 b.challenge_value

pub connect_data-Carries :
    (b : ConnectData)
    → FitsConnectData b
    → Carries
        (serialize_connect_data b)
        deserialize_connect_data
        (connect_data_bytes b)
        4
        new_connect_data
        b
unfolding serialize_connect_data deserialize_connect_data read_uint32
connect_data-Carries b h = store_int _ 4 b.challenge_value _ h

abbrev pub FitsAccept : Accept → Type 0
FitsAccept b = Unit

abbrev pub accept_bytes : Accept → List ℕ
accept_bytes b = []

pub accept-Carries :
    (b : Accept)
    → FitsAccept b
    → Carries (serialize_accept b) deserialize_accept (accept_bytes b) 0 new_accept b
unfolding serialize_accept deserialize_accept new_accept
accept-Carries b h = nothing _

abbrev pub FitsDatagram : Datagram → Type 0
FitsDatagram b = Unit

abbrev pub datagram_bytes : Datagram → List ℕ
datagram_bytes b = []

pub datagram-Carries :
    (b : Datagram)
    → FitsDatagram b
    → Carries (serialize_datagram b) deserialize_datagram (datagram_bytes b) 0 new_datagram b
unfolding serialize_datagram deserialize_datagram new_datagram
datagram-Carries b h = nothing _

abbrev pub FitsDisconnect : Disconnect → Type 0
FitsDisconnect b = Unit

abbrev pub disconnect_bytes : Disconnect → List ℕ
disconnect_bytes b = []

pub disconnect-Carries :
    (b : Disconnect)
    → FitsDisconnect b
    → Carries
        (serialize_disconnect b)
        deserialize_disconnect
        (disconnect_bytes b)
        0
        new_disconnect
        b
unfolding serialize_disconnect deserialize_disconnect new_disconnect
disconnect-Carries b h = nothing _

abbrev pub FitsMsgGcHdr : MsgGcHdr → Type 0
FitsMsgGcHdr b =
    (b.header_version < 2 ^ 16) × (b.target_job_id < 2 ^ 64) × (b.source_job_id < 2 ^ 64)

abbrev pub msg_gc_hdr_bytes : MsgGcHdr → List ℕ
msg_gc_hdr_bytes b =
    (le_bytes 2 b.header_version ++ le_bytes 8 b.target_job_id) ++ le_bytes 8 b.source_job_id

pub msg_gc_hdr-Carries :
    (b : MsgGcHdr)
    → FitsMsgGcHdr b
    → Carries
        (serialize_msg_gc_hdr b)
        deserialize_msg_gc_hdr
        (msg_gc_hdr_bytes b)
        18
        new_msg_gc_hdr
        b
unfolding serialize_msg_gc_hdr deserialize_msg_gc_hdr read_uint16 read_uint64
msg_gc_hdr-Carries b h =
    store_int _ 2 b.header_version _ h.0
    then store_int _ 8 b.target_job_id _ h.1
    then store_int _ 8 b.source_job_id _ h.2
