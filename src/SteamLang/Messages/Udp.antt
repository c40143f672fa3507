-- ===== src/SteamLang/Messages/Udp.antt =====
-- protocol/steamlang/messages.go: the headers and the data of Steam over UDP, and the header of a game coordinator message.
use go_steam_ws.Base.{ℕ}
use go_steam_ws.Io.{Write, ◌>>◌, write_int}
use go_steam_ws.Io.Steps.{Step, store, convert, ◌>>>◌}
use go_steam_ws.Io.Carries.{write_nothing, read_nothing}
use go_steam_ws.Rwu.{read_uint8, read_uint16, read_uint32, read_uint64}
use go_steam_ws.SteamLang.{no_job}

pub record UdpHeader : Type 0 where
  pub magic : ℕ
  pub payload_size : ℕ
  pub packet_type : ℕ
  pub flags : ℕ
  pub source_conn_id : ℕ
  pub dest_conn_id : ℕ
  pub seq_this : ℕ
  pub seq_ack : ℕ
  pub packets_in_msg : ℕ
  pub msg_start_seq : ℕ
  pub msg_size : ℕ

unfoldable pub new_udp_header : UdpHeader
new_udp_header = record {
  magic = 0x31305356;
  payload_size = 0;
  packet_type = 0;
  flags = 0;
  source_conn_id = 512;
  dest_conn_id = 0;
  seq_this = 0;
  seq_ack = 0;
  packets_in_msg = 0;
  msg_start_seq = 0;
  msg_size = 0;
}

unfoldable pub serialize_udp_header : UdpHeader → Write
serialize_udp_header d =
    write_int 4 d.magic
    >> write_int 2 d.payload_size
    >> write_int 1 d.packet_type
    >> write_int 1 d.flags
    >> write_int 4 d.source_conn_id
    >> write_int 4 d.dest_conn_id
    >> write_int 4 d.seq_this
    >> write_int 4 d.seq_ack
    >> write_int 4 d.packets_in_msg
    >> write_int 4 d.msg_start_seq
    >> write_int 4 d.msg_size

unfoldable pub deserialize_udp_header : Step UdpHeader
deserialize_udp_header =
    store read_uint32 (λ v d. record d { magic = v })
    >>> store read_uint16 (λ v d. record d { payload_size = v })
    >>> convert read_uint8 (λ v d. record d { packet_type = v })
    >>> store read_uint8 (λ v d. record d { flags = v })
    >>> store read_uint32 (λ v d. record d { source_conn_id = v })
    >>> store read_uint32 (λ v d. record d { dest_conn_id = v })
    >>> store read_uint32 (λ v d. record d { seq_this = v })
    >>> store read_uint32 (λ v d. record d { seq_ack = v })
    >>> store read_uint32 (λ v d. record d { packets_in_msg = v })
    >>> store read_uint32 (λ v d. record d { msg_start_seq = v })
    >>> store read_uint32 (λ v d. record d { msg_size = v })

pub record ChallengeData : Type 0 where
  pub challenge_value : ℕ
  pub server_load : ℕ

unfoldable pub new_challenge_data : ChallengeData
new_challenge_data = record { challenge_value = 0; server_load = 0 }

unfoldable pub serialize_challenge_data : ChallengeData → Write
serialize_challenge_data d = write_int 4 d.challenge_value >> write_int 4 d.server_load

unfoldable pub deserialize_challenge_data : Step ChallengeData
deserialize_challenge_data =
    store read_uint32 (λ v d. record d { challenge_value = v })
    >>> store read_uint32 (λ v d. record d { server_load = v })

pub record ConnectData : Type 0 where
  pub challenge_value : ℕ

unfoldable pub new_connect_data : ConnectData
new_connect_data = record { challenge_value = 0 }

unfoldable pub serialize_connect_data : ConnectData → Write
serialize_connect_data d = write_int 4 d.challenge_value

unfoldable pub deserialize_connect_data : Step ConnectData
deserialize_connect_data = store read_uint32 (λ v d. record d { challenge_value = v })

pub record Accept : Type 0 where

unfoldable pub new_accept : Accept
new_accept = record {}

unfoldable pub serialize_accept : Accept → Write
serialize_accept d = write_nothing

unfoldable pub deserialize_accept : Step Accept
deserialize_accept = read_nothing

pub record Datagram : Type 0 where

unfoldable pub new_datagram : Datagram
new_datagram = record {}

unfoldable pub serialize_datagram : Datagram → Write
serialize_datagram d = write_nothing

unfoldable pub deserialize_datagram : Step Datagram
deserialize_datagram = read_nothing

pub record Disconnect : Type 0 where

unfoldable pub new_disconnect : Disconnect
new_disconnect = record {}

unfoldable pub serialize_disconnect : Disconnect → Write
serialize_disconnect d = write_nothing

unfoldable pub deserialize_disconnect : Step Disconnect
deserialize_disconnect = read_nothing

pub record MsgGcHdr : Type 0 where
  pub header_version : ℕ
  pub target_job_id : ℕ
  pub source_job_id : ℕ

unfoldable pub new_msg_gc_hdr : MsgGcHdr
new_msg_gc_hdr = record { header_version = 1; target_job_id = no_job; source_job_id = no_job }

unfoldable pub serialize_msg_gc_hdr : MsgGcHdr → Write
serialize_msg_gc_hdr d =
    write_int 2 d.header_version >> write_int 8 d.target_job_id >> write_int 8 d.source_job_id

unfoldable pub deserialize_msg_gc_hdr : Step MsgGcHdr
deserialize_msg_gc_hdr =
    store read_uint16 (λ v d. record d { header_version = v })
    >>> store read_uint64 (λ v d. record d { target_job_id = v })
    >>> store read_uint64 (λ v d. record d { source_job_id = v })
