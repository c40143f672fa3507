-- ===== src/SteamLang.antt =====
-- protocol/steamlang: the EMsg with its protobuf flag, and the message headers of messages.go.
-- Enums and intN are bit patterns; ^uint64(0), the job id of no job, is `no_job`.
pub mod Flag
pub mod Wire
pub mod Bodies
pub mod Messages
pub mod RoundTrip
use go_steam_ws.Base.{
  ℕ, ◌-◌, ◌^◌, ◌<◌, ◌%◌, Bool, Option, none, some, List, ◌++◌, ltb, leb, if◌then◌else◌, bit_and,
  bit_or, length,
}
use go_steam_ws.Io.{
  Error, Reader, Buffer, Write, ◌>>◌, write_int, write_bytes, Outcome, returns, panics, read_full,
}
use go_steam_ws.Io.Steps.{Step, store, convert, ◌>>>◌}
use go_steam_ws.Rwu.{read_int32, read_uint8, read_uint16, read_uint64}

abbrev pub proto_mask : ℕ
proto_mask = 0x80000000

-- ^ProtoMask
abbrev pub emsg_mask : ℕ
emsg_mask = 0x7fffffff

unfoldable pub new_emsg : ℕ → ℕ
new_emsg e = bit_and e emsg_mask

unfoldable pub is_proto : ℕ → Bool
is_proto e = ltb 0 (bit_and e proto_mask)

abbrev pub no_job : ℕ
no_job = 0xffff_ffff_ffff_ffff

pub record MsgHdr : Type 0 where
  pub msg : ℕ
  pub target_job_id : ℕ
  pub source_job_id : ℕ

unfoldable pub new_msg_hdr : MsgHdr
new_msg_hdr = record { msg = 0; target_job_id = no_job; source_job_id = no_job }

unfoldable pub serialize_msg_hdr : MsgHdr → Write
serialize_msg_hdr d =
    write_int 4 d.msg >> write_int 8 d.target_job_id >> write_int 8 d.source_job_id

unfoldable pub deserialize_msg_hdr : Step MsgHdr
deserialize_msg_hdr =
    convert read_int32 (λ v d. record d { msg = v })
    >>> store read_uint64 (λ v d. record d { target_job_id = v })
    >>> store read_uint64 (λ v d. record d { source_job_id = v })

pub record ExtendedClientMsgHdr : Type 0 where
  pub msg : ℕ
  pub header_size : ℕ
  pub header_version : ℕ
  pub target_job_id : ℕ
  pub source_job_id : ℕ
  pub header_canary : ℕ
  pub steam_id : ℕ
  pub session_id : ℕ

unfoldable pub new_extended_client_msg_hdr : ExtendedClientMsgHdr
new_extended_client_msg_hdr = record {
  msg = 0;
  header_size = 36;
  header_version = 2;
  target_job_id = no_job;
  source_job_id = no_job;
  header_canary = 239;
  steam_id = 0;
  session_id = 0;
}

unfoldable pub serialize_extended_client_msg_hdr : ExtendedClientMsgHdr → Write
serialize_extended_client_msg_hdr d =
    write_int 4 d.msg
    >> write_int 1 d.header_size
    >> write_int 2 d.header_version
    >> write_int 8 d.target_job_id
    >> write_int 8 d.source_job_id
    >> write_int 1 d.header_canary
    >> write_int 8 d.steam_id
    >> write_int 4 d.session_id

unfoldable pub deserialize_extended_client_msg_hdr : Step ExtendedClientMsgHdr
deserialize_extended_client_msg_hdr =
    convert read_int32 (λ v d. record d { msg = v })
    >>> store read_uint8 (λ v d. record d { header_size = v })
    >>> store read_uint16 (λ v d. record d { header_version = v })
    >>> store read_uint64 (λ v d. record d { target_job_id = v })
    >>> store read_uint64 (λ v d. record d { source_job_id = v })
    >>> store read_uint8 (λ v d. record d { header_canary = v })
    >>> convert read_uint64 (λ v d. record d { steam_id = v })
    >>> store read_int32 (λ v d. record d { session_id = v })
