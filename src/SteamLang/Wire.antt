-- ===== src/SteamLang/Wire.antt =====
-- The headers on the wire: what Serialize appends, Deserialize reads back.
use go_steam_ws.Base.{ℕ, ◌^◌, ◌<◌, List, ◌++◌, arith}
use go_steam_ws.Io.{le_bytes}
use go_steam_ws.Io.Steps.{
  Reads, Writes, store-Reads, convert-Reads, >>>-Reads, write_int-Writes, >>-Writes,
}
use go_steam_ws.SteamLang.{
  MsgHdr, serialize_msg_hdr, deserialize_msg_hdr, ExtendedClientMsgHdr,
  serialize_extended_client_msg_hdr, deserialize_extended_client_msg_hdr,
}
use go_steam_ws.Rwu.{read_int32, read_uint8, read_uint16, read_uint64}

-- The ranges of the Go types.
pub record FitsMsgHdr (d : MsgHdr) : Type 0 where
  pub msg : d.msg < 2 ^ 32
  pub target : d.target_job_id < 2 ^ 64
  pub source : d.source_job_id < 2 ^ 64

pub record FitsExtended (d : ExtendedClientMsgHdr) : Type 0 where
  pub msg : d.msg < 2 ^ 32
  pub size : d.header_size < 2 ^ 8
  pub version : d.header_version < 2 ^ 16
  pub target : d.target_job_id < 2 ^ 64
  pub source : d.source_job_id < 2 ^ 64
  pub canary : d.header_canary < 2 ^ 8
  pub steam : d.steam_id < 2 ^ 64
  pub session : d.session_id < 2 ^ 32

abbrev pub msg_hdr_bytes : MsgHdr → List ℕ
msg_hdr_bytes d = (le_bytes 4 d.msg ++ le_bytes 8 d.target_job_id) ++ le_bytes 8 d.source_job_id

pub serialize_msg_hdr-Writes : (d : MsgHdr) → Writes (serialize_msg_hdr d) (msg_hdr_bytes d)
unfolding serialize_msg_hdr
serialize_msg_hdr-Writes d =
    >>-Writes _ _ _ _
      (>>-Writes _ _ _ _ (write_int-Writes 4 d.msg) (write_int-Writes 8 d.target_job_id))
      (write_int-Writes 8 d.source_job_id)

pub deserialize_msg_hdr-Reads :
    (d s : MsgHdr) → FitsMsgHdr d → Reads deserialize_msg_hdr (msg_hdr_bytes d) s d
unfolding deserialize_msg_hdr read_int32 read_uint64
deserialize_msg_hdr-Reads d s f =
    >>>-Reads _ _ _ _ _ _ _
      (>>>-Reads _ _ _ _ _ _ _ (convert-Reads 4 d.msg _ s (omega arith))
        (store-Reads 8 d.target_job_id _ _ (omega arith)))
      (store-Reads 8 d.source_job_id _ _ (omega arith))

abbrev pub extended_bytes : ExtendedClientMsgHdr → List ℕ
extended_bytes d =
    ((((((le_bytes 4 d.msg ++ le_bytes 1 d.header_size) ++ le_bytes 2 d.header_version)
            ++ le_bytes 8 d.target_job_id)
          ++ le_bytes 8 d.source_job_id)
        ++ le_bytes 1 d.header_canary)
      ++ le_bytes 8 d.steam_id)
    ++ le_bytes 4 d.session_id

pub serialize_extended-Writes :
    (d : ExtendedClientMsgHdr) → Writes (serialize_extended_client_msg_hdr d) (extended_bytes d)
unfolding serialize_extended_client_msg_hdr
serialize_extended-Writes d = search (>>-Writes, write_int-Writes) depth 9

pub deserialize_extended-Reads :
    (d s : ExtendedClientMsgHdr)
    → FitsExtended d
    → Reads deserialize_extended_client_msg_hdr (extended_bytes d) s d
unfolding deserialize_extended_client_msg_hdr read_int32 read_uint8 read_uint16 read_uint64
deserialize_extended-Reads d s f =
    >>>-Reads _ _ _ _ _ _ _
      (>>>-Reads _ _ _ _ _ _ _
        (>>>-Reads _ _ _ _ _ _ _
          (>>>-Reads _ _ _ _ _ _ _
            (>>>-Reads _ _ _ _ _ _ _
              (>>>-Reads _ _ _ _ _ _ _
                (>>>-Reads _ _ _ _ _ _ _ (convert-Reads 4 d.msg _ s (omega arith))
                  (store-Reads 1 d.header_size _ _ (omega arith)))
                (store-Reads 2 d.header_version _ _ (omega arith)))
              (store-Reads 8 d.target_job_id _ _ (omega arith)))
            (store-Reads 8 d.source_job_id _ _ (omega arith)))
          (store-Reads 1 d.header_canary _ _ (omega arith)))
        (convert-Reads 8 d.steam_id _ _ (omega arith)))
      (store-Reads 4 d.session_id _ _ (omega arith))
