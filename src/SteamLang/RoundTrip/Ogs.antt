-- ===== src/SteamLang/RoundTrip/Ogs.antt =====
-- What Serialize writes and Deserialize reads back: the bodies of online game statistics and of the hardware survey.
use go_steam_ws.Base.{ℕ, ◌^◌, ◌<◌, List, ◌++◌}
use go_steam_ws.Io.{le_bytes}
use go_steam_ws.Io.Carries.{Carries, bool_byte, store_int, convert_int, store_bool, ◌then◌}
use go_steam_ws.Rwu.{read_uint8, read_uint32, read_uint64, read_int32}
use go_steam_ws.SteamLang.Messages.Ogs.{
  MsgClientOgsBeginSession, new_msg_client_ogs_begin_session, client_ogs_begin_session_body,
  MsgClientOgsBeginSessionResponse, new_msg_client_ogs_begin_session_response,
  client_ogs_begin_session_response_body, MsgClientOgsEndSession, new_msg_client_ogs_end_session,
  client_ogs_end_session_body, MsgClientOgsEndSessionResponse,
  new_msg_client_ogs_end_session_response, client_ogs_end_session_response_body,
  MsgClientOgsWriteRow, new_msg_client_ogs_write_row, client_ogs_write_row_body,
  MsgGsPerformHardwareSurvey, new_msg_gs_perform_hardware_survey, gs_perform_hardware_survey_body,
}

abbrev pub FitsMsgClientOgsBeginSession : MsgClientOgsBeginSession → Type 0
FitsMsgClientOgsBeginSession b =
    (b.account_type < 2 ^ 8)
    × (b.account_id < 2 ^ 64)
    × (b.app_id < 2 ^ 32)
    × (b.time_started < 2 ^ 32)

abbrev pub msg_client_ogs_begin_session_bytes : MsgClientOgsBeginSession → List ℕ
msg_client_ogs_begin_session_bytes b =
    ((le_bytes 1 b.account_type ++ le_bytes 8 b.account_id) ++ le_bytes 4 b.app_id)
    ++ le_bytes 4 b.time_started

pub msg_client_ogs_begin_session-Carries :
    (b : MsgClientOgsBeginSession)
    → FitsMsgClientOgsBeginSession b
    → Carries
        (client_ogs_begin_session_body.serialize b)
        client_ogs_begin_session_body.deserialize
        (msg_client_ogs_begin_session_bytes b)
        17
        new_msg_client_ogs_begin_session
        b
unfolding read_uint32 read_uint64 read_uint8
msg_client_ogs_begin_session-Carries b h =
    store_int _ 1 b.account_type _ h.0
    then convert_int _ 8 b.account_id _ h.1
    then store_int _ 4 b.app_id _ h.2
    then store_int _ 4 b.time_started _ h.3

abbrev pub FitsMsgClientOgsBeginSessionResponse : MsgClientOgsBeginSessionResponse → Type 0
FitsMsgClientOgsBeginSessionResponse b = (b.result < 2 ^ 32) × (b.session_id < 2 ^ 64)

abbrev pub msg_client_ogs_begin_session_response_bytes : MsgClientOgsBeginSessionResponse → List ℕ
msg_client_ogs_begin_session_response_bytes b =
    ((le_bytes 4 b.result ++ bool_byte b.collecting_any) ++ bool_byte b.collecting_details)
    ++ le_bytes 8 b.session_id

pub msg_client_ogs_begin_session_response-Carries :
    (b : MsgClientOgsBeginSessionResponse)
    → FitsMsgClientOgsBeginSessionResponse b
    → Carries
        (client_ogs_begin_session_response_body.serialize b)
        client_ogs_begin_session_response_body.deserialize
        (msg_client_ogs_begin_session_response_bytes b)
        14
        new_msg_client_ogs_begin_session_response
        b
unfolding read_int32 read_uint64
msg_client_ogs_begin_session_response-Carries b h =
    convert_int _ 4 b.result _ h.0
    then store_bool _ b.collecting_any _
    then store_bool _ b.collecting_details _
    then store_int _ 8 b.session_id _ h.1

abbrev pub FitsMsgClientOgsEndSession : MsgClientOgsEndSession → Type 0
FitsMsgClientOgsEndSession b =
    (b.session_id < 2 ^ 64)
    × (b.time_ended < 2 ^ 32)
    × (b.reason_code < 2 ^ 32)
    × (b.count_attributes < 2 ^ 32)

abbrev pub msg_client_ogs_end_session_bytes : MsgClientOgsEndSession → List ℕ
msg_client_ogs_end_session_bytes b =
    ((le_bytes 8 b.session_id ++ le_bytes 4 b.time_ended) ++ le_bytes 4 b.reason_code)
    ++ le_bytes 4 b.count_attributes

pub msg_client_ogs_end_session-Carries :
    (b : MsgClientOgsEndSession)
    → FitsMsgClientOgsEndSession b
    → Carries
        (client_ogs_end_session_body.serialize b)
        client_ogs_end_session_body.deserialize
        (msg_client_ogs_end_session_bytes b)
        20
        new_msg_client_ogs_end_session
        b
unfolding read_int32 read_uint32 read_uint64
msg_client_ogs_end_session-Carries b h =
    store_int _ 8 b.session_id _ h.0
    then store_int _ 4 b.time_ended _ h.1
    then store_int _ 4 b.reason_code _ h.2
    then store_int _ 4 b.count_attributes _ h.3

abbrev pub FitsMsgClientOgsEndSessionResponse : MsgClientOgsEndSessionResponse → Type 0
FitsMsgClientOgsEndSessionResponse b = b.result < 2 ^ 32

abbrev pub msg_client_ogs_end_session_response_bytes : MsgClientOgsEndSessionResponse → List ℕ
msg_client_ogs_end_session_response_bytes b = le_bytes 4 b.result

pub msg_client_ogs_end_session_response-Carries :
    (b : MsgClientOgsEndSessionResponse)
    → FitsMsgClientOgsEndSessionResponse b
    → Carries
        (client_ogs_end_session_response_body.serialize b)
        client_ogs_end_session_response_body.deserialize
        (msg_client_ogs_end_session_response_bytes b)
        4
        new_msg_client_ogs_end_session_response
        b
unfolding read_int32
msg_client_ogs_end_session_response-Carries b h = store_int _ 4 b.result _ h

abbrev pub FitsMsgClientOgsWriteRow : MsgClientOgsWriteRow → Type 0
FitsMsgClientOgsWriteRow b = (b.session_id < 2 ^ 64) × (b.count_attributes < 2 ^ 32)

abbrev pub msg_client_ogs_write_row_bytes : MsgClientOgsWriteRow → List ℕ
msg_client_ogs_write_row_bytes b = le_bytes 8 b.session_id ++ le_bytes 4 b.count_attributes

pub msg_client_ogs_write_row-Carries :
    (b : MsgClientOgsWriteRow)
    → FitsMsgClientOgsWriteRow b
    → Carries
        (client_ogs_write_row_body.serialize b)
        client_ogs_write_row_body.deserialize
        (msg_client_ogs_write_row_bytes b)
        12
        new_msg_client_ogs_write_row
        b
unfolding read_int32 read_uint64
msg_client_ogs_write_row-Carries b h =
    store_int _ 8 b.session_id _ h.0 then store_int _ 4 b.count_attributes _ h.1

abbrev pub FitsMsgGsPerformHardwareSurvey : MsgGsPerformHardwareSurvey → Type 0
FitsMsgGsPerformHardwareSurvey b = b.flags < 2 ^ 32

abbrev pub msg_gs_perform_hardware_survey_bytes : MsgGsPerformHardwareSurvey → List ℕ
msg_gs_perform_hardware_survey_bytes b = le_bytes 4 b.flags

pub msg_gs_perform_hardware_survey-Carries :
    (b : MsgGsPerformHardwareSurvey)
    → FitsMsgGsPerformHardwareSurvey b
    → Carries
        (gs_perform_hardware_survey_body.serialize b)
        gs_perform_hardware_survey_body.deserialize
        (msg_gs_perform_hardware_survey_bytes b)
        4
        new_msg_gs_perform_hardware_survey
        b
unfolding read_uint32
msg_gs_perform_hardware_survey-Carries b h = store_int _ 4 b.flags _ h
