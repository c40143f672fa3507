-- ===== src/SteamLang/Messages/Ogs.antt =====
-- protocol/steamlang/messages.go: the bodies of online game statistics and of the hardware survey.
use go_steam_ws.Base.{ℕ, Bool, false}
use go_steam_ws.Io.{◌>>◌, write_int}
use go_steam_ws.Io.Steps.{store, convert, ◌>>>◌}
use go_steam_ws.Rwu.{read_bool, read_uint8, read_uint32, read_uint64, read_int32, write_bool}
use go_steam_ws.SteamLang.Bodies.{MessageBody}

pub record MsgClientOgsBeginSession : Type 0 where
  pub account_type : ℕ
  pub account_id : ℕ
  pub app_id : ℕ
  pub time_started : ℕ

unfoldable pub new_msg_client_ogs_begin_session : MsgClientOgsBeginSession
new_msg_client_ogs_begin_session = record {
  account_type = 0;
  account_id = 0;
  app_id = 0;
  time_started = 0;
}

abbrev pub client_ogs_begin_session_body : MessageBody MsgClientOgsBeginSession
client_ogs_begin_session_body = record {
  get_emsg = λ d. 5490;
  serialize = λ d.
      write_int 1 d.account_type
      >> write_int 8 d.account_id
      >> write_int 4 d.app_id
      >> write_int 4 d.time_started;
  deserialize =
      store read_uint8 (λ v d. record d { account_type = v })
      >>> convert read_uint64 (λ v d. record d { account_id = v })
      >>> store read_uint32 (λ v d. record d { app_id = v })
      >>> store read_uint32 (λ v d. record d { time_started = v });
}

pub record MsgClientOgsBeginSessionResponse : Type 0 where
  pub result : ℕ
  pub collecting_any : Bool
  pub collecting_details : Bool
  pub session_id : ℕ

unfoldable pub new_msg_client_ogs_begin_session_response : MsgClientOgsBeginSessionResponse
new_msg_client_ogs_begin_session_response = record {
  result = 0;
  collecting_any = false;
  collecting_details = false;
  session_id = 0;
}

abbrev pub client_ogs_begin_session_response_body : MessageBody MsgClientOgsBeginSessionResponse
client_ogs_begin_session_response_body = record {
  get_emsg = λ d. 5491;
  serialize = λ d.
      write_int 4 d.result
      >> write_bool d.collecting_any
      >> write_bool d.collecting_details
      >> write_int 8 d.session_id;
  deserialize =
      convert read_int32 (λ v d. record d { result = v })
      >>> store read_bool (λ v d. record d { collecting_any = v })
      >>> store read_bool (λ v d. record d { collecting_details = v })
      >>> store read_uint64 (λ v d. record d { session_id = v });
}

pub record MsgClientOgsEndSession : Type 0 where
  pub session_id : ℕ
  pub time_ended : ℕ
  pub reason_code : ℕ
  pub count_attributes : ℕ

unfoldable pub new_msg_client_ogs_end_session : MsgClientOgsEndSession
new_msg_client_ogs_end_session = record {
  session_id = 0;
  time_ended = 0;
  reason_code = 0;
  count_attributes = 0;
}

abbrev pub client_ogs_end_session_body : MessageBody MsgClientOgsEndSession
client_ogs_end_session_body = record {
  get_emsg = λ d. 5492;
  serialize = λ d.
      write_int 8 d.session_id
      >> write_int 4 d.time_ended
      >> write_int 4 d.reason_code
      >> write_int 4 d.count_attributes;
  deserialize =
      store read_uint64 (λ v d. record d { session_id = v })
      >>> store read_uint32 (λ v d. record d { time_ended = v })
      >>> store read_int32 (λ v d. record d { reason_code = v })
      >>> store read_int32 (λ v d. record d { count_attributes = v });
}

pub record MsgClientOgsEndSessionResponse : Type 0 where
  pub result : ℕ

unfoldable pub new_msg_client_ogs_end_session_response : MsgClientOgsEndSessionResponse
new_msg_client_ogs_end_session_response = record { result = 0 }

abbrev pub client_ogs_end_session_response_body : MessageBody MsgClientOgsEndSessionResponse
client_ogs_end_session_response_body = record {
  get_emsg = λ d. 5493;
  serialize = λ d. write_int 4 d.result;
  deserialize = store read_int32 (λ v d. record d { result = v });
}

pub record MsgClientOgsWriteRow : Type 0 where
  pub session_id : ℕ
  pub count_attributes : ℕ

unfoldable pub new_msg_client_ogs_write_row : MsgClientOgsWriteRow
new_msg_client_ogs_write_row = record { session_id = 0; count_attributes = 0 }

abbrev pub client_ogs_write_row_body : MessageBody MsgClientOgsWriteRow
client_ogs_write_row_body = record {
  get_emsg = λ d. 5494;
  serialize = λ d. write_int 8 d.session_id >> write_int 4 d.count_attributes;
  deserialize =
      store read_uint64 (λ v d. record d { session_id = v })
      >>> store read_int32 (λ v d. record d { count_attributes = v });
}

pub record MsgGsPerformHardwareSurvey : Type 0 where
  pub flags : ℕ

unfoldable pub new_msg_gs_perform_hardware_survey : MsgGsPerformHardwareSurvey
new_msg_gs_perform_hardware_survey = record { flags = 0 }

abbrev pub gs_perform_hardware_survey_body : MessageBody MsgGsPerformHardwareSurvey
gs_perform_hardware_survey_body = record {
  get_emsg = λ d. 5440;
  serialize = λ d. write_int 4 d.flags;
  deserialize = store read_uint32 (λ v d. record d { flags = v });
}
