-- ===== src/SteamLang/Messages.antt =====
-- The structs of protocol/steamlang/messages.go as one family, indexed by the kind of the struct,
-- but for the two headers that are protobuf messages.
pub mod Udp
pub mod Account
pub mod Status
pub mod Service
pub mod Friends
pub mod Ogs
pub mod GameServer
pub mod Chat
pub mod CreateChat
use go_steam_ws.Io.{Write}
use go_steam_ws.Io.Steps.{Step}
use go_steam_ws.SteamLang.{
  MsgHdr, new_msg_hdr, serialize_msg_hdr, deserialize_msg_hdr, ExtendedClientMsgHdr,
  new_extended_client_msg_hdr, serialize_extended_client_msg_hdr,
  deserialize_extended_client_msg_hdr,
}
use go_steam_ws.SteamLang.Bodies.{
  MsgChannelEncryptRequest, new_msg_channel_encrypt_request, request_body,
  MsgChannelEncryptResponse, new_msg_channel_encrypt_response, response_body,
  MsgChannelEncryptResult, new_msg_channel_encrypt_result, result_body,
}
use Udp.*
use Account.*
use Status.*
use Service.*
use Friends.*
use Ogs.*
use GameServer.*
use Chat.*
use CreateChat.*

pub data Kind : Type 0 where
  udp_header challenge_data connect_data accept : Kind
  datagram disconnect gc_hdr just_strings : Kind
  generic_response new_login_key new_login_key_accepted logon : Kind
  vac_ban_status app_usage_event email_addr_info logged_off : Kind
  log_on_response update_guest_passes_list requested_client_stats p2p_introducer_message : Kind
  server_unavailable marketing_message_update2 get_friends_who_play_game
        get_friends_who_play_game_response :
      Kind
  set_ignore_friend set_ignore_friend_response ogs_begin_session ogs_begin_session_response : Kind
  ogs_end_session ogs_end_session_response ogs_write_row gs_perform_hardware_survey : Kind
  gs_get_play_stats_response gs_get_reputation_response gs_deny gs_approve : Kind
  gs_kick gs_get_user_group_status gs_get_user_group_status_response join_chat : Kind
  chat_enter chat_msg chat_member_info chat_action : Kind
  chat_action_result chat_room_info create_chat create_chat_response : Kind
  channel_encrypt_request channel_encrypt_response channel_encrypt_result : Kind
  msg_hdr extended_client_msg_hdr : Kind

abbrev pub Struct : Kind → Type 0
Struct udp_header = UdpHeader
Struct challenge_data = ChallengeData
Struct connect_data = ConnectData
Struct accept = Accept
Struct datagram = Datagram
Struct disconnect = Disconnect
Struct gc_hdr = MsgGcHdr
Struct just_strings = MsgClientJustStrings
Struct generic_response = MsgClientGenericResponse
Struct new_login_key = MsgClientNewLoginKey
Struct new_login_key_accepted = MsgClientNewLoginKeyAccepted
Struct logon = MsgClientLogon
Struct vac_ban_status = MsgClientVacBanStatus
Struct app_usage_event = MsgClientAppUsageEvent
Struct email_addr_info = MsgClientEmailAddrInfo
Struct logged_off = MsgClientLoggedOff
Struct log_on_response = MsgClientLogOnResponse
Struct update_guest_passes_list = MsgClientUpdateGuestPassesList
Struct requested_client_stats = MsgClientRequestedClientStats
Struct p2p_introducer_message = MsgClientP2pIntroducerMessage
Struct server_unavailable = MsgClientServerUnavailable
Struct marketing_message_update2 = MsgClientMarketingMessageUpdate2
Struct get_friends_who_play_game = MsgClientGetFriendsWhoPlayGame
Struct get_friends_who_play_game_response = MsgClientGetFriendsWhoPlayGameResponse
Struct set_ignore_friend = MsgClientSetIgnoreFriend
Struct set_ignore_friend_response = MsgClientSetIgnoreFriendResponse
Struct ogs_begin_session = MsgClientOgsBeginSession
Struct ogs_begin_session_response = MsgClientOgsBeginSessionResponse
Struct ogs_end_session = MsgClientOgsEndSession
Struct ogs_end_session_response = MsgClientOgsEndSessionResponse
Struct ogs_write_row = MsgClientOgsWriteRow
Struct gs_perform_hardware_survey = MsgGsPerformHardwareSurvey
Struct gs_get_play_stats_response = MsgGsGetPlayStatsResponse
Struct gs_get_reputation_response = MsgGsGetReputationResponse
Struct gs_deny = MsgGsDeny
Struct gs_approve = MsgGsApprove
Struct gs_kick = MsgGsKick
Struct gs_get_user_group_status = MsgGsGetUserGroupStatus
Struct gs_get_user_group_status_response = MsgGsGetUserGroupStatusResponse
Struct join_chat = MsgClientJoinChat
Struct chat_enter = MsgClientChatEnter
Struct chat_msg = MsgClientChatMsg
Struct chat_member_info = MsgClientChatMemberInfo
Struct chat_action = MsgClientChatAction
Struct chat_action_result = MsgClientChatActionResult
Struct chat_room_info = MsgClientChatRoomInfo
Struct create_chat = MsgClientCreateChat
Struct create_chat_response = MsgClientCreateChatResponse
Struct channel_encrypt_request = MsgChannelEncryptRequest
Struct channel_encrypt_response = MsgChannelEncryptResponse
Struct channel_encrypt_result = MsgChannelEncryptResult
Struct msg_hdr = MsgHdr
Struct extended_client_msg_hdr = ExtendedClientMsgHdr

unfoldable pub fresh : (k : Kind) → Struct k
fresh udp_header = new_udp_header
fresh challenge_data = new_challenge_data
fresh connect_data = new_connect_data
fresh accept = new_accept
fresh datagram = new_datagram
fresh disconnect = new_disconnect
fresh gc_hdr = new_msg_gc_hdr
fresh just_strings = new_msg_client_just_strings
fresh generic_response = new_msg_client_generic_response
fresh new_login_key = new_msg_client_new_login_key
fresh new_login_key_accepted = new_msg_client_new_login_key_accepted
fresh logon = new_msg_client_logon
fresh vac_ban_status = new_msg_client_vac_ban_status
fresh app_usage_event = new_msg_client_app_usage_event
fresh email_addr_info = new_msg_client_email_addr_info
fresh logged_off = new_msg_client_logged_off
fresh log_on_response = new_msg_client_log_on_response
fresh update_guest_passes_list = new_msg_client_update_guest_passes_list
fresh requested_client_stats = new_msg_client_requested_client_stats
fresh p2p_introducer_message = new_msg_client_p2p_introducer_message
fresh server_unavailable = new_msg_client_server_unavailable
fresh marketing_message_update2 = new_msg_client_marketing_message_update2
fresh get_friends_who_play_game = new_msg_client_get_friends_who_play_game
fresh get_friends_who_play_game_response = new_msg_client_get_friends_who_play_game_response
fresh set_ignore_friend = new_msg_client_set_ignore_friend
fresh set_ignore_friend_response = new_msg_client_set_ignore_friend_response
fresh ogs_begin_session = new_msg_client_ogs_begin_session
fresh ogs_begin_session_response = new_msg_client_ogs_begin_session_response
fresh ogs_end_session = new_msg_client_ogs_end_session
fresh ogs_end_session_response = new_msg_client_ogs_end_session_response
fresh ogs_write_row = new_msg_client_ogs_write_row
fresh gs_perform_hardware_survey = new_msg_gs_perform_hardware_survey
fresh gs_get_play_stats_response = new_msg_gs_get_play_stats_response
fresh gs_get_reputation_response = new_msg_gs_get_reputation_response
fresh gs_deny = new_msg_gs_deny
fresh gs_approve = new_msg_gs_approve
fresh gs_kick = new_msg_gs_kick
fresh gs_get_user_group_status = new_msg_gs_get_user_group_status
fresh gs_get_user_group_status_response = new_msg_gs_get_user_group_status_response
fresh join_chat = new_msg_client_join_chat
fresh chat_enter = new_msg_client_chat_enter
fresh chat_msg = new_msg_client_chat_msg
fresh chat_member_info = new_msg_client_chat_member_info
fresh chat_action = new_msg_client_chat_action
fresh chat_action_result = new_msg_client_chat_action_result
fresh chat_room_info = new_msg_client_chat_room_info
fresh create_chat = new_msg_client_create_chat
fresh create_chat_response = new_msg_client_create_chat_response
fresh channel_encrypt_request = new_msg_channel_encrypt_request
fresh channel_encrypt_response = new_msg_channel_encrypt_response
fresh channel_encrypt_result = new_msg_channel_encrypt_result
fresh msg_hdr = new_msg_hdr
fresh extended_client_msg_hdr = new_extended_client_msg_hdr

unfoldable pub serialize_of : (k : Kind) → Struct k → Write
serialize_of udp_header d = serialize_udp_header d
serialize_of challenge_data d = serialize_challenge_data d
serialize_of connect_data d = serialize_connect_data d
serialize_of accept d = serialize_accept d
serialize_of datagram d = serialize_datagram d
serialize_of disconnect d = serialize_disconnect d
serialize_of gc_hdr d = serialize_msg_gc_hdr d
serialize_of just_strings d = client_just_strings_body.serialize d
serialize_of generic_response d = client_generic_response_body.serialize d
serialize_of new_login_key d = client_new_login_key_body.serialize d
serialize_of new_login_key_accepted d = client_new_login_key_accepted_body.serialize d
serialize_of logon d = client_logon_body.serialize d
serialize_of vac_ban_status d = client_vac_ban_status_body.serialize d
serialize_of app_usage_event d = client_app_usage_event_body.serialize d
serialize_of email_addr_info d = client_email_addr_info_body.serialize d
serialize_of logged_off d = client_logged_off_body.serialize d
serialize_of log_on_response d = client_log_on_response_body.serialize d
serialize_of update_guest_passes_list d = client_update_guest_passes_list_body.serialize d
serialize_of requested_client_stats d = client_requested_client_stats_body.serialize d
serialize_of p2p_introducer_message d = client_p2p_introducer_message_body.serialize d
serialize_of server_unavailable d = client_server_unavailable_body.serialize d
serialize_of marketing_message_update2 d = client_marketing_message_update2_body.serialize d
serialize_of get_friends_who_play_game d = client_get_friends_who_play_game_body.serialize d
serialize_of get_friends_who_play_game_response d =
    client_get_friends_who_play_game_response_body.serialize d
serialize_of set_ignore_friend d = client_set_ignore_friend_body.serialize d
serialize_of set_ignore_friend_response d = client_set_ignore_friend_response_body.serialize d
serialize_of ogs_begin_session d = client_ogs_begin_session_body.serialize d
serialize_of ogs_begin_session_response d = client_ogs_begin_session_response_body.serialize d
serialize_of ogs_end_session d = client_ogs_end_session_body.serialize d
serialize_of ogs_end_session_response d = client_ogs_end_session_response_body.serialize d
serialize_of ogs_write_row d = client_ogs_write_row_body.serialize d
serialize_of gs_perform_hardware_survey d = gs_perform_hardware_survey_body.serialize d
serialize_of gs_get_play_stats_response d = gs_get_play_stats_response_body.serialize d
serialize_of gs_get_reputation_response d = gs_get_reputation_response_body.serialize d
serialize_of gs_deny d = gs_deny_body.serialize d
serialize_of gs_approve d = gs_approve_body.serialize d
serialize_of gs_kick d = gs_kick_body.serialize d
serialize_of gs_get_user_group_status d = gs_get_user_group_status_body.serialize d
serialize_of gs_get_user_group_status_response d =
    gs_get_user_group_status_response_body.serialize d
serialize_of join_chat d = client_join_chat_body.serialize d
serialize_of chat_enter d = client_chat_enter_body.serialize d
serialize_of chat_msg d = client_chat_msg_body.serialize d
serialize_of chat_member_info d = client_chat_member_info_body.serialize d
serialize_of chat_action d = client_chat_action_body.serialize d
serialize_of chat_action_result d = client_chat_action_result_body.serialize d
serialize_of chat_room_info d = client_chat_room_info_body.serialize d
serialize_of create_chat d = client_create_chat_body.serialize d
serialize_of create_chat_response d = client_create_chat_response_body.serialize d
serialize_of channel_encrypt_request d = request_body.serialize d
serialize_of channel_encrypt_response d = response_body.serialize d
serialize_of channel_encrypt_result d = result_body.serialize d
serialize_of msg_hdr d = serialize_msg_hdr d
serialize_of extended_client_msg_hdr d = serialize_extended_client_msg_hdr d

unfoldable pub deserialize_of : (k : Kind) → Step (Struct k)
deserialize_of udp_header = deserialize_udp_header
deserialize_of challenge_data = deserialize_challenge_data
deserialize_of connect_data = deserialize_connect_data
deserialize_of accept = deserialize_accept
deserialize_of datagram = deserialize_datagram
deserialize_of disconnect = deserialize_disconnect
deserialize_of gc_hdr = deserialize_msg_gc_hdr
deserialize_of just_strings = client_just_strings_body.deserialize
deserialize_of generic_response = client_generic_response_body.deserialize
deserialize_of new_login_key = client_new_login_key_body.deserialize
deserialize_of new_login_key_accepted = client_new_login_key_accepted_body.deserialize
deserialize_of logon = client_logon_body.deserialize
deserialize_of vac_ban_status = client_vac_ban_status_body.deserialize
deserialize_of app_usage_event = client_app_usage_event_body.deserialize
deserialize_of email_addr_info = client_email_addr_info_body.deserialize
deserialize_of logged_off = client_logged_off_body.deserialize
deserialize_of log_on_response = client_log_on_response_body.deserialize
deserialize_of update_guest_passes_list = client_update_guest_passes_list_body.deserialize
deserialize_of requested_client_stats = client_requested_client_stats_body.deserialize
deserialize_of p2p_introducer_message = client_p2p_introducer_message_body.deserialize
deserialize_of server_unavailable = client_server_unavailable_body.deserialize
deserialize_of marketing_message_update2 = client_marketing_message_update2_body.deserialize
deserialize_of get_friends_who_play_game = client_get_friends_who_play_game_body.deserialize
deserialize_of get_friends_who_play_game_response =
    client_get_friends_who_play_game_response_body.deserialize
deserialize_of set_ignore_friend = client_set_ignore_friend_body.deserialize
deserialize_of set_ignore_friend_response = client_set_ignore_friend_response_body.deserialize
deserialize_of ogs_begin_session = client_ogs_begin_session_body.deserialize
deserialize_of ogs_begin_session_response = client_ogs_begin_session_response_body.deserialize
deserialize_of ogs_end_session = client_ogs_end_session_body.deserialize
deserialize_of ogs_end_session_response = client_ogs_end_session_response_body.deserialize
deserialize_of ogs_write_row = client_ogs_write_row_body.deserialize
deserialize_of gs_perform_hardware_survey = gs_perform_hardware_survey_body.deserialize
deserialize_of gs_get_play_stats_response = gs_get_play_stats_response_body.deserialize
deserialize_of gs_get_reputation_response = gs_get_reputation_response_body.deserialize
deserialize_of gs_deny = gs_deny_body.deserialize
deserialize_of gs_approve = gs_approve_body.deserialize
deserialize_of gs_kick = gs_kick_body.deserialize
deserialize_of gs_get_user_group_status = gs_get_user_group_status_body.deserialize
deserialize_of gs_get_user_group_status_response =
    gs_get_user_group_status_response_body.deserialize
deserialize_of join_chat = client_join_chat_body.deserialize
deserialize_of chat_enter = client_chat_enter_body.deserialize
deserialize_of chat_msg = client_chat_msg_body.deserialize
deserialize_of chat_member_info = client_chat_member_info_body.deserialize
deserialize_of chat_action = client_chat_action_body.deserialize
deserialize_of chat_action_result = client_chat_action_result_body.deserialize
deserialize_of chat_room_info = client_chat_room_info_body.deserialize
deserialize_of create_chat = client_create_chat_body.deserialize
deserialize_of create_chat_response = client_create_chat_response_body.deserialize
deserialize_of channel_encrypt_request = request_body.deserialize
deserialize_of channel_encrypt_response = response_body.deserialize
deserialize_of channel_encrypt_result = result_body.deserialize
deserialize_of msg_hdr = deserialize_msg_hdr
deserialize_of extended_client_msg_hdr = deserialize_extended_client_msg_hdr
