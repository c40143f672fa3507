-- ===== src/SteamLang/RoundTrip.antt =====
-- The structs of protocol/steamlang/messages.go at once, but for the two headers that are protobuf
-- messages: what they hold, their bytes and their sizes.
pub mod Udp
pub mod Account
pub mod Status
pub mod Service
pub mod Friends
pub mod Ogs
pub mod GameServer
pub mod Chat
pub mod CreateChat
pub mod Handshake
use go_steam_ws.Base.{ℕ, List}
use go_steam_ws.Io.Carries.{Carries}
use go_steam_ws.SteamLang.Messages.{
  Kind, udp_header, challenge_data, connect_data, accept, datagram, disconnect, gc_hdr,
  just_strings, generic_response, new_login_key, new_login_key_accepted, logon, vac_ban_status,
  app_usage_event, email_addr_info, logged_off, log_on_response, update_guest_passes_list,
  requested_client_stats, p2p_introducer_message, server_unavailable, marketing_message_update2,
  get_friends_who_play_game, get_friends_who_play_game_response, set_ignore_friend,
  set_ignore_friend_response, ogs_begin_session, ogs_begin_session_response, ogs_end_session,
  ogs_end_session_response, ogs_write_row, gs_perform_hardware_survey, gs_get_play_stats_response,
  gs_get_reputation_response, gs_deny, gs_approve, gs_kick, gs_get_user_group_status,
  gs_get_user_group_status_response, join_chat, chat_enter, chat_msg, chat_member_info, chat_action,
  chat_action_result, chat_room_info, create_chat, create_chat_response, channel_encrypt_request,
  channel_encrypt_response, channel_encrypt_result, msg_hdr, extended_client_msg_hdr, Struct, fresh,
  serialize_of, deserialize_of,
}
use Udp.*
use Account.*
use Status.*
use Service.*
use Friends.*
use Ogs.*
use GameServer.*
use Chat.*
use CreateChat.*
use Handshake.*

-- The ranges of the Go types of the fields, and the sizes of the arrays that the constructor makes.
abbrev pub FitsKind : (k : Kind) → Struct k → Type 0
FitsKind udp_header d = FitsUdpHeader d
FitsKind challenge_data d = FitsChallengeData d
FitsKind connect_data d = FitsConnectData d
FitsKind accept d = FitsAccept d
FitsKind datagram d = FitsDatagram d
FitsKind disconnect d = FitsDisconnect d
FitsKind gc_hdr d = FitsMsgGcHdr d
FitsKind just_strings d = FitsMsgClientJustStrings d
FitsKind generic_response d = FitsMsgClientGenericResponse d
FitsKind new_login_key d = FitsMsgClientNewLoginKey d
FitsKind new_login_key_accepted d = FitsMsgClientNewLoginKeyAccepted d
FitsKind logon d = FitsMsgClientLogon d
FitsKind vac_ban_status d = FitsMsgClientVacBanStatus d
FitsKind app_usage_event d = FitsMsgClientAppUsageEvent d
FitsKind email_addr_info d = FitsMsgClientEmailAddrInfo d
FitsKind logged_off d = FitsMsgClientLoggedOff d
FitsKind log_on_response d = FitsMsgClientLogOnResponse d
FitsKind update_guest_passes_list d = FitsMsgClientUpdateGuestPassesList d
FitsKind requested_client_stats d = FitsMsgClientRequestedClientStats d
FitsKind p2p_introducer_message d = FitsMsgClientP2pIntroducerMessage d
FitsKind server_unavailable d = FitsMsgClientServerUnavailable d
FitsKind marketing_message_update2 d = FitsMsgClientMarketingMessageUpdate2 d
FitsKind get_friends_who_play_game d = FitsMsgClientGetFriendsWhoPlayGame d
FitsKind get_friends_who_play_game_response d = FitsMsgClientGetFriendsWhoPlayGameResponse d
FitsKind set_ignore_friend d = FitsMsgClientSetIgnoreFriend d
FitsKind set_ignore_friend_response d = FitsMsgClientSetIgnoreFriendResponse d
FitsKind ogs_begin_session d = FitsMsgClientOgsBeginSession d
FitsKind ogs_begin_session_response d = FitsMsgClientOgsBeginSessionResponse d
FitsKind ogs_end_session d = FitsMsgClientOgsEndSession d
FitsKind ogs_end_session_response d = FitsMsgClientOgsEndSessionResponse d
FitsKind ogs_write_row d = FitsMsgClientOgsWriteRow d
FitsKind gs_perform_hardware_survey d = FitsMsgGsPerformHardwareSurvey d
FitsKind gs_get_play_stats_response d = FitsMsgGsGetPlayStatsResponse d
FitsKind gs_get_reputation_response d = FitsMsgGsGetReputationResponse d
FitsKind gs_deny d = FitsMsgGsDeny d
FitsKind gs_approve d = FitsMsgGsApprove d
FitsKind gs_kick d = FitsMsgGsKick d
FitsKind gs_get_user_group_status d = FitsMsgGsGetUserGroupStatus d
FitsKind gs_get_user_group_status_response d = FitsMsgGsGetUserGroupStatusResponse d
FitsKind join_chat d = FitsMsgClientJoinChat d
FitsKind chat_enter d = FitsMsgClientChatEnter d
FitsKind chat_msg d = FitsMsgClientChatMsg d
FitsKind chat_member_info d = FitsMsgClientChatMemberInfo d
FitsKind chat_action d = FitsMsgClientChatAction d
FitsKind chat_action_result d = FitsMsgClientChatActionResult d
FitsKind chat_room_info d = FitsMsgClientChatRoomInfo d
FitsKind create_chat d = FitsMsgClientCreateChat d
FitsKind create_chat_response d = FitsMsgClientCreateChatResponse d
FitsKind channel_encrypt_request d = FitsMsgChannelEncryptRequest d
FitsKind channel_encrypt_response d = FitsMsgChannelEncryptResponse d
FitsKind channel_encrypt_result d = FitsMsgChannelEncryptResult d
FitsKind msg_hdr d = FitsMsgHdr d
FitsKind extended_client_msg_hdr d = FitsExtendedClientMsgHdr d

unfoldable pub bytes_of : (k : Kind) → Struct k → List ℕ
bytes_of udp_header d = udp_header_bytes d
bytes_of challenge_data d = challenge_data_bytes d
bytes_of connect_data d = connect_data_bytes d
bytes_of accept d = accept_bytes d
bytes_of datagram d = datagram_bytes d
bytes_of disconnect d = disconnect_bytes d
bytes_of gc_hdr d = msg_gc_hdr_bytes d
bytes_of just_strings d = msg_client_just_strings_bytes d
bytes_of generic_response d = msg_client_generic_response_bytes d
bytes_of new_login_key d = msg_client_new_login_key_bytes d
bytes_of new_login_key_accepted d = msg_client_new_login_key_accepted_bytes d
bytes_of logon d = msg_client_logon_bytes d
bytes_of vac_ban_status d = msg_client_vac_ban_status_bytes d
bytes_of app_usage_event d = msg_client_app_usage_event_bytes d
bytes_of email_addr_info d = msg_client_email_addr_info_bytes d
bytes_of logged_off d = msg_client_logged_off_bytes d
bytes_of log_on_response d = msg_client_log_on_response_bytes d
bytes_of update_guest_passes_list d = msg_client_update_guest_passes_list_bytes d
bytes_of requested_client_stats d = msg_client_requested_client_stats_bytes d
bytes_of p2p_introducer_message d = msg_client_p2p_introducer_message_bytes d
bytes_of server_unavailable d = msg_client_server_unavailable_bytes d
bytes_of marketing_message_update2 d = msg_client_marketing_message_update2_bytes d
bytes_of get_friends_who_play_game d = msg_client_get_friends_who_play_game_bytes d
bytes_of get_friends_who_play_game_response d =
    msg_client_get_friends_who_play_game_response_bytes d
bytes_of set_ignore_friend d = msg_client_set_ignore_friend_bytes d
bytes_of set_ignore_friend_response d = msg_client_set_ignore_friend_response_bytes d
bytes_of ogs_begin_session d = msg_client_ogs_begin_session_bytes d
bytes_of ogs_begin_session_response d = msg_client_ogs_begin_session_response_bytes d
bytes_of ogs_end_session d = msg_client_ogs_end_session_bytes d
bytes_of ogs_end_session_response d = msg_client_ogs_end_session_response_bytes d
bytes_of ogs_write_row d = msg_client_ogs_write_row_bytes d
bytes_of gs_perform_hardware_survey d = msg_gs_perform_hardware_survey_bytes d
bytes_of gs_get_play_stats_response d = msg_gs_get_play_stats_response_bytes d
bytes_of gs_get_reputation_response d = msg_gs_get_reputation_response_bytes d
bytes_of gs_deny d = msg_gs_deny_bytes d
bytes_of gs_approve d = msg_gs_approve_bytes d
bytes_of gs_kick d = msg_gs_kick_bytes d
bytes_of gs_get_user_group_status d = msg_gs_get_user_group_status_bytes d
bytes_of gs_get_user_group_status_response d = msg_gs_get_user_group_status_response_bytes d
bytes_of join_chat d = msg_client_join_chat_bytes d
bytes_of chat_enter d = msg_client_chat_enter_bytes d
bytes_of chat_msg d = msg_client_chat_msg_bytes d
bytes_of chat_member_info d = msg_client_chat_member_info_bytes d
bytes_of chat_action d = msg_client_chat_action_bytes d
bytes_of chat_action_result d = msg_client_chat_action_result_bytes d
bytes_of chat_room_info d = msg_client_chat_room_info_bytes d
bytes_of create_chat d = msg_client_create_chat_bytes d
bytes_of create_chat_response d = msg_client_create_chat_response_bytes d
bytes_of channel_encrypt_request d = channel_encrypt_request_bytes d
bytes_of channel_encrypt_response d = channel_encrypt_response_bytes d
bytes_of channel_encrypt_result d = channel_encrypt_result_bytes d
bytes_of msg_hdr d = msg_hdr_bytes d
bytes_of extended_client_msg_hdr d = extended_client_msg_hdr_bytes d

unfoldable pub size_of : Kind → ℕ
size_of udp_header = 36
size_of challenge_data = 8
size_of connect_data = 4
size_of accept = 0
size_of datagram = 0
size_of disconnect = 0
size_of gc_hdr = 18
size_of just_strings = 0
size_of generic_response = 4
size_of new_login_key = 24
size_of new_login_key_accepted = 4
size_of logon = 0
size_of vac_ban_status = 4
size_of app_usage_event = 14
size_of email_addr_info = 9
size_of logged_off = 12
size_of log_on_response = 28
size_of update_guest_passes_list = 12
size_of requested_client_stats = 4
size_of p2p_introducer_message = 1466
size_of server_unavailable = 16
size_of marketing_message_update2 = 8
size_of get_friends_who_play_game = 8
size_of get_friends_who_play_game_response = 16
size_of set_ignore_friend = 17
size_of set_ignore_friend_response = 12
size_of ogs_begin_session = 17
size_of ogs_begin_session_response = 14
size_of ogs_end_session = 20
size_of ogs_end_session_response = 4
size_of ogs_write_row = 12
size_of gs_perform_hardware_survey = 4
size_of gs_get_play_stats_response = 16
size_of gs_get_reputation_response = 27
size_of gs_deny = 12
size_of gs_approve = 8
size_of gs_kick = 16
size_of gs_get_user_group_status = 16
size_of gs_get_user_group_status_response = 24
size_of join_chat = 9
size_of chat_enter = 45
size_of chat_msg = 20
size_of chat_member_info = 12
size_of chat_action = 20
size_of chat_action_result = 24
size_of chat_room_info = 12
size_of create_chat = 53
size_of create_chat_response = 24
size_of channel_encrypt_request = 8
size_of channel_encrypt_response = 8
size_of channel_encrypt_result = 4
size_of msg_hdr = 20
size_of extended_client_msg_hdr = 36

-- For each of the 53 structs of messages.go beside the two protobuf headers (MsgHdrProtoBuf and
-- MsgGCHdrProtoBuf): if its integers are in the ranges of their Go types, and its slices have the
-- lengths that the constructor gives them, which the types do not say (20 for LoginKey of
-- MsgClientNewLoginKey, 1450 for Data of MsgClientP2PIntroducerMessage), then Serialize appends
-- exactly the bytes of its fields, which are a fixed number for each struct, and does not fail, and
-- Deserialize into a struct fresh from its constructor takes exactly those bytes, leaves what
-- follows them, and gives the struct back.
pub struct_round_trip :
    (k : Kind) (d : Struct k)
    → FitsKind k d
    → Carries (serialize_of k d) (deserialize_of k) (bytes_of k d) (size_of k) (fresh k) d
unfolding fresh serialize_of deserialize_of bytes_of size_of
struct_round_trip udp_header d h = udp_header-Carries d h
struct_round_trip challenge_data d h = challenge_data-Carries d h
struct_round_trip connect_data d h = connect_data-Carries d h
struct_round_trip accept d h = accept-Carries d h
struct_round_trip datagram d h = datagram-Carries d h
struct_round_trip disconnect d h = disconnect-Carries d h
struct_round_trip gc_hdr d h = msg_gc_hdr-Carries d h
struct_round_trip just_strings d h = msg_client_just_strings-Carries d h
struct_round_trip generic_response d h = msg_client_generic_response-Carries d h
struct_round_trip new_login_key d h = msg_client_new_login_key-Carries d h
struct_round_trip new_login_key_accepted d h = msg_client_new_login_key_accepted-Carries d h
struct_round_trip logon d h = msg_client_logon-Carries d h
struct_round_trip vac_ban_status d h = msg_client_vac_ban_status-Carries d h
struct_round_trip app_usage_event d h = msg_client_app_usage_event-Carries d h
struct_round_trip email_addr_info d h = msg_client_email_addr_info-Carries d h
struct_round_trip logged_off d h = msg_client_logged_off-Carries d h
struct_round_trip log_on_response d h = msg_client_log_on_response-Carries d h
struct_round_trip update_guest_passes_list d h = msg_client_update_guest_passes_list-Carries d h
struct_round_trip requested_client_stats d h = msg_client_requested_client_stats-Carries d h
struct_round_trip p2p_introducer_message d h = msg_client_p2p_introducer_message-Carries d h
struct_round_trip server_unavailable d h = msg_client_server_unavailable-Carries d h
struct_round_trip marketing_message_update2 d h = msg_client_marketing_message_update2-Carries d h
struct_round_trip get_friends_who_play_game d h = msg_client_get_friends_who_play_game-Carries d h
struct_round_trip get_friends_who_play_game_response d h =
    msg_client_get_friends_who_play_game_response-Carries d h
struct_round_trip set_ignore_friend d h = msg_client_set_ignore_friend-Carries d h
struct_round_trip set_ignore_friend_response d h = msg_client_set_ignore_friend_response-Carries d h
struct_round_trip ogs_begin_session d h = msg_client_ogs_begin_session-Carries d h
struct_round_trip ogs_begin_session_response d h = msg_client_ogs_begin_session_response-Carries d h
struct_round_trip ogs_end_session d h = msg_client_ogs_end_session-Carries d h
struct_round_trip ogs_end_session_response d h = msg_client_ogs_end_session_response-Carries d h
struct_round_trip ogs_write_row d h = msg_client_ogs_write_row-Carries d h
struct_round_trip gs_perform_hardware_survey d h = msg_gs_perform_hardware_survey-Carries d h
struct_round_trip gs_get_play_stats_response d h = msg_gs_get_play_stats_response-Carries d h
struct_round_trip gs_get_reputation_response d h = msg_gs_get_reputation_response-Carries d h
struct_round_trip gs_deny d h = msg_gs_deny-Carries d h
struct_round_trip gs_approve d h = msg_gs_approve-Carries d h
struct_round_trip gs_kick d h = msg_gs_kick-Carries d h
struct_round_trip gs_get_user_group_status d h = msg_gs_get_user_group_status-Carries d h
struct_round_trip gs_get_user_group_status_response d h =
    msg_gs_get_user_group_status_response-Carries d h
struct_round_trip join_chat d h = msg_client_join_chat-Carries d h
struct_round_trip chat_enter d h = msg_client_chat_enter-Carries d h
struct_round_trip chat_msg d h = msg_client_chat_msg-Carries d h
struct_round_trip chat_member_info d h = msg_client_chat_member_info-Carries d h
struct_round_trip chat_action d h = msg_client_chat_action-Carries d h
struct_round_trip chat_action_result d h = msg_client_chat_action_result-Carries d h
struct_round_trip chat_room_info d h = msg_client_chat_room_info-Carries d h
struct_round_trip create_chat d h = msg_client_create_chat-Carries d h
struct_round_trip create_chat_response d h = msg_client_create_chat_response-Carries d h
struct_round_trip channel_encrypt_request d h = channel_encrypt_request-Carries d h
struct_round_trip channel_encrypt_response d h = channel_encrypt_response-Carries d h
struct_round_trip channel_encrypt_result d h = channel_encrypt_result-Carries d h
struct_round_trip msg_hdr d h = msg_hdr-Carries d h
struct_round_trip extended_client_msg_hdr d h = extended_client_msg_hdr-Carries d h
