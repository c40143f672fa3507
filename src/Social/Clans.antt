-- ===== src/Social/Clans.antt =====
-- social.go: handleClanState, on the message that ReadProtoMsg gave.
use go_steam_ws.Base.{ℕ, Option, none, some, [], map}
use go_steam_ws.Social.{Social, emit}
use go_steam_ws.Social.Events.{clan_state_event, ClanStateEvent, ClanEventDetails}
use go_steam_ws.Social.Messages.{
  CMsgClientClanState, CMsgClientClanStateEvent, CMsgClientClanStateNameInfo,
  CMsgClientClanStateUserCounts,
}
use go_steam_ws.SocialCache.Groups
use go_steam_ws.SocialCache.Groups.{GroupsList}

unfoldable pub event_details : CMsgClientClanStateEvent → ClanEventDetails
event_details e = record {
  id = e.gid;
  event_time = e.event_time;
  headline = e.headline;
  game_id = e.game_id;
  just_posted = e.just_posted;
}

-- The parts that a nil pointer leaves at their zero values.
unfoldable pub name_of : Option CMsgClientClanStateNameInfo → CMsgClientClanStateNameInfo
name_of none = record { clan_name = []; sha_avatar = [] }
name_of (some info) = info

unfoldable pub counts_of : Option CMsgClientClanStateUserCounts → CMsgClientClanStateUserCounts
counts_of none = record { members = 0; online = 0; chatting = 0; in_game = 0 }
counts_of (some counts) = counts

unfoldable pub put_name : ℕ → Option CMsgClientClanStateNameInfo → GroupsList → GroupsList
put_name id none list = list
put_name id (some info) list =
    Groups.set_avatar (Groups.set_name list id info.clan_name) id info.sha_avatar

unfoldable pub put_counts : ℕ → Option CMsgClientClanStateUserCounts → GroupsList → GroupsList
put_counts id none list = list
put_counts id (some counts) list =
    Groups.set_member_in_game_count
      (Groups.set_member_chatting_count
        (Groups.set_member_online_count (Groups.set_member_total_count list id counts.members) id
          counts.online)
        id counts.chatting)
      id counts.in_game

unfoldable pub clan_event : CMsgClientClanState → ClanStateEvent
unfolding event_details name_of counts_of
clan_event body =
    let name = name_of body.name_info in
    let counts = counts_of body.user_counts in
    record {
      clan_id = body.steamid_clan;
      account_flags = body.clan_account_flags;
      clan_name = name.clan_name;
      avatar = name.sha_avatar;
      member_total_count = counts.members;
      member_online_count = counts.online;
      member_chatting_count = counts.chatting;
      member_in_game_count = counts.in_game;
      events = map event_details body.events;
      announcements = map event_details body.announcements;
    }

unfoldable pub handle_clan_state : CMsgClientClanState → Social → Social
unfolding put_name put_counts clan_event
handle_clan_state body s = emit (clan_state_event (clan_event body)) (record s {
  groups =
      put_counts body.steamid_clan body.user_counts
        (put_name body.steamid_clan body.name_info s.groups);
})
