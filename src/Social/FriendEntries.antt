-- ===== src/Social/FriendEntries.antt =====
-- What the messages about friends do to the entry of each id.
use go_steam_ws.Base.{ℕ, Option, none, some, List, [], ◌∷◌, ◌==◌, if◌then◌else◌}
use go_steam_ws.Social.{Social}
use go_steam_ws.Social.Messages.{CMsgClientFriendsListFriend}
use go_steam_ws.Social.Presence.{is_clan, plain_friend}
use go_steam_ws.SocialCache.Friends
use go_steam_ws.SocialCache.Friends.{Friend, FriendsList}

-- What one entry of a friends list says of the friend `j`: an entry of a clan or of another id,
-- nothing; relationship 0, that there is none; another one, that there is a friend, who gets that
-- relationship only if new.
unfoldable pub said_of : ℕ → CMsgClientFriendsListFriend → Option Friend → Option Friend
said_of j f o =
    if is_clan f.ulfriendid
    then o
    else if f.ulfriendid == j
    then if f.efriendrelationship == 0
      then none
      else (elim o [ none ↦ some (plain_friend j f.efriendrelationship) | some g ↦ some g ])
    else o

unfoldable pub all_said : ℕ → List CMsgClientFriendsListFriend → Option Friend → Option Friend
unfolding said_of
all_said j [] o = o
all_said j (f ∷ fs) o = all_said j fs (said_of j f o)
