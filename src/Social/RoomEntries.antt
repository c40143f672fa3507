-- ===== src/Social/RoomEntries.antt =====
-- The members of a chat room, as Steam lists them to who enters, and as they come and go.
use go_steam_ws.Base.{◌∙◌, ℕ, suc, ◌<◌, ◌^◌, ◌≡◌, refl, none, List, [], ◌∷◌, ◌++◌, length, arith}
use go_steam_ws.Io.{Reader, le_bytes, le_value, read_full, read_int}
use go_steam_ws.Io.Laws.{read_int-le_bytes, read_full-append}
use go_steam_ws.Protocol.StructMsg.{ClientMsg}
use go_steam_ws.Rwu.{read_byte, read_int32, read_uint64}
use go_steam_ws.Rwu.Strings.{IsText, read_string-append}
use go_steam_ws.Social.{Social}
use go_steam_ws.Social.Rooms.{read_chat_member, enter_members, handle_chat_enter, rounds}
use go_steam_ws.SocialCache.Chats
use go_steam_ws.SocialCache.Chats.{ChatMember, ChatsList}
use go_steam_ws.SteamLang.Messages.Chat.{MsgClientChatEnter}

read_byte-cons : (b : ℕ) (r : Reader) → read_byte (b ∷ r) ≡ (b, none, r)
unfolding read_byte read_int read_full le_value
read_byte-cons b r = ground arith

-- The names in the list of members: they are objects of Valve's key-value format.
pub record Labels : Type 0 where
  pub object : List ℕ
  pub steam_id : List ℕ
  pub permissions : List ℕ
  pub details : List ℕ

pub record AreTexts (t : Labels) : Type 0 where
  pub object : IsText t.object
  pub steam_id : IsText t.steam_id
  pub permissions : IsText t.permissions
  pub details : IsText t.details

-- The ranges of the Go types.
pub record FitsMember (m : ChatMember) : Type 0 where
  pub id : m.steam_id < 2 ^ 64
  pub chat : m.chat_permissions < 2 ^ 32
  pub clan : m.clan_permissions < 2 ^ 32

-- One member on the wire, and what follows: each value has the byte of its type and its name
-- before it.
unfoldable pub member_bytes : Labels → ChatMember → List ℕ → List ℕ
member_bytes t m rest =
    t.object
    ++ (0
        ∷ (7
            ∷ (t.steam_id
                ++ (0
                    ∷ (le_bytes 8 m.steam_id
                        ++ (2
                            ∷ (t.permissions
                                ++ (0
                                    ∷ (le_bytes 4 m.chat_permissions
                                        ++ (2
                                            ∷ (t.details
                                                ++ (0
                                                    ∷ (le_bytes 4 m.clan_permissions
                                                        ++ rest)))))))))))))

pub read_chat_member-member_bytes :
    (t : Labels) (m : ChatMember) (rest : List ℕ)
    → AreTexts t
    → FitsMember m
    → read_chat_member (member_bytes t m rest) ≡ (m, rest)
unfolding read_chat_member member_bytes read_uint64 read_int32
read_chat_member-member_bytes t m rest h f =
    rw
      (
        read_string-append t.object _ h.object,
        read_byte-cons 7 _,
        read_string-append t.steam_id _ h.steam_id,
        read_int-le_bytes 8 m.steam_id _ f.id,
        read_byte-cons 2 _,
        read_string-append t.permissions _ h.permissions,
        read_int-le_bytes 4 m.chat_permissions _ f.chat,
        read_byte-cons 2 _,
        read_string-append t.details _ h.details,
        read_int-le_bytes 4 m.clan_permissions rest f.clan,
      )
      refl

-- The members one after the other, each with the six bytes that the code passes over.
unfoldable pub members_bytes : Labels → List ℕ → List ChatMember → List ℕ → List ℕ
unfolding member_bytes
members_bytes t six [] rest = rest
members_bytes t six (m ∷ ms) rest = member_bytes t m (six ++ members_bytes t six ms rest)

abbrev pub AllFit : List ChatMember → Type 0
AllFit [] = Unit {0}
AllFit (m ∷ ms) = FitsMember m × AllFit ms

unfoldable pub add_members : ℕ → List ChatMember → ChatsList → ChatsList
add_members id [] list = list
add_members id (m ∷ ms) list = add_members id ms (Chats.add_chat_member list id m)

read_six : (six rest : List ℕ) → length six ≡ 6 → read_full 6 (six ++ rest) ≡ (none, six, rest)
read_six six rest h = rw (← h) (read_full-append six rest)

enter_members_step :
    (n id : ℕ) (r r1 r2 six : List ℕ) (m : ChatMember) (list : ChatsList)
    → read_chat_member r ≡ (m, r1)
    → read_full 6 r1 ≡ (none, six, r2)
    → enter_members (suc n) id r list ≡ enter_members n id r2 (Chats.add_chat_member list id m)
unfolding enter_members
enter_members_step n id r r1 r2 six m list e e' = rw (e, e') refl

enter_members-members_bytes :
    (t : Labels) (six : List ℕ) (id : ℕ) (ms : List ChatMember) (rest : List ℕ) (list : ChatsList)
    → AreTexts t
    → length six ≡ 6
    → AllFit ms
    → enter_members (length ms) id (members_bytes t six ms rest) list ≡ add_members id ms list
unfolding enter_members members_bytes add_members
enter_members-members_bytes t six id [] rest list h k f = refl
enter_members-members_bytes t six id (m ∷ ms) rest list h k f =
    let more = members_bytes t six ms rest in
    enter_members_step (length ms) id (member_bytes t m (six ++ more)) (six ++ more) more six m list
      (read_chat_member-member_bytes t m (six ++ more) h f.0) (read_six six more k)
    ∙ enter_members-members_bytes t six id ms rest (Chats.add_chat_member list id m) h k f.1

rounds_small : (n : ℕ) → n < 2 ^ 31 → rounds n ≡ n
unfolding rounds
rounds_small n h = ground arith

-- A message of Steam that the user entered a room, in the format of member_bytes with fewer than
-- 2 ^ 31 members: the chats list gets the room, unless it has it, and in it each member of the
-- message with its id and permissions, in that order; what follows the members changes nothing.
pub handle_chat_enter-members_bytes :
    (t : Labels) (six name : List ℕ) (ms : List ChatMember) (rest : List ℕ)
    (msg : ClientMsg MsgClientChatEnter) (s : Social)
    → AreTexts t
    → length six ≡ 6
    → IsText name
    → AllFit ms
    → length ms < 2 ^ 31
    → msg.body.num_members ≡ length ms
    → msg.payload ≡ name ++ (0 ∷ (0 ∷ members_bytes t six ms rest))
    → (handle_chat_enter msg s).chats
      ≡ add_members msg.body.steam_id_chat ms (
          Chats.add s.chats (record {
            steam_id = msg.body.steam_id_chat;
            group_id = msg.body.steam_id_clan;
            chat_members = none;
          }))
unfolding handle_chat_enter
handle_chat_enter-members_bytes t six name ms rest msg s h k n f small count payload =
    rw
      (
        payload,
        read_string-append name (0 ∷ members_bytes t six ms rest) n,
        read_byte-cons 0 (members_bytes t six ms rest),
        count,
        rounds_small (length ms) small,
      )
      (enter_members-members_bytes t six msg.body.steam_id_chat ms rest _ h k f)
