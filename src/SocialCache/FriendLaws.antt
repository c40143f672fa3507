-- ===== src/SocialCache/FriendLaws.antt =====
-- The friends list behaves as a map from ids to friends.
use go_steam_ws.Base.{
  ℕ, ◌+◌, ◌-◌, ◌≡◌, refl, Option, none, some, List, [], ◌∷◌, ◌==◌, if◌then◌else◌, length, arith,
}
use go_steam_ws.Base.Store.{
  IsMap, lookup, erase, lookup-erase, lookup-adjust, length-adjust, length-erase_present,
  erase_missing,
}
use go_steam_ws.SocialCache.Keyed.{
  IsCache, add_new-IsCache, erase-IsCache, adjust-IsCache, lookup-add_new, length-add_new,
}
use go_steam_ws.SocialCache.Friends
use go_steam_ws.SocialCache.Friends.{
  Friend, FriendsList, friend_key, by_id, count, new_friends_list,
}
use mathlib.Core.Option

-- The calls that change the list.
pub data Change : Type 0 where
  adds : Friend → Change
  removes : ℕ → Change
  names : ℕ → List ℕ → Change
  avatars : ℕ → List ℕ → Change
  relationships : ℕ → ℕ → Change
  persona_states : ℕ → ℕ → Change
  persona_state_flags : ℕ → ℕ → Change
  game_app_ids : ℕ → ℕ → Change
  game_ids : ℕ → ℕ → Change
  game_names : ℕ → List ℕ → Change

unfoldable pub change : FriendsList → Change → FriendsList
change l (adds f) = Friends.add l f
change l (removes id) = Friends.remove l id
change l (names id v) = Friends.set_name l id v
change l (avatars id v) = Friends.set_avatar l id v
change l (relationships id v) = Friends.set_relationship l id v
change l (persona_states id v) = Friends.set_persona_state l id v
change l (persona_state_flags id v) = Friends.set_persona_state_flags l id v
change l (game_app_ids id v) = Friends.set_game_app_id l id v
change l (game_ids id v) = Friends.set_game_id l id v
change l (game_names id v) = Friends.set_game_name l id v

pub changes : FriendsList → List Change → FriendsList
changes l [] = l
changes l (c ∷ cs) = changes (change l c) cs

-- The entry of `j` is replaced, if there is one and `j` is the id that is meant.
abbrev at : ℕ → ℕ → (Friend → Friend) → Option Friend → Option Friend
at id j f o = if id == j then Option.map f o else o

-- What a change does to the entry of the id `j`: a map of ids to friends has nothing else.
abbrev pub entry : Change → ℕ → Option Friend → Option Friend
entry (adds f) j none = if f.steam_id == j then some f else none
entry (adds f) j (some g) = some g
entry (removes id) j o = if id == j then none else o
entry (names id v) j o = at id j (λ f. record f { name = v }) o
entry (avatars id v) j o = at id j (λ f. record f { avatar = v }) o
entry (relationships id v) j o = at id j (λ f. record f { relationship = v }) o
entry (persona_states id v) j o = at id j (λ f. record f { persona_state = v }) o
entry (persona_state_flags id v) j o = at id j (λ f. record f { persona_state_flags = v }) o
entry (game_app_ids id v) j o = at id j (λ f. record f { game_app_id = v }) o
entry (game_ids id v) j o = at id j (λ f. record f { game_id = v }) o
entry (game_names id v) j o = at id j (λ f. record f { game_name = v }) o

add-entry :
    (f : Friend) (j : ℕ) (o : Option Friend)
    → (elim o [ none ↦ if friend_key f == j then some f else none | some w ↦ some w ])
      ≡ entry (adds f) j o
add-entry f j none = refl
add-entry f j (some g) = refl

-- After every call that changes the list, ById gives for every id what the call does to the entry
-- of that id: Add keeps an entry that is there, and a setter of an absent id does nothing.
pub by_id-change :
    (l : FriendsList) (c : Change) (j : ℕ) → by_id (change l c) j ≡ entry c j (by_id l j)
unfolding change by_id Friends.add Friends.remove Friends.set_name Friends.set_avatar
    Friends.set_relationship Friends.set_persona_state Friends.set_persona_state_flags
    Friends.set_game_app_id Friends.set_game_id Friends.set_game_name
by_id-change l (adds f) j = rw (lookup-add_new friend_key f j l) (add-entry f j (lookup j l))
by_id-change l (removes id) j = lookup-erase id j l
by_id-change l (names id v) j = lookup-adjust id j _ l
by_id-change l (avatars id v) j = lookup-adjust id j _ l
by_id-change l (relationships id v) j = lookup-adjust id j _ l
by_id-change l (persona_states id v) j = lookup-adjust id j _ l
by_id-change l (persona_state_flags id v) j = lookup-adjust id j _ l
by_id-change l (game_app_ids id v) j = lookup-adjust id j _ l
by_id-change l (game_ids id v) j = lookup-adjust id j _ l
by_id-change l (game_names id v) j = lookup-adjust id j _ l

pub change-IsCache :
    (l : FriendsList) (c : Change) → IsCache friend_key l → IsCache friend_key (change l c)
unfolding change Friends.add Friends.remove Friends.set_name Friends.set_avatar
    Friends.set_relationship Friends.set_persona_state Friends.set_persona_state_flags
    Friends.set_game_app_id Friends.set_game_id Friends.set_game_name
change-IsCache l (adds f) h = add_new-IsCache friend_key f l h
change-IsCache l (removes id) h = erase-IsCache friend_key id l h
change-IsCache l (names id v) h = adjust-IsCache friend_key id _ l (λ f. refl) h
change-IsCache l (avatars id v) h = adjust-IsCache friend_key id _ l (λ f. refl) h
change-IsCache l (relationships id v) h = adjust-IsCache friend_key id _ l (λ f. refl) h
change-IsCache l (persona_states id v) h = adjust-IsCache friend_key id _ l (λ f. refl) h
change-IsCache l (persona_state_flags id v) h = adjust-IsCache friend_key id _ l (λ f. refl) h
change-IsCache l (game_app_ids id v) h = adjust-IsCache friend_key id _ l (λ f. refl) h
change-IsCache l (game_ids id v) h = adjust-IsCache friend_key id _ l (λ f. refl) h
change-IsCache l (game_names id v) h = adjust-IsCache friend_key id _ l (λ f. refl) h

changes_keep :
    (l : FriendsList) (cs : List Change) → IsCache friend_key l → IsCache friend_key (changes l cs)
unfolding changes
changes_keep l [] h = h
changes_keep l (c ∷ cs) h = changes_keep (change l c) cs (change-IsCache l c h)

-- After any calls on a new list each id stands once, over a friend with that id.
pub changes-IsCache : (cs : List Change) → IsCache friend_key (changes new_friends_list cs)
unfolding new_friends_list
changes-IsCache cs = changes_keep new_friends_list cs (record { once = tt; keyed = tt })

length-erase :
    (id : ℕ) (l : FriendsList) (o : Option Friend)
    → IsMap l
    → lookup id l ≡ o
    → length (erase id l) ≡ (elim o [ none ↦ length l | some g ↦ length l - 1 ])
length-erase id l none h e = ground (arith, erase_missing id l)
length-erase id l (some g) h e = ground (arith, length-erase_present id g l h e)

-- Count goes up by one when Add brings a new id, down by one when Remove finds its id, and stays
-- otherwise, in a list where each id stands once.
pub count-change :
    (l : FriendsList) (f : Friend) (id : ℕ) (v : List ℕ)
    → IsCache friend_key l
    → (count (Friends.add l f)
        ≡ (elim (by_id l f.steam_id) [ none ↦ count l + 1 | some g ↦ count l ]))
      × (count (Friends.remove l id)
          ≡ (elim (by_id l id) [ none ↦ count l | some g ↦ count l - 1 ]))
      × (count (Friends.set_name l id v) ≡ count l)
unfolding count by_id Friends.add Friends.remove Friends.set_name
count-change l f id v h = (
  length-add_new friend_key f l,
  length-erase id l (lookup id l) h.once refl,
  length-adjust id _ l,
)
