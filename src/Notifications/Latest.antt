-- ===== src/Notifications/Latest.antt =====
-- After a packet the counts are those of the packet.
use go_steam_ws.Base.{
  ℕ, ◌≡◌, refl, Bool, true, false, not, ◌&&◌, ◌||◌, Option, none, some, List, [], ◌∷◌, ◌==◌,
  if◌then◌else◌, arith,
}
use go_steam_ws.Base.Store.{Store, lookup, lookup-insert, lookup-erase}
use go_steam_ws.Io.{returns}
use go_steam_ws.Notifications.{
  Notification, Notifications, set_count, store_counts, is_type, mentioned, drop_type, drop_others,
  drop_after, handle_client_user_notifications,
}

-- A packet with all its fields set.
abbrev pub filled : List (ℕ × ℕ) → List Notification
filled [] = []
filled ((typ, count) ∷ ps) =
    record { user_notification_type = some typ; count = some count } ∷ filled ps

-- The last count that a packet gives for a type.
unfoldable pub last_count : ℕ → List (ℕ × ℕ) → Option ℕ
last_count t [] = none
last_count t ((typ, count) ∷ ps) = elim (last_count t ps) [
  | some c ↦ some c
  | none ↦ if typ == t then some count else none
]

-- What the first loop leaves.
abbrev stored : List (ℕ × ℕ) → Notifications → Notifications
unfolding set_count
stored [] n = n
stored ((typ, count) ∷ ps) n = stored ps (set_count typ count n)

store_counts-filled :
    (ps : List (ℕ × ℕ)) (n : Notifications) → store_counts (filled ps) n ≡ returns (stored ps n)
unfolding store_counts stored
store_counts-filled [] n = refl
store_counts-filled ((typ, count) ∷ ps) n = store_counts-filled ps (set_count typ count n)

lookup-stored :
    (t : ℕ) (ps : List (ℕ × ℕ)) (n : Notifications)
    → lookup t (stored ps n).notifications
      ≡ (elim (last_count t ps) [ some c ↦ some c | none ↦ lookup t n.notifications ])
unfolding stored last_count set_count
lookup-stored t [] n = refl
lookup-stored t ((typ, count) ∷ ps) n =
    ground
      (arith, lookup-stored t ps (set_count typ count n), lookup-insert typ t count n.notifications)

mentioned-filled :
    (t : ℕ) (ps : List (ℕ × ℕ))
    → mentioned t (filled ps) ≡ (elim (last_count t ps) [ some c ↦ true | none ↦ false ])
unfolding mentioned last_count is_type
mentioned-filled t [] = refl
mentioned-filled t ((typ, count) ∷ ps) = ground (arith, mentioned-filled t ps)

abbrev has_key : ℕ → Store ℕ → Bool
has_key t [] = false
has_key t ((typ, count) ∷ rest) = (typ == t) || has_key t rest

lookup-drop_others :
    (t : ℕ) (ts : List Notification) (m : Store ℕ) (n : Notifications)
    → lookup t (drop_others ts m n).notifications
      ≡ (if has_key t m && not (mentioned t ts) then none else lookup t n.notifications)
unfolding drop_others drop_type
lookup-drop_others t ts [] n = refl
lookup-drop_others t ts ((typ, count) ∷ rest) n = ground (
  arith,
  lookup-drop_others t ts rest n,
  lookup-drop_others t ts rest (drop_type typ n),
  lookup-erase typ t n.notifications,
)

lookup_no_key : (t : ℕ) (m : Store ℕ) → has_key t m ≡ false → lookup t m ≡ none
unfolding lookup
lookup_no_key t [] h = refl
lookup_no_key t ((typ, count) ∷ rest) h = ground (arith, lookup_no_key t rest)

-- What handling a packet with all its fields set comes to.
abbrev pub handled : List (ℕ × ℕ) → Notifications → Notifications
unfolding drop_others stored
handled ps n = drop_others (filled ps) (stored ps n).notifications (stored ps n)

-- Handling a packet whose fields are all set does not panic, and after it the count of every type
-- is the last one that the packet gives for it: whatever was known before, a type that the packet
-- does not mention is gone.
pub lookup-handled :
    (ps : List (ℕ × ℕ)) (n : Notifications) (t : ℕ)
    → (handle_client_user_notifications (filled ps) n ≡ returns (handled ps n))
      × (lookup t (handled ps n).notifications ≡ last_count t ps)
unfolding handle_client_user_notifications handled drop_after
lookup-handled ps n t = (
  rw (store_counts-filled ps n) refl,
  ground (
    arith,
    lookup-drop_others t (filled ps) (stored ps n).notifications (stored ps n),
    lookup-stored t ps n,
    mentioned-filled t ps,
    lookup_no_key t (stored ps n).notifications,
  ),
)
