-- ===== src/Notifications.antt =====
-- notifications.go: the counts of the user's notifications by type. An optional field of the
-- protobuf message is a pointer, which the code follows without a test. The order of the map is the
-- order in which the run-time iterates; deleting what the iteration has reached is safe in Go.
pub mod Latest
use go_steam_ws.Base.{
  ℕ, Bool, true, false, ◌||◌, Option, none, some, List, [], ◌∷◌, ◌++◌, ◌==◌, if◌then◌else◌,
}
use go_steam_ws.Base.Store.{Store, insert, erase}
use go_steam_ws.Io.{Outcome, returns, panics}

-- protobuf.CMsgClientUserNotifications_Notification
pub record Notification : Type 0 where
  pub user_notification_type : Option ℕ
  pub count : Option ℕ

-- The map, and the events that were emitted: NotificationEvent{typ, count}.
pub record Notifications : Type 0 where
  pub notifications : Store ℕ
  pub events : List (ℕ × ℕ)

unfoldable pub new_notifications : Notifications
new_notifications = record { notifications = []; events = [] }

unfoldable pub set_count : ℕ → ℕ → Notifications → Notifications
set_count typ count n = record {
  notifications = insert typ count n.notifications;
  events = n.events ++ ((typ, count) ∷ []);
}

-- The first loop: `none` is a null pointer.
unfoldable pub store_counts : List Notification → Notifications → Outcome Notifications
unfolding set_count
store_counts [] n = returns n
store_counts (t ∷ ts) n = elim t.user_notification_type [
  | none ↦ panics
  | some typ ↦ elim t.count [ none ↦ panics | some count ↦ store_counts ts (set_count typ count n) ]
]

is_type : ℕ → Option ℕ → Bool
is_type typ none = false
is_type typ (some t) = t == typ

-- `exists`
unfoldable pub mentioned : ℕ → List Notification → Bool
unfolding is_type
mentioned typ [] = false
mentioned typ (t ∷ ts) = is_type typ t.user_notification_type || mentioned typ ts

unfoldable pub drop_type : ℕ → Notifications → Notifications
drop_type typ n = record {
  notifications = erase typ n.notifications;
  events = n.events ++ ((typ, 0) ∷ []);
}

-- The second loop, over the entries that the map has when it starts.
unfoldable pub drop_others : List Notification → Store ℕ → Notifications → Notifications
unfolding mentioned drop_type
drop_others ts [] n = n
drop_others ts ((typ, count) ∷ rest) n =
    drop_others ts rest (if mentioned typ ts then n else drop_type typ n)

drop_after : List Notification → Outcome Notifications → Outcome Notifications
unfolding drop_others
drop_after ts (returns n) = returns (drop_others ts n.notifications n)
drop_after ts panics = panics

unfoldable pub handle_client_user_notifications :
    List Notification → Notifications → Outcome Notifications
unfolding store_counts drop_after
handle_client_user_notifications ts n = drop_after ts (store_counts ts n)
