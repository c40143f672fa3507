-- ===== src/Examples/Trades.antt =====
-- Trade events and notifications at concrete inputs.
use go_steam_ws.Base.{ℕ, ◌≡◌, refl, true, false, none, [], ◌∷◌, arith}
use go_steam_ws.Base.Store.{Store, lookup}
use go_steam_ws.Io.{eof, ok, err, returns}
use go_steam_ws.Trade.{Event, Trade, ready_event, chat_event, update_events, poll}
use go_steam_ws.Trade.Queue.{news, told, ready_after, update_events-news, poll_lem}
use go_steam_ws.Notifications.{Notifications, handle_client_user_notifications}
use go_steam_ws.Notifications.Latest.{filled, last_count, handled, lookup-handled}
use go_steam_ws.Trade.Position.{any_new, update_events_once, log_pos_rewinds}

abbrev event : ℕ → Event
event action = record {
  steam_id = 5;
  action = action;
  app_id = 440;
  context_id = 2;
  asset_id = 9;
  text = 72 ∷ [];
  currency_id = 0;
  old_amount = 0;
  new_amount = 0;
}

-- Two events of the partner, one of which is read already, and one of the user.
abbrev three_events : Store Event
three_events = (2, event 7) ∷ (4, event 2) ∷ (5, record (event 2) { steam_id = 1 }) ∷ []

abbrev trade : Trade
trade = record {
  them_id = 5;
  me_ready = false;
  them_ready = false;
  queued_events = chat_event [] ∷ [];
  log_pos = 3;
  version = 1;
}

news_example :
    ((update_events three_events trade).queued_events ≡ chat_event [] ∷ ready_event ∷ [])
    × ((update_events three_events trade).them_ready ≡ true)
    × ((update_events three_events trade).me_ready ≡ false)
    × ((update_events three_events trade).version ≡ 1)
    × ((update_events three_events trade).them_id ≡ 5)
unfolding news told ready_after
news_example = update_events-news three_events trade

poll_example :
    ((poll (err eof) trade).1.queued_events ≡ [])
    × (poll (err eof) trade ≡ (ok (chat_event [] ∷ []), record trade { queued_events = [] }))
poll_example = poll_lem (err eof) trade

once_example :
    (update_events three_events (update_events three_events trade)).queued_events
    ≡ (update_events three_events trade).queued_events
unfolding any_new
once_example = update_events_once three_events trade (ground arith) refl

rewinds_example : (update_events ((2, event 7) ∷ []) trade).log_pos ≡ 1
unfolding any_new
rewinds_example = log_pos_rewinds (2, event 7) [] trade (ground arith) refl

-- Type 1 is counted again, and type 3 is not mentioned any more.
abbrev counts : Notifications
counts = record { notifications = (1, 4) ∷ (3, 1) ∷ []; events = [] }

handled_example :
    (handle_client_user_notifications (filled ((1, 5) ∷ [])) counts
      ≡ returns (handled ((1, 5) ∷ []) counts))
    × (lookup 3 (handled ((1, 5) ∷ []) counts).notifications ≡ none)
unfolding last_count
handled_example = lookup-handled ((1, 5) ∷ []) counts 3
