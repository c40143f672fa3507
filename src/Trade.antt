-- ===== src/Trade.antt =====
-- The package trade: trade/trade.go, trade/actions.go, trade/types.go and the types of
-- trade/tradeapi/status.go. A `Trade` holds the fields that the code reads and writes; those of
-- its HTTP client are the two counters LogPos and Version. An EventList is a Go map: the order of
-- the list is the order in which the run-time iterates. No event of it is a null pointer. The time
-- of the last poll and the sleep before a request are left out. `queued_events` is nil when it is
-- empty: the code sets it to nil or appends to it.
pub mod Queue
pub mod Position
use go_steam_ws.Base.{
  ℕ, zero, suc, ◌+◌, ◌%◌, ◌^◌, Bool, true, false, Option, none, some, List, [], ◌∷◌, ◌++◌, ltb,
  ◌==◌, not, ◌||◌, if◌then◌else◌,
}
use go_steam_ws.Base.Store.{Store}
use go_steam_ws.Io.{Error, invalid, Result, ok, err}

pub record Item : Type 0 where
  pub app_id : ℕ
  pub context_id : ℕ
  pub asset_id : ℕ

pub record Currency : Type 0 where
  pub app_id : ℕ
  pub context_id : ℕ
  pub currency_id : ℕ

-- The events that the user of a Trade reads. TradeEndReason: 1 complete, 2 cancelled, 3 timeout,
-- 4 failed.
pub data TradeEvent : Type 0 where
  trade_ended_event : ℕ → TradeEvent
  item_added_event item_removed_event : Item → TradeEvent
  ready_event unready_event : TradeEvent
  set_currency_event : Currency → ℕ → ℕ → TradeEvent
  chat_event : List ℕ → TradeEvent

-- tradeapi.Event, less the time stamp, which nothing reads.
pub record Event : Type 0 where
  pub steam_id : ℕ
  pub action : ℕ
  pub app_id : ℕ
  pub context_id : ℕ
  pub asset_id : ℕ
  pub text : List ℕ
  pub currency_id : ℕ
  pub old_amount : ℕ
  pub new_amount : ℕ

-- tradeapi.Status, with the fields that onStatus reads.
pub record Status : Type 0 where
  pub success : Bool
  pub new_version : Bool
  pub trade_status : ℕ
  pub version : ℕ
  pub me_ready : Bool
  pub them_ready : Bool
  pub events : Store Event

pub record Trade : Type 0 where
  pub them_id : ℕ
  pub me_ready : Bool
  pub them_ready : Bool
  pub queued_events : List TradeEvent
  pub log_pos : ℕ
  pub version : ℕ

-- trade.New and tradeapi.New.
unfoldable pub new : ℕ → Trade
new other = record {
  them_id = other;
  me_ready = false;
  them_ready = false;
  queued_events = [];
  log_pos = 0;
  version = 1;
}

abbrev pub new_item : Event → Item
new_item e = record { app_id = e.app_id; context_id = e.context_id; asset_id = e.asset_id }

abbrev pub new_currency : Event → Currency
new_currency e = record {
  app_id = e.app_id;
  context_id = e.context_id;
  currency_id = e.currency_id;
}

unfoldable pub events : Trade → List TradeEvent × Trade
events t = (t.queued_events, record t { queued_events = [] })

abbrev pub add_event : TradeEvent → Trade → Trade
add_event e t = record t { queued_events = t.queued_events ++ (e ∷ []) }

-- switch event.Action
unfoldable pub apply_action : ℕ → Event → Trade → Trade
apply_action action e t =
    if action == 0
    then add_event (item_added_event (new_item e)) t
    else if action == 1
    then add_event (item_removed_event (new_item e)) t
    else if action == 2
    then add_event ready_event (record t { them_ready = true })
    else if action == 3
    then add_event unready_event (record t { them_ready = false })
    else if action == 6
    then add_event (set_currency_event (new_currency e) e.old_amount e.new_amount) t
    else if action == 7
    then add_event (chat_event e.text) t
    else t

-- The loop of updateEvents, with the variable lastLogPos.
unfoldable pub update_loop : Store Event → ℕ → Trade → ℕ × Trade
unfolding apply_action
update_loop [] last t = (last, t)
update_loop ((i, e) ∷ rest) last t =
    let skip = update_loop rest last t in
    let seen = update_loop rest (if ltb last i then i else last) (apply_action e.action e t) in
    if ltb i t.log_pos || not (e.steam_id == t.them_id) then skip else seen

abbrev set_log_pos : ℕ × Trade → Trade
set_log_pos (last, t) = record t { log_pos = (last + 1) % 2 ^ 64 }

unfoldable pub update_events : Store Event → Trade → Trade
unfolding update_loop
update_events [] t = t
update_events (e ∷ es) t = set_log_pos (update_loop (e ∷ es) 0 t)

-- switch status.TradeStatus
unfoldable pub add_end : ℕ → Trade → Trade
add_end status t =
    if status == 1
    then add_event (trade_ended_event 1) t
    else if status == 3
    then add_event (trade_ended_event 2) t
    else if status == 4
    then add_event (trade_ended_event 3) t
    else if status == 5
    then add_event (trade_ended_event 4) t
    else t

abbrev take_version : Status → Trade → Trade
take_version s t =
    if s.new_version
    then record t { version = s.version; me_ready = s.me_ready; them_ready = s.them_ready }
    else t

unfoldable pub on_status : Status → Trade → Option Error × Trade
unfolding add_end update_events
on_status s t =
    if s.success
    then (none, update_events s.events (add_end s.trade_status (take_version s t)))
    else (some invalid, t)

-- Every call of the HTTP client is followed by `action`, which drops what onStatus returns.
unfoldable pub action : Result Status → Trade → Option Error × Trade
unfolding on_status
action (err e) t = (some e, t)
action (ok s) t = (none, (on_status s t).1)

unfoldable pub give : Option Error × Trade → Result (List TradeEvent) × Trade
unfolding events
give (some e, t) = (err e, t)
give (none, t) = (ok (events t).0, (events t).1)

-- Poll, where `reply` is what GetStatus would return.
unfoldable pub poll : Result Status → Trade → Result (List TradeEvent) × Trade
unfolding action events give
poll reply t = elim t.queued_events [
  | [] ↦ give (action reply t)
  | e ∷ es ↦ (ok (events t).0, (events t).1)
]
