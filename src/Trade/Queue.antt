-- ===== src/Trade/Queue.antt =====
-- What updateEvents queues, and what Poll hands out.
use go_steam_ws.Base.{
  ℕ, ◌≡◌, refl, Bool, true, false, List, [], ◌∷◌, ◌++◌, ltb, leb, ◌==◌, ◌&&◌, if◌then◌else◌,
  append-nil, append_assoc, sym, arith,
}
use go_steam_ws.Base.Store.{Store}
use go_steam_ws.Io.{Result, ok, err}
use go_steam_ws.Trade.{
  Event, Trade, Status, TradeEvent, ready_event, unready_event, item_added_event,
  item_removed_event, set_currency_event, chat_event, new_item, new_currency, events, apply_action,
  update_loop, update_events, on_status, action, poll, give,
}

-- The partner's new events: those at `log_pos` or after it.
abbrev pub is_new : ℕ → ℕ → ℕ × Event → Bool
is_new them log_pos (i, e) = leb log_pos i && e.steam_id == them

-- What the user is told of an event.
unfoldable pub told : Event → List TradeEvent
told e =
    if e.action == 0
    then item_added_event (new_item e) ∷ []
    else if e.action == 1
    then item_removed_event (new_item e) ∷ []
    else if e.action == 2
    then ready_event ∷ []
    else if e.action == 3
    then unready_event ∷ []
    else if e.action == 6
    then set_currency_event (new_currency e) e.old_amount e.new_amount ∷ []
    else if e.action == 7
    then chat_event e.text ∷ []
    else []

unfoldable pub news : ℕ → ℕ → Store Event → List TradeEvent
news them log_pos [] = []
news them log_pos ((i, e) ∷ es) =
    let rest = news them log_pos es in if is_new them log_pos (i, e) then told e ++ rest else rest

-- Whether the partner is ready after an event.
abbrev pub readiness : Event → Bool → Bool
readiness e b = if e.action == 2 then true else if e.action == 3 then false else b

unfoldable pub ready_after : ℕ → ℕ → Store Event → Bool → Bool
ready_after them log_pos [] b = b
ready_after them log_pos ((i, e) ∷ es) b =
    ready_after them log_pos es (if is_new them log_pos (i, e) then readiness e b else b)

pub apply_action_lem :
    (e : Event) (t : Trade)
    → apply_action e.action e t ≡ record t {
      queued_events = t.queued_events ++ told e;
      them_ready = readiness e t.them_ready;
    }
unfolding apply_action told
apply_action_lem e t = ground (arith, append-nil t.queued_events)

update_loop_lem :
    (es : Store Event) (last : ℕ) (t : Trade)
    → (update_loop es last t).1 ≡ record t {
      queued_events = t.queued_events ++ news t.them_id t.log_pos es;
      them_ready = ready_after t.them_id t.log_pos es t.them_ready;
    }
unfolding update_loop news ready_after
update_loop_lem [] last t = rw (append-nil t.queued_events) refl
update_loop_lem ((i, e) ∷ es) last t =
    let last' = if ltb last i then i else last in
    let after = apply_action e.action e t in
    ground (
      arith,
      update_loop_lem es last t,
      update_loop_lem es last' after,
      apply_action_lem e t,
      append_assoc t.queued_events (told e) (news t.them_id t.log_pos es),
    )

-- updateEvents queues, behind what is queued already, what the partner's new events tell, in the
-- order of the map's iteration, and leaves the partner as ready as the last of them that speaks of it.
pub update_events-news :
    (es : Store Event) (t : Trade)
    → ((update_events es t).queued_events ≡ t.queued_events ++ news t.them_id t.log_pos es)
      × ((update_events es t).them_ready ≡ ready_after t.them_id t.log_pos es t.them_ready)
      × ((update_events es t).me_ready ≡ t.me_ready)
      × ((update_events es t).version ≡ t.version)
      × ((update_events es t).them_id ≡ t.them_id)
unfolding update_events news ready_after
update_events-news [] t = (sym (append-nil t.queued_events), refl, refl, refl, refl)
update_events-news ((i, e) ∷ es) t = grind (arith, update_loop_lem ((i, e) ∷ es) 0 t)

-- Poll hands out what is queued, once and in order, and asks the server only when nothing is; an
-- error of the request leaves the trade as it is, and after a reply all that was queued for it is
-- handed out. A reply that says it failed is no error: its error is dropped and the list is empty.
pub poll_lem :
    (reply : Result Status) (t : Trade)
    → ((poll reply t).1.queued_events ≡ [])
      × (poll reply t ≡ elim t.queued_events [
        | e ∷ es ↦ (ok t.queued_events, record t { queued_events = [] })
        | [] ↦ elim reply [
          | err e ↦ (err e, t)
          | ok s ↦
              if s.success
              then (
                ok (on_status s t).1.queued_events,
                record (on_status s t).1 { queued_events = [] },
              )
              else (ok [], t)
        ]
      ])
unfolding poll action on_status give events
poll_lem (ok s) t = ground arith
poll_lem (err e) t = ground arith
