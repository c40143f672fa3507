-- ===== src/Trade/Position.antt =====
-- The position in the log of events, LogPos, that updateEvents moves.
use go_steam_ws.Base.{
  ℕ, ◌+◌, ◌^◌, ◌≡◌, ◌≤◌, ◌<◌, refl, Bool, true, false, [], ◌∷◌, All, ltb, ◌||◌, if◌then◌else◌,
  append-nil, arith,
}
use go_steam_ws.Base.Store.{Store}
use go_steam_ws.Trade.{Event, Trade, apply_action, update_loop, update_events}
use go_steam_ws.Trade.Queue.{is_new, news, apply_action_lem, update_events-news}

-- UnmarshalJSON reads the positions as numbers of 32 bits.
abbrev pub IsPosition : ℕ × Event → Type 0
IsPosition (i, e) = i < 2 ^ 32

-- The highest position of a new event of the partner, and `last` if that is higher.
unfoldable pub newest : ℕ → ℕ → Store Event → ℕ → ℕ
newest them log_pos [] last = last
newest them log_pos ((i, e) ∷ es) last =
    newest them log_pos es
      (if is_new them log_pos (i, e) then if ltb last i then i else last else last)

unfoldable pub any_new : ℕ → ℕ → Store Event → Bool
any_new them log_pos [] = false
any_new them log_pos (p ∷ es) = is_new them log_pos p || any_new them log_pos es

update_loop-newest :
    (es : Store Event) (last : ℕ) (t : Trade)
    → (update_loop es last t).0 ≡ newest t.them_id t.log_pos es last
unfolding update_loop newest
update_loop-newest [] last t = refl
update_loop-newest ((i, e) ∷ es) last t =
    let last' = if ltb last i then i else last in
    let after = apply_action e.action e t in
    ground
      (arith, update_loop-newest es last t, update_loop-newest es last' after, apply_action_lem e t)

newest_from : (es : Store Event) (them pos last : ℕ) → last ≤ newest them pos es last
unfolding newest
newest_from [] them pos last = omega arith
newest_from ((i, e) ∷ es) them pos last = grind (arith, newest_from es)

newest_below :
    (es : Store Event) (them pos last : ℕ)
    → All IsPosition es
    → last < 2 ^ 32
    → newest them pos es last < 2 ^ 32
unfolding newest
newest_below [] them pos last h b = b
newest_below ((i, e) ∷ es) them pos last h b = grind (arith, newest_below es)

newest_reaches :
    (es : Store Event) (them pos last : ℕ)
    → any_new them pos es ≡ true
    → pos ≤ newest them pos es last
unfolding newest any_new
newest_reaches [] them pos last h = cc
newest_reaches ((i, e) ∷ es) them pos last h = grind (arith, newest_reaches es, newest_from es)

newest_old :
    (es : Store Event) (them pos last : ℕ)
    → any_new them pos es ≡ false
    → newest them pos es last ≡ last
unfolding newest any_new
newest_old [] them pos last h = refl
newest_old ((i, e) ∷ es) them pos last h = grind (arith, newest_old es)

-- Nothing is new behind the newest event.
news_behind :
    (es : Store Event) (them pos last n : ℕ)
    → newest them pos es last ≤ n
    → pos ≤ n
    → news them (n + 1) es ≡ []
unfolding newest news
news_behind [] them pos last n h b = refl
news_behind ((i, e) ∷ es) them pos last n h b = grind (arith, news_behind es, newest_from es)

-- After a non-empty list of events with positions of 32 bits LogPos is one more than the highest position of a new event
-- of the partner, and 1 if there is no such event.
pub log_pos-update_events :
    (p : ℕ × Event) (es : Store Event) (t : Trade)
    → All IsPosition (p ∷ es)
    → (update_events (p ∷ es) t).log_pos ≡ newest t.them_id t.log_pos (p ∷ es) 0 + 1
unfolding update_events
log_pos-update_events p es t h =
    ground (arith, update_loop-newest (p ∷ es) 0 t, newest_below (p ∷ es) t.them_id t.log_pos 0 h)

-- If the list, with positions of 32 bits, has a new event of the partner, a second reading of the
-- same list, directly after the first, queues nothing. This is about
-- the second reading alone, and not about later ones.
pub update_events_once :
    (es : Store Event) (t : Trade)
    → All IsPosition es
    → any_new t.them_id t.log_pos es ≡ true
    → (update_events es (update_events es t)).queued_events ≡ (update_events es t).queued_events
unfolding any_new
update_events_once [] t h new = cc
update_events_once (p ∷ es) t h new =
    let after = update_events (p ∷ es) t in
    ground (
      arith,
      update_events-news (p ∷ es) after,
      update_events-news (p ∷ es) t,
      log_pos-update_events p es t h,
      newest_reaches (p ∷ es) t.them_id t.log_pos 0 new,
      news_behind (p ∷ es) t.them_id t.log_pos 0 (newest t.them_id t.log_pos (p ∷ es) 0),
      append-nil after.queued_events,
    )

-- If the list, with positions of 32 bits, is not empty and has no new event of the partner, LogPos is 1 after it, however far
-- the log had been read.
pub log_pos_rewinds :
    (p : ℕ × Event) (es : Store Event) (t : Trade)
    → All IsPosition (p ∷ es)
    → any_new t.them_id t.log_pos (p ∷ es) ≡ false
    → (update_events (p ∷ es) t).log_pos ≡ 1
log_pos_rewinds p es t h old =
    ground (arith, log_pos-update_events p es t h, newest_old (p ∷ es) t.them_id t.log_pos 0 old)
