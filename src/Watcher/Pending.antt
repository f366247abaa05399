-- ===== src/Watcher/Pending.antt =====
-- The events that wait for the next sync, and how the ledger loses them: `sync_cursor` equals the
-- head both when nothing waits and when a whole buffer waits.
use ai_os_exchange.Prelude.{
  ◌+◌, ◌%◌, ◌≤◌, ◌<◌, ◌≡◌, ◌≢◌, ◌⊎◌, sym, ◌∙◌, ap, [], ◌∷◌, ◌++◌, if◌then◌else◌, set, suc, arith,
  ◌==◌,
}
use ai_os_exchange.Window.{window, window-set_self}
use ai_os_exchange.Watcher.{Event, Watcher, blank, advance, put, IsValid, waiting, pending}

-- Where an event stays behind the sync cursor: fewer than 63 wait, and not a full buffer with none.
abbrev pub HasRoom : Watcher → Type 0
HasRoom w = (waiting w < 63) × (w.count ≡ 64 → w.sync_cursor ≢ w.head)

-- Every log moves the head on by one, writes the slot at the old head, and leaves the sync cursor
-- where it was or, on a full buffer, takes it along with the tail.
advance_fields :
    (e : Event) {w : Watcher}
    → IsValid w
    → let w' = advance (put e w) in
      (w'.events ≡ set w.events w.head e)
      × (w'.head ≡ (w.head + 1) % 64)
      × (w'.sync_cursor ≡ (
          if w.count == 64
          then (if w.sync_cursor == w.head then (w.head + 1) % 64 else w.sync_cursor)
          else w.sync_cursor))
unfolding advance put
advance_fields e v = ground (arith, v.ends)

pub advance_events : (e : Event) (w : Watcher) → (advance (put e w)).events ≡ set w.events w.head e
unfolding advance put
advance_events e w = ground arith

pending-kept :
    (e : Event) {w : Watcher} (w' : Watcher)
    → IsValid w
    → waiting w < 63
    → w'.events ≡ set w.events w.head e
    → w'.head ≡ (w.head + 1) % 64
    → w'.sync_cursor ≡ w.sync_cursor
    → pending w' ≡ pending w ++ e ∷ []
pending-kept e {w} w' v room es hd cur =
    let k : waiting w' ≡ suc (waiting w) = omega arith in
    let i : (w.sync_cursor + waiting w) % 64 ≡ w.head = omega arith in
    let kept : pending w'
        ≡ window blank 64 (set w.events w.head e) w.sync_cursor (suc (waiting w)) =
      cc in
    kept
    ∙ ap (λ j. window blank 64 (set w.events j e) w.sync_cursor (suc (waiting w))) (sym i)
    ∙ window-set_self blank 64 w.events w.sync_cursor (waiting w) e (omega arith) (omega arith)
        v.cursor_in

-- In a well-formed history in which fewer than 63 events wait for the next sync, and which is
-- not full with the cursor at the head, a logged event waits behind those that waited before
-- it.
pub advance-pending :
    (e : Event) {w : Watcher}
    → IsValid w
    → HasRoom w
    → pending (advance (put e w)) ≡ pending w ++ e ∷ []
advance-pending e {w} v room =
    let (es, hd, cur) = advance_fields e v in
    pending-kept e (advance (put e w)) v room.0 es hd (ground (arith, room.1))

-- In a well-formed history in which 63 events wait, or which is full with the cursor at the
-- head, no event waits after a log: not the new one, nor those before it.
pub advance-pending_lost :
    (e : Event) {w : Watcher}
    → IsValid w
    → (63 ≤ waiting w) ⊎ ((w.count ≡ 64) × (w.sync_cursor ≡ w.head))
    → pending (advance (put e w)) ≡ []
unfolding window
advance-pending_lost e {w} v h =
    let w' = advance (put e w) in
    let (es, hd, cur) = advance_fields e v in
    let k : waiting w' ≡ 0 = ground arith in ap (window blank 64 w'.events w'.sync_cursor) k
