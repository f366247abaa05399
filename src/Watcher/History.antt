-- ===== src/Watcher/History.antt =====
-- The history keeps the last 64 events: each log keeps the invariant and adds its event, on a full
-- buffer in place of the oldest.
use native.Mathlib.Decide.{dec_lt}
use mathlib.Core.Path.{subst}
use ai_os_exchange.Prelude.{
  ℕ, ◌+◌, ◌%◌, ◌≤◌, ◌<◌, ◌≡◌, sym, ◌∙◌, ap, List, [], ◌∷◌, ◌++◌, ltb, if◌then◌else◌, length, Bytes,
  Option, some, none, Option-cases, inl, inr, NoNul, copy_string_bounds, take,
  copy_string-append_nul, set, length-set, drop, suc, arith, lt→ltb, ltb_of_not-lt, ◌==◌,
}
use ai_os_exchange.Window.{window, length-window, window-set_self, window_first}
use ai_os_exchange.Watcher.{
  Event, Watcher, blank, advance, put, entry, context_text, watcher_log_event, IsValid, contents,
}

-- A log of bounded length: when it holds 64 events, the oldest leaves.
unfoldable pub remember : Event → List Event → List Event
remember e q = (if ltb (length q) 64 then q else drop 1 q) ++ e ∷ []

-- A log of any event keeps a well-formed history well formed: all indices in range, at most 64
-- events, the head behind them, and until the buffer is full the cursor not past the head.
pub advance-IsValid : (e : Event) {w : Watcher} → IsValid w → IsValid (advance (put e w))
unfolding advance put
advance-IsValid e {w} v = ground (arith, length-set w.events w.head e, v.filling)

pub length-contents : (w : Watcher) → length (contents w) ≡ w.count
length-contents w = length-window blank 64 w.events w.tail w.count

abbrev filled : Event → Watcher → Watcher
filled e w = record w {
  events = set w.events w.head e;
  head = (w.head + 1) % 64;
  count = w.count + 1;
}

advance_of_room :
    (e : Event) {w : Watcher} → IsValid w → w.count < 64 → advance (put e w) ≡ filled e w
unfolding advance put
advance_of_room e v h = ground arith

contents-filled :
    (e : Event) {w : Watcher}
    → IsValid w
    → w.count < 64
    → contents (filled e w) ≡ contents w ++ e ∷ []
contents-filled e {w} v h =
    ap (window blank 64 (set w.events w.head e) w.tail) (omega arith)
    ∙ ap (λ i. window blank 64 (set w.events i e) w.tail (suc w.count)) (sym v.ends)
    ∙ window-set_self blank 64 w.events w.tail w.count e (omega arith) h v.tail_in

abbrev pub rolled : Event → Watcher → Watcher
rolled e w = record w {
  events = set w.events w.head e;
  head = (w.head + 1) % 64;
  tail = (w.tail + 1) % 64;
  sync_cursor = if w.sync_cursor == w.tail then (w.tail + 1) % 64 else w.sync_cursor;
}

pub advance_of_full :
    (e : Event) {w : Watcher} → IsValid w → w.count ≡ 64 → advance (put e w) ≡ rolled e w
unfolding advance put
advance_of_full e v h = ground arith

contents-rolled :
    (e : Event) {w : Watcher}
    → IsValid w
    → w.count ≡ 64
    → contents (rolled e w) ≡ drop 1 (contents w) ++ e ∷ []
contents-rolled e {w} v h =
    let t = (w.tail + 1) % 64 in
    let i : (t + 63) % 64 ≡ w.head = omega (arith, v.ends) in
    ap (window blank 64 (set w.events w.head e) t) h
    ∙ ap (λ k. window blank 64 (set w.events k e) t 64) (sym i)
    ∙ window-set_self blank 64 w.events t 63 e (omega arith) (omega arith) (omega arith)
    ∙ ap (λ q. drop 1 q ++ e ∷ [])
        (sym (
          ap (window blank 64 w.events w.tail) h
          ∙ window_first blank 64 w.events w.tail 63 v.tail_in))

-- A log of an event into a well-formed history leaves in memory what a log of at most 64 events
-- keeps: the event last, and if there were 64, without the oldest.
pub advance-contents :
    (e : Event) {w : Watcher} → IsValid w → contents (advance (put e w)) ≡ remember e (contents w)
unfolding remember
advance-contents e {w} v = elim (dec_lt w.count 64) [
  | yes room ↦
      rw (length-contents w, lt→ltb _ _ room)
        (ap contents (advance_of_room e v room) ∙ contents-filled e v room)
  | no full ↦
      rw (length-contents w, ltb_of_not-lt _ _ full)
        (ap contents (advance_of_full e v (omega (arith, v.count_in)))
          ∙ contents-rolled e v (omega (arith, v.count_in)))
]

-- A log that returns has read its text and put its entry into the slot at the head.
pub watcher_log_event-eq-some :
    (now type pid : ℕ) (c : Option Bytes) (w : Watcher) {w' : Watcher}
    → watcher_log_event now type pid c w ≡ some w'
    → (text : Bytes) × (context_text c ≡ some text)
      × (w' ≡ advance (put (entry now type pid text w) w))
unfolding watcher_log_event
watcher_log_event-eq-some now type pid c w e = elim (Option-cases (context_text c)) [
  | inl n ↦ absurd (ground arith)
  | inr (text, t) ↦ (text, t, ground arith)
]

-- A text holds at most 63 bytes, and no NUL.
pub context_text_bounds :
    (c : Option Bytes) {text : Bytes} → context_text c ≡ some text → (length text ≤ 63) × NoNul text
unfolding context_text
context_text_bounds none {text} e =
    let empty : [] ≡ text = cc in subst (λ t. (length t ≤ 63) × NoNul t) empty (omega arith)
context_text_bounds (some s) e = copy_string_bounds 63 s e

-- A log whose context is null, or a string of any length, returns.
pub watcher_log_event_total :
    (now type pid : ℕ) (s rest : Bytes) (w : Watcher)
    → NoNul s
    → watcher_log_event now type pid (some (s ++ 0 ∷ rest)) w
      ≡ some (advance (put (entry now type pid (take 63 s) w) w))
unfolding watcher_log_event context_text
watcher_log_event_total now type pid s rest w h = rw (copy_string-append_nul 63 s rest h)
