-- ===== src/Watcher.antt =====
-- kernel/watcher.c: the kernel's memory of its last 64 events, and the ledger that is written from
-- it to disk. The system timer is an argument, the ticks that it gives when it is read.
pub mod History
pub mod Pending
pub mod Sync
pub mod Commits
pub mod Texts
pub mod Wedge
pub mod Decimal
pub mod Ledger
pub mod Dump
pub mod Boot
pub mod Tests
use ai_os_exchange.Prelude.{
  ℕ, ◌+◌, ◌-◌, ◌%◌, ◌≤◌, ◌<◌, ◌≡◌, List, [], ◌∷◌, ◌++◌, ◌==◌, ltb, if◌then◌else◌, length, get_or,
  set, replicate, Option, none, some, Bytes, codes, overlay, copy_string, u32, ◌>>=◌, Bool, true,
  false, zero, suc, c_string,
}
use ai_os_exchange.Window.{window}
use ai_os_exchange.Uart.{Uart, uart_print}
use ai_os_exchange.Uart.Hex.{uart_print_hex}

-- `watcher_event_type_t`
abbrev pub event_type_none : ℕ
event_type_none = 0

abbrev pub event_type_fs_read : ℕ
event_type_fs_read = 2

abbrev pub event_type_fs_write : ℕ
event_type_fs_write = 3

abbrev pub event_type_ledger_commit : ℕ
event_type_ledger_commit = 5

-- `watcher_event_t`. The context is an array of 64 bytes that holds a string.
pub record Event : Type 0 where
  pub timestamp : ℕ
  pub type : ℕ
  pub process_id : ℕ
  pub context : Bytes

abbrev pub watcher_history_max : ℕ
watcher_history_max = 64

abbrev pub context_size : ℕ
context_size = 64

-- `watcher_state_t` and `sync_cursor`.
pub record Watcher : Type 0 where
  pub events : List Event
  pub head : ℕ
  pub tail : ℕ
  pub count : ℕ
  pub sync_cursor : ℕ

-- What `watcher_init` leaves in a slot: of the context it clears the first byte only.
unfoldable pub cleared : Event → Event
cleared e = record e {
  timestamp = 0;
  type = event_type_none;
  process_id = 0;
  context = set e.context 0 0;
}

unfoldable pub clear_all : List Event → List Event
clear_all [] = []
clear_all (e ∷ es) = cleared e ∷ clear_all es

unfoldable pub watcher_init : Watcher → Uart → Watcher × Uart
unfolding clear_all cleared
watcher_init w u = (
  record { events = clear_all w.events; head = 0; tail = 0; count = 0; sync_cursor = 0 },
  uart_print (codes "[WATCHER] Sovereign Memory Initialized. (64 Slots)\n") u,
)

-- The slot that an event is written to, and the array that holds it.
unfoldable pub blank : Event
blank = record { timestamp = 0; type = 0; process_id = 0; context = replicate context_size 0 }

-- The context string of the argument: nothing for a null pointer, at most 63 bytes otherwise.
-- `none` is a read past the end of the object that the pointer points into.
unfoldable pub context_text : Option Bytes → Option Bytes
unfolding copy_string
context_text none = some []
context_text (some data_bytes) = copy_string 63 data_bytes

-- Steps 2 and 3 of `watcher_log_event`: the head moves on, and on a full buffer the tail moves with
-- it and takes a sync cursor that it reaches along.
unfoldable pub advance : Watcher → Watcher
advance w =
    let head = u32 (w.head + 1) % watcher_history_max in
    let tail = u32 (w.tail + 1) % watcher_history_max in
    if ltb w.count watcher_history_max
    then record w { head = head; count = w.count + 1 }
    else record w {
      head = head;
      tail = tail;
      sync_cursor = if w.sync_cursor == w.tail then tail else w.sync_cursor;
    }

-- Step 1: the event goes into the slot at the head. Of the context only the text and its NUL are
-- written.
unfoldable pub entry : ℕ → ℕ → ℕ → Bytes → Watcher → Event
entry now type pid text w = record {
  timestamp = now;
  type = type;
  process_id = pid;
  context = overlay (text ++ 0 ∷ []) (get_or w.events w.head blank).context;
}

unfoldable pub put : Event → Watcher → Watcher
put e w = record w { events = set w.events w.head e }

unfoldable pub watcher_log_event : ℕ → ℕ → ℕ → Option Bytes → Watcher → Option Watcher
unfolding context_text advance entry put
watcher_log_event now type pid context_data w = do
  text ← context_text context_data
  some (advance (put (entry now type pid text w) w))

-- The dump prints each event from the oldest on: its number, its type and its context. `none` is a
-- context without NUL.
dump_from : ℕ → ℕ → ℕ → Watcher → Uart → Option Uart
dump_from zero i current w u = some u
dump_from (suc n) i current w u = do
  text ← c_string (get_or w.events current blank).context
  let u1 = uart_print_hex i (uart_print (codes "Event [") u)
  let u2 = uart_print_hex (get_or w.events current blank).type (uart_print (codes "] Type: ") u1)
  let u3 = uart_print text (uart_print (codes " | Ctx: ") u2)
  dump_from n (i + 1) (u32 (current + 1) % watcher_history_max) w (uart_print (codes "\n") u3)

unfoldable pub watcher_dump_history : Watcher → Uart → Option Uart
unfolding dump_from
watcher_dump_history w u =
    let start = uart_print (codes "\n=== WATCHER MEMORY DUMP ===\n") u in
    if w.count == 0
    then some (uart_print (codes "No events logged.\n") start)
    else dump_from w.count 0 w.tail w start >>= λ u'.
        some (uart_print (codes "===========================\n") u')

-- Representation invariant. Until the buffer is full the tail and the unread slots stand still; from
-- then on the head and the tail are one.
pub record IsValid (w : Watcher) : Type 0 where
  pub storage : length w.events ≡ watcher_history_max
  pub head_in : w.head < watcher_history_max
  pub tail_in : w.tail < watcher_history_max
  pub cursor_in : w.sync_cursor < watcher_history_max
  pub count_in : w.count ≤ watcher_history_max
  pub ends : (w.tail + w.count) % watcher_history_max ≡ w.head
  pub filling : w.count < watcher_history_max → (w.tail ≡ 0) × (w.sync_cursor ≤ w.head)

-- The events in memory, the oldest first.
abbrev pub contents : Watcher → List Event
contents w = window blank watcher_history_max w.events w.tail w.count

-- The events that wait for the next sync.
abbrev pub waiting : Watcher → ℕ
waiting w = (w.head + watcher_history_max - w.sync_cursor) % watcher_history_max

abbrev pub pending : Watcher → List Event
pending w = window blank watcher_history_max w.events w.sync_cursor (waiting w)
