-- ===== src/Watcher/Sync.antt =====
-- `watcher_sync_to_disk`: the ledger entries that wait are appended to LEDGER.LOG. The disk is of
-- any type; `append name text` stands for `fs_append_file_content(name, text, strlen(text))`, which
-- may print, and its `none` is a memory fault in that call.
use mathlib.Core.Path.{fun_ext}
use native.Mathlib.Decide.{ℕ_discrete}
use ai_os_exchange.Prelude.{
  ℕ, ◌+◌, ◌%◌, ◌<◌, ◌≡◌, ◌≢◌, sym, ◌∙◌, ap, List, [], ◌∷◌, if◌then◌else◌, not, zero, suc, arith,
  ◌==◌, ◌&&◌, Option, none, some, ◌>>=◌, Bytes, codes, get_or, u32, c_string, ==_of_eq, >>=-eq-some,
  ==_of_ne,
}
use ai_os_exchange.Uart.{Uart, uart_print}
use ai_os_exchange.Uart.Hex.{uart_print_hex}
use ai_os_exchange.Window.{window, window_first}
use ai_os_exchange.Watcher.{
  Event, Watcher, blank, event_type_ledger_commit, watcher_history_max, IsValid, waiting, pending,
}

abbrev pub ledger_log : Bytes
ledger_log = codes "LEDGER.LOG"

-- What a sync prints first, and when it has appended `synced` entries, or when there is none.
unfoldable pub flushing : Uart → Uart
flushing u = uart_print (codes "[WATCHER] Flushing Ledger to LEDGER.LOG...\n") u

unfoldable pub synced_report : ℕ → Uart → Uart
synced_report synced u =
    uart_print (codes " new entries persisted.\n")
      (uart_print_hex synced (uart_print (codes "[WATCHER] Sync Complete. ") u))

unfoldable pub idle_report : Uart → Uart
idle_report u =
    uart_print (codes "[WATCHER] Ledger is up to date. No new entries to sync.\n") (flushing u)

module _ {Disk : Type 0} (append : Bytes → Bytes → Disk × Uart → Option (Disk × Uart)) where
  abbrev pub Console : Type 0
  Console = Disk × Uart

  -- One round of the loop: a slot that was never written, and an event of another type, are passed
  -- over.
  unfoldable pub sync_entry : Event → Console → ℕ → Option (Console × ℕ)
  sync_entry e d synced =
      if not (e.timestamp == 0) && e.type == event_type_ledger_commit
      then (c_string e.context >>= λ text. append ledger_log text d >>= λ d1.
          append ledger_log (codes "\n") d1 >>= λ d2. some (d2, u32 (synced + 1)))
      else some (d, synced)

  -- `while (current != watcher.head)`, on fuel.
  unfoldable pub sync_from : ℕ → ℕ → Watcher → Console → ℕ → Option (Console × ℕ)
  sync_from zero current w d synced = none
  sync_from (suc fuel) current w d synced =
      let rest = sync_entry (get_or w.events current blank) d synced >>= λ r.
      sync_from fuel (u32 (current + 1) % watcher_history_max) w r.0 r.1 in
      if current == w.head then some (d, synced) else rest

  unfoldable pub watcher_sync_to_disk : Watcher → Disk → Uart → Option (Watcher × Disk × Uart)
  watcher_sync_to_disk w d u =
      if w.sync_cursor == w.head
      then some (w, d, idle_report u)
      else (sync_from 64 w.sync_cursor w (d, flushing u) 0 >>= λ r.
          some (record w { sync_cursor = w.head }, r.0.0, synced_report r.1 r.0.1))

  -- The entries of a list of events, appended in order.
  unfoldable pub persist : List Event → Console → ℕ → Option (Console × ℕ)
  persist [] d synced = some (d, synced)
  persist (e ∷ es) d synced = sync_entry e d synced >>= λ r. persist es r.0 r.1

  -- The loop ends within its fuel, having appended the entries from `current` to the head in order.
  sync_from-persist :
      (fuel current k : ℕ) (w : Watcher) (d : Console) (synced : ℕ)
      → current < 64
      → k < fuel
      → k < 64
      → (current + k) % 64 ≡ w.head
      → sync_from fuel current w d synced ≡ persist (window blank 64 w.events current k) d synced
  unfolding sync_from persist window
  sync_from-persist zero current k w d synced c f b e = absurd (omega arith)
  sync_from-persist (suc fuel) current zero w d synced c f b e =
      rw (==_of_eq current w.head (omega arith))
  sync_from-persist (suc fuel) current (suc k) w d synced c f b e =
      let next : u32 (current + 1) % 64 ≡ (current + 1) % 64 = omega arith in
      rw (==_of_ne current w.head (omega arith), next)
        (ap
            (λ (g : Console × ℕ → Option (Console × ℕ)).
              sync_entry (get_or w.events current blank) d synced >>= g)
            (fun_ext λ r.
              sync_from-persist fuel ((current + 1) % 64) k w r.0 r.1 (omega arith) (omega arith)
                (omega arith) (omega arith))
          ∙ ap (λ es. persist es d synced) (sym (window_first blank 64 w.events current k c)))

  -- A sync of a well-formed history whose cursor is not at the head appends the pending events
  -- in order, those that are ledger commits, puts the cursor at the head, and reports how many
  -- it has appended. The appending call is any function; where it faults, the sync does.
  pub sync-persist :
      (d : Disk) (u : Uart) {w : Watcher}
      → IsValid w
      → w.sync_cursor ≢ w.head
      → watcher_sync_to_disk w d u ≡ (
          persist (pending w) (d, flushing u) 0 >>= λ r.
          some (record w { sync_cursor = w.head }, r.0.0, synced_report r.1 r.0.1))
  unfolding watcher_sync_to_disk
  sync-persist d u {w} v ne = rw (
    ==_of_ne w.sync_cursor w.head ne,
    sync_from-persist 64 w.sync_cursor (waiting w) w (d, flushing u) 0 v.cursor_in (omega arith)
        (omega arith) (omega arith),
  )

  -- With the cursor at the head nothing is written.
  pub sync_of_none :
      (d : Disk) (u : Uart) (w : Watcher)
      → w.sync_cursor ≡ w.head
      → watcher_sync_to_disk w d u ≡ some (w, d, idle_report u)
  unfolding watcher_sync_to_disk
  sync_of_none d u w e = rw (==_of_eq w.sync_cursor w.head e)

  -- Whatever a sync does, it leaves the cursor at the head and the rest of the history alone.
  pub sync-state :
      (d : Disk) (u : Uart) (w : Watcher) (w1 : Watcher) (d1 : Disk) (u1 : Uart)
      → IsValid w
      → watcher_sync_to_disk w d u ≡ some (w1, d1, u1)
      → w1 ≡ record w { sync_cursor = w.head }
  sync-state d u w w1 d1 u1 v e = elim (ℕ_discrete w.sync_cursor w.head) [
    | yes at_head ↦
        let same : Path (Option (Watcher × Disk × Uart)) (some (w, d, idle_report u))
            (some (w1, d1, u1)) =
          sym (sync_of_none d u w at_head) ∙ e in
        ground arith
    | no ne ↦
        let (r, _, q) =
          >>=-eq-some (persist (pending w) (d, flushing u) 0) _ (sym (sync-persist d u v ne) ∙ e) in
        let same : record w { sync_cursor = w.head } ≡ w1 = cc in sym same
  ]
