-- ===== src/Watcher/Tests.antt =====
-- The history's theorems at concrete histories.
use ai_os_exchange.Prelude.{
  ℕ, zero, suc, c_string, ◌≡◌, refl, List, [], ◌∷◌, ◌++◌, Option, some, ◌>>=◌, Bytes, replicate,
  ◌≤◌, arith, length, NoNul, codes, if◌then◌else◌, ◌==◌,
}
use ai_os_exchange.Prelude.Int.{negsuc}
use ai_os_exchange.Uart.{Uart, uart_print}
use ai_os_exchange.Watcher.{
  Event, Watcher, blank, advance, put, entry, watcher_log_event, IsValid, contents, pending,
  watcher_dump_history, context_text,
}
use ai_os_exchange.Watcher.History.{remember, advance-contents}
use ai_os_exchange.Watcher.Pending.{advance-pending}
use ai_os_exchange.Watcher.Sync.{
  sync_entry, sync_from, watcher_sync_to_disk, synced_report, flushing, idle_report,
}
use ai_os_exchange.Watcher.Dump.{event_lines, watcher_dump_history_lem}
use ai_os_exchange.Watcher.Commits.{commits, append_lines, watcher_sync_to_disk-append_lines}
use ai_os_exchange.Watcher.Texts.{AllText, HasText, watcher_sync_to_disk_total}
use ai_os_exchange.Watcher.Wedge.{Log, log_all, sync_once}
use ai_os_exchange.Watcher.Decimal.{i32_to_dec_str, signed_value, i32_to_dec_str_lem}

-- The history at boot, with a commit that waits, and full with one commit that waits.
abbrev pub boot : Watcher
boot = record { events = replicate 64 blank; head = 0; tail = 0; count = 0; sync_cursor = 0 }

pub boot-IsValid : IsValid boot
boot-IsValid = record {
  storage = refl;
  head_in = omega arith;
  tail_in = omega arith;
  cursor_in = omega arith;
  count_in = omega arith;
  ends = refl;
  filling = λ _. (refl, omega arith);
}

abbrev commit : Event
commit = record { timestamp = 9; type = 5; process_id = 0; context = 65 ∷ 0 ∷ [] }

abbrev one : Watcher
one = record {
  events = commit ∷ replicate 63 blank;
  head = 1;
  tail = 0;
  count = 1;
  sync_cursor = 0;
}

one-IsValid : IsValid one
one-IsValid = record {
  storage = refl;
  head_in = omega arith;
  tail_in = omega arith;
  cursor_in = omega arith;
  count_in = omega arith;
  ends = refl;
  filling = λ _. (refl, omega arith);
}

abbrev full : Watcher
full = record {
  events = commit ∷ replicate 63 blank;
  head = 1;
  tail = 1;
  count = 64;
  sync_cursor = 0;
}

full-IsValid : IsValid full
full-IsValid = record {
  storage = refl;
  head_in = omega arith;
  tail_in = omega arith;
  cursor_in = omega arith;
  count_in = omega arith;
  ends = refl;
  filling = λ h. absurd (omega arith);
}

-- 63 events that wait.
abbrev laden : Watcher
laden = record full { sync_cursor = 2 }

laden-IsValid : IsValid laden
laden-IsValid = record {
  storage = refl;
  head_in = omega arith;
  tail_in = omega arith;
  cursor_in = omega arith;
  count_in = omega arith;
  ends = refl;
  filling = λ h. absurd (omega arith);
}

blank-HasText : HasText blank
unfolding blank c_string
blank-HasText = ([], refl)

replicate-AllText : (n : ℕ) → AllText (replicate n blank)
replicate-AllText zero = tt
replicate-AllText (suc n) = (blank-HasText, replicate-AllText n)

pub boot-AllText : AllText boot.events
boot-AllText = replicate-AllText 64

one-AllText : AllText one.events
unfolding c_string
one-AllText = ((65 ∷ [], refl), replicate-AllText 63)

abbrev pub console : Uart
console = record { received = []; arriving = []; sent = [] }

-- A disk that is one file.
abbrev append : Bytes → Bytes → Bytes × Uart → Option (Bytes × Uart)
append name text s = some (s.0 ++ text, s.1)

append_total : (n t : Bytes) (s : Bytes × Uart) → (s' : Bytes × Uart) × (append n t s ≡ some s')
append_total n t s = ((s.0 ++ t, s.1), refl)

advance-contents_example : contents (advance (put commit full)) ≡ remember commit (contents full)
advance-contents_example = advance-contents commit full-IsValid

advance-pending_example : pending (advance (put commit one)) ≡ pending one ++ commit ∷ []
advance-pending_example =
    advance-pending commit one-IsValid (omega arith, λ e. absurd (omega arith))

watcher_sync_to_disk-append_lines_example : watcher_sync_to_disk append one [] console ≡ (
    append_lines append (commits (pending one)) ([], flushing console) >>= λ r.
    some (record one { sync_cursor = 1 }, r.0, synced_report (length (commits (pending one))) r.1))
watcher_sync_to_disk-append_lines_example =
    watcher_sync_to_disk-append_lines append [] console one-IsValid (λ e. absurd (omega arith))

watcher_sync_to_disk_total_example :
    (r : Watcher × Bytes × Uart) × (watcher_sync_to_disk append one [] console ≡ some r)
watcher_sync_to_disk_total_example =
    watcher_sync_to_disk_total append append_total [] console one-IsValid one-AllText

logged_text :
    watcher_log_event 3 2 1 (some (66 ∷ 0 ∷ [])) one
    ≡ some (advance (put (entry 3 2 1 (66 ∷ []) one) one))
unfolding watcher_log_event context_text
logged_text = refl

abbrev later : List Log
later = record { now = 10; type = 5; pid = 0; context = some (66 ∷ 0 ∷ []) } ∷ []

abbrev synced : Watcher
synced = record full { sync_cursor = 1 }

first_sync :
    watcher_sync_to_disk append full [] console
    ≡ some (synced, 65 ∷ 10 ∷ [], synced_report 1 (flushing console))
unfolding watcher_sync_to_disk sync_from sync_entry c_string
first_sync = refl

later_logs : log_all later synced ≡ some (advance (put (entry 10 5 0 (66 ∷ []) synced) synced))
unfolding log_all watcher_log_event context_text
later_logs = refl

sync_once_example :
    watcher_sync_to_disk append
      (advance (put (entry 10 5 0 (66 ∷ []) synced) synced))
      (65 ∷ 10 ∷ [])
      console
    ≡ some (advance (put (entry 10 5 0 (66 ∷ []) synced) synced), 65 ∷ 10 ∷ [], idle_report console)
sync_once_example =
    sync_once append later [] console console full synced (65 ∷ 10 ∷ [])
      (synced_report 1 (flushing console)) full-IsValid refl first_sync later_logs

i32_to_dec_str_lem_example :
    (s : Bytes) × (i32_to_dec_str (negsuc 41) ≡ some (s ++ 0 ∷ []))
    × (signed_value s ≡ negsuc 41)
    × NoNul s
    × (length s ≤ 11)
i32_to_dec_str_lem_example = i32_to_dec_str_lem (negsuc 41) (omega arith)

watcher_dump_history_lem_example :
    (lines : Bytes) × (event_lines 0 (contents one) ≡ some lines)
    × (watcher_dump_history one console
        ≡ some (
            if one.count == 0
            then uart_print
                (codes "No events logged.\n")
                (uart_print (codes "\n=== WATCHER MEMORY DUMP ===\n") console)
            else uart_print
                (codes "===========================\n")
                (uart_print lines (uart_print (codes "\n=== WATCHER MEMORY DUMP ===\n") console))))
watcher_dump_history_lem_example = watcher_dump_history_lem one console one-IsValid one-AllText
