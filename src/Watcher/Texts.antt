-- ===== src/Watcher/Texts.antt =====
-- Every context in the history is a NUL-terminated string, so that no reader of the history leaves
-- its array, and a sync always returns.
use native.Mathlib.Decide.{ℕ_discrete}
use ai_os_exchange.Prelude.{
  ℕ, ◌+◌, ◌%◌, ◌≡◌, refl, ◌∙◌, ap, List, [], ◌∷◌, ◌++◌, not, zero, suc, ◌==◌, ◌&&◌, Option, some,
  ◌>>=◌, Bytes, codes, get_or, set, u32, c_string, c_string-append_nul, NoNul, append_assoc, inl,
  inr, Bool-cases,
}
use ai_os_exchange.Uart.{Uart}
use ai_os_exchange.Window.{window}
use ai_os_exchange.Watcher.{Event, Watcher, blank, entry, watcher_log_event, IsValid, pending}
use ai_os_exchange.Watcher.History.{watcher_log_event-eq-some, context_text_bounds}
use ai_os_exchange.Watcher.Pending.{advance_events}
use ai_os_exchange.Watcher.Sync.{
  ledger_log, sync_entry, persist, watcher_sync_to_disk, synced_report, flushing, sync-persist,
  sync_of_none,
}

abbrev pub HasText : Event → Type 0
HasText e = (t : Bytes) × (c_string e.context ≡ some t)

abbrev pub AllText : List Event → Type 0
AllText [] = Unit
AllText (e ∷ es) = HasText e × AllText es

blank-HasText : HasText blank
unfolding blank c_string
blank-HasText = ([], refl)

AllText-set : (es : List Event) (i : ℕ) (e : Event) → AllText es → HasText e → AllText (set es i e)
AllText-set [] i e h t = tt
AllText-set (x ∷ es) zero e h t = (t, h.1)
AllText-set (x ∷ es) (suc i) e h t = (h.0, AllText-set es i e h.1 t)

get_or-HasText : (es : List Event) (i : ℕ) → AllText es → HasText (get_or es i blank)
get_or-HasText [] i h = blank-HasText
get_or-HasText (x ∷ es) zero h = h.0
get_or-HasText (x ∷ es) (suc i) h = get_or-HasText es i h.1

AllText-append : (xs ys : List Event) → AllText xs → AllText ys → AllText (xs ++ ys)
AllText-append [] ys hx hy = hy
AllText-append (x ∷ xs) ys hx hy = (hx.0, AllText-append xs ys hx.1 hy)

pub AllText-window : (es : List Event) (h n : ℕ) → AllText es → AllText (window blank 64 es h n)
unfolding window
AllText-window es h zero t = tt
AllText-window es h (suc n) t =
    AllText-append (window blank 64 es h n) _ (AllText-window es h n t)
      (get_or-HasText es ((h + n) % 64) t, tt)

entry-HasText :
    (now type pid : ℕ) (text : Bytes) (w : Watcher)
    → NoNul text
    → HasText (entry now type pid text w)
unfolding entry
entry-HasText now type pid text w h = (text, rw append_assoc (c_string-append_nul text _ h))

-- If every context in the history is a string, then it is so after a log that returns.
pub watcher_log_event-AllText :
    (now type pid : ℕ) (c : Option Bytes) (w : Watcher) {w' : Watcher}
    → AllText w.events
    → watcher_log_event now type pid c w ≡ some w'
    → AllText w'.events
unfolding watcher_log_event
watcher_log_event-AllText now type pid c w h e =
    let (text, t, p) = watcher_log_event-eq-some now type pid c w e in
    let entered = entry-HasText now type pid text w (context_text_bounds c t).1 in
    rw (p, advance_events) (AllText-set w.events w.head (entry now type pid text w) h entered)

module _ {Disk : Type 0} (append : Bytes → Bytes → Disk × Uart → Option (Disk × Uart))
    (total : (n t : Bytes) (d : Disk × Uart) → (d' : Disk × Uart) × (append n t d ≡ some d')) where
  abbrev Console : Type 0
  Console = Disk × Uart

  sync_entry_total :
      (e : Event) (d : Console) (n : ℕ)
      → HasText e
      → (r : Console × ℕ) × (sync_entry append e d n ≡ some r)
  unfolding sync_entry
  sync_entry_total e d n (t, h) =
      let (d1, p) = total ledger_log t d in
      let (d2, q) = total ledger_log (codes "\n") d1 in
      elim (Bool-cases (not (e.timestamp == 0) && e.type == 5)) [
        | inl commit ↦ ((d2, u32 (n + 1)), rw (commit, h, p) (rw q))
        | inr other ↦ ((d, n), rw other)
      ]

  persist_total :
      (es : List Event) (d : Console) (n : ℕ)
      → AllText es
      → (r : Console × ℕ) × (persist append es d n ≡ some r)
  unfolding persist
  persist_total [] d n h = ((d, n), refl)
  persist_total (e ∷ es) d n h =
      let (r, p) = sync_entry_total e d n h.0 in
      let (r', p') = persist_total es r.0 r.1 h.1 in (r', rw p p')

  -- A sync of a well-formed history whose contexts are strings returns, if every append to the
  -- disk returns.
  pub watcher_sync_to_disk_total :
      (d : Disk) (u : Uart) {w : Watcher}
      → IsValid w
      → AllText w.events
      → (r : Watcher × Disk × Uart) × (watcher_sync_to_disk append w d u ≡ some r)
  watcher_sync_to_disk_total d u {w} v h = elim (ℕ_discrete w.sync_cursor w.head) [
    | yes e ↦ (_, sync_of_none append d u w e)
    | no ne ↦
        let (r, p) = persist_total (pending w) (d, flushing u) 0 (AllText-window w.events _ _ h) in
        (finish r, sync-persist append d u v ne ∙ ap (λ m. m >>= λ x. some (finish x)) p)
  ]
    where
      finish : Console × ℕ → Watcher × Disk × Uart
      finish x = (record w { sync_cursor = w.head }, x.0.0, synced_report x.1 x.0.1)
