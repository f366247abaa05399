-- ===== src/Watcher/Wedge.antt =====
-- What a full history does to the ledger. Once 64 events have been logged, a sync leaves the cursor
-- where the head and the tail are, and each later log takes all three along: the ledger never grows
-- again.
use mathlib.Core.Path.{subst}
use ai_os_exchange.Prelude.{
  ℕ, ◌≡◌, sym, List, [], ◌∷◌, arith, Option, some, ◌>>=◌, Bytes, >>=-eq-some,
}
use ai_os_exchange.Uart.{Uart}
use ai_os_exchange.Watcher.{Event, Watcher, entry, advance, put, IsValid, watcher_log_event}
use ai_os_exchange.Watcher.History.{advance_of_full, advance-IsValid, watcher_log_event-eq-some}
use ai_os_exchange.Watcher.Sync.{watcher_sync_to_disk, sync-state, sync_of_none, idle_report}

-- A call of `watcher_log_event`.
pub record Log : Type 0 where
  pub now : ℕ
  pub type : ℕ
  pub pid : ℕ
  pub context : Option Bytes

unfoldable pub log_all : List Log → Watcher → Option Watcher
log_all [] w = some w
log_all (l ∷ ls) w = watcher_log_event l.now l.type l.pid l.context w >>= λ w'. log_all ls w'

-- A full history with nothing that waits.
pub record IsWedged (w : Watcher) : Type 0 where
  pub valid : IsValid w
  pub full : w.count ≡ 64
  pub synced : w.sync_cursor ≡ w.head

advance-IsWedged : (e : Event) {w : Watcher} → IsWedged w → IsWedged (advance (put e w))
advance-IsWedged e {w} h = record {
  valid = advance-IsValid e h.valid;
  full = rw (advance_of_full e h.valid h.full) h.full;
  synced = rw (advance_of_full e h.valid h.full) (ground (arith, h.valid.ends));
}

log_all-IsWedged :
    (ls : List Log) (w : Watcher) {w' : Watcher} → IsWedged w → log_all ls w ≡ some w' → IsWedged w'
unfolding log_all
log_all-IsWedged [] w h e = let same : w ≡ _ = cc in subst IsWedged same h
log_all-IsWedged (l ∷ ls) w {w'} h e =
    let (w1, p, q) =
      >>=-eq-some (watcher_log_event l.now l.type l.pid l.context w) (log_all ls) e in
    let (text, _, r) = watcher_log_event-eq-some l.now l.type l.pid l.context w p in
    log_all-IsWedged ls w1
      (subst IsWedged (sym r) (advance-IsWedged (entry l.now l.type l.pid text w) h)) q

pub caught_up-IsValid : {w : Watcher} → IsValid w → IsValid (record w { sync_cursor = w.head })
caught_up-IsValid v = ground (arith, v.filling)

module _ {Disk : Type 0} (append : Bytes → Bytes → Disk × Uart → Option (Disk × Uart)) where
  -- From a full history with nothing that waits, no sequence of logs, ledger commits among them,
  -- makes a later sync write to the disk.
  pub sync_wedged :
      (ls : List Log) (d : Disk) (u : Uart) (w : Watcher) {w' : Watcher}
      → IsWedged w
      → log_all ls w ≡ some w'
      → watcher_sync_to_disk append w' d u ≡ some (w', d, idle_report u)
  sync_wedged ls d u w {w'} h e = sync_of_none append d u w' (log_all-IsWedged ls w h e).synced

  -- From a well-formed history of 64 events: when a sync returns, then whatever is logged after
  -- it, ledger commits among it, the next sync writes nothing to the disk, changes nothing in
  -- the history, and reports that the ledger is up to date. The appending call is any function.
  pub sync_once :
      (ls : List Log) (d : Disk) (u u' : Uart) (w w1 : Watcher) (d1 : Disk) (u1 : Uart)
      {w2 : Watcher}
      → IsValid w
      → w.count ≡ 64
      → watcher_sync_to_disk append w d u ≡ some (w1, d1, u1)
      → log_all ls w1 ≡ some w2
      → watcher_sync_to_disk append w2 d1 u' ≡ some (w2, d1, idle_report u')
  sync_once ls d u u' w w1 d1 u1 v full e l = sync_wedged ls d1 u' w1 (after e) l
    where
      after : watcher_sync_to_disk append w d u ≡ some (w1, d1, u1) → IsWedged w1
      after e =
          let still = sync-state append d u w w1 d1 u1 v e in
          record {
            valid = subst IsValid (sym still) (caught_up-IsValid v);
            full = ground arith;
            synced = ground arith;
          }
