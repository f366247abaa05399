-- ===== src/Keyboard/Queue.antt =====
-- The keyboard as a queue of events, and what draining it until the first 0 takes out.
use ai_os_exchange.Prelude.{ℕ, ◌+◌, ◌-◌, ◌%◌, ◌^◌, ◌<◌, ◌≡◌, List, map, true, get_or, set, u16}
use ai_os_exchange.Window.{window}
use ai_os_exchange.Keyboard.{InputEvent, no_event, Keyboard, shift_after, virtq_size}

-- A keyboard that is there; both counters are 16 bits wide.
pub record IsValid (kb : Keyboard) : Type 0 where
  pub found : kb.present ≡ true
  pub used_fits : kb.used_idx < 2 ^ 16
  pub last_fits : kb.in_last_used_idx < 2 ^ 16

-- How many events wait, and which, the oldest first.
abbrev pub count : Keyboard → ℕ
count kb = (kb.used_idx + 2 ^ 16 - kb.in_last_used_idx) % 2 ^ 16

unfoldable pub pending : Keyboard → List InputEvent
pending kb =
    map (λ i. get_or kb.in_events i no_event)
      (window 0 256 kb.used_ring (kb.in_last_used_idx % 256) (count kb))

abbrev desc_idx : Keyboard → ℕ
desc_idx kb = get_or kb.used_ring (kb.in_last_used_idx % 256) 0

abbrev oldest : Keyboard → InputEvent
oldest kb = get_or kb.in_events (desc_idx kb) no_event

abbrev taken : Keyboard → Keyboard
taken kb = record kb {
  shift_active = shift_after kb.shift_active (oldest kb);
  avail_ring = set kb.avail_ring (kb.avail_idx % virtq_size) (u16 (desc_idx kb));
  avail_idx = u16 (kb.avail_idx + 1);
  notified = kb.notified + 1;
  in_last_used_idx = u16 (kb.in_last_used_idx + 1);
}
