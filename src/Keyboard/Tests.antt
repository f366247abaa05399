-- ===== src/Keyboard/Tests.antt =====
-- A keyboard on which the letter a was pressed.
use ai_os_exchange.Prelude.{◌∷◌, false, true, replicate}
use ai_os_exchange.Keyboard.{Keyboard, no_event}

abbrev pressed : Keyboard
pressed = record {
  present = true;
  used_idx = 1;
  used_ring = 0 ∷ replicate 255 0;
  in_events = (record { type = 1; code = 30; value = 1 }) ∷ replicate 255 no_event;
  in_last_used_idx = 0;
  avail_idx = 256;
  avail_ring = replicate 256 0;
  shift_active = false;
  notified = 0;
}
