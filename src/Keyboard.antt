-- ===== src/Keyboard.antt =====
-- The keyboard of kernel/virtio.c: the maps from key codes to characters, and `virtio_input_poll`,
-- which takes one event from the used ring and gives its buffer back through the available ring. The
-- cache maintenance is not modelled: memory is coherent.
pub mod Keys
pub mod Queue
pub mod Tests
use ai_os_exchange.Prelude.{
  ℕ, zero, suc, ◌+◌, ◌-◌, ◌%◌, ◌^◌, ◌≤◌, ◌<◌, ◌≡◌, List, [], ◌∷◌, ◌++◌, if◌then◌else◌, ◌==◌, ◌||◌,
  not, ltb, Bool, true, false, Bytes, codes, length, get_or, set, u16,
}

abbrev pub virtq_size : ℕ
virtq_size = 256

-- Entries behind the last initialiser are 0.
unfoldable pub keymap_us_lower : Bytes
keymap_us_lower =
    0
    ∷ 27
    ∷ (codes "1234567890-="
        ++ (8
            ∷ 9
            ∷ (codes "qwertyuiop[]"
                ++ (10
                    ∷ 0
                    ∷ (codes "asdfghjkl;'`"
                        ++ (0 ∷ (codes "\\zxcvbnm,./" ++ (0 ∷ 42 ∷ 0 ∷ 32 ∷ 0 ∷ []))))))))

unfoldable pub keymap_us_upper : Bytes
keymap_us_upper =
    0
    ∷ 27
    ∷ (codes "!@#$%^&*()_+"
        ++ (8
            ∷ 9
            ∷ (codes "QWERTYUIOP{}"
                ++ (10
                    ∷ 0
                    ∷ (codes "ASDFGHJKL:\"~"
                        ++ (0 ∷ (codes "|ZXCVBNM<>?" ++ (0 ∷ 42 ∷ 0 ∷ 32 ∷ 0 ∷ []))))))))

-- `struct virtio_input_event`
pub record InputEvent : Type 0 where
  pub type : ℕ
  pub code : ℕ
  pub value : ℕ

unfoldable pub no_event : InputEvent
no_event = record { type = 0; code = 0; value = 0 }

-- The queue and the state of the shift key. The device writes `used_idx`, `used_ring` and
-- `in_events`; `notified` counts the writes to the notification register.
pub record Keyboard : Type 0 where
  pub present : Bool
  pub used_idx : ℕ
  pub used_ring : List ℕ
  pub in_events : List InputEvent
  pub in_last_used_idx : ℕ
  pub avail_idx : ℕ
  pub avail_ring : List ℕ
  pub shift_active : Bool
  pub notified : ℕ

abbrev pub is_shift : InputEvent → Bool
is_shift evt = evt.code == 42 || evt.code == 54

-- The character of an event, 0 for none, and the shift state after it.
unfoldable pub ascii_of : Bool → InputEvent → ℕ
unfolding keymap_us_lower keymap_us_upper
ascii_of shift evt =
    if evt.type == 1
    then if is_shift evt
      then 0
      else if evt.value == 1 || evt.value == 2
      then if ltb evt.code 128
        then if shift then get_or keymap_us_upper evt.code 0 else get_or keymap_us_lower evt.code 0
        else 0
      else 0
    else 0

unfoldable pub shift_after : Bool → InputEvent → Bool
shift_after shift evt =
    if evt.type == 1 then if is_shift evt then evt.value == 1 else shift else shift

unfoldable pub virtio_input_poll : Keyboard → ℕ × Keyboard
unfolding ascii_of shift_after
virtio_input_poll kb =
    if not kb.present
    then (0, kb)
    else if not (kb.used_idx == kb.in_last_used_idx)
    then (let desc_idx = get_or kb.used_ring (kb.in_last_used_idx % virtq_size) 0 in
        let evt = get_or kb.in_events desc_idx no_event in
        (
          ascii_of kb.shift_active evt,
          record kb {
            shift_active = shift_after kb.shift_active evt;
            avail_ring = set kb.avail_ring (kb.avail_idx % virtq_size) (u16 desc_idx);
            avail_idx = u16 (kb.avail_idx + 1);
            notified = kb.notified + 1;
            in_last_used_idx = u16 (kb.in_last_used_idx + 1);
          },
        ))
    else (0, kb)
