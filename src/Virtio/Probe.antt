-- ===== src/Virtio/Probe.antt =====
-- The search for devices at boot: `gpu_init` and `virtio_probe_and_init` of kernel/virtio.c, which
-- set up the keyboard, the display and the block device, each in the slot where it is found.
use ai_os_exchange.Prelude.{
  ℕ, zero, suc, ◌+◌, ◌*◌, ◌/◌, ◌%◌, ◌^◌, List, [], ◌∷◌, ◌++◌, if◌then◌else◌, ◌==◌, ◌||◌, not, true,
  Option, some, ◌>>=◌, Bytes, replicate, u32, u64,
}
use ai_os_exchange.Fat.Fields.{put32}
use ai_os_exchange.Keyboard.{Keyboard, no_event, virtq_size}
use ai_os_exchange.Mmu.{Layout, Tables, virtio_mmio_base, mmu_map_framebuffer}
use ai_os_exchange.Virtio.Store.{Memory}
use ai_os_exchange.Virtio.{
  Desc, Driver, Device, desc_f_write, bump_allocate, write_memory, put_words, send_gpu_command,
  gpu_command, transfer_and_show,
}
use ai_os_exchange.Virtio.Setup.{
  Mmio, reset_device, negotiate, set_status, status_driver_ok, reg_queue_notify, setup_virtqueue,
  fresh_queue, virtio_blk_init,
}

abbrev pub virtio_magic : ℕ
virtio_magic = 0x74726976

abbrev pub dev_blk : ℕ
dev_blk = 2

abbrev pub dev_input : ℕ
dev_input = 18

abbrev pub dev_gpu : ℕ
dev_gpu = 16

abbrev pub slot_size : ℕ
slot_size = 0x200

abbrev pub slot_count : ℕ
slot_count = 32

-- `*(volatile uint32_t *)addr`
unfoldable pub load_word : ℕ → Memory → ℕ
load_word addr m = m addr + m (addr + 1) * 2 ^ 8 + m (addr + 2) * 2 ^ 16 + m (addr + 3) * 2 ^ 24

-- `n` pixels of the first picture.
unfoldable pub pixels : ℕ → Bytes
pixels zero = []
pixels (suc n) = put32 0xFF0000FF ++ pixels n

-- What the display answers to the first command: a width and a height of 0 stand for 1280 by 800.
abbrev pub display_size : ℕ → ℕ → ℕ × ℕ
display_size width height = if width == 0 || height == 0 then (1280, 800) else (width, height)

abbrev pub fb_size : ℕ × ℕ → ℕ
fb_size wh = u32 (wh.0 * wh.1 * 4)

-- The words of the commands that create a resource, attach memory to it, and put it on the screen.
abbrev pub create_words : ℕ × ℕ → List (ℕ × ℕ)
create_words size = (0, 0x101) ∷ (6, 1) ∷ (7, 1) ∷ (8, size.0) ∷ (9, size.1) ∷ []

abbrev pub attach_words : ℕ → ℕ → List (ℕ × ℕ)
attach_words fb_phys bytes =
    (0, 0x106)
    ∷ (6, 1)
    ∷ (7, 1)
    ∷ (8, fb_phys % 2 ^ 32)
    ∷ (9, u32 (fb_phys / 2 ^ 32))
    ∷ (10, bytes)
    ∷ (11, 0)
    ∷ []

abbrev pub scanout_words : ℕ × ℕ → List (ℕ × ℕ)
scanout_words size =
    (0, 0x103) ∷ (6, 0) ∷ (7, 0) ∷ (8, size.0) ∷ (9, size.1) ∷ (10, 0) ∷ (11, 1) ∷ []

-- What the search sets up: the driver's globals and memory, the keyboard with the descriptors of its
-- queue, the translation tables, and the registers and the display, which belong to the machine.
pub record Machine (io : Mmio) (display : Device) : Type 0 where
  pub driver : Driver
  pub keyboard : Keyboard
  pub in_desc : List Desc
  pub tables : Tables
  pub bus : io.Bus
  pub screen : display.State

-- `in_desc[ j ]` for the `n` entries from `j` on.
unfoldable pub event_descs : ℕ → ℕ → ℕ → List Desc
event_descs in_events zero j = []
event_descs in_events (suc n) j =
    record { addr = u64 (in_events + 8 * j); len = 8; flags = desc_f_write; next = 0 }
    ∷ event_descs in_events n (j + 1)

-- `in_avail->ring[ j ] = j`
unfoldable pub count_from : ℕ → ℕ → List ℕ
count_from zero j = []
count_from (suc n) j = j ∷ count_from n (j + 1)

-- All the buffers are offered; the globals `in_last_used_idx` and `shift_active` are not set.
abbrev pub fresh_keyboard : Keyboard → Keyboard
fresh_keyboard kb = record kb {
  present = true;
  used_idx = 0;
  used_ring = replicate virtq_size 0;
  in_events = replicate virtq_size no_event;
  avail_idx = virtq_size;
  avail_ring = count_from virtq_size 0;
  notified = kb.notified + 1;
}

module _ (display : Device) where
  -- `gpu_init` up to the framebuffer: the display's size, and a resource of that size.
  unfoldable pub gpu_create : Driver × display.State → Option ((ℕ × ℕ) × (Driver × display.State))
  unfolding bump_allocate
  gpu_create (v, s) =
      let (req, v1) = bump_allocate 24 8 v in
      let (resp, v2) = bump_allocate 408 8 v1 in
      send_gpu_command display req 24 resp 408 (put_words req ((0, 0x100) ∷ []) v2, s)
      >>= λ (v3, s3).
          let size =
            display_size (load_word (resp + 32) v3.memory) (load_word (resp + 36) v3.memory) in
          gpu_command display 40 (create_words size)
            (record v3 { active_fb_width = size.0; active_fb_height = size.1 }, s3)
          >>= λ r. some (size, r)

module _ (at : Layout) (display : Device) where
  -- The framebuffer: it is attached to the resource, mapped, shown on the screen, and filled.
  unfoldable pub gpu_attach :
      ℕ × ℕ → Driver × display.State → Tables → Option ((Driver × display.State) × Tables)
  unfolding bump_allocate
  gpu_attach size (v, s) t =
      let bytes = fb_size size in
      let (fb_phys, v1) = bump_allocate bytes 4096 v in
      gpu_command display 48 (attach_words fb_phys bytes)
        (record v1 { active_fb_phys = fb_phys }, s)
      >>= gpu_command display 48 (scanout_words size)
      >>= λ (v2, s2).
          transfer_and_show display (write_memory fb_phys (pixels (bytes / 4)) v2, s2) >>= λ r.
          some (r, mmu_map_framebuffer at fb_phys bytes t)

  unfoldable pub gpu_init :
      Driver × display.State → Tables → Option ((Driver × display.State) × Tables)
  gpu_init v t = gpu_create display v >>= λ (size, r). gpu_attach size r t

module _ (at : Layout) (io : Mmio) (display : Device) where
  -- The branches of the search, for the slot at `base`.
  unfoldable pub probe_input : ℕ → ℕ → Machine io display → Machine io display
  unfolding bump_allocate
  probe_input base version m =
      let b = negotiate io base version (reset_device io base m.bus) in
      let (q, (v1, b1)) = setup_virtqueue io base version (m.driver, b) in
      let (in_events, v2) = bump_allocate (8 * virtq_size) 8 v1 in
      record m {
        driver = v2;
        keyboard = fresh_keyboard m.keyboard;
        in_desc = event_descs in_events virtq_size 0;
        bus = io.write (base + reg_queue_notify) 0 (set_status io base status_driver_ok b1);
      }

  unfoldable pub probe_gpu : ℕ → ℕ → Machine io display → Option (Machine io display)
  probe_gpu base version m =
      let b = negotiate io base version (reset_device io base m.bus) in
      let v = record m.driver { gpu_mmio_base = base } in
      let (q, (v1, b1)) = setup_virtqueue io base version (v, b) in
      gpu_init at display (record v1 { gpu = fresh_queue v1.gpu }, m.screen) m.tables >>= λ r.
      some (record m {
        driver = r.0.0;
        screen = r.0.1;
        tables = r.1;
        bus = set_status io base status_driver_ok b1;
      })

  unfoldable pub probe_blk : ℕ → ℕ → Machine io display → Machine io display
  probe_blk base version m =
      let (v, b) = virtio_blk_init io base version (m.driver, m.bus) in
      record m { driver = v; bus = b }

  -- A slot: of a device that is no keyboard, display or block device nothing is done.
  unfoldable pub probe_slot : ℕ → Machine io display → Option (Machine io display)
  probe_slot base m =
      let magic = io.read base m.bus in
      let version = io.read (base + 4) m.bus in
      let devid = io.read (base + 8) m.bus in
      if not (magic == virtio_magic) || devid == 0 || devid == 1
      then some m
      else if devid == dev_input
      then some (probe_input base version m)
      else if devid == dev_gpu
      then probe_gpu base version m
      else if devid == dev_blk
      then some (probe_blk base version m)
      else some m

  -- `n` slots from the slot `i` on.
  unfoldable pub probe_slots : ℕ → ℕ → Machine io display → Option (Machine io display)
  probe_slots zero i m = some m
  probe_slots (suc n) i m =
      probe_slot (virtio_mmio_base + i * slot_size) m >>= probe_slots n (i + 1)

  abbrev pub virtio_probe_and_init : Machine io display → Option (Machine io display)
  virtio_probe_and_init = probe_slots slot_count 0
