-- ===== src/Virtio/SetupTests.antt =====
-- A bus of registers that hold what is written, with the ids of the devices in it.
use ai_os_exchange.Prelude.{
  ◌⊎◌, ℕ, ◌+◌, ◌%◌, ◌≡◌, refl, [], if◌then◌else◌, ◌==◌, ◌&&◌, ◌||◌, ltb, false, arith, ==_of_eq,
  ==_of_ne, u16,
}
use ai_os_exchange.Keyboard.{Keyboard}
use ai_os_exchange.Mmu.{mmu_init_tables}
use ai_os_exchange.Mmu.Tests.{linked}
use ai_os_exchange.Virtio.{Driver, Device}
use ai_os_exchange.Virtio.Setup.{Mmio, setup_virtqueue}
use ai_os_exchange.Virtio.Layout.{Holds, IsPlaced, legacy_view, modern_view, setup_virtqueue_lem}
use ai_os_exchange.Virtio.Probe.{Machine}
use ai_os_exchange.Virtio.Screen.{Answers}
use ai_os_exchange.Virtio.Found.{HasIds, zero_queue}
use ai_os_exchange.Virtio.Tests.{idle}

-- Registers that can all be written.
abbrev pub plain : Mmio
plain = record { Bus = ℕ → ℕ; read = λ a b. b a; write = λ a x b c. if c == a then x else b c }

abbrev pub register : (ℕ → ℕ) → ℕ → ℕ
register b a = b a

pub plain-Holds : Holds plain register
plain-Holds = record {
  written = λ a x b. rw (==_of_eq a a refl) refl;
  others = λ a c x b ne. rw (==_of_ne c a ne) refl;
}

setup_virtqueue_lem_example :
    let (at, (v', b')) = setup_virtqueue plain 0x0A000200 2 (idle, λ a. 0) in
    let view = λ (off : ℕ). b' (0x0A000200 + off) in
    IsPlaced 0x50000001 v'.dma_heap_curr at
    × ((if 2 == 1 then legacy_view view else modern_view view) ≡ at)
    × (◌≡◌ {A = ℕ} 2 1 ⊎ (view 0x044 ≡ 1))
    × (view 0x038 ≡ 256)
setup_virtqueue_lem_example =
    setup_virtqueue_lem plain register plain-Holds 0x0A000200 2 idle (λ a. 0) (omega arith)

-- Registers of which the first three of a slot cannot be written.
abbrev pub slots : Mmio
slots = record {
  Bus = ℕ → ℕ;
  read = λ a b. b a;
  write = λ a x b c. if c == a && ltb 8 (c % 512) then x else b c;
}

pub slots-HasIds : HasIds slots
slots-HasIds a c x b h = ground arith

-- A display that uses one command each time.
abbrev pub screen : Device
screen = record {
  State = ℕ;
  serve = λ q m s. (record q { used_idx = u16 (q.last_used_idx + 1) }, m, s + 1);
}

pub screen-Answers : Answers screen
screen-Answers q m s e = omega arith

-- A display in the second slot and a block device in the third.
abbrev pub devices : ℕ → ℕ
devices a =
    if a == 0x0A000200 || a == 0x0A000400
    then 0x74726976
    else if a == 0x0A000208
    then 16
    else if a == 0x0A000408
    then 2
    else 1

abbrev pub first_keyboard : Keyboard
first_keyboard = record {
  present = false;
  used_idx = 0;
  used_ring = [];
  in_events = [];
  in_last_used_idx = 0;
  avail_idx = 0;
  avail_ring = [];
  shift_active = false;
  notified = 0;
}

abbrev pub first_driver : Driver
first_driver = record {
  memory = λ a. 0;
  dma_heap_curr = 0x50000000;
  global_desc_idx = 0;
  blk_mmio_base = 0;
  blk = zero_queue;
  gpu_mmio_base = 0;
  gpu = zero_queue;
  active_fb_phys = 0;
  active_fb_width = 1024;
  active_fb_height = 768;
}

abbrev pub first_machine : Machine slots screen
first_machine = record {
  driver = first_driver;
  keyboard = first_keyboard;
  in_desc = [];
  tables = mmu_init_tables linked;
  bus = devices;
  screen = 0;
}
