-- ===== src/Boot/Tests.antt =====
-- The kernel is brought up on a bus with a display and a block device.
use ai_os_exchange.Prelude.{
  inr, ℕ, zero, suc, ◌+◌, ◌≡◌, inl, refl, ap, [], ◌∷◌, ◌++◌, Bytes, get_or, replicate, arith,
  some_cancel,
}
use ai_os_exchange.Fat.Tests.{ram, volume, sector_of}
use ai_os_exchange.Watcher.{blank}
use ai_os_exchange.Watcher.Boot.{AllRoom}
use ai_os_exchange.Watcher.Tests.{boot, console}
use ai_os_exchange.Syscall.Tests.{machine}
use ai_os_exchange.Mmu.Tests.{linked}
use ai_os_exchange.Net.{Net}
use ai_os_exchange.Virtio.Store.{load}
use ai_os_exchange.Virtio.SetupTests.{slots, slots-HasIds, screen, screen-Answers, first_machine}
use ai_os_exchange.Boot.{Linked, Globals, memcpy}
use ai_os_exchange.Boot.Copy.{memcpy_lem}
use ai_os_exchange.Boot.Sound.{IsLoaded, Mountable}

-- Four bytes are moved to the front by two, over themselves.
memcpy_lem_example :
    let m = λ (a : ℕ). a + 1 in
    (load 4 98 (memcpy 98 100 4 m) ≡ load 4 100 m) × (memcpy 98 100 4 m 102 ≡ m 102)
memcpy_lem_example = memcpy_lem 4 98 100 102 (λ a. a + 1) (inl (omega arith)) (inr (omega arith))

abbrev places : Linked
places = record {
  tables = linked;
  net = record { vq_memory = 0x40110000; rx_buffers = 0x40112000 };
  el0_text_start = 0x40200000;
  el0_stack_top = 0x40210000;
}

abbrev no_card : Net
no_card = record {
  net_base = 0;
  used_idx = 0;
  used_ring = replicate 8 (0, 0);
  last_used_idx = 0;
  avail_idx = 0;
  avail_ring = replicate 8 0;
  rx_buffers = replicate 2048 0;
  notified = 0;
}

abbrev globals : Globals ram machine slots screen places
globals = record {
  machine = first_machine;
  net = no_card;
  fs = volume;
  watcher = boot;
  uart = console;
}

blank-AllRoom : (n : ℕ) → AllRoom (replicate n blank)
unfolding blank
blank-AllRoom zero = tt
blank-AllRoom (suc n) = (omega arith, blank-AllRoom n)

globals-IsLoaded : IsLoaded ram machine slots screen places slots-HasIds screen-Answers globals
unfolding blank
globals-IsLoaded = record {
  heap = refl;
  counter = refl;
  no_device = refl;
  no_request = refl;
  events = refl;
  room = (omega arith, blank-AllRoom 63);
}

-- Every sector is full of eights, and signed as a boot sector.
abbrev eights : ℕ → Bytes
eights s = replicate 510 8 ++ 0x55 ∷ 0xAA ∷ []

eights-Mountable : Mountable ram eights
unfolding sector_of
eights-Mountable sector e z =
    let byte : ◌≡◌ {A = ℕ} 8 (get_or sector 13 0) = ap (λ b. get_or b 13 0) (some_cancel e) in
    omega arith
