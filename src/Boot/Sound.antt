-- ===== src/Boot/Sound.antt =====
-- The kernel that is brought up is sound, and the driver is ready for its first request.
use ai_os_exchange.Prelude.{
  ◌⊎◌, ◌≡◌, ◌≢◌, refl, sym, Option, none, some, Bytes, codes, get_or, length, ◌==◌, ◌||◌, not,
  Bool-cases, inl, inr, arith, ==_of_ne,
}
use mathlib.Core.Path.{subst}
use ai_os_exchange.Disk.{BlockDevice}
use ai_os_exchange.Uart.{Uart, uart_print}
use ai_os_exchange.Fat.{Fs, mount, fs_fat32_init}
use ai_os_exchange.Ipc.Order.{boot_mailbox-IsValid}
use ai_os_exchange.Ipc.{boot_mailbox}
use ai_os_exchange.Watcher.{watcher_init}
use ai_os_exchange.Watcher.Boot.{AllRoom, watcher_init_lem}
use ai_os_exchange.Syscall.{Devices}
use ai_os_exchange.Syscall.Sound.{IsSound}
use ai_os_exchange.Mmu.{mmu_init_tables}
use ai_os_exchange.Net.Init.{virtio_net_init}
use ai_os_exchange.Virtio.{Device}
use ai_os_exchange.Virtio.Setup.{Mmio}
use ai_os_exchange.Virtio.Probe.{Machine}
use ai_os_exchange.Virtio.Screen.{Answers}
use ai_os_exchange.Virtio.Found.{HasIds}
use ai_os_exchange.Virtio.Slots.{NoBlk, virtio_probe_and_init_lem}
use ai_os_exchange.Virtio.Offer.{IsIdle}
use ai_os_exchange.Boot.{
  Linked, Globals, Booted, autarky_init, boot_report, probe_report, bring_up, kernel_main,
}

abbrev Returns : {A : Type 0} → Option A → Type 0
Returns {A} x = (r : A) × (x ≡ some r)

given : {A : Type 0} (r : A) → Returns (some r)
given r = (r, refl)

-- A boot sector with sectors per cluster can be mounted.
mount_total : (boot : Bytes) → get_or boot 13 0 ≢ 0 → Returns (mount boot)
unfolding mount
mount_total boot ne = rw (==_of_ne (get_or boot 13 0) 0 ne) (given _)

module _ (dev : BlockDevice) where
  open dev use {Disk, read_sector}

  -- What divides by the sectors per cluster.
  abbrev pub Mountable : Disk → Type 0
  Mountable d = (boot : Bytes) → (read_sector 0 d).0 ≡ some boot → get_or boot 13 0 ≢ 0

  -- The set-up of the file system returns, whatever the disk holds.
  fs_fat32_init_total :
      (fs : Fs) (d : Disk) (u : Uart) → Mountable d → Returns (fs_fat32_init dev fs d u)
  unfolding fs_fat32_init
  fs_fat32_init_total fs d u can = by_sector (read_sector 0 d).0 refl
    where
      by_sector : (r : Option Bytes) → (read_sector 0 d).0 ≡ r → Returns (fs_fat32_init dev fs d u)
      by_sector none e = rw (e, fs_fat32_init) (given _)
      by_sector (some boot) e =
          elim (Bool-cases (not (get_or boot 510 0 == 0x55) || not (get_or boot 511 0 == 0xAA))) [
            | inl unsigned ↦ rw (e, fs_fat32_init) (rw (unsigned) (given _))
            | inr signed ↦
                let (fs', mounted) = mount_total boot (can boot e) in
                rw (e, fs_fat32_init) (rw (signed) (rw (mounted) (given _)))
          ]

module _ (dev : BlockDevice) (env : Devices) (io : Mmio) (display : Device) (at : Linked)
    (ids : HasIds io) (answers : Answers display) where
  -- The globals as the loader leaves them: the heap for devices at its start, no device found, no
  -- request made, and the history's slots with room for a context.
  pub record IsLoaded (g : Globals dev env io display at) : Type 0 where
    pub heap : g.machine.driver.dma_heap_curr ≡ 0x50000000
    pub counter : g.machine.driver.global_desc_idx ≡ 0
    pub no_device : g.machine.driver.blk_mmio_base ≡ 0
    pub no_request : g.machine.driver.blk.last_used_idx ≡ 0
    pub events : length g.watcher.events ≡ 64
    pub room : AllRoom g.watcher.events

  bring_up-IsSound :
      (opened : Machine io display → dev.Disk) (devices : Machine io display → env.State)
      (g : Globals dev env io display at) (u : Uart) (m : Machine io display)
      → IsLoaded g
      → ((m : Machine io display) → Mountable dev (opened m))
      → (r : Booted dev env io display at) × (bring_up dev env io display at opened devices g u m
          ≡ some r)
        × IsSound dev env r.kernel
        × (r.machine.driver ≡ m.driver)
  unfolding bring_up
  bring_up-IsSound opened devices g u m h can =
      let (rx_desc, (net, bus, u1)) = virtio_net_init io at.net (g.net, m.bus, u) in
      let m1 = record m { bus = bus } in
      let u2 = uart_print (codes "[BOOT] VirtIO Initialization Complete.\n") u1 in
      let ((fs, disk, u3), mounted) = fs_fat32_init_total dev g.fs (opened m1) u2 (can m1) in
      let (valid, texts, _, _) = watcher_init_lem g.watcher (autarky_init u3) h.events h.room in
      let (watcher, u4) = watcher_init g.watcher (autarky_init u3) in
      (
        record {
          kernel = record {
            mailbox = boot_mailbox;
            watcher = watcher;
            uart = boot_report dev env io display at u4;
            fs = fs;
            disk = disk;
            devices = devices m1;
          };
          machine = m1;
          net = net;
          rx_desc = rx_desc;
        },
        rw (mounted) refl,
        record {
          mailbox_valid = boot_mailbox-IsValid;
          history = record { valid = valid; texts = texts };
        },
        refl,
      )

  -- On a disk that is a parameter, and with memory that is total, the kernel is brought up from the globals that the loader leaves, where the devices' ids cannot be
  -- written, the display uses something whenever it is notified, and a boot sector that can be read
  -- has sectors per cluster. Then `kernel_main` reaches user space; the mailbox and the history are
  -- well formed and every context is a string, which is the invariant of the system calls; and no
  -- slot has a block device, or the search has left the driver ready for requests.
  pub kernel_main-IsSound :
      (opened : Machine io display → dev.Disk) (devices : Machine io display → env.State)
      (g : Globals dev env io display at)
      → IsLoaded g
      → ((m : Machine io display) → Mountable dev (opened m))
      → (r : Booted dev env io display at) × (kernel_main dev env io display at opened devices g
          ≡ some r)
        × IsSound dev env r.kernel
        × (NoBlk io 32 g.machine.bus ⊎ IsIdle r.machine.driver)
  unfolding kernel_main
  kernel_main-IsSound opened devices g h can =
      let m = record g.machine { tables = mmu_init_tables at.tables } in
      let (m1, probed, idle) =
        virtio_probe_and_init_lem at.tables io display ids answers m (omega (arith, h.heap))
          (omega (arith, h.counter)) h.no_device h.no_request in
      let (r, made, sound, same) =
        bring_up-IsSound opened devices g (probe_report g.uart) m1 h can in
      (
        r,
        rw (probed) made,
        sound,
        elim idle [ inl absent ↦ inl absent | inr ready ↦ inr (subst IsIdle (sym same) ready) ],
      )
