-- ===== src/Boot.antt =====
-- kernel/main.c: the order in which the kernel is brought up, the report of a hardware exception, and
-- `memcpy`. The switch to user space, and the halt behind a report, are left out. `fs_fat32_init` reads
-- the boot sector from a disk that is a parameter, not through the driver, which is left as the search
-- for devices has set it up.
pub mod Copy
pub mod Sound
pub mod Tests
use ai_os_exchange.Prelude.{
  ℕ, zero, suc, ◌+◌, ◌==◌, if◌then◌else◌, List, [], ◌∷◌, Option, some, ◌>>=◌, Bytes, codes,
}
use ai_os_exchange.Disk.{BlockDevice}
use ai_os_exchange.Uart.{Uart, uart_print}
use ai_os_exchange.Uart.Hex.{uart_print_hex}
use ai_os_exchange.Fat.{Fs, fs_fat32_init}
use ai_os_exchange.Ipc.{boot_mailbox}
use ai_os_exchange.Watcher.{Watcher, watcher_init}
use ai_os_exchange.Syscall.{Devices, Kernel}
use ai_os_exchange.Mmu.{Layout, mmu_init_tables}
use ai_os_exchange.Net.{Net}
use ai_os_exchange.Net.Init.{NetAt, virtio_net_init}
use ai_os_exchange.Virtio.{Desc, Device}
use ai_os_exchange.Virtio.Store.{Memory}
use ai_os_exchange.Virtio.Setup.{Mmio}
use ai_os_exchange.Virtio.Probe.{Machine, virtio_probe_and_init}

-- `for (i = 0; i < n; i++) d[ i ] = s[ i ];`, byte by byte from the front.
unfoldable pub memcpy : ℕ → ℕ → ℕ → Memory → Memory
memcpy dest src zero m = m
memcpy dest src (suc n) m = memcpy (dest + 1) (src + 1) n (λ a. if a == dest then m src else m a)

-- The report of `fatal_exception_handler`, before it halts.
unfoldable pub fatal_exception_handler : ℕ → ℕ → ℕ → ℕ → Uart → Uart
fatal_exception_handler id esr elr far u =
    let line = codes "========================================\n" in
    let field = λ (label : Bytes) (v : ℕ) (behind : Bytes) (w : Uart).
      uart_print behind (uart_print_hex v (uart_print label w)) in
    let head = uart_print line (
      uart_print (codes "[ KERNEL PANIC ] HARDWARE EXCEPTION\n")
        (uart_print (codes "\n========================================\n") u)) in
    uart_print (codes "System Halted.\n") (
      uart_print line (
        field (codes "ELR_EL1   : ") elr (codes " (Instruction PC)\n") (
          field (codes "FAR_EL1   : ") far (codes " (Fault Address)\n") (
            field (codes "ESR_EL1   : ") esr (codes " (Syndrome / Cause)\n")
              (field (codes "Vector ID : ") id (codes "\n") head)))))

-- `autarky_init` of autarky_vm/src/lib.rs
abbrev pub autarky_init : Uart → Uart
autarky_init = uart_print (codes "[ATK-VM] Sovereign Rust Engine Initialized.\n")

-- The addresses that the linker chooses.
pub record Linked : Type 0 where
  pub tables : Layout
  pub net : NetAt
  pub el0_text_start : ℕ
  pub el0_stack_top : ℕ

-- What `kernel_main` prints before the search for devices.
abbrev pub probe_report : Uart → Uart
probe_report u =
    let start =
      uart_print (codes "[BOOT] Initializing MMU Tables...\n")
        (uart_print (codes "\n[BOOT] C Kernel Entry Point Reached.\n") u) in
    uart_print (codes "[BOOT] Probing VirtIO Devices...\n")
      (uart_print (codes "[BOOT] MMU Online. Virtual Memory Active.\n") start)

module _ (dev : BlockDevice) (env : Devices) (io : Mmio) (display : Device) (at : Linked) where
  -- The globals before the kernel runs.
  pub record Globals : Type 0 where
    pub machine : Machine io display
    pub net : Net
    pub fs : Fs
    pub watcher : Watcher
    pub uart : Uart

  -- What the kernel has set up when it leaves for user space.
  pub record Booted : Type 0 where
    pub kernel : Kernel dev env
    pub machine : Machine io display
    pub net : Net
    pub rx_desc : List Desc

  abbrev pub boot_report : Uart → Uart
  boot_report u =
      let entry = uart_print (codes "\n") (
        uart_print_hex at.el0_text_start (
          uart_print (codes "       -> EL0 Entry : ")
            (uart_print (codes "[BOOT] Configuring EL0 User Space Drop...\n") u))) in
      uart_print (codes "[BOOT] Executing ERET to user space...\n") (
        uart_print (codes "\n")
          (uart_print_hex at.el0_stack_top (uart_print (codes "       -> EL0 Stack : ") entry)))

  module _ (opened : Machine io display → dev.Disk) (devices : Machine io display → env.State) where
    -- What follows the search for devices. The disk, and the rest of the machine, are what `opened`
    -- and `devices` see behind the driver.
    unfoldable pub bring_up : Globals → Uart → Machine io display → Option Booted
    bring_up g u m =
        let (rx_desc, (net, bus, u1)) = virtio_net_init io at.net (g.net, m.bus, u) in
        let m1 = record m { bus = bus } in
        let u2 = uart_print (codes "[BOOT] VirtIO Initialization Complete.\n") u1 in
        fs_fat32_init dev g.fs (opened m1) u2 >>= λ (fs, disk, u3).
        let (watcher, u4) = watcher_init g.watcher (autarky_init u3) in
        some (record {
          kernel = record {
            mailbox = boot_mailbox;
            watcher = watcher;
            uart = boot_report u4;
            fs = fs;
            disk = disk;
            devices = devices m1;
          };
          machine = m1;
          net = net;
          rx_desc = rx_desc;
        })

    unfoldable pub kernel_main : Globals → Option Booted
    kernel_main g =
        let m = record g.machine { tables = mmu_init_tables at.tables } in
        virtio_probe_and_init at.tables io display m >>= bring_up g (probe_report g.uart)
