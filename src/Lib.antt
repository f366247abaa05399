-- ===== src/Lib.antt =====
-- AI-OS Exchange: an AArch64 kernel in C with a shell, a FAT32 file system, and an event history
-- that is persisted as a ledger. A shell on the other side of the system call gate sends messages
-- to the kernel; the kernel logs them, works on the disk, and answers through the one mailbox.
--
-- Parts, by file:
--   * Ipc: the message of include/os_ipc.h, and the mailbox of kernel/syscall.c. `ipc_kernel_send`
--     has its name; `ipc_receive` is the SYS_IPC_RECV branch. Ipc/Fifo is what the mailbox
--     promises, Ipc/Order that it keeps it.
--   * Syscall: `syscall_handler` and `drain_hardware_queues` of kernel/syscall.c over a record
--     `Kernel` of everything that a call can change, a function per request. Syscall/Drain is about
--     the serial port's queue, Syscall/Requests about the answers, Syscall/Sound and Syscall/Reach
--     about the invariant along runs, where a system call is a step.
--   * Uart: kernel/uart.c, and in Uart/Hex its hexadecimal text, with `u64_to_hex_str` of
--     kernel/watcher.c.
--   * Watcher: kernel/watcher.c and include/os_watcher.h: the ring of the last 64 events, with
--     `sync_cursor` as a field of the record. Watcher/Boot is about `watcher_init`, Watcher/History
--     and Watcher/Pending about what is kept and what waits, Watcher/Sync, Watcher/Commits,
--     Watcher/Texts and Watcher/Wedge about `watcher_sync_to_disk`, Watcher/Decimal and Watcher/Ledger about
--     receipts, Watcher/Dump about `watcher_dump_history`.
--   * Disk: the interface of the sector calls of kernel/virtio.c, with the laws of a block device.
--   * Fat: modules/fs/fat32.c. Fat/Fields and Fat/Directory are the packed structures of
--     include/os_fat32.h as bytes of a sector, Fat/Name is `format_fat_name`, Fat/File the file
--     operations, Fat/Listing the listings; Fat/Entry, Fat/Store, Fat/Stored, Fat/ReadBack and Fat/Stale are
--     about what is stored and read back, Fat/Append and Fat/ReadMore about appends, Fat/Chain about
--     chains that run into a cycle, Fat/Mount about the sectors of a formatted volume.
--   * Terminal: the framebuffer terminal, its font and its string functions of
--     modules/shell_gui/main.c.
--   * Net: `virtio_net_poll_rx` of kernel/virtio_net.c; Net/Volume is about the volume it finds.
--     Net/Init is `virtio_net_init`, Net/Found the queue that the card finds.
--   * Boot: `kernel_main`, the report of an exception, and `memcpy` of kernel/main.c. Boot/Sound is
--     about the kernel at the start of user space, Boot/Copy about `memcpy`.
--   * Shell: `shell_main` of modules/shell_gui/main.c over an interface of system calls,
--     Shell/Calls, with the loop that waits for an answer. Shell/Request cuts a line and builds
--     requests, Shell/Trade is the exchange mode. Shell/Service serves the calls by
--     `syscall_handler`; Shell/Wait, Shell/Save, Shell/Capture and Shell/Gateway follow requests to
--     their answers and to the disk; Shell/Ready, Shell/Commands and Shell/Loop are about the
--     buffers.
--   * Virtio: the block device and the display on the virtqueues of kernel/virtio.c. Virtio/Store
--     is memory, Virtio/Chain what a device finds, Virtio/Offer what a device that keeps to the
--     specification promises, Virtio/Serve what a request does on it, Virtio/Arena the heap for
--     requests. Virtio/Setup is
--     `setup_virtqueue` and `virtio_blk_init`, Virtio/Probe `gpu_init` and `virtio_probe_and_init`;
--     Virtio/Layout, Virtio/Screen, Virtio/Found, Virtio/Slot and Virtio/Slots are about what they
--     leave.
--     Virtio/Drive makes the driver the disk of modules/fs/fat32.c, with Virtio/Faultless and
--     Virtio/Files about files on it. Virtio/Cache is `cache_flush` and `cache_invalidate`.
--   * Mmu: the translation tables of kernel/mmu.c. Mmu/Ranges is about its loops, Mmu/Blocks about
--     the blocks of memory, Mmu/Pages and Mmu/Translate about the framebuffer, with Mmu/Bits.
--   * Keyboard: the key maps and `virtio_input_poll` of kernel/virtio.c. Keyboard/Keys is what the keys
--     of a US keyboard type.
--   * Window: the live part of a circular array, which the mailbox, the history and the key queue
--     share. Prelude: numbers, lists, strings in byte arrays, machine words.
--
-- Conventions. Unsigned C integers are natural numbers that wrap by `%` where the code's type does.
-- A result `none` is a memory access outside an object, an int that overflows, or a queue that is
-- not drained within the fuel. The shell tells the two apart: `fault` and `blocked`. Its waits,
-- lines and exchange mode run on a fuel that is an argument. A pointer to a string is the bytes
-- from there to the end of its object. Uninitialised locals and the system timer are arguments.
-- Fuel: `sync_from` has 64 rounds, as many as the ring has slots; `drain_uart` has one more round
-- than bytes wait or arrive while it runs, where finitely many arrive before each poll; the number
-- of keys that are drained in a call is bounded by an argument, since the device may deliver keys
-- for ever; `hex_digits` has the 16 digits of 64 bits and `dec_digits`
-- the 10 digits of 31 bits; `walk` has the rounds of the code's cycle guard.
--
-- Not modelled: the system registers of the memory management unit, the assembler, the halts and the
-- switch to user space; interrupts and the loader, which write registers or do nothing; the virtual
-- machine under autarky_vm/ but for `autarky_init`, which the handler takes as a parameter. The
-- driver's calls of cache maintenance and the transmit wait of the serial port are left out. The
-- devices on the virtqueues are parameters that act when they are notified, and the registers of the
-- bus are one too.
-- Memory is total: that `bump_allocate` and `gpu_init` fault behind the 4 MB of the mapped heap, if
-- the display is large, is not modelled. `kernel_main` reads the boot sector from a disk that is a
-- parameter and not through the driver, so that a device that never answers does not hold it up.
pub mod Boot
pub mod Disk
pub mod Fat
pub mod Ipc
pub mod Keyboard
pub mod Mmu
pub mod Net
pub mod Prelude
pub mod Shell
pub mod Syscall
pub mod Terminal
pub mod Uart
pub mod Virtio
pub mod Watcher
pub mod Window
