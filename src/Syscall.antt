-- ===== src/Syscall.antt =====
-- kernel/syscall.c: the system calls. A call finds its number in the saved register x8 and, for the
-- two IPC calls, a message where x0 points to. `none` is a memory access outside an object, or a
-- queue that is not drained within the fuel.
pub mod Drain
pub mod Requests
pub mod Sound
pub mod Reach
pub mod Tests
use ai_os_exchange.Prelude.{
  ℕ, zero, suc, ◌+◌, ◌-◌, ◌≡◌, List, [], ◌∷◌, ◌++◌, if◌then◌else◌, ◌==◌, Bool, Option, none, some,
  ◌>>=◌, Bytes, codes, drop, length, u8, u32, sub32, overlay, c_string, copy_string,
}
use ai_os_exchange.Ipc.{
  Message, Mailbox, msg_key_press, mod_kernel, mod_uart, mod_gui_shell, ipc_kernel_send,
  ipc_receive,
}
use ai_os_exchange.Uart.{Uart, uart_poll_rx}
use ai_os_exchange.Watcher.{
  Watcher, event_type_fs_read, event_type_fs_write, watcher_log_event, watcher_dump_history,
}
use ai_os_exchange.Watcher.Sync.{watcher_sync_to_disk}
use ai_os_exchange.Disk.{BlockDevice}
use ai_os_exchange.Fat.{Fs}
use ai_os_exchange.Fat.File.{fs_read_file_content, fs_write_file_content, fs_append_file_content}
use ai_os_exchange.Fat.Listing.{fs_get_dir_list}

-- The rest of the machine as the handler uses it: the keyboard and the display of kernel/virtio.c,
-- and the virtual machine of autarky_vm/, which may log, print, and change its own state.
pub record Devices : Type 1 where
  pub State : Type 0
  pub virtio_input_poll : State → ℕ × State
  pub virtio_gpu_flush : State → State
  pub autarky_execute :
      Bytes → Bytes → Watcher × Uart × State → Option (Bytes × (Watcher × Uart × State))

-- Everything that a system call can change in the kernel.
pub record Kernel (dev : BlockDevice) (env : Devices) : Type 0 where
  pub mailbox : Mailbox
  pub watcher : Watcher
  pub uart : Uart
  pub fs : Fs
  pub disk : dev.Disk
  pub devices : env.State

-- What the uninitialised locals of a call hold: the payload of `hw_msg` or `out_msg`, `dir_buf` or
-- `file_buf`, and `out_buf`.
pub record Locals : Type 0 where
  pub payload : Bytes
  pub buffer : Bytes
  pub out_buf : Bytes

-- The caller's side: the register x0, and the message that it points to in an IPC call.
pub record Caller : Type 0 where
  pub x0 : ℕ
  pub msg : Message

-- System call numbers.
abbrev pub sys_ipc_send : ℕ
sys_ipc_send = 1

abbrev pub sys_ipc_recv : ℕ
sys_ipc_recv = 2

abbrev pub sys_gpu_flush : ℕ
sys_gpu_flush = 3

abbrev pub sys_hw_drain : ℕ
sys_hw_drain = 4

abbrev pub sys_uart_recv : ℕ
sys_uart_recv = 5

-- Message types of the kernel's services; each answer has the next number.
abbrev pub msg_fs_list_req : ℕ
msg_fs_list_req = 2

abbrev pub msg_fs_read_req : ℕ
msg_fs_read_req = 4

abbrev pub msg_fs_write_req : ℕ
msg_fs_write_req = 6

abbrev pub msg_atk_exec_req : ℕ
msg_atk_exec_req = 8

abbrev pub msg_watcher_dump_req : ℕ
msg_watcher_dump_req = 10

abbrev pub msg_watcher_sync_req : ℕ
msg_watcher_sync_req = 12

-- The message of a key; only the first byte of its payload is written.
unfoldable pub key_message : ℕ → ℕ → Bytes → Message
key_message sender c garbage = record {
  sender_id = sender;
  target_id = mod_gui_shell;
  type = msg_key_press;
  length = 1;
  payload = overlay (c ∷ []) garbage;
}

-- `if (c == '\r') c = '\n';`
abbrev pub newline : ℕ → ℕ
newline c = if c == 13 then 10 else c

-- All the bytes that wait or are still to arrive.
unfoldable pub total : List Bytes → ℕ
total [] = 0
total (new ∷ later) = length new + total later

-- `while ((c = uart_poll_rx()) != 0)`, on fuel.
unfoldable pub drain_uart : ℕ → Bytes → Mailbox → Uart → Option (Mailbox × Uart)
drain_uart zero garbage q u = none
drain_uart (suc fuel) garbage q u =
    let r = uart_poll_rx u in
    let rest =
      drain_uart fuel garbage (ipc_kernel_send (key_message mod_uart (newline r.0) garbage) q)
        r.1 in
    if r.0 == 0 then some (q, r.1) else rest

-- An answer of the kernel; behind the text and its NUL the payload is not written.
unfoldable pub reply : ℕ → ℕ → Bytes → Bytes → Message
reply type target text garbage = record {
  sender_id = mod_kernel;
  target_id = target;
  type = type;
  length = u32 (length text + 1);
  payload = overlay (text ++ 0 ∷ []) garbage;
}

module _ (dev : BlockDevice) (env : Devices) where
  open env use {State, virtio_input_poll}

  -- `while ((c = virtio_input_poll()) != 0)`, on fuel.
  unfoldable pub drain_keys : ℕ → Bytes → Mailbox → State → Option (Mailbox × State)
  drain_keys zero garbage q s = none
  drain_keys (suc fuel) garbage q s =
      let r = virtio_input_poll s in
      let rest =
        drain_keys fuel garbage (ipc_kernel_send (key_message mod_kernel r.0 garbage) q) r.1 in
      if r.0 == 0 then some (q, r.1) else rest

  unfoldable pub drain_hardware_queues : ℕ → Bytes → Kernel dev env → Option (Kernel dev env)
  drain_hardware_queues fuel garbage k = drain_keys fuel garbage k.mailbox k.devices >>= λ r.
      drain_uart (suc (length k.uart.received + total k.uart.arriving)) garbage r.0 k.uart >>= λ t.
      some (record k { mailbox = t.0; uart = t.1; devices = r.1 })

  abbrev pub answer : ℕ → Message → Bytes → Locals → Kernel dev env → Kernel dev env
  answer type in_msg text locals k = record k {
    mailbox = ipc_kernel_send (reply type in_msg.sender_id text locals.payload) k.mailbox;
  }

  -- The branches for messages to the kernel. `now` is the system timer.
  unfoldable pub list_request : ℕ → Locals → Message → Kernel dev env → Option (Kernel dev env)
  list_request now locals in_msg k =
      watcher_log_event now event_type_fs_read in_msg.sender_id (some (codes "ROOT_DIR" ++ 0 ∷ []))
        k.watcher
      >>= λ w.
          let listed = fs_get_dir_list dev k.fs locals.buffer 256 k.disk in
          copy_string 255 listed.0 >>= λ text.
          some (answer 3 in_msg text locals (record k { watcher = w; disk = listed.1 }))

  unfoldable pub read_request : ℕ → Locals → Message → Kernel dev env → Option (Kernel dev env)
  read_request now locals in_msg k =
      watcher_log_event now event_type_fs_read in_msg.sender_id (some in_msg.payload) k.watcher
      >>= λ w. fs_read_file_content dev k.fs in_msg.payload locals.buffer 256 k.disk >>= λ r.
          copy_string 255 r.0 >>= λ text.
          some (answer 5 in_msg text locals (record k { watcher = w; disk = r.1 }))

  -- The data starts behind the NUL of the name, and its length is what is left of the message's.
  unfoldable pub write_request : ℕ → Locals → Message → Kernel dev env → Option (Kernel dev env)
  write_request now locals in_msg k =
      watcher_log_event now event_type_fs_write in_msg.sender_id (some in_msg.payload) k.watcher
      >>= λ w. c_string in_msg.payload >>= λ filename.
          let start = length filename + 1 in
          fs_write_file_content dev k.fs in_msg.payload (drop start in_msg.payload)
            (sub32 in_msg.length start) k.disk
          >>= λ d. some (
              answer 7 in_msg (codes "Write committed to disk.\n") locals
                (record k { watcher = w; disk = d }))

  unfoldable pub exec_request : ℕ → Locals → Message → Kernel dev env → Option (Kernel dev env)
  exec_request now locals in_msg k =
      watcher_log_event now event_type_fs_read in_msg.sender_id (some in_msg.payload) k.watcher
      >>= λ w. fs_read_file_content dev k.fs in_msg.payload locals.buffer 1024 k.disk >>= λ r.
          env.autarky_execute r.0 locals.out_buf (w, k.uart, k.devices) >>= λ x.
          copy_string 255 x.0 >>= λ text. some (
            answer 9 in_msg text locals
              (record k { watcher = x.1.0; uart = x.1.1; devices = x.1.2; disk = r.1 }))

  unfoldable pub dump_request : Locals → Message → Kernel dev env → Option (Kernel dev env)
  dump_request locals in_msg k = watcher_dump_history k.watcher k.uart >>= λ u. some (
      answer 11 in_msg (codes "Watcher memory dumped to host UART terminal.\n") locals
        (record k { uart = u }))

  -- `fs_append_file_content(name, text, length)` as the sync calls it.
  abbrev pub append_text : Fs → Bytes → Bytes → dev.Disk × Uart → Option (dev.Disk × Uart)
  append_text fs name text s =
      fs_append_file_content dev fs (name ++ 0 ∷ []) (text ++ 0 ∷ []) (length text) s.0 s.1

  unfoldable pub sync_request : Locals → Message → Kernel dev env → Option (Kernel dev env)
  sync_request locals in_msg k =
      watcher_sync_to_disk (append_text k.fs) k.watcher k.disk k.uart >>= λ r. some (
        answer 13 in_msg (codes "Ledger persisted to LEDGER.LOG\n") locals
          (record k { watcher = r.0; disk = r.1; uart = r.2 }))

  -- A message to the kernel of any other type is dropped.
  unfoldable pub kernel_request : ℕ → Locals → Message → Kernel dev env → Option (Kernel dev env)
  kernel_request now locals in_msg k =
      let type = in_msg.type in
      if type == msg_fs_list_req
      then list_request now locals in_msg k
      else if type == msg_fs_read_req
      then read_request now locals in_msg k
      else if type == msg_fs_write_req
      then write_request now locals in_msg k
      else if type == msg_atk_exec_req
      then exec_request now locals in_msg k
      else if type == msg_watcher_dump_req
      then dump_request locals in_msg k
      else if type == msg_watcher_sync_req
      then sync_request locals in_msg k
      else some k

  unfoldable pub ipc_send : ℕ → Locals → Message → Kernel dev env → Option (Kernel dev env)
  ipc_send now locals in_msg k =
      if in_msg.target_id == mod_kernel
      then kernel_request now locals in_msg k
      else some (record k { mailbox = ipc_kernel_send in_msg k.mailbox })

  -- The fuel bounds how many keys are drained. Other numbers do nothing.
  unfoldable pub syscall_handler :
      ℕ → ℕ → Locals → ℕ → Caller → Kernel dev env → Option (Caller × Kernel dev env)
  syscall_handler fuel now locals syscall_num caller k =
      if syscall_num == sys_hw_drain
      then (drain_hardware_queues fuel locals.payload k >>= λ k'. some (caller, k'))
      else if syscall_num == sys_gpu_flush
      then some (caller, record k { devices = env.virtio_gpu_flush k.devices })
      else if syscall_num == sys_uart_recv
      then (let r = uart_poll_rx k.uart in
          some (record caller { x0 = r.0 }, record k { uart = r.1 }))
      else if syscall_num == sys_ipc_send
      then (ipc_send now locals caller.msg k >>= λ k'. some (caller, k'))
      else if syscall_num == sys_ipc_recv
      then (let r = ipc_receive caller.msg k.mailbox in
          some (record caller { msg = r.0 }, record k { mailbox = r.1 }))
      else some (caller, k)
