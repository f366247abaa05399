-- ===== src/Ipc.antt =====
-- The message of include/os_ipc.h and the global mailbox of kernel/syscall.c: a circular array of
-- 256 messages with a head and a tail. `ipc_kernel_send` is the producer; `ipc_receive` is the
-- SYS_IPC_RECV branch of `syscall_handler`.
pub mod Fifo
pub mod Order
pub mod Tests
use ai_os_exchange.Prelude.{
  ℕ, ◌+◌, ◌-◌, ◌%◌, ◌≤◌, ◌<◌, ◌≡◌, List, Bool, not, ◌==◌, if◌then◌else◌, length, get_or, set,
  replicate, Bytes, u32,
}
use ai_os_exchange.Window.{window}

-- `os_message_t`. The payload is an array of 256 bytes.
pub record Message : Type 0 where
  pub sender_id : ℕ
  pub target_id : ℕ
  pub type : ℕ
  pub length : ℕ
  pub payload : Bytes

-- IPC message types.
abbrev pub msg_none : ℕ
msg_none = 0

abbrev pub msg_key_press : ℕ
msg_key_press = 1

-- System module ids.
abbrev pub mod_kernel : ℕ
mod_kernel = 1

abbrev pub mod_uart : ℕ
mod_uart = 2

abbrev pub mod_gui_shell : ℕ
mod_gui_shell = 3

abbrev pub payload_size : ℕ
payload_size = 256

abbrev pub ipc_queue_size : ℕ
ipc_queue_size = 256

-- A message of zeroes, as static storage starts.
unfoldable pub zero_message : Message
zero_message = record {
  sender_id = 0;
  target_id = 0;
  type = msg_none;
  length = 0;
  payload = replicate payload_size 0;
}

-- `ipc_queue`, `ipc_head`, `ipc_tail`.
pub record Mailbox : Type 0 where
  pub ipc_queue : List Message
  pub ipc_head : ℕ
  pub ipc_tail : ℕ

unfoldable pub boot_mailbox : Mailbox
boot_mailbox = record {
  ipc_queue = replicate ipc_queue_size zero_message;
  ipc_head = 0;
  ipc_tail = 0;
}

-- A full mailbox drops the message.
unfoldable pub ipc_kernel_send : Message → Mailbox → Mailbox
ipc_kernel_send msg s =
    let next_tail = u32 (s.ipc_tail + 1) % ipc_queue_size in
    if not (next_tail == s.ipc_head)
    then record s { ipc_queue = set s.ipc_queue s.ipc_tail msg; ipc_tail = next_tail }
    else s

-- `*msg` is the caller's buffer: on an empty mailbox only its type and length are written.
unfoldable pub ipc_receive : Message → Mailbox → Message × Mailbox
ipc_receive msg s =
    if not (s.ipc_head == s.ipc_tail)
    then (
      get_or s.ipc_queue s.ipc_head zero_message,
      record s { ipc_head = u32 (s.ipc_head + 1) % ipc_queue_size },
    )
    else (record msg { type = msg_none; length = 0 }, s)

-- Both indices stand inside the array.
pub record IsValid (s : Mailbox) : Type 0 where
  pub storage : length s.ipc_queue ≡ ipc_queue_size
  pub head_in : s.ipc_head < ipc_queue_size
  pub tail_in : s.ipc_tail < ipc_queue_size

-- How many messages wait, and which, the oldest first.
abbrev pub count : Mailbox → ℕ
count s = (s.ipc_tail + ipc_queue_size - s.ipc_head) % ipc_queue_size

abbrev pub contents : Mailbox → List Message
contents s = window zero_message ipc_queue_size s.ipc_queue s.ipc_head (count s)
