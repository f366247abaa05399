-- ===== src/Syscall/Tests.antt =====
-- The kernel's theorems on the disk in memory, with a keyboard that holds a few keys.
use mathlib.Core.Path.{subst}
use ai_os_exchange.Prelude.{
  suc, length, ℕ, zero, suc, ◌≡◌, refl, ap, [], ◌∷◌, some, length, replicate, some_cancel,
}
use ai_os_exchange.Ipc.{boot_mailbox, ipc_kernel_send}
use ai_os_exchange.Ipc.Order.{boot_mailbox-IsValid}
use ai_os_exchange.Ipc.Tests.{letter}
use ai_os_exchange.Uart.{Uart}
use ai_os_exchange.Watcher.Tests.{boot, boot-IsValid, boot-AllText, console}
use ai_os_exchange.Fat.Tests.{ram, volume, empty_disk}
use ai_os_exchange.Syscall.{Devices, Kernel, Locals, Caller, ipc_send, syscall_handler}
use ai_os_exchange.Syscall.Sound.{IsHistory, KeepsHistory, IsSound}
use ai_os_exchange.Syscall.Reach.{here, there, call, Steps-IsSound}

abbrev pub take_key : ℕ → ℕ × ℕ
take_key zero = (0, 0)
take_key (suc n) = (97, n)

abbrev pub machine : Devices
machine = record {
  State = ℕ;
  virtio_input_poll = take_key;
  virtio_gpu_flush = λ s. s;
  autarky_execute = λ bytecode out_buf s. some (0 ∷ out_buf, s);
}

machine-KeepsHistory : KeepsHistory machine
machine-KeepsHistory bytecode out_buf w u s o w' u' s' h e =
    subst IsHistory (ap (λ r. r.1.0) (some_cancel e)) h

abbrev pub start : Kernel ram machine
start = record {
  mailbox = boot_mailbox;
  watcher = boot;
  uart = console;
  fs = volume;
  disk = empty_disk;
  devices = 2;
}

start-IsSound : IsSound ram machine start
start-IsSound = record {
  mailbox_valid = boot_mailbox-IsValid;
  history = record { valid = boot-IsValid; texts = boot-AllText };
}

abbrev pub locals : Locals
locals = record { payload = replicate 256 7; buffer = replicate 256 7; out_buf = replicate 256 7 }

abbrev caller : Caller
caller = record { x0 = 0; msg = letter }

abbrev posted : Kernel ram machine
posted = record start { mailbox = ipc_kernel_send letter boot_mailbox }

send_letter : syscall_handler ram machine 3 9 locals 1 caller start ≡ some (caller, posted)
unfolding syscall_handler ipc_send
send_letter = refl

Steps-IsSound_example : IsSound ram machine posted
Steps-IsSound_example =
    Steps-IsSound ram machine machine-KeepsHistory
      (there (call 3 9 locals 1 caller caller send_letter) here) start-IsSound

abbrev typing : Uart
typing = record {
  received = 104 ∷ [];
  arriving = [] ∷ (13 ∷ 0 ∷ []) ∷ [] ∷ (105 ∷ []) ∷ [];
  sent = [];
}
