-- ===== src/Shell/Tests.antt =====
-- The shell's theorems on the machine of `Syscall.Tests`: a disk in memory and a few keys.
use ai_os_exchange.Prelude.{
  ℕ, ◌≤◌, ◌≡◌, refl, [], ◌∷◌, ◌++◌, List, length, replicate, drop, arith, some, Bytes, codes, Bool,
  true, not, ◌==◌, ◌&&◌, copy_string,
}
use ai_os_exchange.Window.{window}
use ai_os_exchange.Ipc.{
  Message, boot_mailbox, ipc_kernel_send, ipc_receive, IsValid, count, contents,
}
use ai_os_exchange.Ipc.Order.{boot_mailbox-IsValid}
use ai_os_exchange.Ipc.Tests.{letter}
use ai_os_exchange.Ipc.Order.{send-IsValid}
use ai_os_exchange.Fat.Listing.{fs_get_dir_list}
use ai_os_exchange.Fat.Name.{format_fat_name, base_part, skip_part, after_dot, pad, upper}
use ai_os_exchange.Fat.Store.{with_file}
use ai_os_exchange.Fat.Tests.{
  ram, ram-IsReliable, volume, empty_disk, target, text, free_cluster, free_entry, apart,
}
use ai_os_exchange.Uart.{uart_poll_rx}
use ai_os_exchange.Syscall.{
  Kernel, msg_fs_list_req, syscall_handler, drain_hardware_queues, drain_keys, drain_uart,
  key_message,
}
use ai_os_exchange.Syscall.Tests.{machine, locals, start}
use ai_os_exchange.Terminal.{term_print}
use ai_os_exchange.Terminal.Tests.{memory, shell}
use ai_os_exchange.Shell.Calls.{Run, done, blocked, fault, exchange}
use ai_os_exchange.Shell.Request.{plain_request}
use ai_os_exchange.Shell.Wait.{NoneOf}
use ai_os_exchange.Shell.Service.{
  Schedule, Served, kernel_system, list_exchange, list_exchange_full,
}
use ai_os_exchange.Shell.Line.{write_words, run_command_usage}
use ai_os_exchange.Shell.Save.{run_command_stores}
use ai_os_exchange.Shell.Ready.{IsReady}
use ai_os_exchange.Shell.Loop.{shell_main-IsReady}
use ai_os_exchange.Shell.Trade.{read_line, capture, after_char}
use ai_os_exchange.Shell.Capture.{IsLine, read_line-IsLine}
use ai_os_exchange.Shell.Gateway.{trades_target, trade_text, trade_screen, capture_stores}
use ai_os_exchange.Shell.{
  Shell, round, rounds, drain, run_command, shell_start, shell_main, key, add_char,
}

abbrev times : Schedule
times = record { fuel = λ n. 5; now = λ n. 9; locals = λ n. locals }

-- What the stack holds: no message.
abbrev stack : Message
stack = record { sender_id = 7; target_id = 7; type = 7; length = 7; payload = replicate 256 7 }

-- A key waits for the shell.
abbrev typed : Kernel ram machine
typed = record start { mailbox = ipc_kernel_send letter boot_mailbox }

typed-IsValid : IsValid typed.mailbox
typed-IsValid = send-IsValid letter boot_mailbox-IsValid

no_listing : NoneOf 3 (contents typed.mailbox)
unfolding window ipc_kernel_send boot_mailbox
no_listing = (omega arith, tt)

no_commit : NoneOf 7 (contents typed.mailbox)
unfolding window ipc_kernel_send boot_mailbox
no_commit = (omega arith, tt)

one_waits : count typed.mailbox ≡ 1
unfolding ipc_kernel_send boot_mailbox
one_waits = refl

list_exchange_example :
    (listing : Bytes) × (s' : Served ram machine times) × (exchange
        (kernel_system ram machine times)
        2
        (plain_request [] msg_fs_list_req)
        stack
        (typed, 0)
      ≡ done (listing, s'))
    × (copy_string 255 (fs_get_dir_list ram volume (replicate 256 7) 256 empty_disk).0
        ≡ some listing)
    × (length listing ≤ 255)
    × (contents s'.0.mailbox ≡ [])
    × ((t : ℕ) → ram.content s'.0.disk t ≡ ram.content empty_disk t)
list_exchange_example =
    list_exchange ram machine times 2 0 typed stack [] typed-IsValid (omega (arith, one_waits))
      no_listing (omega (arith, one_waits))

-- A full mailbox.
abbrev flooded : Kernel ram machine
flooded = record start {
  mailbox = record { ipc_queue = replicate 256 letter; ipc_head = 0; ipc_tail = 255 };
}

flooded-IsValid : IsValid flooded.mailbox
flooded-IsValid = record { storage = refl; head_in = omega arith; tail_in = omega arith }

abbrev others_only : ℕ → List Message → Bool
others_only type [] = true
others_only type (m ∷ q) = not (m.type == type) && others_only type q

others_only-NoneOf : (type : ℕ) (q : List Message) → others_only type q ≡ true → NoneOf type q
others_only-NoneOf type [] e = tt
others_only-NoneOf type (m ∷ q) e = (ground arith, others_only-NoneOf type q (ground arith))

flooded_by_keys : others_only 3 (contents flooded.mailbox) ≡ true
unfolding window
flooded_by_keys = refl

list_exchange_full_example :
    exchange
      (kernel_system ram machine times)
      1000
      (plain_request [] msg_fs_list_req)
      stack
      (flooded, 0)
    ≡ blocked
list_exchange_full_example =
    list_exchange_full ram machine times 1000 0 flooded stack [] flooded-IsValid (omega arith)
      (others_only-NoneOf 3 (contents flooded.mailbox) flooded_by_keys)

abbrev at_line : Bytes → Shell (kernel_system ram machine times) stack
at_line line = record { ctx = shell; cmd_buffer = line; cmd_idx = 9; system = (typed, 0) }

run_command_usage_example :
    run_command
      (kernel_system ram machine times)
      stack
      2
      (at_line (codes "s.write A.TXT" ++ 0 ∷ []))
    ≡ done (record (at_line []) {
      cmd_buffer = write_words (codes "A.TXT" ++ 0 ∷ []);
      ctx = term_print (codes "Usage: s.write <filename> <data>\n") shell;
    })
run_command_usage_example =
    run_command_usage (kernel_system ram machine times) stack 2
      (at_line (codes "s.write A.TXT" ++ 0 ∷ [])) (codes "A.TXT") [] (omega arith) (omega arith)
      refl

typed_name :
    format_fat_name (
      codes "A.TXT"
      ++ 0 ∷ (text ++ 0 ∷ drop (length (codes "A.TXT" ++ 0 ∷ (text ++ 0 ∷ []))) (replicate 256 7)))
    ≡ some target
unfolding format_fat_name base_part skip_part after_dot pad upper
typed_name = refl

abbrev write_typed : Shell (kernel_system ram machine times) stack
write_typed = at_line (codes "s.write A.TXT " ++ (text ++ 0 ∷ []))

run_command_stores_example :
    (s' : Served ram machine times) × (run_command
        (kernel_system ram machine times)
        stack
        2
        write_typed
      ≡ drain (kernel_system ram machine times) stack (record write_typed {
        cmd_buffer = write_words (codes "A.TXT" ++ 0 ∷ (text ++ 0 ∷ []));
        ctx = term_print (codes "Write committed to disk.\n") shell;
        system = s';
      }))
    × (contents s'.0.mailbox ≡ [])
    × ((t : ℕ)
        → ram.content s'.0.disk t
          ≡ with_file ram ram-IsReliable volume target 3 0 (length text) text empty_disk t)
run_command_stores_example =
    run_command_stores ram machine times stack ram-IsReliable 2 0 typed write_typed (codes "A.TXT")
      text [] refl refl (omega arith) (omega arith) (omega arith) (omega arith) typed_name
      free_cluster free_entry apart typed-IsValid (omega (arith, one_waits)) no_commit
      (omega (arith, one_waits))

abbrev final :
    Run (Shell (kernel_system ram machine times) stack)
    → Shell (kernel_system ram machine times) stack
final (done sh) = sh
final blocked = at_line []
final fault = at_line []

abbrev line_buffer : Bytes
line_buffer = replicate 256 7

abbrev two_rounds : Run (Shell (kernel_system ram machine times) stack)
two_rounds = shell_main (kernel_system ram machine times) stack 2 2 memory line_buffer (typed, 0)

two_rounds_end : two_rounds ≡ done (final two_rounds)
unfolding shell_main shell_start rounds round key add_char syscall_handler drain_hardware_queues
    drain_keys drain_uart uart_poll_rx ipc_receive ipc_kernel_send boot_mailbox key_message
two_rounds_end = refl

shell_main-IsReady_example :
    IsReady (kernel_system ram machine times) stack memory (final two_rounds)
shell_main-IsReady_example =
    shell_main-IsReady (kernel_system ram machine times) stack memory 2 2 line_buffer (typed, 0)
      (final two_rounds) refl two_rounds_end

capture_stores_example :
    (s' : Served ram machine times) × (capture
        (kernel_system ram machine times)
        stack
        2
        (codes "{8=FIX}")
        100
        shell
        (typed, 0)
      ≡ done (trade_screen (codes "{8=FIX}") shell, s'))
    × (contents s'.0.mailbox ≡ [])
    × ((t : ℕ)
        → ram.content s'.0.disk t
          ≡ with_file ram ram-IsReliable volume trades_target 3 0
              (length (trade_text (codes "{8=FIX}")))
              (trade_text (codes "{8=FIX}"))
              empty_disk
              t)
capture_stores_example =
    capture_stores ram machine times stack ram-IsReliable 2 100 0 typed shell (codes "{8=FIX}")
      (omega arith) free_cluster free_entry apart typed-IsValid (omega (arith, one_waits)) no_commit
      (omega (arith, one_waits))

-- A trade comes in over the serial port.
abbrev trading : Kernel ram machine
trading = record start { uart = record { received = codes "{8=FIX}\n"; arriving = []; sent = [] } }

abbrev line_end : Served ram machine times
line_end = (record trading { uart = record { received = []; arriving = []; sent = [] } }, 8)

line_read :
    read_line (kernel_system ram machine times) stack 9 0 [] (trading, 0)
    ≡ done (codes "{8=FIX}", line_end)
unfolding read_line syscall_handler uart_poll_rx after_char
line_read = refl

read_line-IsLine_example : IsLine (codes "{8=FIX}")
read_line-IsLine_example =
    read_line-IsLine (kernel_system ram machine times) stack 9 0 [] (trading, 0)
      (record { short = omega arith; no_nul = tt; no_feed = tt; no_return = tt }) line_read
