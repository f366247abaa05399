-- ===== src/Ipc/Tests.antt =====
-- The mailbox's theorems at the start of the kernel, when it holds nothing.
use ai_os_exchange.Prelude.{◌≡◌, List, [], ◌∷◌}
use ai_os_exchange.Ipc.{Message, boot_mailbox, contents}
use ai_os_exchange.Ipc.Fifo
use ai_os_exchange.Ipc.Fifo.{Call, post, fetch}
use ai_os_exchange.Ipc.Order.{boot_mailbox-IsValid, run, run-contents}

abbrev pub letter : Message
letter = record { sender_id = 1; target_id = 3; type = 1; length = 1; payload = 65 ∷ [] }

abbrev calls : List Call
calls = post letter ∷ fetch letter ∷ fetch letter ∷ []

run-contents_example : run calls boot_mailbox ≡ Fifo.run calls (contents boot_mailbox)
run-contents_example = run-contents calls boot_mailbox-IsValid
