-- ===== src/Ipc/Order.antt =====
-- The mailbox keeps its indices in range, and behaves as the bounded queue of `Ipc.Fifo`.
use native.Mathlib.Decide.{dec_lt}
use ai_os_exchange.Prelude.{
  ℕ, ◌+◌, ◌%◌, ◌≤◌, ◌<◌, ◌≡◌, refl, sym, ◌∙◌, ap, List, [], ◌∷◌, ◌++◌, length, get_or, set,
  length-set, suc, zero, arith, lt→ltb, ltb_of_not-lt,
}
use ai_os_exchange.Window.{window, length-window, window-set_self, window_first}
use ai_os_exchange.Ipc.Fifo
use ai_os_exchange.Ipc.Fifo.{Call, post, fetch}
use ai_os_exchange.Ipc.{
  boot_mailbox, Message, Mailbox, msg_none, zero_message, ipc_kernel_send, ipc_receive, IsValid,
  count, contents,
}

pub boot_mailbox-IsValid : IsValid boot_mailbox
unfolding boot_mailbox
boot_mailbox-IsValid = record { storage = refl; head_in = omega arith; tail_in = omega arith }

-- A send keeps both indices inside the array, and the array's length.
pub send-IsValid : (m : Message) {s : Mailbox} → IsValid s → IsValid (ipc_kernel_send m s)
unfolding ipc_kernel_send
send-IsValid m {s} v = ground (arith, length-set s.ipc_queue s.ipc_tail m)

pub receive-IsValid : (m : Message) {s : Mailbox} → IsValid s → IsValid (ipc_receive m s).1
unfolding ipc_receive
receive-IsValid m v = ground arith

window_of_count :
    (s : Mailbox) (k : ℕ)
    → count s ≡ suc k
    → contents s ≡ window zero_message 256 s.ipc_queue s.ipc_head (suc k)
window_of_count s k e = ap (window zero_message 256 s.ipc_queue s.ipc_head) e

pub length-contents : (s : Mailbox) → length (contents s) ≡ count s
length-contents s = length-window zero_message 256 s.ipc_queue s.ipc_head (count s)

-- A message goes in behind the others, at the tail.
send_room :
    (m : Message) {s : Mailbox}
    → IsValid s
    → count s < 255
    → window zero_message 256 (set s.ipc_queue s.ipc_tail m) s.ipc_head (suc (count s))
      ≡ contents s ++ m ∷ []
send_room m {s} v h =
    let e : (s.ipc_head + count s) % 256 ≡ s.ipc_tail = omega arith in
    ap (λ i. window zero_message 256 (set s.ipc_queue i m) s.ipc_head (suc (count s))) (sym e)
    ∙ window-set_self zero_message 256 s.ipc_queue s.ipc_head (count s) m (omega arith)
        (omega arith) (omega arith)

abbrev stored : Message → Mailbox → Mailbox
stored m s = record s {
  ipc_queue = set s.ipc_queue s.ipc_tail m;
  ipc_tail = (s.ipc_tail + 1) % 256;
}

send_of_room :
    (m : Message) {s : Mailbox} → IsValid s → count s < 255 → ipc_kernel_send m s ≡ stored m s
unfolding ipc_kernel_send
send_of_room m v h = ground arith

-- A full mailbox is left as it is.
pub send_of_full : (m : Message) {s : Mailbox} → IsValid s → 255 ≤ count s → ipc_kernel_send m s ≡ s
unfolding ipc_kernel_send
send_of_full m v h = ground arith

contents-stored :
    (m : Message) {s : Mailbox}
    → IsValid s
    → count s < 255
    → contents (stored m s) ≡ contents s ++ m ∷ []
contents-stored m {s} v h = window_of_count (stored m s) (count s) (omega arith) ∙ send_room m v h

-- With the indices in range, a send puts the message behind the others if fewer than 255 wait,
-- and otherwise leaves the contents as they are.
pub send-contents :
    (m : Message) {s : Mailbox}
    → IsValid s
    → contents (ipc_kernel_send m s) ≡ Fifo.send m (contents s)
unfolding Fifo.send
send-contents m {s} v = elim (dec_lt (count s) 255) [
  | yes room ↦
      rw (length-contents s, lt→ltb _ _ room)
        (ap contents (send_of_room m v room) ∙ contents-stored m v room)
  | no full ↦
      rw (length-contents s, ltb_of_not-lt _ _ full) (ap contents (send_of_full m v (omega arith)))
]

abbrev taken : Mailbox → Mailbox
taken s = record s { ipc_head = (s.ipc_head + 1) % 256 }

receive_of_some :
    (m : Message) (k : ℕ) {s : Mailbox}
    → IsValid s
    → count s ≡ suc k
    → ipc_receive m s ≡ (get_or s.ipc_queue s.ipc_head zero_message, taken s)
unfolding ipc_receive
receive_of_some m k v e = ground arith

receive_of_none :
    (m : Message) {s : Mailbox}
    → IsValid s
    → count s ≡ 0
    → ipc_receive m s ≡ (record m { type = msg_none; length = 0 }, s)
unfolding ipc_receive
receive_of_none m v e = ground arith

-- With a message waiting, the oldest stands at the head and the rest follow it.
contents_of_some :
    (k : ℕ) {s : Mailbox}
    → IsValid s
    → count s ≡ suc k
    → contents s ≡ get_or s.ipc_queue s.ipc_head zero_message ∷ contents (taken s)
contents_of_some k {s} v e =
    let e' : count (taken s) ≡ k = omega arith in
    ap (window zero_message 256 s.ipc_queue s.ipc_head) e
    ∙ window_first zero_message 256 s.ipc_queue s.ipc_head k v.head_in
    ∙ ap
        (λ n.
          get_or s.ipc_queue s.ipc_head zero_message
          ∷ window zero_message 256 s.ipc_queue ((s.ipc_head + 1) % 256) n)
        (sym e')

contents_of_none : (s : Mailbox) → count s ≡ 0 → contents s ≡ []
unfolding window
contents_of_none s e = ap (window zero_message 256 s.ipc_queue s.ipc_head) e

-- With the indices in range, a receive takes the oldest message and leaves the others; from an
-- empty mailbox it gives the caller's buffer with type and length 0, and leaves it empty.
pub receive-contents :
    (m : Message) {s : Mailbox}
    → IsValid s
    → let (r, s') = ipc_receive m s in (r, contents s') ≡ Fifo.receive m (contents s)
unfolding Fifo.receive
receive-contents m {s} v = go (count s) refl
  where
    go :
        (n : ℕ)
        → count s ≡ n
        → let (r, s') = ipc_receive m s in (r, contents s') ≡ Fifo.receive m (contents s)
    go zero e = rw (receive_of_none m v e, contents_of_none s e)
    go (suc k) e = rw (receive_of_some m k v e, contents_of_some k v e)

-- The messages that a sequence of calls delivers from a mailbox.
unfoldable pub run : List Call → Mailbox → List Message
run [] s = []
run (post m ∷ calls) s = run calls (ipc_kernel_send m s)
run (fetch m ∷ calls) s = let (r, s') = ipc_receive m s in r ∷ run calls s'

-- From a mailbox whose indices are in range, every sequence of sends and receives delivers the
-- messages that the bounded first-in first-out queue delivers from the same contents.
pub run-contents :
    (calls : List Call) {s : Mailbox} → IsValid s → run calls s ≡ Fifo.run calls (contents s)
unfolding run Fifo.run
run-contents [] v = refl
run-contents (post m ∷ calls) v = rw (run-contents calls (send-IsValid m v), send-contents m v)
run-contents (fetch m ∷ calls) v =
    rw (run-contents calls (receive-IsValid m v), ← receive-contents m v)
