-- ===== src/Ipc/Fifo.antt =====
-- What the mailbox promises: a first-in first-out queue of at most 255 messages that drops what
-- does not fit, and that answers a caller on an empty queue with the type `msg_none`.
use ai_os_exchange.Prelude.{List, [], ◌∷◌, ◌++◌, ltb, if◌then◌else◌, length}
use ai_os_exchange.Ipc.{Message, msg_none}

-- What a client asks: to send a message, or to receive into its buffer.
pub data Call : Type 0 where
  post : Message → Call
  fetch : Message → Call

unfoldable pub send : Message → List Message → List Message
send msg q = if ltb (length q) 255 then q ++ msg ∷ [] else q

unfoldable pub receive : Message → List Message → Message × List Message
receive msg [] = (record msg { type = msg_none; length = 0 }, [])
receive msg (m ∷ q) = (m, q)

-- The messages that a sequence of calls delivers.
unfoldable pub run : List Call → List Message → List Message
unfolding send receive
run [] q = []
run (post m ∷ calls) q = run calls (send m q)
run (fetch m ∷ calls) q = let (r, q') = receive m q in r ∷ run calls q'
