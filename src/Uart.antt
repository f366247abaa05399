-- ===== src/Uart.antt =====
-- kernel/uart.c: the PL011 serial port. The device holds the bytes that it has received and not
-- delivered, and the bytes that it was given to send; what arrives before each of the next polls is a
-- list, behind whose end nothing arrives. Waiting for room in the transmit FIFO is not
-- modelled: the device always drains.
pub mod Hex
pub mod Tests
use ai_os_exchange.Prelude.{ℕ, ◌%◌, ◌^◌, List, [], ◌∷◌, ◌++◌, Bytes}

pub record Uart : Type 0 where
  pub received : Bytes
  pub arriving : List Bytes
  pub sent : Bytes

-- `uart_print`: the bytes of a string, without its NUL, go out in order.
abbrev pub uart_print : Bytes → Uart → Uart
uart_print str u = record u { sent = u.sent ++ str }

abbrev pub arrive : Uart → Uart
arrive u = elim u.arriving [
  | [] ↦ u
  | new ∷ later ↦ record u { received = u.received ++ new; arriving = later }
]

-- `uart_poll_rx`: the receive-FIFO-empty flag is clear exactly if a byte waits; no byte reads as 0.
unfoldable pub uart_poll_rx : Uart → ℕ × Uart
uart_poll_rx u =
    let v = arrive u in
    elim v.received [ [] ↦ (0, v) | b ∷ bs ↦ (b % 2 ^ 8, record v { received = bs }) ]
