-- ===== src/Syscall/Drain.antt =====
-- Draining the serial port: what the terminal has typed reaches the mailbox, key by key.
use ai_os_exchange.Prelude.{
  ℕ, ◌+◌, ◌++◌, List, ◌⊎◌, ap, length-append, zero, suc, ◌<◌, ◌≡◌, refl, [], ◌∷◌, if◌then◌else◌,
  ◌==◌, some, Bytes, length, u8, arith, inl, inr, Bool-cases,
}
use ai_os_exchange.Ipc.{Mailbox, mod_uart, ipc_kernel_send}
use ai_os_exchange.Uart.{Uart, uart_poll_rx}
use ai_os_exchange.Syscall.{newline, key_message, total, drain_uart}

-- The keys before the first NUL, carriage returns as line feeds; and the bytes behind it.
unfoldable pub typed : Bytes → Bytes
typed [] = []
typed (b ∷ bs) = if u8 b == 0 then [] else newline (u8 b) ∷ typed bs

unfoldable pub behind : Bytes → Bytes
behind [] = []
behind (b ∷ bs) = if u8 b == 0 then bs else behind bs

-- The same of bytes that wait while others arrive before each poll; the drain ends also when none waits.
unfoldable pub typed_on : List Bytes → Bytes → Bytes
unfolding typed
typed_on [] rx = typed rx
typed_on (new ∷ later) rx = elim (rx ++ new) [
  | [] ↦ []
  | b ∷ bs ↦ let rest = typed_on later bs in if u8 b == 0 then [] else newline (u8 b) ∷ rest
]

unfoldable pub left_on : List Bytes → Bytes → Bytes × List Bytes
unfolding behind
left_on [] rx = (behind rx, [])
left_on (new ∷ later) rx = elim (rx ++ new) [
  | [] ↦ ([], later)
  | b ∷ bs ↦ let rest = left_on later bs in if u8 b == 0 then (bs, later) else rest
]

-- One message per key, in order.
unfoldable pub send_keys : ℕ → Bytes → Bytes → Mailbox → Mailbox
send_keys sender garbage [] q = q
send_keys sender garbage (c ∷ cs) q =
    send_keys sender garbage cs (ipc_kernel_send (key_message sender c garbage) q)

split : (xs : Bytes) → (xs ≡ []) ⊎ ((b : ℕ) × (bs : Bytes) × (xs ≡ b ∷ bs))
split [] = inl refl
split (b ∷ bs) = inr (b, bs, refl)

port : Bytes → List Bytes → Bytes → Uart
port rx later tx = record { received = rx; arriving = later; sent = tx }

-- A poll that finds a byte, and one that finds none.
module _ (rx new tx : Bytes) (later : List Bytes) where
  module _ (b : ℕ) (bs : Bytes) (e : rx ++ new ≡ b ∷ bs) where
    poll_byte : uart_poll_rx (port rx (new ∷ later) tx) ≡ (u8 b, port bs later tx)
    unfolding uart_poll_rx port
    poll_byte = rw (e) refl

    typed_byte :
        typed_on (new ∷ later) rx ≡ (if u8 b == 0 then [] else newline (u8 b) ∷ typed_on later bs)
    unfolding typed_on
    typed_byte = rw (e, typed_on) refl

    left_byte : left_on (new ∷ later) rx ≡ (if u8 b == 0 then (bs, later) else left_on later bs)
    unfolding left_on
    left_byte = rw (e, left_on) refl

  module _ (e : rx ++ new ≡ []) where
    poll_none : uart_poll_rx (port rx (new ∷ later) tx) ≡ (0, port [] later tx)
    unfolding uart_poll_rx port
    poll_none = rw (e) (ap (λ r. (0, port r later tx)) e)

    typed_none : typed_on (new ∷ later) rx ≡ []
    unfolding typed_on
    typed_none = rw (e, typed_on) refl

    left_none : left_on (new ∷ later) rx ≡ ([], later)
    unfolding left_on
    left_none = rw (e, left_on) refl

-- Nothing more arrives.
in_order :
    (fuel : ℕ) (garbage rx tx : Bytes) (q : Mailbox)
    → length rx + 0 < suc fuel
    → drain_uart (suc fuel) garbage q (port rx [] tx)
      ≡ some (send_keys mod_uart garbage (typed rx) q, port (behind rx) [] tx)
unfolding drain_uart uart_poll_rx typed behind send_keys port
in_order fuel garbage [] tx q h = refl
in_order zero garbage (b ∷ bs) tx q h = absurd (omega arith)
in_order (suc fuel) garbage (b ∷ bs) tx q h = elim (Bool-cases (u8 b == 0)) [
  | inl stop ↦ rw stop refl
  | inr key ↦ rw key (in_order fuel garbage bs tx _ (omega arith))
]

drain_of_bytes :
    (fuel : ℕ) (garbage rx tx : Bytes) (later : List Bytes) (q : Mailbox)
    → length rx + total later < fuel
    → drain_uart fuel garbage q (port rx later tx)
      ≡ some (
        send_keys mod_uart garbage (typed_on later rx) q,
        port (left_on later rx).0 (left_on later rx).1 tx,
      )
unfolding drain_uart typed_on left_on send_keys total
drain_of_bytes zero garbage rx tx later q h = absurd (omega arith)
drain_of_bytes (suc fuel) garbage rx tx [] q h = in_order fuel garbage rx tx q h
drain_of_bytes (suc fuel) garbage rx tx (new ∷ later) q h = elim (split (rx ++ new)) [
  | inl e ↦
      rw (poll_none rx new tx later e, typed_none rx new tx later e, left_none rx new tx later e)
        refl
  | inr (b, bs, e) ↦
      rw
        (
          poll_byte rx new tx later b bs e,
          typed_byte rx new tx later b bs e,
          left_byte rx new tx later b bs e,
        )
        (elim (Bool-cases (u8 b == 0)) [
          | inl stop ↦ rw (stop) refl
          | inr key ↦ rw (key) (
              drain_of_bytes fuel garbage bs tx later _
                (omega (arith, length-append rx new, ap length e)))
        ])
]

pub drain_uart_lem :
    (garbage : Bytes) (q : Mailbox) (u : Uart)
    → let (left, later) = left_on u.arriving u.received in
      drain_uart (suc (length u.received + total u.arriving)) garbage q u
      ≡ some (
        send_keys mod_uart garbage (typed_on u.arriving u.received) q,
        record u { received = left; arriving = later },
      )
unfolding port
drain_uart_lem garbage q u =
    drain_of_bytes (suc (length u.received + total u.arriving)) garbage u.received u.sent u.arriving
      q (omega arith)
