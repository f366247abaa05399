-- ===== src/Net/Volume.antt =====
-- The volume that the network card's poll finds in a message.
use mathlib.Core.List.{foldl}
use ai_os_exchange.Prelude.{
  ℕ, zero, suc, ◌+◌, ◌-◌, ◌*◌, ◌%◌, ◌^◌, ◌≤◌, ◌<◌, ◌≡◌, ◌≢◌, refl, sym, ◌∙◌, ap, [], ◌∷◌, ◌++◌,
  length, ◌&&◌, leb, true, false, some, Bytes, codes, drop, get_or, set, arith, NoNul,
  c_string-append_nul, append_assoc, u16, ==_of_ne, lt→ltb,
}
use ai_os_exchange.Uart.{Uart, uart_print}
use ai_os_exchange.Watcher.Decimal.{AllDigits, dec_value}
use ai_os_exchange.Shell.Line.{Without}
use ai_os_exchange.Net.{Net, read_digits, find_volume, virtio_net_poll_rx}

-- The value of digits behind others.
abbrev pub value_from : ℕ → Bytes → ℕ
value_from = foldl (λ n c. n * 10 + (c - b'0'))

value_from_le : (v : ℕ) (s : Bytes) → v ≤ value_from v s
value_from_le v [] = omega arith
value_from_le v (c ∷ s) =
    let le : v * 10 + (c - b'0') ≤ value_from (v * 10 + (c - b'0')) s =
      value_from_le (v * 10 + (c - b'0')) s in
    omega arith

-- Digits up to a byte that is none, of a value that fits an int.
read_digits_lem :
    (v : ℕ) (s : Bytes) (stop : ℕ) (rest : Bytes)
    → AllDigits s
    → (leb b'0' stop && leb stop b'9') ≡ false
    → value_from v s < 2 ^ 31
    → read_digits v (s ++ stop ∷ rest) ≡ some (value_from v s)
unfolding read_digits
read_digits_lem v [] stop rest digits ends fits = rw (ends) refl
read_digits_lem v (c ∷ s) stop rest digits ends fits =
    let next = v * 10 + (c - b'0') in
    let le : next ≤ value_from next s = value_from_le next s in
    let small : next < 2 ^ 31 = omega arith in
    let digit : (leb b'0' c && leb c b'9') ≡ true = ground (arith, digits.0, digits.1) in
    rw (digit, lt→ltb next (2 ^ 31) small) (read_digits_lem next s stop rest digits.2 ends fits)

-- The first tag of a message is found, if no '3' stands before it.
find_volume_lem :
    (n : ℕ) (before s : Bytes) (stop : ℕ) (rest : Bytes)
    → length before < n
    → Without b'3' before
    → AllDigits s
    → (leb b'0' stop && leb stop b'9') ≡ false
    → value_from 0 s < 2 ^ 31
    → find_volume n (before ++ (codes "38=" ++ (s ++ stop ∷ rest))) ≡ some (value_from 0 s)
unfolding find_volume
find_volume_lem zero before s stop rest h free digits ends fits = absurd (omega arith)
find_volume_lem (suc n) [] s stop rest h free digits ends fits =
    read_digits_lem 0 s stop rest digits ends fits
find_volume_lem (suc n) (c ∷ before) s stop rest h free digits ends fits =
    rw (==_of_ne c b'3' free.0)
      (find_volume_lem n before s stop rest (omega arith) free.1 digits ends fits)

-- The card has put a message into one of the buffers, behind headers of 26 bytes: a text without a
-- NUL and with no '3' before the first tag "38=", decimal digits of a value that fits an int, and
-- another byte; the length that the card reports reaches the tag and is below 2 ^ 31. Then the poll returns the
-- value, prints the message, takes the entry off the used ring, offers the buffer to the card again,
-- and notifies it.
pub virtio_net_poll_rx_lem :
    (n : Net) (u : Uart) (id len stop : ℕ) (before s behind beyond : Bytes)
    → n.net_base ≢ 0
    → n.last_used_idx ≢ n.used_idx
    → get_or n.used_ring (n.last_used_idx % 8) (0, 0) ≡ (id, len)
    → drop (u16 id * 256 + 26) n.rx_buffers
      ≡ before ++ (codes "38=" ++ (s ++ stop ∷ (behind ++ 0 ∷ beyond)))
    → length before + 28 < len
    → len < 2 ^ 31
    → NoNul (before ++ (codes "38=" ++ (s ++ stop ∷ behind)))
    → Without b'3' before
    → AllDigits s
    → (leb b'0' stop && leb stop b'9') ≡ false
    → dec_value s < 2 ^ 31
    → virtio_net_poll_rx n u
      ≡ some (
        dec_value s,
        record n {
          last_used_idx = u16 (n.last_used_idx + 1);
          avail_ring = set n.avail_ring (n.avail_idx % 8) (u16 id);
          avail_idx = u16 (n.avail_idx + 1);
          notified = n.notified + 1;
        },
        uart_print
            (codes "[NET] Packet received! Payload: "
              ++ (before ++ (codes "38=" ++ (s ++ stop ∷ behind)))
              ++ codes "\n")
            u,
      )
unfolding virtio_net_poll_rx
virtio_net_poll_rx_lem n u id len stop before s behind beyond there waits entry stored long int
      clean free digits ends fits =
    let text = before ++ (codes "38=" ++ (s ++ stop ∷ behind)) in
    let whole : before ++ (codes "38=" ++ (s ++ stop ∷ (behind ++ 0 ∷ beyond)))
        ≡ text ++ 0 ∷ beyond =
      sym (
        append_assoc before (codes "38=" ++ (s ++ stop ∷ behind)) (0 ∷ beyond)
        ∙ ap (λ t. before ++ (codes "38=" ++ t)) (append_assoc s (stop ∷ behind) (0 ∷ beyond))) in
    rw
      (
        ==_of_ne n.net_base 0 there,
        ==_of_ne n.last_used_idx n.used_idx waits,
        entry,
        stored,
        lt→ltb len (2 ^ 31) int,
        find_volume_lem (len - 28) before s stop (behind ++ 0 ∷ beyond) (omega arith) free digits
            ends fits,
        whole,
        c_string-append_nul text beyond clean,
      )
      refl
