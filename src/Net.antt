-- ===== src/Net.antt =====
-- kernel/virtio_net.c: the poll of the network card, which takes the volume out of a FIX message. The
-- queue is what the driver and the card have written; the eight buffers are one array of bytes, and
-- `none` is a read behind it, or an int that overflows.
pub mod Volume
pub mod Init
pub mod Found
pub mod Tests
use ai_os_exchange.Prelude.{
  ℕ, zero, suc, ◌+◌, ◌-◌, ◌*◌, ◌%◌, ◌^◌, List, [], ◌∷◌, ◌++◌, if◌then◌else◌, ◌==◌, ◌&&◌, ◌||◌, ltb,
  leb, Bool, true, false, Option, none, some, ◌>>=◌, Bytes, codes, c_string, drop, get_or, set, u16,
}
use ai_os_exchange.Uart.{Uart, uart_print}

abbrev pub queue_size : ℕ
queue_size = 8

abbrev pub buffer_size : ℕ
buffer_size = 256

-- `rx_used`, `rx_avail`, `rx_buffers` and `last_used_idx`; a used entry is its id and its length.
-- `notified` counts the writes of the poll to the notification register.
pub record Net : Type 0 where
  pub net_base : ℕ
  pub used_idx : ℕ
  pub used_ring : List (ℕ × ℕ)
  pub last_used_idx : ℕ
  pub avail_idx : ℕ
  pub avail_ring : List ℕ
  pub rx_buffers : Bytes
  pub notified : ℕ

-- `while (fix_data[j] >= '0' && fix_data[j] <= '9')`
unfoldable pub read_digits : ℕ → Bytes → Option ℕ
read_digits volume [] = none
read_digits volume (c ∷ s) =
    let next = volume * 10 + (c - b'0') in
    let rest = read_digits next s in
    if leb b'0' c && leb c b'9' then (if ltb next (2 ^ 31) then rest else none) else some volume

-- Whether the bytes start with the word; a byte that differs ends the test.
abbrev pub starts : Bytes → Bytes → Option Bool
starts [] s = some true
starts (w ∷ ws) [] = none
starts (w ∷ ws) (c ∷ s) = if c == w then starts ws s else some false

abbrev pub volume_tag : Bytes
volume_tag = codes "38="

-- The loop over the `n` first bytes.
unfoldable pub find_volume : ℕ → Bytes → Option ℕ
find_volume zero fix_data = some 0
find_volume (suc n) fix_data =
    let rest = find_volume n (drop 1 fix_data) in
    starts volume_tag fix_data >>= λ here. if here then read_digits 0 (drop 3 fix_data) else rest

-- The rounds of the loop up to `(int)pkt_len - 28`, if `pkt_len > 28`: a length of 2 ^ 31 or more is
-- negative as an int, and the subtraction overflows for the least of them.
abbrev pub scanned : ℕ → Option ℕ
scanned pkt_len =
    if ltb pkt_len (2 ^ 31)
    then some (pkt_len - 28)
    else if ltb pkt_len (2 ^ 31 + 28)
    then none
    else some 0

unfoldable pub virtio_net_poll_rx : Net → Uart → Option (ℕ × Net × Uart)
virtio_net_poll_rx n u =
    if n.net_base == 0 || n.last_used_idx == n.used_idx
    then some (0, n, u)
    else (let used = get_or n.used_ring (n.last_used_idx % queue_size) (0, 0) in
        let desc_id = u16 used.0 in
        let fix_data = drop (desc_id * buffer_size + 26) n.rx_buffers in
        c_string fix_data >>= λ text. scanned used.1 >>= λ rounds.
        find_volume rounds fix_data >>= λ volume. some (
          volume,
          record n {
            last_used_idx = u16 (n.last_used_idx + 1);
            avail_ring = set n.avail_ring (n.avail_idx % queue_size) desc_id;
            avail_idx = u16 (n.avail_idx + 1);
            notified = n.notified + 1;
          },
          uart_print (codes "[NET] Packet received! Payload: " ++ text ++ codes "\n") u,
        ))
