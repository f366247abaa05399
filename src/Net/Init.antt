-- ===== src/Net/Init.antt =====
-- `virtio_net_init`: the search for a network card, and its queue of eight buffers.
use ai_os_exchange.Prelude.{
  ℕ, zero, suc, ◌+◌, ◌*◌, ◌/◌, ◌%◌, ◌^◌, List, [], ◌∷◌, if◌then◌else◌, ◌==◌, ◌&&◌, Option, none,
  some, codes, u32, u64,
}
use ai_os_exchange.Uart.{Uart, uart_print}
use ai_os_exchange.Uart.Hex.{uart_print_hex}
use ai_os_exchange.Virtio.{Desc}
use ai_os_exchange.Virtio.Setup.{Mmio, write_all, set_status, reg_status, reg_queue_notify}
use ai_os_exchange.Net.{Net, queue_size, buffer_size}

-- Where the linker has put `vq_memory` and `rx_buffers`; the first is aligned to a page.
pub record NetAt : Type 0 where
  pub vq_memory : ℕ
  pub rx_buffers : ℕ

abbrev pub net_base_of : ℕ → ℕ
net_base_of i = u32 (0x0A000000 + i * 0x200)

abbrev pub rx_avail_at : NetAt → ℕ
rx_avail_at at = at.vq_memory + queue_size * 16

abbrev pub rx_used_at : NetAt → ℕ
rx_used_at at = at.vq_memory + 4096

-- The registers of the queue, in the order in which they are written.
abbrev pub net_legacy : NetAt → List (ℕ × ℕ)
net_legacy at =
    (0x038, queue_size) ∷ (0x028, 4096) ∷ (0x03C, 4096) ∷ (0x040, u32 (at.vq_memory / 4096)) ∷ []

abbrev pub net_modern : NetAt → List (ℕ × ℕ)
net_modern at =
    (0x038, queue_size)
    ∷ (0x080, at.vq_memory % 2 ^ 32)
    ∷ (0x084, u32 (at.vq_memory / 2 ^ 32))
    ∷ (0x090, rx_avail_at at % 2 ^ 32)
    ∷ (0x094, u32 (rx_avail_at at / 2 ^ 32))
    ∷ (0x0A0, rx_used_at at % 2 ^ 32)
    ∷ (0x0A4, u32 (rx_used_at at / 2 ^ 32))
    ∷ (0x044, 1)
    ∷ []

-- `rx_desc[ i ]`, and `rx_avail->ring[ i ]`, for the `n` entries from `i` on.
unfoldable pub rx_descs : NetAt → ℕ → ℕ → List Desc
rx_descs at zero i = []
rx_descs at (suc n) i =
    record { addr = u64 (at.rx_buffers + i * buffer_size); len = buffer_size; flags = 2; next = 0 }
    ∷ rx_descs at n (i + 1)

unfoldable pub rx_ring : ℕ → ℕ → List ℕ
rx_ring zero i = []
rx_ring (suc n) i = i ∷ rx_ring n (i + 1)

module _ (io : Mmio) where
  open io use {Bus, read, write}

  -- The first slot with a network card, among `n` slots from `i` on.
  unfoldable pub find_card : ℕ → ℕ → Bus → Option ℕ
  find_card zero i b = none
  find_card (suc n) i b =
      let base = net_base_of i in
      let rest = find_card n (i + 1) b in
      if read base b == 0x74726976 && read (base + 8) b == 1 then some base else rest

  abbrev pub net_negotiate : ℕ → ℕ → Bus → Bus
  net_negotiate base version b =
      if version == 1
      then b
      else set_status io base 8
          (write_all io base ((0x024, 0) ∷ (0x020, 0) ∷ (0x024, 1) ∷ (0x020, 1) ∷ []) b)

  -- The registers of the card at `base`, but for the two writes at the end.
  unfoldable pub net_registers : NetAt → ℕ → ℕ → Bus → Bus
  net_registers at base version b =
      let b1 = set_status io base 2 (set_status io base 1 (write (base + reg_status) 0 b)) in
      let b2 = write (base + 0x030) 0 (net_negotiate base version b1) in
      write_all io base (if version == 1 then net_legacy at else net_modern at) b2

  -- The card, its version, and what is printed if it is found. `net_base` is 0 before the search.
  abbrev pub found_card : ℕ → Option ℕ → Bus → Uart → (ℕ × ℕ) × Uart
  found_card net_base none b u = ((net_base, 0), u)
  found_card net_base (some base) b u = (
    (base, read (base + 4) b),
    uart_print (codes "\n")
        (uart_print_hex base (uart_print (codes "[NET] Network Card found at slot: ") u)),
  )

  -- With the descriptors that the card is given.
  unfoldable pub virtio_net_init : NetAt → Net × Bus × Uart → List Desc × (Net × Bus × Uart)
  virtio_net_init at (n, b, u) =
      let start = uart_print (codes "[NET] Scanning MMIO bus for Network Card...\n") u in
      let ((base, version), u1) = found_card n.net_base (find_card 32 0 b) b start in
      if base == 0 then ([], (n, b, u1)) else (
        rx_descs at queue_size 0,
        (
          record n { net_base = base; avail_idx = queue_size; avail_ring = rx_ring queue_size 0 },
          set_status io base 4
              (write (base + reg_queue_notify) 0 (net_registers at base version b)),
          uart_print (codes "[NET] RX VirtQueue established. Listening for FIX packets...\n") u1,
        ),
      )
