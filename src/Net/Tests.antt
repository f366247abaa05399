-- ===== src/Net/Tests.antt =====
-- The poll of the network card on an order of 500.
use ai_os_exchange.Prelude.{
  ℕ, zero, suc, ◌+◌, ◌<◌, ◌≡◌, if◌then◌else◌, ◌==◌, ◌||◌, get_or, refl, [], ◌∷◌, ◌++◌, some, codes,
  set, replicate, arith,
}
use ai_os_exchange.Uart.{uart_print}
use ai_os_exchange.Watcher.Tests.{console}
use ai_os_exchange.Virtio.Chain.{no_desc}
use ai_os_exchange.Virtio.Layout.{legacy_view, modern_view}
use ai_os_exchange.Virtio.SetupTests.{plain, register, plain-Holds}
use ai_os_exchange.Net.{Net, virtio_net_poll_rx}
use ai_os_exchange.Net.Init.{NetAt, virtio_net_init}
use ai_os_exchange.Net.Found.{IsCard, rx_queue, rx_desc, virtio_net_init_lem}
use ai_os_exchange.Net.Volume.{virtio_net_poll_rx_lem}

abbrev order : Net
order = record {
  net_base = 0x0A000000;
  used_idx = 1;
  used_ring = (0, 60) ∷ [];
  last_used_idx = 0;
  avail_idx = 8;
  avail_ring = 0 ∷ 1 ∷ 2 ∷ 3 ∷ 4 ∷ 5 ∷ 6 ∷ 7 ∷ [];
  rx_buffers = replicate 26 0 ++ (codes "8=FIX,38=500,40=2" ++ 0 ∷ replicate 20 0);
  notified = 0;
}

virtio_net_poll_rx_lem_example :
    virtio_net_poll_rx order console
    ≡ some (
      500,
      record order {
        last_used_idx = 1;
        avail_ring = set (0 ∷ 1 ∷ 2 ∷ 3 ∷ 4 ∷ 5 ∷ 6 ∷ 7 ∷ []) 0 0;
        avail_idx = 9;
        notified = 1;
      },
      uart_print
          (codes "[NET] Packet received! Payload: " ++ codes "8=FIX,38=500,40=2" ++ codes "\n")
          console,
    )
virtio_net_poll_rx_lem_example =
    virtio_net_poll_rx_lem order console 0 60 44 (codes "8=FIX,") (codes "500") (codes "40=2")
      (replicate 20 0) (omega arith) (omega arith) refl refl (omega arith) (omega arith)
      (omega arith) (omega arith) (omega arith) refl (omega arith)

-- The third slot has a network card, as a legacy device.
abbrev slots_with_card : ℕ → ℕ
slots_with_card a =
    if a == 0x0A000400 then 0x74726976 else if a == 0x0A000404 || a == 0x0A000408 then 1 else 0

abbrev places : NetAt
places = record { vq_memory = 0x40110000; rx_buffers = 0x40112000 }

third_slot : IsCard plain 2 slots_with_card
third_slot = (refl, refl)

no_earlier : (j : ℕ) → j < 2 → ¬ IsCard plain j slots_with_card
no_earlier zero h card = cc (card.0)
no_earlier (suc zero) h card = cc (card.0)
no_earlier (suc (suc j)) h card = absurd (omega arith)

virtio_net_init_lem_example :
    let (descs, (n', b', u')) = virtio_net_init plain places (order, slots_with_card, console) in
    let view = λ (off : ℕ). b' (0x0A000400 + off) in
    (n'.net_base ≡ 0x0A000400)
    × ((if 1 == 1 then legacy_view view else modern_view view) ≡ rx_queue places)
    × (view 0x038 ≡ 8)
    × (n'.avail_ring ≡ 0 ∷ 1 ∷ 2 ∷ 3 ∷ 4 ∷ 5 ∷ 6 ∷ 7 ∷ [])
    × (n'.avail_idx ≡ 8)
    × (get_or descs 7 no_desc ≡ rx_desc places 7)
virtio_net_init_lem_example =
    virtio_net_init_lem plain register plain-Holds places order slots_with_card console 2 7 refl
      (omega arith) (omega arith) third_slot no_earlier (omega arith)
