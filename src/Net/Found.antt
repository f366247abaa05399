-- ===== src/Net/Found.antt =====
-- What `virtio_net_init` leaves: the first card of the bus, with the queue that the driver polls.
use Prim.Native.Nat.{bit_or}
use mathlib.Core.Path.{fun_ext}
use ai_os_exchange.Prelude.{
  ℕ, zero, suc, ◌+◌, ◌*◌, ◌/◌, ◌%◌, ◌^◌, ◌≤◌, ◌<◌, ◌≡◌, ◌≢◌, refl, ◌∙◌, ap, List, [], ◌∷◌,
  if◌then◌else◌, ◌==◌, ◌&&◌, some, arith, u32, u64, get_or, Bool, ==_of_eq, ==_of_ne, Bool-cases,
  inl, inr, false, true,
}
use native.Mathlib.Decide.{ℕ_discrete}
use ai_os_exchange.Uart.{Uart}
use ai_os_exchange.Virtio.{Desc}
use ai_os_exchange.Virtio.Setup.{Mmio, QueueAt, write_all, set_status}
use ai_os_exchange.Virtio.Layout.{
  Holds, last_written, legacy_view, modern_view, reg-write_all, QueueAt-path,
}
use ai_os_exchange.Virtio.Chain.{no_desc}
use ai_os_exchange.Net.{Net}
use ai_os_exchange.Net.Init.{
  NetAt, net_base_of, rx_avail_at, rx_used_at, net_legacy, net_modern, rx_descs, rx_ring, find_card,
  net_registers, net_negotiate, virtio_net_init,
}

-- The parts of the queue that the poll uses.
abbrev pub rx_queue : NetAt → QueueAt
rx_queue at = record { desc_at = at.vq_memory; avail_at = rx_avail_at at; used_at = rx_used_at at }

-- A descriptor of a buffer, which the card may write.
abbrev pub rx_desc : NetAt → ℕ → Desc
rx_desc at i = record { addr = u64 (at.rx_buffers + i * 256); len = 256; flags = 2; next = 0 }

get_or-rx_descs :
    (at : NetAt) (n i j : ℕ) → j < n → get_or (rx_descs at n i) j no_desc ≡ rx_desc at (i + j)
unfolding rx_descs
get_or-rx_descs at zero i j h = absurd (omega arith)
get_or-rx_descs at (suc n) i zero h = let e : i ≡ i + 0 = omega arith in ap (rx_desc at) e
get_or-rx_descs at (suc n) i (suc j) h =
    let e : i + 1 + j ≡ i + suc j = omega arith in
    get_or-rx_descs at n (i + 1) j (omega arith) ∙ ap (rx_desc at) e

-- The registers behind the last three writes.
abbrev net_after : List (ℕ × ℕ) → ℕ → (ℕ → ℕ) → ℕ → ℕ
net_after ws status old off =
    last_written ((0x050, 0) ∷ (0x070, status) ∷ []) off (last_written ws off (old off))

net_legacy_view :
    (at : NetAt) (status : ℕ) (old : ℕ → ℕ)
    → at.vq_memory % 4096 ≡ 0
    → at.vq_memory < 2 ^ 44
    → legacy_view (net_after (net_legacy at) status old) ≡ rx_queue at
unfolding last_written
net_legacy_view at status old even low =
    let page : u32 (at.vq_memory / 4096) * 4096 ≡ at.vq_memory = omega arith in
    QueueAt-path _ _ _ _ _ _ page (omega arith) (omega arith)

net_modern_view :
    (at : NetAt) (status : ℕ) (old : ℕ → ℕ)
    → at.vq_memory < 2 ^ 44
    → modern_view (net_after (net_modern at) status old) ≡ rx_queue at
unfolding last_written
net_modern_view at status old low =
    QueueAt-path _ _ _ _ _ _ (omega arith) (omega arith) (omega arith)

net_num :
    (at : NetAt) (legacy : Bool) (status : ℕ) (old : ℕ → ℕ)
    → net_after (if legacy then net_legacy at else net_modern at) status old 0x038 ≡ 8
unfolding last_written
net_num at true status old = refl
net_num at false status old = refl

module _ (io : Mmio) where
  open io use {Bus, read, write}

  -- A network card in a slot.
  abbrev pub IsCard : ℕ → Bus → Type 0
  IsCard i b = (read (net_base_of i) b ≡ 0x74726976) × (read (net_base_of i + 8) b ≡ 1)

  -- The search finds the first card.
  find_card_lem :
      (n i k : ℕ) (b : Bus)
      → i ≤ k
      → k < i + n
      → IsCard k b
      → ((j : ℕ) → i ≤ j → j < k → ¬ IsCard j b)
      → find_card io n i b ≡ some (net_base_of k)
  unfolding find_card
  find_card_lem zero i k b low high card first = absurd (omega arith)
  find_card_lem (suc n) i k b low high card first = elim (ℕ_discrete i k) [
    | yes e ↦ rw (e, card.0, card.1) refl
    | no ne ↦
        elim (Bool-cases
          (read (net_base_of i) b == 0x74726976 && read (net_base_of i + 8) b == 1)) [
            | inl hit ↦ absurd (first i (omega arith) (omega arith) (card_of_test hit))
            | inr miss ↦ rw (miss) (
                find_card_lem n (i + 1) k b (omega arith) (omega arith) card
                  (λ j a c. first j (omega arith) c))
          ]
  ]
    where
      card_of_test : {x y : ℕ} → (x == 0x74726976 && y == 1) ≡ true → (x ≡ 0x74726976) × (y ≡ 1)
      card_of_test h = ground arith

  net_status : NetAt → ℕ → ℕ → Bus → ℕ
  net_status at base version b =
      bit_or (read (base + 0x070) (write (base + 0x050) 0 (net_registers io at base version b))) 4

  net_start : ℕ → ℕ → Bus → Bus
  net_start base version b = write (base + 0x030) 0 (
      net_negotiate io base version
        (set_status io base 2 (set_status io base 1 (write (base + 0x070) 0 b))))

  net_view :
      (reg : Bus → ℕ → ℕ) (holds : Holds io reg) (at : NetAt) (base version : ℕ) (b : Bus) (off : ℕ)
      → reg
          (set_status io base 4 (write (base + 0x050) 0 (net_registers io at base version b)))
          (base + off)
        ≡ net_after
            (if version == 1 then net_legacy at else net_modern at)
            (net_status at base version b)
            (λ o. reg (net_start base version b) (base + o))
            off
  unfolding net_registers write_all net_status net_start
  net_view reg holds at base version b off =
      let ws = if version == 1 then net_legacy at else net_modern at in
      let tail : List (ℕ × ℕ) = (0x050, 0) ∷ (0x070, net_status at base version b) ∷ [] in
      reg-write_all io reg holds base off tail (net_registers io at base version b)
      ∙ ap (last_written tail off)
          (reg-write_all io reg holds base off ws (net_start base version b))

  -- The registers of a slot hold what was written to them last; the memory of the queue begins at a
  -- page and below 2 ^ 44. With a network card in one of the 32 slots, `virtio_net_init` takes the first one. Then a
  -- legacy card, of version 1, computes the addresses of the queue that the poll reads, and a card of
  -- another version is told them; each of the eight descriptors is that of its buffer of 256 bytes, one
  -- behind the other, and all are offered in order.
  pub virtio_net_init_lem :
      (reg : Bus → ℕ → ℕ) (holds : Holds io reg) (at : NetAt) (n : Net) (b : Bus) (u : Uart)
      (k i : ℕ)
      → at.vq_memory % 4096 ≡ 0
      → at.vq_memory < 2 ^ 44
      → k < 32
      → IsCard k b
      → ((j : ℕ) → j < k → ¬ IsCard j b)
      → i < 8
      → let (descs, (n', b', u')) = virtio_net_init io at (n, b, u) in
        let view = λ (off : ℕ). reg b' (net_base_of k + off) in
        (n'.net_base ≡ net_base_of k)
        × ((if read (net_base_of k + 4) b == 1 then legacy_view view else modern_view view)
            ≡ rx_queue at)
        × (view 0x038 ≡ 8)
        × (n'.avail_ring ≡ 0 ∷ 1 ∷ 2 ∷ 3 ∷ 4 ∷ 5 ∷ 6 ∷ 7 ∷ [])
        × (n'.avail_idx ≡ 8)
        × (get_or descs i no_desc ≡ rx_desc at i)
  unfolding virtio_net_init rx_ring
  virtio_net_init_lem reg holds at n b u k i even low small card first h =
      let base = net_base_of k in
      let found = find_card_lem 32 0 k b (omega arith) (omega arith) card (λ j a c. first j c) in
      let there : base ≢ 0 = λ e. absurd (omega arith) in
      let version = read (base + 4) b in
      let old = λ (o : ℕ). reg (net_start base version b) (base + o) in
      let status = net_status at base version b in
      let view = net_view reg holds at base version b in
      rw (found, ==_of_ne base 0 there)
        (
          refl,
          elim (ℕ_discrete version 1) [
            | yes e ↦ rw (==_of_eq version 1 e) (
                ap legacy_view (fun_ext (rw (==_of_eq version 1 e) at view))
                ∙ net_legacy_view at status old even low)
            | no ne ↦ rw (==_of_ne version 1 ne) (
                ap modern_view (fun_ext (rw (==_of_ne version 1 ne) at view))
                ∙ net_modern_view at status old low)
          ],
          view 0x038 ∙ net_num at (version == 1) status old,
          refl,
          refl,
          get_or-rx_descs at 8 0 i h ∙ ap (rx_desc at) (omega arith),
        )
