-- ===== src/Virtio/Layout.antt =====
-- The queue that a device finds is the one that the driver uses: the registers against the layout of
-- the virtio specification, for legacy devices and for the others.
use ai_os_exchange.Prelude.{
  inr, inl, ◌⊎◌, ℕ, ◌+◌, ◌-◌, ◌*◌, ◌/◌, ◌%◌, ◌^◌, ◌≤◌, ◌<◌, ◌≡◌, ◌≢◌, refl, ◌∙◌, ap, List, [], ◌∷◌,
  if◌then◌else◌, ◌==◌, arith, u32, ==_of_eq, ==_of_ne,
}
use mathlib.Core.Path.{fun_ext}
use native.Mathlib.Decide.{ℕ_discrete}
use ai_os_exchange.Virtio.{Driver, bump_allocate, round_up}
use ai_os_exchange.Virtio.Setup.{
  Mmio, QueueAt, queue_at, write_all, setup_virtqueue, legacy_registers, modern_registers,
}

-- What a register holds after a list of writes to the registers of its slot.
unfoldable pub last_written : List (ℕ × ℕ) → ℕ → ℕ → ℕ
last_written [] off old = old
last_written (w ∷ ws) off old = last_written ws off (if off == w.0 then w.1 else old)

-- A legacy queue by the specification: the device knows the page, the number of entries and the
-- alignment, and finds the used ring at the next aligned address behind the other parts.
abbrev pub legacy_view : (ℕ → ℕ) → QueueAt
legacy_view reg =
    let desc = reg 0x040 * reg 0x028 in
    let num = reg 0x038 in
    let align = reg 0x03C in
    record {
      desc_at = desc;
      avail_at = desc + 16 * num;
      used_at = desc + (16 * num + 2 * (3 + num) + align - 1) / align * align;
    }

-- The queue of another device: three addresses, in two halves each.
abbrev pub modern_view : (ℕ → ℕ) → QueueAt
modern_view reg = record {
  desc_at = reg 0x080 + reg 0x084 * 2 ^ 32;
  avail_at = reg 0x090 + reg 0x094 * 2 ^ 32;
  used_at = reg 0x0A0 + reg 0x0A4 * 2 ^ 32;
}

module _ (io : Mmio) where
  open io use {Bus, write}

  -- A register on the side of the device holds what was written to it last.
  pub record Holds (reg : Bus → ℕ → ℕ) : Type 0 where
    pub written : (a x : ℕ) (b : Bus) → reg (write a x b) a ≡ x
    pub others : (a c x : ℕ) (b : Bus) → c ≢ a → reg (write a x b) c ≡ reg b c

  module _ (reg : Bus → ℕ → ℕ) (holds : Holds reg) where
    reg-write :
        (base off at x : ℕ) (b : Bus)
        → reg (write (base + at) x b) (base + off) ≡ (if off == at then x else reg b (base + off))
    reg-write base off at x b = elim (ℕ_discrete off at) [
      | yes e ↦ rw (==_of_eq off at e, e) (holds.written (base + at) x b)
      | no ne ↦
          rw (==_of_ne off at ne)
            (holds.others (base + at) (base + off) x b (λ e. ne (omega arith)))
    ]

    pub reg-write_all :
        (base off : ℕ) (ws : List (ℕ × ℕ)) (b : Bus)
        → reg (write_all io base ws b) (base + off) ≡ last_written ws off (reg b (base + off))
    unfolding write_all last_written
    reg-write_all base off [] b = refl
    reg-write_all base off (w ∷ ws) b =
        reg-write_all base off ws (write (base + w.0) w.1 b)
        ∙ ap (last_written ws off) (reg-write base off w.0 w.1 b)

aligned :
    (heap : ℕ)
    → heap < 2 ^ 43
    → let r = round_up heap 4096 in (heap ≤ r) × (r % 4096 ≡ 0) × (r < 2 ^ 44)
aligned heap room = ground arith

pub QueueAt-path :
    (a b c a' b' c' : ℕ)
    → a ≡ a'
    → b ≡ b'
    → c ≡ c'
    → ◌≡◌ {A = QueueAt}
        (record { desc_at = a; avail_at = b; used_at = c })
        (record { desc_at = a'; avail_at = b'; used_at = c' })
QueueAt-path a b c a' b' c' p q r = rw (p, q, r) refl

-- The registers behind both lists of writes.
abbrev after_setup : List (ℕ × ℕ) → (ℕ → ℕ) → ℕ → ℕ
after_setup ws old off =
    last_written ws off (last_written ((0x030, 0) ∷ (0x038, 256) ∷ []) off (old off))

-- The number of a page, and the halves of an address, give the address back.
legacy_view_lem :
    (q : ℕ) (old : ℕ → ℕ)
    → q % 4096 ≡ 0
    → q < 2 ^ 44
    → legacy_view (after_setup (legacy_registers (queue_at q)) old) ≡ queue_at q
unfolding last_written
legacy_view_lem q old even low =
    let page : u32 (q / 4096) * 4096 ≡ q = omega arith in
    QueueAt-path _ _ _ _ _ _ page (omega arith) (omega arith)

modern_view_lem :
    (q : ℕ) (old : ℕ → ℕ)
    → q < 2 ^ 44
    → modern_view (after_setup (modern_registers (queue_at q)) old) ≡ queue_at q
unfolding last_written
modern_view_lem q old low = QueueAt-path _ _ _ _ _ _ (omega arith) (omega arith) (omega arith)

-- A queue that lies in one piece between two addresses: its parts, of 4096, 518 and 2054 bytes, do not
-- overlap, and the first and the last begin at pages.
pub record IsPlaced (low high : ℕ) (at : QueueAt) : Type 0 where
  pub above : low ≤ at.desc_at
  pub desc_page : at.desc_at % 4096 ≡ 0
  pub desc_room : at.desc_at + 4096 ≤ at.avail_at
  pub avail_room : at.avail_at + 518 ≤ at.used_at
  pub used_page : at.used_at % 4096 ≡ 0
  pub below : at.used_at + 2054 ≤ high

module _ (io : Mmio) (reg : io.Bus → ℕ → ℕ) (holds : Holds io reg) where
  open io use {Bus}

  -- The registers of a slot hold what was written to them last, and the heap is below 2 ^ 43. After
  -- `setup_virtqueue` the queue is taken from the heap, its parts one behind the other and on pages.
  -- A legacy device, of version 1, computes from its registers the addresses that the driver uses; a
  -- device of another version reads them and is told that the queue is ready; both are told of 256
  -- entries.
  pub setup_virtqueue_lem :
      (base version : ℕ) (v : Driver) (b : Bus)
      → v.dma_heap_curr < 2 ^ 43
      → let (at, (v', b')) = setup_virtqueue io base version (v, b) in
        let view = λ (off : ℕ). reg b' (base + off) in
        IsPlaced v.dma_heap_curr v'.dma_heap_curr at
        × ((if version == 1 then legacy_view view else modern_view view) ≡ at)
        × ((version ≡ 1) ⊎ (view 0x044 ≡ 1))
        × (view 0x038 ≡ 256)
  unfolding setup_virtqueue bump_allocate last_written
  setup_virtqueue_lem base version v b room =
      let q = round_up v.dma_heap_curr 4096 in
      let (above, page, low) = aligned v.dma_heap_curr room in
      let start : List (ℕ × ℕ) = (0x030, 0) ∷ (0x038, 256) ∷ [] in
      let old = λ (off : ℕ). reg b (base + off) in
      let after : (ws : List (ℕ × ℕ)) (off : ℕ)
          → reg (write_all io base ws (write_all io base start b)) (base + off)
            ≡ after_setup ws old off =
        λ ws off.
          reg-write_all io reg holds base off ws (write_all io base start b)
          ∙ ap (last_written ws off) (reg-write_all io reg holds base off start b) in
      (
        record {
          above = above;
          desc_page = page;
          desc_room = omega arith;
          avail_room = omega arith;
          used_page = omega arith;
          below = omega arith;
        },
        elim (ℕ_discrete version 1) [
          | yes e ↦ rw (==_of_eq version 1 e) (
              ap legacy_view (fun_ext (after (legacy_registers (queue_at q))))
              ∙ legacy_view_lem q old page low)
          | no ne ↦ rw (==_of_ne version 1 ne) (
              ap modern_view (fun_ext (after (modern_registers (queue_at q))))
              ∙ modern_view_lem q old low)
        ],
        elim (ℕ_discrete version 1) [
          | yes e ↦ inl e
          | no ne ↦ inr (rw (==_of_ne version 1 ne) (after (modern_registers (queue_at q)) 0x044))
        ],
        elim (ℕ_discrete version 1) [
          | yes e ↦ rw (==_of_eq version 1 e) (after (legacy_registers (queue_at q)) 0x038)
          | no ne ↦ rw (==_of_ne version 1 ne) (after (modern_registers (queue_at q)) 0x038)
        ],
      )
