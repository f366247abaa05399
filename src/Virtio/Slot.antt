-- ===== src/Virtio/Slot.antt =====
-- The set-up of the device in one slot: what it keeps, and the block device that is found.
use ai_os_exchange.Prelude.{
  ℕ, ◌+◌, ◌*◌, ◌^◌, ◌<◌, ◌≡◌, ◌≢◌, ◌-◌, refl, sym, ◌∙◌, ap, inr, some, arith,
}
use ai_os_exchange.Mmu.{Layout, virtio_mmio_base}
use ai_os_exchange.Virtio.{Queue, Driver, Device}
use ai_os_exchange.Virtio.Setup.{
  Mmio, negotiate, reset_device, set_status, setup_virtqueue, virtio_blk_init, fresh_queue,
}
use ai_os_exchange.Virtio.Probe.{
  Machine, probe_input, probe_gpu, probe_blk, virtio_magic, slot_size,
}
use ai_os_exchange.Virtio.Screen.{Spares-weaken, Answers, bump_8-Spares, gpu_init-Sends}
use ai_os_exchange.Virtio.Found.{
  IsPrepared, Spares-IsPrepared, IsPrepared-Spares, fresh_queue-zero, HasIds, SameIds,
  write_all-SameIds, set_status-SameIds, negotiate-SameIds, setup_virtqueue-SameIds,
  setup_virtqueue-Spares,
}

-- The heap that a slot takes at most: the framebuffer, and less than 2 ^ 17 bytes.
abbrev pub slot_heap : ℕ
slot_heap = 2 ^ 32 + 2 ^ 17

abbrev pub slot : ℕ → ℕ
slot i = virtio_mmio_base + i * slot_size

-- A block device in the slot at `base`.
abbrev pub IsBlk : (io : Mmio) → ℕ → io.Bus → Type 0
IsBlk io base b = (io.read base b ≡ virtio_magic) × (io.read (base + 8) b ≡ 2)

module _ (at : Layout) (io : Mmio) (display : Device) (ids : HasIds io)
    (answers : Answers display) where
  -- What the set-up of a slot may change.
  pub record Probed (high : ℕ) (m m' : Machine io display) : Type 0 where
    pub prepared : IsPrepared high m'.driver
    pub same : SameIds io m.bus m'.bus
    pub kept : m.driver.blk_mmio_base ≢ 0 → m'.driver.blk_mmio_base ≢ 0

  -- The first writes to a device, and its queue.
  ready_bus :
      (base version : ℕ) (v : Driver) (b : io.Bus)
      → SameIds io b
          (setup_virtqueue io base version
            (v, negotiate io base version (reset_device io base b))).1.1
  ready_bus base version v b a h =
      setup_virtqueue-SameIds io ids base version v _ a h
      ∙ negotiate-SameIds io ids base version (reset_device io base b) a h
      ∙ write_all-SameIds io ids base _ b a h

  pub probe_input-Probed :
      (base version high : ℕ) (m : Machine io display)
      → high < 2 ^ 38
      → IsPrepared high m.driver
      → Probed (high + slot_heap) m (probe_input at io display base version m)
  unfolding probe_input
  probe_input-Probed base version high m low h =
      let b = negotiate io base version (reset_device io base m.bus) in
      let (q, (v1, b1)) = setup_virtqueue io base version (m.driver, b) in
      let first =
        setup_virtqueue-Spares io base version high m.driver m.driver b (omega arith)
          (IsPrepared-Spares h) in
      let spares =
        bump_8-Spares 2048 (high + 2 ^ 14) m.driver v1 (omega arith) (omega arith) first in
      record {
        prepared = Spares-IsPrepared h (Spares-weaken (omega arith) spares);
        same = λ a s.
            ids a _ _ _ s
            ∙ set_status-SameIds io ids base 4 b1 a s
            ∙ ready_bus base version m.driver m.bus a s;
        kept = λ ne e. ne (sym spares.base ∙ e);
      }

  pub probe_blk-Probed :
      (base version high : ℕ) (m : Machine io display)
      → high < 2 ^ 38
      → base ≢ 0
      → IsPrepared high m.driver
      → Probed (high + slot_heap) m (probe_blk at io display base version m)
        × ((probe_blk at io display base version m).driver.blk_mmio_base ≢ 0)
  unfolding probe_blk virtio_blk_init
  probe_blk-Probed base version high m low there h =
      let v = record m.driver { blk_mmio_base = base } in
      let (q, (v1, b1)) = setup_virtqueue io base version (v, reset_device io base m.bus) in
      let spares =
        setup_virtqueue-Spares io base version high v v (reset_device io base m.bus) (omega arith)
          (record { queue = refl; base = refl; counter = h.counter; heap = h.heap }) in
      let found : v1.blk_mmio_base ≢ 0 = λ e. there (sym spares.base ∙ e) in
      let unused : v1.blk.last_used_idx ≡ 0 =
        ap (λ (q : Queue). q.last_used_idx) spares.queue ∙ h.unused in
      (
        record {
          prepared = record {
            counter = spares.counter;
            heap = omega (arith, spares.heap);
            unused = unused;
            queue = inr (fresh_queue-zero v1.blk unused);
          };
          same = λ a s.
              set_status-SameIds io ids base 4 b1 a s
              ∙ setup_virtqueue-SameIds io ids base version v _ a s
              ∙ write_all-SameIds io ids base _ m.bus a s;
          kept = λ ne. found;
        },
        found,
      )

  pub probe_gpu-Probed :
      (base version high : ℕ) (m : Machine io display)
      → high < 2 ^ 37 - 2 ^ 15
      → IsPrepared high m.driver
      → (m' : Machine io display) × (probe_gpu at io display base version m ≡ some m')
        × Probed (high + slot_heap) m m'
  unfolding probe_gpu
  probe_gpu-Probed base version high m low h =
      let b = negotiate io base version (reset_device io base m.bus) in
      let v = record m.driver { gpu_mmio_base = base } in
      let (q, (v1, b1)) = setup_virtqueue io base version (v, b) in
      let first =
        setup_virtqueue-Spares io base version high m.driver v b (omega arith)
          (record { queue = refl; base = refl; counter = h.counter; heap = h.heap }) in
      let (p, t, e, spares) =
        gpu_init-Sends display answers at (high + 2 ^ 14) m.driver
          (record v1 { gpu = fresh_queue v1.gpu }) m.screen m.tables (omega arith)
          (record {
            queue = first.queue;
            base = first.base;
            counter = first.counter;
            heap = first.heap;
          }) in
      (
        record m { driver = p.0; screen = p.1; tables = t; bus = set_status io base 4 b1 },
        rw (e) refl,
        record {
          prepared = Spares-IsPrepared h (Spares-weaken (omega arith) spares);
          same =
              λ a s. set_status-SameIds io ids base 4 b1 a s ∙ ready_bus base version v m.bus a s;
          kept = λ ne e. ne (sym spares.base ∙ e);
        },
      )

  pub nothing :
      (high : ℕ) (m : Machine io display) → IsPrepared high m.driver → Probed (high + slot_heap) m m
  nothing high m h = record {
    prepared = Spares-IsPrepared h (Spares-weaken (omega arith) (IsPrepared-Spares h));
    same = λ a s. refl;
    kept = λ ne. ne;
  }
