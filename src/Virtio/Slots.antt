-- ===== src/Virtio/Slots.antt =====
-- The search for devices, slot by slot: it ends, and finds the block device.
use ai_os_exchange.Prelude.{
  ◌⊎◌, ℕ, zero, suc, ◌+◌, ◌*◌, ◌%◌, ◌^◌, ◌≤◌, ◌<◌, ◌≡◌, ◌≢◌, ◌-◌, refl, ◌∙◌, inl, inr, Option, some,
  ◌==◌, ◌||◌, not, Bool-cases, arith, true, ==_of_eq, ==_of_ne,
}
use native.Mathlib.Decide.{ℕ_discrete}
use ai_os_exchange.Mmu.{Layout}
use ai_os_exchange.Virtio.{Device}
use ai_os_exchange.Virtio.Setup.{Mmio}
use ai_os_exchange.Virtio.Probe.{
  Machine, probe_input, probe_blk, probe_slot, probe_slots, virtio_probe_and_init, virtio_magic,
}
use ai_os_exchange.Virtio.Screen.{Spares-weaken, Answers}
use ai_os_exchange.Virtio.Offer.{IsIdle}
use ai_os_exchange.Virtio.Found.{
  IsPrepared, Spares-IsPrepared, IsPrepared-Spares, IsPrepared-IsIdle, HasIds,
}
use ai_os_exchange.Virtio.Slot.{
  slot_heap, slot, IsBlk, Probed, probe_input-Probed, probe_blk-Probed, probe_gpu-Probed, nothing,
}

-- No block device in the first `n` slots.
abbrev pub NoBlk : (io : Mmio) → ℕ → io.Bus → Type 0
NoBlk io n b = (k : ℕ) → k < n → ¬ IsBlk io (slot k) b

IsBlk-Dec : (io : Mmio) (base : ℕ) (b : io.Bus) → Dec (IsBlk io base b)
IsBlk-Dec io base b = elim (ℕ_discrete (io.read base b) virtio_magic) [
  | yes e ↦ elim (ℕ_discrete (io.read (base + 8) b) 2) [
    | yes e' ↦ yes (e, e')
    | no ne ↦ no (λ blk. ne blk.1)
  ]
  | no ne ↦ no (λ blk. ne blk.0)
]

search-IsBlk :
    (io : Mmio) (n : ℕ) (b : io.Bus) → ((k : ℕ) × (k < n) × IsBlk io (slot k) b) ⊎ NoBlk io n b
search-IsBlk io zero b = inr (λ k h. absurd (omega arith))
search-IsBlk io (suc n) b = elim (IsBlk-Dec io (slot n) b) [
  | yes blk ↦ inl (n, omega arith, blk)
  | no not_here ↦ elim (search-IsBlk io n b) [
    | inl (k, h, blk) ↦ inl (k, omega arith, blk)
    | inr absent ↦ inr (λ k h blk. elim (ℕ_discrete k n) [
      | yes e ↦ not_here (rw (e) at blk)
      | no ne ↦ absent k (omega arith) blk
    ])
  ]
]

module _ (at : Layout) (io : Mmio) (display : Device) (ids : HasIds io)
    (answers : Answers display) where
  -- A slot is probed, and a block device in it is found.
  abbrev pub SlotDone : ℕ → ℕ → Machine io display → Option (Machine io display) → Type 0
  SlotDone base high m r =
      (m' : Machine io display) × (r ≡ some m')
      × Probed at io display ids answers high m m'
      × (IsBlk io base m.bus → m'.driver.blk_mmio_base ≢ 0)

  probe_slot-SlotDone :
      (base high : ℕ) (m : Machine io display)
      → high < 2 ^ 37 - 2 ^ 15
      → base ≢ 0
      → IsPrepared high m.driver
      → SlotDone base (high + slot_heap) m (probe_slot at io display base m)
  unfolding probe_slot
  probe_slot-SlotDone base high m low there h =
      let magic = io.read base m.bus in
      let version = io.read (base + 4) m.bus in
      let devid = io.read (base + 8) m.bus in
      elim (Bool-cases (not (magic == virtio_magic) || devid == 0 || devid == 1)) [
        | inl skip ↦ (
          m,
          rw (skip) refl,
          nothing at io display ids answers high m h,
          λ blk. absurd (other_test blk skip),
        )
        | inr go ↦ elim (ℕ_discrete devid 18) [
          | yes input ↦ (
            probe_input at io display base version m,
            rw (go, ==_of_eq devid 18 input) refl,
            probe_input-Probed at io display ids answers base version high m (omega arith) h,
            λ blk. absurd (omega (arith, blk.1)),
          )
          | no not_input ↦ elim (ℕ_discrete devid 16) [
            | yes gpu ↦
                let (m', e, done) =
                  probe_gpu-Probed at io display ids answers base version high m low h in
                (
                  m',
                  rw (go, ==_of_ne devid 18 not_input, ==_of_eq devid 16 gpu) e,
                  done,
                  λ blk. absurd (omega (arith, blk.1)),
                )
            | no not_gpu ↦ elim (ℕ_discrete devid 2) [
              | yes blk ↦
                  let (done, found) =
                    probe_blk-Probed at io display ids answers base version high m (omega arith)
                      there h in
                  (
                    probe_blk at io display base version m,
                    rw
                        (
                          go,
                          ==_of_ne devid 18 not_input,
                          ==_of_ne devid 16 not_gpu,
                          ==_of_eq devid 2 blk,
                        )
                        refl,
                    done,
                    λ _. found,
                  )
              | no not_blk ↦ (
                m,
                rw
                    (
                      go,
                      ==_of_ne devid 18 not_input,
                      ==_of_ne devid 16 not_gpu,
                      ==_of_ne devid 2 not_blk,
                    )
                    refl,
                nothing at io display ids answers high m h,
                λ blk. absurd (not_blk blk.1),
              )
            ]
          ]
        ]
      ]
    where
      other_test :
          {magic devid : ℕ}
          → (magic ≡ virtio_magic) × (devid ≡ 2)
          → (not (magic == virtio_magic) || devid == 0 || devid == 1) ≡ true
          → ⊥
      other_test h e = cc (rw (h.0, h.1) at e)

  slot_id : (k : ℕ) → (slot k % 512 ≤ 8) × ((slot k + 8) % 512 ≤ 8)
  slot_id k = (omega arith, omega arith)

  -- The slots from `i` on.
  probe_slots-lem :
      (n i : ℕ) (m : Machine io display)
      → i + n ≤ 32
      → IsPrepared (2 ^ 31 + i * slot_heap) m.driver
      → (m' : Machine io display) × (probe_slots at io display n i m ≡ some m')
        × Probed at io display ids answers (2 ^ 31 + (i + n) * slot_heap) m m'
        × ((k : ℕ) → i ≤ k → k < i + n → IsBlk io (slot k) m.bus → m'.driver.blk_mmio_base ≢ 0)
  unfolding probe_slots
  probe_slots-lem zero i m h p = (
    m,
    refl,
    record {
      prepared = Spares-IsPrepared p (Spares-weaken (omega arith) (IsPrepared-Spares p));
      same = λ a s. refl;
      kept = λ ne. ne;
    },
    λ k a b. absurd (omega arith),
  )
  probe_slots-lem (suc n) i m h p =
      let (m1, e1, one, found) =
        probe_slot-SlotDone (slot i) (2 ^ 31 + i * slot_heap) m (omega arith)
          (λ z. absurd (omega arith)) p in
      let (m2, e2, rest, later) = probe_slots-lem n (i + 1) m1 (omega arith) (
        Spares-IsPrepared one.prepared
          (Spares-weaken (omega arith) (IsPrepared-Spares one.prepared))) in
      (
        m2,
        rw (e1) e2,
        record {
          prepared =
              Spares-IsPrepared rest.prepared
                (Spares-weaken (omega arith) (IsPrepared-Spares rest.prepared));
          same = λ a s. rest.same a s ∙ one.same a s;
          kept = λ ne. rest.kept (one.kept ne);
        },
        λ k a b blk. elim (ℕ_discrete i k) [
          | yes e ↦ rest.kept (found (rw (e) blk))
          | no ne ↦
              later k (omega arith) (omega arith) (
                one.same (slot k) (slot_id k).0 ∙ blk.0,
                one.same (slot k + 8) (slot_id k).1 ∙ blk.1,
              )
        ],
      )

  -- Memory is total, the devices' ids cannot be written, and the display uses something whenever it is notified. From
  -- the globals of the start of the kernel, with the heap below 2 ^ 31, the search for devices ends;
  -- and there is a block device in none of the 32 slots, or one was found and the driver is ready for
  -- requests, whatever devices the other slots hold.
  pub virtio_probe_and_init_lem :
      (m : Machine io display)
      → m.driver.dma_heap_curr ≤ 2 ^ 31
      → m.driver.global_desc_idx < 2 ^ 16
      → m.driver.blk_mmio_base ≡ 0
      → m.driver.blk.last_used_idx ≡ 0
      → (m' : Machine io display) × (virtio_probe_and_init at io display m ≡ some m')
        × (NoBlk io 32 m.bus ⊎ IsIdle m'.driver)
  virtio_probe_and_init_lem m heap counter absent unused =
      let (m', e, done, found) =
        probe_slots-lem 32 0 m (omega arith)
          (record { counter = counter; heap = heap; unused = unused; queue = inl absent }) in
      (
        m',
        e,
        elim (search-IsBlk io 32 m.bus) [
          | inl (k, h, blk) ↦ inr (
              IsPrepared-IsIdle done.prepared (omega arith)
                (found k (omega arith) (omega arith) blk))
          | inr absent ↦ inl absent
        ],
      )
