-- ===== src/Virtio/Serve.antt =====
-- The driver on a block device that keeps to the virtio specification: a sector that is read or
-- written gets where it belongs, and the driver always returns.
use native.Mathlib.Decide.{ℕ_discrete}
use ai_os_exchange.Prelude.{
  ℕ, ◌+◌, ◌≤◌, ◌≡◌, refl, ◌∙◌, ap, [], ◌∷◌, ◌⊎◌, inl, inr, some, Bytes, Bool, ◌==◌, replicate,
  arith, u16, u64, ==_of_ne, length-set, false,
}
use ai_os_exchange.Fat.Fields.{put32}
use ai_os_exchange.Virtio.Store.{store, load, put64, load_out}
use ai_os_exchange.Virtio.{
  Driver, Device, round_up, bump_allocate, blk_chain, blk_submit, blk_transfer,
  virtio_blk_read_sector, virtio_blk_write_sector,
}
use ai_os_exchange.Virtio.Offer.{
  Bytes-discrete, IsReader, IsWriter, IsIdle, blk_submit-IsOffered, used_up, await_used-used_up,
  not_yet, round_up_low, status_place,
}

module _ (dev : Device) where
  open dev use {State, serve}

  -- The driver after a request.
  abbrev pub after : ℕ → ℕ → ℕ → ℕ → Driver → State → Driver
  after type flags sector buffer v s =
      let v1 = (blk_submit type flags sector buffer v).1 in
      record v1 {
        blk = used_up v1.blk;
        memory = (serve v1.blk v1.memory s).1;
        dma_heap_curr = v.dma_heap_curr;
      }

  after-IsIdle :
      (type flags sector buffer : ℕ) (v : Driver) (s : State)
      → IsIdle v
      → IsIdle (after type flags sector buffer v s)
  unfolding blk_submit bump_allocate blk_chain
  after-IsIdle type flags sector buffer v s h = record {
    present = h.present;
    queue = record {
      descs = length-set _ _ _ ∙ length-set _ _ _ ∙ length-set _ _ _ ∙ h.queue.descs;
      slots = length-set v.blk.ring _ _ ∙ h.queue.slots;
      index = omega arith;
    };
    counter = omega arith;
    used = refl;
    seen_used = ap (λ i. u16 (i + 1)) h.seen_used;
    room = h.room;
  }

  -- A request that the device uses returns, with the status that the device has written.
  pub blk_transfer_used :
      (type flags sector buffer : ℕ) (v : Driver) (s : State)
      → IsIdle v
      → let (status, v1) = blk_submit type flags sector buffer v in
        ((serve v1.blk v1.memory s).0 ≡ record v1.blk { used_idx = v1.blk.avail_idx }
          → blk_transfer dev type flags sector buffer (v, s)
            ≡ some (
              (serve v1.blk v1.memory s).1 status == 0,
              (after type flags sector buffer v s, (serve v1.blk v1.memory s).2),
            ))
  unfolding blk_transfer
  blk_transfer_used type flags sector buffer v s h uses =
      let v1 = (blk_submit type flags sector buffer v).1 in
      rw
        (
          ==_of_ne v.blk_mmio_base 0 h.present,
          uses,
          await_used-used_up v1.blk (not_yet type flags sector buffer v h),
        )
        refl

  -- A read, between requests, into a buffer below the heap, on a device that keeps to the specification: it returns, leaves the
  -- driver ready for the next request with its heap as it was, and the disk as it was. Either the
  -- result is -1, or the buffer holds the sector.
  pub virtio_blk_read_sector_lem :
      (content : State → ℕ → Bytes) (reader : IsReader dev content) (sector buffer : ℕ) (v : Driver)
      (s : State)
      → IsIdle v
      → buffer + 512 ≤ v.dma_heap_curr
      → (ok : Bool) × (v' : Driver) × (s' : State) × (virtio_blk_read_sector dev sector buffer
            (v, s)
          ≡ some (ok, (v', s')))
        × IsIdle v'
        × (v'.dma_heap_curr ≡ v.dma_heap_curr)
        × ((t : ℕ) → content s' t ≡ content s t)
        × ((ok ≡ false) ⊎ (load 512 buffer v'.memory ≡ content s sector))
  virtio_blk_read_sector_lem content reader sector buffer v s h below =
      let (status, v1) = blk_submit 0 3 sector buffer v in
      let offered = blk_submit-IsOffered 0 3 sector buffer v h below refl in
      (
        (serve v1.blk v1.memory s).1 status == 0,
        after 0 3 sector buffer v s,
        (serve v1.blk v1.memory s).2,
        blk_transfer_used 0 3 sector buffer v s h
            (reader.uses sector buffer status v1.blk v1.memory s offered),
        after-IsIdle 0 3 sector buffer v s h,
        refl,
        λ t. reader.keeps sector buffer status v1.blk v1.memory s t offered,
        elim (ℕ_discrete ((serve v1.blk v1.memory s).1 status) 0) [
          | yes fine ↦ inr (reader.fills sector buffer status v1.blk v1.memory s offered fine)
          | no failed ↦ inl (==_of_ne _ 0 failed)
        ],
      )

  -- A request does not touch a buffer that lies outside the heap.
  buffer_kept :
      (type flags sector buffer : ℕ) (v : Driver)
      → IsIdle v
      → buffer + 512 ≤ v.dma_heap_curr
      → load 512 buffer (blk_submit type flags sector buffer v).1.memory ≡ load 512 buffer v.memory
  unfolding blk_submit bump_allocate put32
  buffer_kept type flags sector buffer v h below =
      let m0 = v.memory in
      let r = round_up v.dma_heap_curr 16 in
      let st = round_up (u64 (r + 16)) 1 in
      let low : buffer + 512 ≤ r = omega (arith, round_up_low v.dma_heap_curr h.room) in
      let high : buffer + 512 ≤ st = omega (arith, status_place v.dma_heap_curr h.room) in
      let m1 = store r (replicate 16 0) m0 in
      let m2 = store r (put32 type) m1 in
      let m3 = store (r + 8) (put64 sector) m2 in
      let m4 = store st (replicate 1 0) m3 in
      load_out 512 buffer st (0xFF ∷ []) m4 (inl high)
      ∙ load_out 512 buffer st (replicate 1 0) m3 (inl high)
      ∙ load_out 512 buffer (r + 8) (put64 sector) m2 (inl (omega arith))
      ∙ load_out 512 buffer r (put32 type) m1 (inl low)
      ∙ load_out 512 buffer r (replicate 16 0) m0 (inl low)

  -- A write, between requests, of a buffer below the heap, on a device that keeps to the
  -- specification: it returns and leaves the driver ready for the next request with its heap as it
  -- was, and every sector with another number of 64 bits as it was. Either the result is -1, or the sector holds the buffer.
  pub virtio_blk_write_sector_lem :
      (content : State → ℕ → Bytes) (writer : IsWriter dev content) (sector buffer : ℕ) (v : Driver)
      (s : State)
      → IsIdle v
      → buffer + 512 ≤ v.dma_heap_curr
      → (ok : Bool) × (v' : Driver) × (s' : State) × (virtio_blk_write_sector dev sector buffer
            (v, s)
          ≡ some (ok, (v', s')))
        × IsIdle v'
        × (v'.dma_heap_curr ≡ v.dma_heap_curr)
        × ((t : ℕ) → (put64 t ≡ put64 sector) ⊎ (content s' t ≡ content s t))
        × ((ok ≡ false) ⊎ (content s' sector ≡ load 512 buffer v.memory))
  virtio_blk_write_sector_lem content writer sector buffer v s h below =
      let (status, v1) = blk_submit 1 1 sector buffer v in
      let offered = blk_submit-IsOffered 1 1 sector buffer v h below refl in
      (
        (serve v1.blk v1.memory s).1 status == 0,
        after 1 1 sector buffer v s,
        (serve v1.blk v1.memory s).2,
        blk_transfer_used 1 1 sector buffer v s h
            (writer.uses sector buffer status v1.blk v1.memory s offered),
        after-IsIdle 1 1 sector buffer v s h,
        refl,
        λ t. elim (Bytes-discrete (put64 t) (put64 sector)) [
          | yes same ↦ inl same
          | no other ↦ inr (writer.keeps sector buffer status v1.blk v1.memory s t other offered)
        ],
        elim (ℕ_discrete ((serve v1.blk v1.memory s).1 status) 0) [
          | yes fine ↦ inr (
              writer.fills sector buffer status v1.blk v1.memory s offered fine
              ∙ buffer_kept 1 1 sector buffer v h below)
          | no failed ↦ inl (==_of_ne _ 0 failed)
        ],
      )
