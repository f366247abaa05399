-- ===== src/Virtio/Offer.antt =====
-- What a block device that keeps to the virtio specification finds when it is offered a request, and
-- what it promises.
use native.Mathlib.Decide.{ℕ_discrete}
use ai_os_exchange.Prelude.{
  ℕ, ◌+◌, ◌%◌, ◌^◌, ◌≤◌, ◌<◌, ◌≡◌, ◌≢◌, refl, sym, ◌∙◌, ap, [], ◌∷◌, inl, some, Bytes, replicate,
  arith, u16, u64, ==_of_ne,
}
use ai_os_exchange.Fat.Fields.{put32}
use ai_os_exchange.Virtio.Store.{Memory, store, load, put64, load_in, load_out}
use ai_os_exchange.Virtio.{
  Queue, Driver, Device, round_up, bump_allocate, await_used, blk_chain, blk_submit,
}
use ai_os_exchange.Virtio.Chain.{IsQueue, follow, head_of, follow-blk_submit}

pub Bytes-discrete : Discrete Bytes
Bytes-discrete = hlevel (ℕ_discrete)

-- A request that has been offered: the device has used all others, and finds the type and the sector
-- in the first buffer, and the status behind the buffer of the sector.
pub record IsOffered (type flags sector buffer status : ℕ) (q : Queue) (m : Memory) : Type 0 where
  pub pending : q.avail_idx ≡ u16 (q.used_idx + 1)
  pub req : ℕ
  pub chain :
      follow 3 q.desc (head_of q) ≡ (req, 16, 1) ∷ (buffer, 512, flags) ∷ (status, 1, 2) ∷ []
  pub req_type : load 4 req m ≡ put32 type
  pub req_sector : load 8 (req + 8) m ≡ put64 sector
  pub apart : buffer + 512 ≤ status

module _ (dev : Device) where
  open dev use {State, serve}

  -- What the specification promises of a device that is offered a read: it uses the chain, writes the
  -- status byte, and, if this is 0, has filled the buffer with the sector. A read keeps the disk.
  pub record IsReader (content : State → ℕ → Bytes) : Type 0 where
    pub uses :
        (sector buffer status : ℕ) (q : Queue) (m : Memory) (s : State)
        → IsOffered 0 3 sector buffer status q m
        → (serve q m s).0 ≡ record q { used_idx = q.avail_idx }
    pub fills :
        (sector buffer status : ℕ) (q : Queue) (m : Memory) (s : State)
        → IsOffered 0 3 sector buffer status q m
        → (serve q m s).1 status ≡ 0
        → load 512 buffer (serve q m s).1 ≡ content s sector
    pub keeps :
        (sector buffer status : ℕ) (q : Queue) (m : Memory) (s : State) (t : ℕ)
        → IsOffered 0 3 sector buffer status q m
        → content (serve q m s).2 t ≡ content s t

  -- The same of a write: if the status is 0, then the sector holds the buffer. Other sectors
  -- stay, where a sector's number has 64 bits.
  pub record IsWriter (content : State → ℕ → Bytes) : Type 0 where
    pub uses :
        (sector buffer status : ℕ) (q : Queue) (m : Memory) (s : State)
        → IsOffered 1 1 sector buffer status q m
        → (serve q m s).0 ≡ record q { used_idx = q.avail_idx }
    pub fills :
        (sector buffer status : ℕ) (q : Queue) (m : Memory) (s : State)
        → IsOffered 1 1 sector buffer status q m
        → (serve q m s).1 status ≡ 0
        → content (serve q m s).2 sector ≡ load 512 buffer m
    pub keeps :
        (sector buffer status : ℕ) (q : Queue) (m : Memory) (s : State) (t : ℕ)
        → put64 t ≢ put64 sector
        → IsOffered 1 1 sector buffer status q m
        → content (serve q m s).2 t ≡ content s t

-- The driver between two requests: the device is there and idle, and the heap has room.
pub record IsIdle (v : Driver) : Type 0 where
  pub present : v.blk_mmio_base ≢ 0
  pub queue : IsQueue v.blk
  pub counter : v.global_desc_idx < 2 ^ 16
  pub used : v.blk.used_idx ≡ v.blk.avail_idx
  pub seen_used : v.blk.last_used_idx ≡ v.blk.avail_idx
  pub room : v.dma_heap_curr < 2 ^ 40

-- The request is where it belongs, between the cleared heap and the status byte.
request_stored :
    (r : ℕ) (type sector : ℕ) (m : Memory)
    → let m1 = store (r + 8) (put64 sector) (store r (put32 type) (store r (replicate 16 0) m)) in
      let m2 = store (r + 16) (0xFF ∷ []) (store (r + 16) (replicate 1 0) m1) in
      (load 4 r m2 ≡ put32 type) × (load 8 (r + 8) m2 ≡ put64 sector)
unfolding put32
request_stored r type sector m =
    let m0 = store r (put32 type) (store r (replicate 16 0) m) in
    let m1 = store (r + 8) (put64 sector) m0 in
    let m2 = store (r + 16) (replicate 1 0) m1 in
    (
      load_out 4 r (r + 16) (0xFF ∷ []) m2 (inl (omega arith))
          ∙ load_out 4 r (r + 16) (replicate 1 0) m1 (inl (omega arith))
          ∙ load_out 4 r (r + 8) (put64 sector) m0 (inl (omega arith))
          ∙ load_in r (put32 type) (store r (replicate 16 0) m),
      load_out 8 (r + 8) (r + 16) (0xFF ∷ []) m2 (inl (omega arith))
          ∙ load_out 8 (r + 8) (r + 16) (replicate 1 0) m1 (inl (omega arith))
          ∙ load_in (r + 8) (put64 sector) m0,
    )

pub round_up_low : (heap : ℕ) → heap < 2 ^ 40 → heap ≤ round_up heap 16
round_up_low heap room = ground arith

-- The heap has room for a request, and for its status behind it.
pub status_place :
    (heap : ℕ) → heap < 2 ^ 40 → round_up (u64 (round_up heap 16 + 16)) 1 ≡ round_up heap 16 + 16
status_place heap room =
    let low : round_up heap 16 < 2 ^ 41 = ground arith in unaligned (round_up heap 16) low
  where
    unaligned : (r : ℕ) → r < 2 ^ 41 → round_up (u64 (r + 16)) 1 ≡ r + 16
    unaligned r low = ground arith

pub blk_submit-IsOffered :
    (type flags sector buffer : ℕ) (v : Driver)
    → IsIdle v
    → buffer + 512 ≤ v.dma_heap_curr
    → flags % 2 ≡ 1
    → let (status, v1) = blk_submit type flags sector buffer v in
      IsOffered type flags sector buffer status v1.blk v1.memory
unfolding blk_submit bump_allocate blk_chain
blk_submit-IsOffered type flags sector buffer v h below more =
    let r = round_up v.dma_heap_curr 16 in
    let at = status_place v.dma_heap_curr h.room in
    let (stored_type, stored_sector) = request_stored r type sector v.memory in
    record {
      pending = ap (λ i. u16 (i + 1)) (sym h.used);
      req = r;
      chain = follow-blk_submit type flags sector buffer 0 v h.queue h.counter more;
      req_type = rw (at) stored_type;
      req_sector = rw (at) stored_sector;
      apart = rw (at) (omega (arith, round_up_low v.dma_heap_curr h.room));
    }

-- The queue after a request that has been used.
abbrev pub used_up : Queue → Queue
used_up q = record q { used_idx = q.avail_idx; last_used_idx = u16 (q.last_used_idx + 1) }

pub await_used-used_up :
    (q : Queue)
    → q.avail_idx ≢ q.last_used_idx
    → await_used (record q { used_idx = q.avail_idx }) ≡ some (used_up q)
await_used-used_up q ne = rw (==_of_ne q.avail_idx q.last_used_idx ne) refl

-- An offered request has not been used.
pub not_yet :
    (type flags sector buffer : ℕ) (v : Driver)
    → IsIdle v
    → let v1 = (blk_submit type flags sector buffer v).1 in v1.blk.avail_idx ≢ v1.blk.last_used_idx
unfolding blk_submit bump_allocate blk_chain
not_yet type flags sector buffer v h e = omega (arith, h.seen_used, h.queue.index)
