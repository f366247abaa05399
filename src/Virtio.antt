-- ===== src/Virtio.antt =====
-- The virtqueues of kernel/virtio.c, on which the block device and the display are driven: the heap for
-- requests, the chains of descriptors, and the ring by which the driver offers them. Memory is a byte
-- for each address. The devices are a parameter; cache maintenance is left out.
pub mod Store
pub mod Chain
pub mod Arena
pub mod Cache
pub mod CacheTests
pub mod Offer
pub mod Serve
pub mod Setup
pub mod Layout
pub mod Probe
pub mod Screen
pub mod Found
pub mod Slot
pub mod Slots
pub mod Drive
pub mod Faultless
pub mod Files
pub mod Tests
pub mod DriveTests
pub mod SetupTests
use ai_os_exchange.Prelude.{
  ℕ, zero, suc, ◌+◌, ◌-◌, ◌*◌, ◌%◌, List, [], ◌∷◌, if◌then◌else◌, ◌==◌, ◌||◌, Bool, true, false,
  not, Option, none, some, ◌>>=◌, Bytes, get_or, set, replicate, u16, u32, u64,
}
use ai_os_exchange.Keyboard.{virtq_size}
use ai_os_exchange.Fat.Fields.{put32}
use ai_os_exchange.Virtio.Store.{Memory, store, put64}

-- `struct virtq_desc`
pub record Desc : Type 0 where
  pub addr : ℕ
  pub len : ℕ
  pub flags : ℕ
  pub next : ℕ

-- A queue: the descriptors, `avail->idx` and `avail->ring`, `used->idx`, and the driver's copy of it.
pub record Queue : Type 0 where
  pub desc : List Desc
  pub avail_idx : ℕ
  pub ring : List ℕ
  pub used_idx : ℕ
  pub last_used_idx : ℕ

-- The globals of the driver, and the memory. A queue is `blk_*` or `gpu_*`.
pub record Driver : Type 0 where
  pub memory : Memory
  pub dma_heap_curr : ℕ
  pub global_desc_idx : ℕ
  pub blk_mmio_base : ℕ
  pub blk : Queue
  pub gpu_mmio_base : ℕ
  pub gpu : Queue
  pub active_fb_phys : ℕ
  pub active_fb_width : ℕ
  pub active_fb_height : ℕ

-- What a device does when it is notified: it changes the queue, memory, and its own state.
pub record Device : Type 1 where
  pub State : Type 0
  pub serve : Queue → Memory → State → Queue × Memory × State

abbrev pub desc_f_next : ℕ
desc_f_next = 1

abbrev pub desc_f_write : ℕ
desc_f_write = 2

abbrev pub blk_t_in : ℕ
blk_t_in = 0

abbrev pub blk_t_out : ℕ
blk_t_out = 1

-- The code rounds up with `& ~(align - 1)`, for alignments that are powers of two.
abbrev pub round_up : ℕ → ℕ → ℕ
round_up addr align =
    if addr % align == 0 then addr else u64 (addr + align - 1) - u64 (addr + align - 1) % align

-- A cleared block from the heap.
unfoldable pub bump_allocate : ℕ → ℕ → Driver → ℕ × Driver
bump_allocate size align v =
    let addr = round_up v.dma_heap_curr align in
    (
      addr,
      record v {
        dma_heap_curr = u64 (addr + size);
        memory = store addr (replicate size 0) v.memory;
      },
    )

-- `*(addr) = bytes`
abbrev pub write_memory : ℕ → Bytes → Driver → Driver
write_memory addr bytes v = record v { memory = store addr bytes v.memory }

-- `global_desc_idx++ % VIRTQ_SIZE`
abbrev pub next_desc : Driver → ℕ × Driver
next_desc v =
    (v.global_desc_idx % virtq_size, record v { global_desc_idx = u16 (v.global_desc_idx + 1) })

abbrev pub put_desc : ℕ → Desc → Queue → Queue
put_desc i d q = record q { desc = set q.desc i d }

-- The head of a chain is offered to the device.
abbrev pub offer : ℕ → Queue → Queue
offer head q = record q {
  ring = set q.ring (q.avail_idx % virtq_size) head;
  avail_idx = u16 (q.avail_idx + 1);
}

-- `while (used->idx == last_used_idx)` and `last_used_idx++`: if the device has used nothing, then the
-- driver waits for ever, `none`.
abbrev pub await_used : Queue → Option Queue
await_used q =
    if q.used_idx == q.last_used_idx
    then none
    else some (record q { last_used_idx = u16 (q.last_used_idx + 1) })

-- A chain of three descriptors: the request, the buffer of a sector, and the status.
unfoldable pub blk_chain : ℕ → ℕ → ℕ → ℕ → ℕ × ℕ × ℕ → Queue → Queue
blk_chain req buffer status flags ds q = offer ds.0 (
    put_desc ds.2 (record { addr = status; len = 1; flags = desc_f_write; next = 0 })
      (put_desc ds.1 (record { addr = buffer; len = 512; flags = flags; next = ds.2 })
        (put_desc ds.0 (record { addr = req; len = 16; flags = desc_f_next; next = ds.1 }) q)))

-- A request to the block device, up to the notification, and where its status will be.
unfoldable pub blk_submit : ℕ → ℕ → ℕ → ℕ → Driver → ℕ × Driver
unfolding bump_allocate
blk_submit type flags sector buffer v =
    let (req, v1) = bump_allocate 16 16 v in
    let v2 = write_memory (req + 8) (put64 sector) (write_memory req (put32 type) v1) in
    let (status, v3) = bump_allocate 1 1 v2 in
    let (d0, v4) = next_desc (write_memory status (0xFF ∷ []) v3) in
    let (d1, v5) = next_desc v4 in
    let (d2, v6) = next_desc v5 in
    (status, record v6 { blk = blk_chain req buffer status flags (d0, d1, d2) v6.blk })

-- A chain of two descriptors: a command, and room for its response.
unfoldable pub gpu_chain : ℕ → ℕ → ℕ → ℕ → ℕ × ℕ → Queue → Queue
gpu_chain req req_size resp resp_size ds q = offer ds.0 (
    put_desc ds.1 (record { addr = resp; len = resp_size; flags = desc_f_write; next = 0 })
      (put_desc ds.0 (record { addr = req; len = req_size; flags = desc_f_next; next = ds.1 }) q))

-- `req[ i ] = word`
abbrev pub put_words : ℕ → List (ℕ × ℕ) → Driver → Driver
put_words addr [] v = v
put_words addr (w ∷ ws) v = put_words addr ws (write_memory (addr + 4 * w.0) (put32 w.1) v)

-- `VIRTIO_GPU_CMD_TRANSFER_TO_HOST_2D` and `VIRTIO_GPU_CMD_RESOURCE_FLUSH`, by words.
abbrev pub transfer_words : ℕ → ℕ → List (ℕ × ℕ)
transfer_words width height =
    (0, 0x105)
    ∷ (6, 0)
    ∷ (7, 0)
    ∷ (8, width)
    ∷ (9, height)
    ∷ (10, 0)
    ∷ (11, 0)
    ∷ (12, 1)
    ∷ (13, 0)
    ∷ []

abbrev pub show_words : ℕ → ℕ → List (ℕ × ℕ)
show_words width height =
    (0, 0x104) ∷ (6, 0) ∷ (7, 0) ∷ (8, width) ∷ (9, height) ∷ (10, 1) ∷ (11, 0) ∷ []

module _ (dev : Device) where
  open dev use {State, serve}

  -- `virtio_blk_read_sector` and `virtio_blk_write_sector` but for the type and the flags: true is 0,
  -- false is -1.
  unfoldable pub blk_transfer : ℕ → ℕ → ℕ → ℕ → Driver × State → Option (Bool × (Driver × State))
  blk_transfer type flags sector buffer (v, s) =
      if v.blk_mmio_base == 0
      then some (false, (v, s))
      else (let (status, v1) = blk_submit type flags sector buffer v in
          let (q, m, s1) = serve v1.blk v1.memory s in
          await_used q >>= λ q1. some (
            m status == 0,
            (record v1 { blk = q1; memory = m; dma_heap_curr = v.dma_heap_curr }, s1),
          ))

  abbrev pub virtio_blk_read_sector : ℕ → ℕ → Driver × State → Option (Bool × (Driver × State))
  virtio_blk_read_sector = blk_transfer blk_t_in 3

  abbrev pub virtio_blk_write_sector : ℕ → ℕ → Driver × State → Option (Bool × (Driver × State))
  virtio_blk_write_sector = blk_transfer blk_t_out desc_f_next

  -- The type of the response is returned and not looked at here.
  unfoldable pub send_gpu_command : ℕ → ℕ → ℕ → ℕ → Driver × State → Option (Driver × State)
  send_gpu_command req req_size resp resp_size (v, s) =
      let (d0, v1) = next_desc v in
      let (d1, v2) = next_desc v1 in
      let (q, m, s1) = serve (gpu_chain req req_size resp resp_size (d0, d1) v2.gpu) v2.memory s in
      await_used q >>= λ q1. some (record v2 { gpu = q1; memory = m }, s1)

  -- A command of `size` bytes with the words that are set, and a response of 24 bytes.
  abbrev pub gpu_command : ℕ → List (ℕ × ℕ) → Driver × State → Option (Driver × State)
  gpu_command size words (v, s) =
      let (req, v1) = bump_allocate size 8 v in
      let (resp, v2) = bump_allocate 24 8 v1 in
      send_gpu_command req size resp 24 (put_words req words v2, s)

  -- The two commands of a flush: to transfer the pixels, and to show them.
  abbrev pub transfer_and_show : Driver × State → Option (Driver × State)
  transfer_and_show (v, s) =
      gpu_command 56 (transfer_words v.active_fb_width v.active_fb_height) (v, s)
      >>= gpu_command 48 (show_words v.active_fb_width v.active_fb_height)

  unfoldable pub virtio_gpu_flush : Driver × State → Option (Driver × State)
  virtio_gpu_flush (v, s) =
      if v.gpu_mmio_base == 0 || v.active_fb_phys == 0
      then some (v, s)
      else (transfer_and_show (v, s) >>= λ r.
          some (record r.0 { dma_heap_curr = v.dma_heap_curr }, r.1))
