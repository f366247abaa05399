-- ===== src/Virtio/Setup.antt =====
-- The set-up of a virtqueue over the registers of a slot: `setup_virtqueue` and `virtio_blk_init` of
-- kernel/virtio.c. The registers are the machine's, so reading and writing one are parameters.
use Prim.Native.Nat.{bit_or}
use ai_os_exchange.Prelude.{
  ℕ, ◌+◌, ◌-◌, ◌*◌, ◌/◌, ◌%◌, ◌^◌, List, [], ◌∷◌, if◌then◌else◌, ◌==◌, replicate, u32, u64,
}
use ai_os_exchange.Keyboard.{virtq_size}
use ai_os_exchange.Virtio.{Desc, Queue, Driver, bump_allocate}

-- The registers, by their addresses; a write changes the state of the bus.
pub record Mmio : Type 1 where
  pub Bus : Type 0
  pub read : ℕ → Bus → ℕ
  pub write : ℕ → ℕ → Bus → Bus

-- Where the three parts of a queue are.
pub record QueueAt : Type 0 where
  pub desc_at : ℕ
  pub avail_at : ℕ
  pub used_at : ℕ

abbrev pub reg_status : ℕ
reg_status = 0x070

abbrev pub reg_queue_notify : ℕ
reg_queue_notify = 0x050

abbrev pub status_acknowledge : ℕ
status_acknowledge = 1

abbrev pub status_driver : ℕ
status_driver = 2

abbrev pub status_driver_ok : ℕ
status_driver_ok = 4

abbrev pub status_features_ok : ℕ
status_features_ok = 8

abbrev pub desc_size : ℕ
desc_size = 16 * virtq_size

abbrev pub avail_size : ℕ
avail_size = 6 + 2 * virtq_size

abbrev pub queue_pad : ℕ
queue_pad = 4096 - (desc_size + avail_size) % 4096

abbrev pub used_size : ℕ
used_size = 6 + 8 * virtq_size

abbrev pub queue_at : ℕ → QueueAt
queue_at queue_base = record {
  desc_at = queue_base;
  avail_at = u64 (queue_base + desc_size);
  used_at = u64 (queue_base + desc_size + avail_size + queue_pad);
}

abbrev pub zero_desc : Desc
zero_desc = record { addr = 0; len = 0; flags = 0; next = 0 }

-- A queue in cleared memory; `last_used_idx` is a global that is not set.
abbrev pub fresh_queue : Queue → Queue
fresh_queue q = record {
  desc = replicate virtq_size zero_desc;
  avail_idx = 0;
  ring = replicate virtq_size 0;
  used_idx = 0;
  last_used_idx = q.last_used_idx;
}

-- The registers that tell a device where its queue is, in the order in which they are written.
abbrev pub legacy_registers : QueueAt → List (ℕ × ℕ)
legacy_registers at = (0x028, 4096) ∷ (0x03C, 4096) ∷ (0x040, u32 (at.desc_at / 4096)) ∷ []

abbrev pub modern_registers : QueueAt → List (ℕ × ℕ)
modern_registers at =
    (0x080, at.desc_at % 2 ^ 32)
    ∷ (0x084, u32 (at.desc_at / 2 ^ 32))
    ∷ (0x090, at.avail_at % 2 ^ 32)
    ∷ (0x094, u32 (at.avail_at / 2 ^ 32))
    ∷ (0x0A0, at.used_at % 2 ^ 32)
    ∷ (0x0A4, u32 (at.used_at / 2 ^ 32))
    ∷ (0x044, 1)
    ∷ []

module _ (io : Mmio) where
  open io use {Bus, read, write}

  -- Registers of a slot, in order.
  unfoldable pub write_all : ℕ → List (ℕ × ℕ) → Bus → Bus
  write_all base [] b = b
  write_all base (w ∷ ws) b = write_all base ws (write (base + w.0) w.1 b)

  -- `*status |= flag`
  abbrev pub set_status : ℕ → ℕ → Bus → Bus
  set_status base flag b = write (base + reg_status) (bit_or (read (base + reg_status) b) flag) b

  -- `*status = 0; *status = VIRTIO_STATUS_ACKNOWLEDGE | VIRTIO_STATUS_DRIVER;`
  abbrev pub reset_device : ℕ → Bus → Bus
  reset_device base =
      write_all base ((reg_status, 0) ∷ (reg_status, bit_or status_acknowledge status_driver) ∷ [])

  -- The features of a device that is not a legacy one: none but VIRTIO_F_VERSION_1.
  abbrev pub negotiate : ℕ → ℕ → Bus → Bus
  negotiate base version b =
      if version == 1
      then b
      else set_status base status_features_ok
          (write_all base ((0x024, 0) ∷ (0x020, 0) ∷ (0x024, 1) ∷ (0x020, 1) ∷ []) b)

  unfoldable pub setup_virtqueue : ℕ → ℕ → Driver × Bus → QueueAt × (Driver × Bus)
  unfolding bump_allocate
  setup_virtqueue base version (v, b) =
      let (queue_base, v1) =
        bump_allocate (desc_size + avail_size + queue_pad + used_size) 4096 v in
      let at = queue_at queue_base in
      let b1 = write_all base ((0x030, 0) ∷ (0x038, virtq_size) ∷ []) b in
      (
        at,
        (v1, write_all base (if version == 1 then legacy_registers at else modern_registers at) b1),
      )

  unfoldable pub virtio_blk_init : ℕ → ℕ → Driver × Bus → Driver × Bus
  virtio_blk_init base version (v, b) =
      let (at, (v1, b1)) =
        setup_virtqueue base version (record v { blk_mmio_base = base }, reset_device base b) in
      (record v1 { blk = fresh_queue v1.blk }, set_status base status_driver_ok b1)
