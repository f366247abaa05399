-- ===== src/Disk.antt =====
-- The block device as modules/fs/fat32.c uses it through `virtio_blk_read_sector` and
-- `virtio_blk_write_sector` of kernel/virtio.c. The device behind the queue is not in the
-- repository, so the two calls are a record, with what the virtio specification promises of them.
use native.Mathlib.Decide.{ℕ_discrete}
use ai_os_exchange.Prelude.{
  ℕ, ◌≡◌, ◌≢◌, Option, some, Bool, true, Bytes, length, ◌==◌, if◌then◌else◌, ==_of_eq, ==_of_ne,
}

abbrev pub sector_size : ℕ
sector_size = 512

-- `none` and `false` are the result -1. The buffer that a failed read leaves is never looked at.
pub record BlockDevice : Type 1 where
  pub Disk : Type 0
  pub read_sector : ℕ → Disk → Option Bytes × Disk
  pub write_sector : ℕ → Bytes → Disk → Bool × Disk
  -- What the disk holds, sector by sector.
  pub content : Disk → ℕ → Bytes
  pub content_size : (d : Disk) (s : ℕ) → length (content d s) ≡ sector_size
  -- A read changes nothing, and gives what is there if it succeeds.
  pub read_frame : (s t : ℕ) (d : Disk) → content (read_sector s d).1 t ≡ content d t
  pub read_back : (s : ℕ) (d : Disk) {b : Bytes} → (read_sector s d).0 ≡ some b → b ≡ content d s
  -- A write changes its sector at most, and stores the buffer if it succeeds.
  pub write_frame :
      (s t : ℕ) (b : Bytes) (d : Disk) → t ≢ s → content (write_sector s b d).1 t ≡ content d t
  pub write_back :
      (s : ℕ) (b : Bytes) (d : Disk)
      → length b ≡ sector_size
      → (write_sector s b d).0 ≡ true
      → content (write_sector s b d).1 s ≡ b

-- A device on which no request fails.
pub record IsReliable (dev : BlockDevice) : Type 0 where
  pub reads : (s : ℕ) (d : dev.Disk) → (dev.read_sector s d).0 ≡ some (dev.content d s)
  pub writes : (s : ℕ) (b : Bytes) (d : dev.Disk) → (dev.write_sector s b d).0 ≡ true

-- After a write that succeeds, every sector is known.
pub content-write :
    (dev : BlockDevice) (ok : IsReliable dev) (s t : ℕ) (b : Bytes) (d : dev.Disk)
    → length b ≡ sector_size
    → dev.content (dev.write_sector s b d).1 t ≡ (if t == s then b else dev.content d t)
content-write dev ok s t b d h = elim (ℕ_discrete t s) [
  | yes e ↦ rw (==_of_eq t s e, e) (dev.write_back s b d h (ok.writes s b d))
  | no ne ↦ rw (==_of_ne t s ne) (dev.write_frame s t b d ne)
]
