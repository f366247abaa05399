-- ===== src/Virtio/DriveTests.antt =====
-- The driver as a disk, on the block device that keeps its sectors by the bytes of their numbers.
use ai_os_exchange.Prelude.{
  ℕ, ◌^◌, ◌<◌, ◌≡◌, refl, ap, ◌∙◌, [], ◌∷◌, some, if◌then◌else◌, ◌==◌, min, take, get_or, replicate,
  length, arith,
}
use ai_os_exchange.Disk.{BlockDevice}
use ai_os_exchange.Fat.Fields.{put32}
use ai_os_exchange.Fat.{cluster_to_sector}
use ai_os_exchange.Fat.Directory.{find_free_entry, find_free_cluster}
use ai_os_exchange.Fat.File.{data_sector, root_sector, fs_write_file_content}
use ai_os_exchange.Fat.Store.{Apart}
use ai_os_exchange.Fat.Tests.{
  length-sector_of, volume, table, name, text, free_cluster, free_entry, named,
}
use ai_os_exchange.Virtio.Store.{Memory, store, put64, store_in}
use ai_os_exchange.Virtio.Offer.{IsIdle}
use ai_os_exchange.Virtio.Drive.{Drive}
use ai_os_exchange.Virtio.Faultless.{IsFaultless, drive-IsReliable}
use ai_os_exchange.Virtio.Files.{hard_disk, device_sector, fs_write_file_content-device}
use ai_os_exchange.Virtio.Tests.{
  Platter, platter, content, platter-IsReader, platter-IsWriter, idle, idle-IsIdle,
}

platter-size : (s : Platter) (t : ℕ) → length (content s t) ≡ 512
platter-size s t = length-sector_of (s (put64 t))

-- The sectors of an empty volume.
abbrev shelf : Platter
shelf key = if get_or key 0 0 == 1 then table else []

abbrev PlatterDrive : Type 0
PlatterDrive = Drive platter content platter-size platter-IsReader platter-IsWriter 0x40001000

abbrev shelf_disk : BlockDevice
shelf_disk = hard_disk platter content platter-size platter-IsReader platter-IsWriter 0x40001000

abbrev loaded : PlatterDrive
loaded = record {
  driver = idle;
  state = shelf;
  idle = idle-IsIdle;
  below = omega arith;
  beside = λ t. replicate 512 0;
  beside_size = λ t. refl;
}

status_written : (status : ℕ) (m : Memory) → store status (0 ∷ []) m status ≡ 0
status_written status m =
    ap (store status (0 ∷ []) m) (omega arith) ∙ store_in status (0 ∷ []) m 0 (omega arith)

platter-IsFaultless : IsFaultless platter
platter-IsFaultless = record {
  read_fine = λ sector buffer status q m s h. rw (h.chain) (status_written status _);
  write_fine = λ sector buffer status q m s h. rw (h.chain) (status_written status _);
}

sector_at : (t : ℕ) → t < 2 ^ 64 → shelf_disk.content loaded t ≡ content shelf t
sector_at t low =
    device_sector platter content platter-size platter-IsReader platter-IsWriter 0x40001000 t loaded
      low

drive_cluster : find_free_cluster (shelf_disk.content loaded 1) 126 2 ≡ some 3
unfolding put32
drive_cluster = ap (λ b. find_free_cluster b 126 2) (sector_at 1 (omega arith)) ∙ free_cluster

drive_entry :
    find_free_entry (shelf_disk.content loaded (root_sector shelf_disk volume)) 16 0 ≡ some 0
unfolding put32 cluster_to_sector
drive_entry = ap (λ b. find_free_entry b 16 0) (sector_at 2 (omega arith)) ∙ free_entry

drive-Apart :
    Apart shelf_disk
      (drive-IsReliable platter content platter-size platter-IsReader platter-IsWriter 0x40001000
        platter-IsFaultless)
      volume
      3
unfolding cluster_to_sector
drive-Apart = record {
  fat_root = λ e. absurd (omega arith);
  fat_file = λ e. absurd (omega arith);
  root_file = λ e. absurd (omega arith);
}

fs_write_file_content-device_example :
    (d' : PlatterDrive) × (fs_write_file_content shelf_disk volume name text 5 loaded ≡ some d')
    × (content d'.state (cluster_to_sector volume 3) ≡ data_sector (take (min 5 512) text))
    × IsIdle d'.driver
fs_write_file_content-device_example =
    fs_write_file_content-device platter content platter-size platter-IsReader platter-IsWriter
      0x40001000 platter-IsFaultless volume name text 5 loaded named drive_cluster drive_entry
      drive-Apart (omega arith)
