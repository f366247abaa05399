-- ===== src/Fat.antt =====
-- modules/fs/fat32.c: the FAT32 file system. `disk_buffer` and `write_buffer` are read only after
-- the same call has filled them, so they are local values here. `none` is a memory access outside an
-- object, or a division by zero. File names are the bytes from the pointer to the end of its object.
pub mod Name
pub mod Fields
pub mod Directory
pub mod File
pub mod Entry
pub mod Store
pub mod Stored
pub mod Mount
pub mod Append
pub mod Chain
pub mod ReadMore
pub mod AppendTests
pub mod ReadBack
pub mod Listing
pub mod Stale
pub mod Tests
pub mod VolumeTests
use ai_os_exchange.Fat.Fields.{le16, le32}
use ai_os_exchange.Disk.{BlockDevice}
use ai_os_exchange.Prelude.{
  ℕ, zero, suc, ◌+◌, ◌-◌, ◌*◌, ◌/◌, ◌%◌, ◌^◌, ◌≡◌, List, [], ◌∷◌, ◌++◌, if◌then◌else◌, ◌==◌, ◌&&◌,
  ◌||◌, not, ltb, Bool, true, false, Option, none, some, ◌>>=◌, Bytes, codes, get_or, u32, sub32,
  length,
}
use ai_os_exchange.Uart.{Uart, uart_print}
use ai_os_exchange.Uart.Hex.{uart_print_hex}

-- The global state variables.
pub record Fs : Type 0 where
  pub bytes_per_cluster : ℕ
  pub fat_start_sector : ℕ
  pub data_start_sector : ℕ
  pub root_dir_cluster : ℕ
  pub max_valid_clusters : ℕ

-- A FAT32 cluster number as a sector of the disk; uint32_t arithmetic.
unfoldable pub cluster_to_sector : Fs → ℕ → ℕ
cluster_to_sector fs cluster =
    u32 (fs.data_start_sector + u32 (sub32 cluster 2 * (fs.bytes_per_cluster / 512)))

-- The variables that a boot sector gives; `sectors_per_cluster` is a divisor.
unfoldable pub mount : Bytes → Option Fs
mount boot =
    let bytes_per_sector = le16 boot 11 in
    let sectors_per_cluster = get_or boot 13 0 in
    let reserved_sectors = le16 boot 14 in
    let fat_count = get_or boot 16 0 in
    let total_sectors_16 = le16 boot 19 in
    let total_sectors_32 = le32 boot 32 in
    let sectors_per_fat_32 = le32 boot 36 in
    let root_cluster = le32 boot 44 in
    let total_sectors =
      if not (total_sectors_32 == 0) then total_sectors_32 else total_sectors_16 in
    let clusters = total_sectors / sectors_per_cluster in
    if sectors_per_cluster == 0
    then none
    else some (record {
      bytes_per_cluster = u32 (bytes_per_sector * sectors_per_cluster);
      fat_start_sector = reserved_sectors;
      data_start_sector = u32 (reserved_sectors + u32 (fat_count * sectors_per_fat_32));
      root_dir_cluster = root_cluster;
      max_valid_clusters = if clusters == 0 then 65536 else clusters;
    })

-- The printed report of a mount.
unfoldable pub mount_report : Fs → Uart → Uart
mount_report fs u =
    let line = λ (label : Bytes) (n : ℕ) (v : Uart).
      uart_print (codes "\n") (uart_print_hex n (uart_print label v)) in
    line (codes "     -> Root Cluster  : ") fs.root_dir_cluster (
      line (codes "     -> Data Start LBA: ") fs.data_start_sector (
        line (codes "     -> FAT Start LBA : ") fs.fat_start_sector (
          line (codes "     -> Bytes/Cluster : ") fs.bytes_per_cluster
            (uart_print (codes "[FS] FAT32 Mount Successful!\n") u))))

module _ (dev : BlockDevice) where
  open dev use {Disk, read_sector}

  -- A disk that cannot be read, or whose boot sector is not signed, leaves the variables.
  unfoldable pub fs_fat32_init : Fs → Disk → Uart → Option (Fs × Disk × Uart)
  unfolding mount
  fs_fat32_init fs d u =
      let start = uart_print (codes "[FS] Initializing FAT32 File System (Direct Mode)...\n") u in
      let d1 = (read_sector 0 d).1 in
      elim (read_sector 0 d).0 [
        | none ↦ some (fs, d1, uart_print (codes "[FS] ERROR: Failed to read Boot Sector.\n") start)
        | some boot ↦
            if not (get_or boot 510 0 == 0x55) || not (get_or boot 511 0 == 0xAA)
            then some
                (fs, d1, uart_print (codes "[FS] ERROR: Invalid Boot Sector signature.\n") start)
            else (mount boot >>= λ mounted. some (mounted, d1, mount_report mounted start))
      ]
