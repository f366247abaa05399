-- ===== src/Virtio/Files.antt =====
-- The file system on the driver: what is written to a file arrives on the device.
use ai_os_exchange.Prelude.{
  ℕ, ◌^◌, ◌≤◌, ◌<◌, ◌≡◌, refl, sym, ◌∙◌, some, Bytes, length, min, take, arith, ==_of_eq, ==_of_ne,
}
use native.Mathlib.Decide.{dec_lt}
use ai_os_exchange.Disk.{BlockDevice}
use ai_os_exchange.Fat.{Fs, cluster_to_sector}
use ai_os_exchange.Fat.Name.{format_fat_name}
use ai_os_exchange.Fat.Directory.{find_free_entry, find_free_cluster}
use ai_os_exchange.Fat.File.{data_sector, root_sector, fs_write_file_content}
use ai_os_exchange.Fat.Store.{Apart, fs_write_file_content_lem}
use ai_os_exchange.Virtio.{Device}
use ai_os_exchange.Virtio.Offer.{IsReader, IsWriter, IsIdle}
use ai_os_exchange.Virtio.Drive.{Drive, drive, at_sector}
use ai_os_exchange.Virtio.Faultless.{IsFaultless, drive-IsReliable}

cluster_to_sector_low : (fs : Fs) (cluster : ℕ) → cluster_to_sector fs cluster < 2 ^ 64
unfolding cluster_to_sector
cluster_to_sector_low fs cluster = omega arith

module _ (dev : Device) (contents : dev.State → ℕ → Bytes)
    (sized : (s : dev.State) (t : ℕ) → length (contents s t) ≡ 512) (reader : IsReader dev contents)
    (writer : IsWriter dev contents) (buffer : ℕ) where
  abbrev pub hard_disk : BlockDevice
  hard_disk = drive dev contents sized reader writer buffer

  -- A sector that a call can name is the device's.
  pub device_sector :
      (t : ℕ) (d : Drive dev contents sized reader writer buffer)
      → t < 2 ^ 64
      → hard_disk.content d t ≡ contents d.state t
  device_sector t d low = by_size (dec_lt t (2 ^ 64))
    where
      by_size :
          (h : Dec (t < 2 ^ 64))
          → at_sector dev contents sized reader writer buffer t h d ≡ contents d.state t
      by_size (yes h) = refl
      by_size (no h) = absurd (h low)

  -- A file is written while the driver is between two requests, to a block device that keeps to the
  -- specification and never reports an error; there is a free cluster of the first FAT sector and a
  -- free entry, and the sectors of the table, the directory and the file are different. Then the
  -- write returns, the device's sector of the cluster holds the front of the data behind which it
  -- is zero, and the driver is between two requests again.
  pub fs_write_file_content-device :
      (fine : IsFaultless dev) (fs : Fs) (filename data_bytes : Bytes) (size : ℕ)
      (d : Drive dev contents sized reader writer buffer) {target : Bytes} {cluster i : ℕ}
      → format_fat_name filename ≡ some target
      → find_free_cluster (hard_disk.content d fs.fat_start_sector) 126 2 ≡ some cluster
      → find_free_entry (hard_disk.content d (root_sector hard_disk fs)) 16 0 ≡ some i
      → Apart hard_disk (drive-IsReliable dev contents sized reader writer buffer fine) fs cluster
      → min size 512 ≤ length data_bytes
      → (d' : Drive dev contents sized reader writer buffer) × (fs_write_file_content hard_disk fs
            filename data_bytes size d
          ≡ some d')
        × (contents d'.state (cluster_to_sector fs cluster)
            ≡ data_sector (take (min size 512) data_bytes))
        × IsIdle d'.driver
  fs_write_file_content-device fine fs filename data_bytes size d {target} {cluster} {i} named free
        entry a len =
      let ok = drive-IsReliable dev contents sized reader writer buffer fine in
      let s = cluster_to_sector fs cluster in
      let (d', wrote, holds) =
        fs_write_file_content_lem hard_disk ok fs filename data_bytes size d named free entry a
          len in
      (
        d',
        wrote,
        sym (device_sector s d' (cluster_to_sector_low fs cluster))
            ∙ holds s
            ∙ rw
                (
                  ==_of_ne s (root_sector hard_disk fs) (λ z. a.root_file (sym z)),
                  ==_of_eq s s refl,
                )
                refl,
        d'.idle,
      )
