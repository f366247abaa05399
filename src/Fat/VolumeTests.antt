-- ===== src/Fat/VolumeTests.antt =====
-- The boot sector of a small volume, and a file whose cluster links to itself.
use mathlib.Core.Path.{subst}
use ai_os_exchange.Prelude.{
  ◌%◌, ◌^◌, sym, ◌*◌, ℕ, ◌+◌, ◌≤◌, ◌≡◌, ◌≢◌, refl, [], ◌∷◌, ◌++◌, if◌then◌else◌, ◌==◌, some, Bytes,
  codes, replicate, arith, get_or,
}
use ai_os_exchange.Uart.{uart_print}
use ai_os_exchange.Watcher.Tests.{console}
use ai_os_exchange.Fat.{Fs, cluster_to_sector, mount}
use ai_os_exchange.Fat.Fields.{le16, le32, bytes_eq, bytes_at}
use ai_os_exchange.Fat.Directory.{find_index, cluster_at}
use ai_os_exchange.Fat.File.{root_sector, fs_append_file_content}
use ai_os_exchange.Fat.Store.{Apart}
use ai_os_exchange.Fat.Mount.{IsFormatted, tables_end, mount-Apart}
use ai_os_exchange.Fat.Chain.{Chain, stop, link, fs_append_file_content_circular}
use ai_os_exchange.Fat.Tests.{
  sector_of, ram, ram-IsReliable, volume, name, target, text, table, named,
}

-- One reserved sector, one table of one sector, and 200 sectors in all.
abbrev boot_sector : Bytes
boot_sector =
    replicate 11 0
    ++ (0 ∷ 2 ∷ 1 ∷ 1 ∷ 0 ∷ 1 ∷ replicate 15 0)
    ++ (200 ∷ 0 ∷ 0 ∷ 0 ∷ 1 ∷ 0 ∷ 0 ∷ 0 ∷ replicate 4 0)
    ++ (2 ∷ 0 ∷ 0 ∷ 0 ∷ [])

abbrev small_volume : Fs
small_volume = record {
  bytes_per_cluster = 512;
  fat_start_sector = 1;
  data_start_sector = 2;
  root_dir_cluster = 2;
  max_valid_clusters = 200;
}

formatted : IsFormatted boot_sector 100
unfolding le16 le32
formatted = record {
  sector_bytes = refl;
  some_sectors = omega arith;
  few_sectors = omega arith;
  reserved = omega arith;
  tables = omega arith;
  table_sectors = omega arith;
  root = omega arith;
  root_in = omega arith;
  fits = omega arith;
}

mounted : mount boot_sector ≡ some small_volume
unfolding mount le16 le32
mounted = refl

-- The file's cluster 3 links to itself.
abbrev circular_disk : ℕ → Bytes
circular_disk s =
    if s == 1
    then table ++ (3 ∷ 0 ∷ 0 ∷ 0 ∷ [])
    else if s == 2
    then target ++ (32 ∷ replicate 8 0) ++ (0 ∷ 0 ∷ 0 ∷ 0 ∷ 0 ∷ 0 ∷ 3 ∷ 0 ∷ 5 ∷ [])
    else if s == 3
    then text
    else []

found : find_index target (ram.content circular_disk (root_sector ram volume)) 16 0 ≡ some 0
unfolding find_index sector_of cluster_to_sector bytes_eq bytes_at
found = refl

first_cluster : cluster_at (ram.content circular_disk (root_sector ram volume)) 0 ≡ 3
unfolding sector_of cluster_to_sector cluster_at le16
first_cluster = refl

loop_link : le32 (ram.content circular_disk 1) (4 * 3) % 2 ^ 28 ≡ 3
unfolding sector_of le32
loop_link = refl

other_than_directory : 3 ≢ small_volume.root_dir_cluster
other_than_directory e = absurd (omega arith)

mount-Apart_example :
    Apart ram ram-IsReliable small_volume 3
    × (tables_end boot_sector ≤ cluster_to_sector small_volume 3)
    × (cluster_to_sector small_volume 3 + get_or boot_sector 13 0
        ≤ cluster_to_sector small_volume 4)
    × (cluster_to_sector small_volume 4 + get_or boot_sector 13 0
        ≤ tables_end boot_sector + 100 * get_or boot_sector 13 0)
mount-Apart_example =
    mount-Apart ram ram-IsReliable boot_sector 100 3 4 {fs = small_volume} formatted mounted
      (omega arith) (omega arith) (omega arith) other_than_directory

abbrev Links : ℕ → ℕ → Type 0
Links = Chain (ram.content circular_disk 1) 0

to_cycle : Links (cluster_at (ram.content circular_disk (root_sector ram volume)) 0) 3
to_cycle = subst (λ c. Links c 3) (sym first_cluster) stop

cycle : Chain (ram.content circular_disk 1) 1 3 3
cycle = link 3 (omega arith) loop_link (omega arith) (omega arith) stop

fs_append_file_content_circular_example :
    (d' : ℕ → Bytes) × (fs_append_file_content ram volume name text 5 circular_disk console
      ≡ some (
        d',
        uart_print (codes "[FS] FATAL: Circular FAT chain detected! Aborting append.\n") console,
      ))
    × ((t : ℕ) → ram.content d' t ≡ ram.content circular_disk t)
fs_append_file_content_circular_example =
    fs_append_file_content_circular ram ram-IsReliable volume name text 5 circular_disk console 0 0
      0 3 named found to_cycle cycle
