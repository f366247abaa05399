-- ===== src/Fat/AppendTests.antt =====
-- An append to the file of the disk in memory.
use ai_os_exchange.Prelude.{
  ℕ, ◌+◌, ◌-◌, ◌≡◌, ◌≢◌, ◌≤◌, refl, ap, ◌∙◌, some, Bytes, codes, take, min, arith, ◌++◌, [], ◌∷◌,
  overlay, replicate, sub32,
}
use ai_os_exchange.Watcher.Tests.{console}
use ai_os_exchange.Fat.{cluster_to_sector}
use ai_os_exchange.Fat.Fields.{le32}
use ai_os_exchange.Fat.Directory.{fat_entry, first_byte}
use ai_os_exchange.Fat.File.{last, walk, root_sector, fs_append_file_content, fs_read_file_content}
use ai_os_exchange.Fat.ReadMore.{fs_read_file_content-fs_append_file_content}
use ai_os_exchange.Fat.Tests.{
  sector_of, ram, ram-IsReliable, volume, name, disk_again, directory, named, there_first,
  old_cluster, old_size,
}

one_cluster : walk volume.max_valid_clusters (ram.content disk_again 1) 3 ≡ last 3
unfolding walk sector_of fat_entry le32
one_cluster = refl

root_differs : root_sector ram volume ≢ cluster_to_sector volume 3
unfolding cluster_to_sector
root_differs e = absurd (omega arith)

first_letter : first_byte directory 0 ≡ 65
unfolding sector_of cluster_to_sector
first_letter = refl

in_use : (m : ℕ) → m ≤ 0 → first_byte directory m ≢ 0
in_use m h z =
    let e : m ≡ 0 = omega arith in
    let same : first_byte directory m ≡ 65 = ap (first_byte directory) e ∙ first_letter in
    absurd (omega arith)

fs_read_file_content-fs_append_file_content_example :
    (d1 : ℕ → Bytes) × (d2 : ℕ → Bytes) × (fs_append_file_content ram volume name
        (codes " world")
        6
        disk_again
        console
      ≡ some (d1, console))
    × (fs_read_file_content ram volume name (replicate 256 7) 256 d1
        ≡ some (
          overlay
              (take (min (5 + min 6 (512 - 5)) (sub32 256 1)) (
                  take 5 (ram.content disk_again (cluster_to_sector volume 3))
                  ++ take (min 6 (512 - 5)) (codes " world"))
                ++ 0 ∷ [])
              (replicate 256 7),
          d2,
        ))
fs_read_file_content-fs_append_file_content_example =
    fs_read_file_content-fs_append_file_content ram ram-IsReliable volume name (codes " world")
      (replicate 256 7) 6 256 disk_again console 0 3 5 named there_first in_use old_cluster old_size
      one_cluster (omega arith) (omega arith) root_differs (omega arith) (omega arith)
