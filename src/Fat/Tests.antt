-- ===== src/Fat/Tests.antt =====
-- The file system's theorems on a disk in memory: the table in sector 1, the root directory in
-- sector 2, as cluster 2, and the data behind it.
use mathlib.Core.Path.{subst}
use ai_os_exchange.Prelude.{
  ℕ, ◌*◌, ◌-◌, get_or, inl, inr, ◌≡◌, ◌≢◌, ◌≤◌, refl, ◌∙◌, sym, ap, [], ◌∷◌, ◌++◌, if◌then◌else◌,
  ◌==◌, true, none, some, Bytes, codes, length, take, replicate, arith, ==_of_eq, ==_of_ne, overlay,
  min, sub32, length-append, length-take, length-replicate, some_cancel, take-append_all,
}
use ai_os_exchange.Disk.{BlockDevice, IsReliable}
use ai_os_exchange.Fat.{Fs, cluster_to_sector}
use ai_os_exchange.Fat.Name.{format_fat_name, base_part, skip_part, after_dot, pad, upper}
use ai_os_exchange.Fat.Fields.{le16, le32, bytes_eq, bytes_at}
use ai_os_exchange.Fat.Directory.{
  find_file, find_index, find_free_entry, find_free_cluster, fat_entry, cluster_at, size_at,
}
use ai_os_exchange.Fat.File.{root_sector, fs_read_file_content, fs_write_file_content}
use ai_os_exchange.Fat.Store.{Apart}
use ai_os_exchange.Fat.Stored.{IsEntry, fs_write_file_content_stored}
use ai_os_exchange.Fat.ReadBack.{fs_read_file_content-fs_write_file_content}
use ai_os_exchange.Fat.Stale.{fs_write_file_content-stale}
use ai_os_exchange.Fat.Listing.{list_from, length-list_from}

-- A sector of any bytes, cut and filled up to 512.
unfoldable pub sector_of : Bytes → Bytes
sector_of xs = take 512 (xs ++ replicate 512 0)

pub length-sector_of : (xs : Bytes) → length (sector_of xs) ≡ 512
unfolding sector_of
length-sector_of xs = omega (
  arith,
  length-take 512 (xs ++ replicate 512 0),
  length-append xs (replicate 512 0),
  length-replicate {A = ℕ} 512 0,
)

pub sector_of_full : (xs : Bytes) → length xs ≡ 512 → sector_of xs ≡ xs
unfolding sector_of
sector_of_full xs h = take-append_all 512 xs (replicate 512 0) (sym h)

abbrev pub ram : BlockDevice
ram = record {
  Disk = ℕ → Bytes;
  read_sector = λ s d. (some (sector_of (d s)), d);
  write_sector = λ s b d. (true, λ t. if t == s then b else d t);
  content = λ d s. sector_of (d s);
  content_size = λ d s. length-sector_of (d s);
  read_frame = λ s t d. refl;
  read_back = λ s d {b} e. sym (some_cancel e);
  write_frame = λ s t b d ne. ap sector_of (rw (==_of_ne t s ne));
  write_back = λ s b d h e. ap sector_of (rw (==_of_eq s s refl)) ∙ sector_of_full b h;
}

pub ram-IsReliable : IsReliable ram
ram-IsReliable = record { reads = λ s d. refl; writes = λ s b d. refl }

abbrev pub volume : Fs
volume = record {
  bytes_per_cluster = 512;
  fat_start_sector = 1;
  data_start_sector = 2;
  root_dir_cluster = 2;
  max_valid_clusters = 65536;
}

-- The table's first entries are in use.
abbrev pub table : Bytes
table = 248 ∷ 255 ∷ 255 ∷ 15 ∷ 255 ∷ 255 ∷ 255 ∷ 15 ∷ 255 ∷ 255 ∷ 255 ∷ 15 ∷ []

abbrev pub empty_disk : ℕ → Bytes
empty_disk s = if s == 1 then table else []

abbrev pub name : Bytes
name = codes "A.TXT" ++ 0 ∷ []

abbrev pub target : Bytes
target = codes "A       TXT"

abbrev pub text : Bytes
text = codes "hello"

-- The disk is ready for a new file.
pub free_cluster : find_free_cluster (ram.content empty_disk 1) 126 2 ≡ some 3
unfolding find_free_cluster sector_of fat_entry le32
free_cluster = refl

pub free_entry : find_free_entry (ram.content empty_disk (root_sector ram volume)) 16 0 ≡ some 0
unfolding find_free_entry sector_of cluster_to_sector
free_entry = refl

absent : find_index target (ram.content empty_disk (root_sector ram volume)) 16 0 ≡ none
unfolding find_index sector_of cluster_to_sector bytes_eq bytes_at
absent = refl

pub named : format_fat_name name ≡ some target
unfolding format_fat_name base_part skip_part after_dot pad upper
named = refl

pub apart : Apart ram ram-IsReliable volume 3
unfolding cluster_to_sector
apart = record {
  fat_root = λ e. absurd (omega arith);
  fat_file = λ e. absurd (omega arith);
  root_file = λ e. absurd (omega arith);
}

ninth_other : 9 ≢ root_sector ram volume
unfolding cluster_to_sector
ninth_other e = absurd (omega arith)

ninth_other_file : 9 ≢ cluster_to_sector volume 3
unfolding cluster_to_sector
ninth_other_file e = absurd (omega arith)

fs_write_file_content_stored_example :
    (d' : ℕ → Bytes) × (fs_write_file_content ram volume name text 5 empty_disk ≡ some d')
    × (le32 (ram.content d' 1) (4 * 3) ≡ 0x0FFFFFFF)
    × (get_or (ram.content d' 1) 8 0 ≡ get_or (ram.content empty_disk 1) 8 0)
    × IsEntry (ram.content d' (root_sector ram volume)) (32 * 0) target 3 5
    × (get_or (ram.content d' (root_sector ram volume)) 32 0
        ≡ get_or (ram.content empty_disk (root_sector ram volume)) 32 0)
    × (ram.content d' (cluster_to_sector volume 3)
        ≡ take (min 5 512) text ++ replicate (512 - min 5 512) 0)
    × (ram.content d' 9 ≡ ram.content empty_disk 9)
fs_write_file_content_stored_example =
    fs_write_file_content_stored ram ram-IsReliable volume name text 5 empty_disk 8 32 9 named
      free_cluster free_entry apart (omega arith) (omega arith) (inl (omega arith))
      (inr (omega arith)) (omega arith) ninth_other ninth_other_file

fs_read_file_content-fs_write_file_content_example :
    (d1 : ℕ → Bytes) × (d2 : ℕ → Bytes) × (fs_write_file_content ram volume name text 5 empty_disk
      ≡ some d1)
    × (fs_read_file_content ram volume name (replicate 256 7) 256 d1
        ≡ some (overlay (take (min 5 (sub32 256 1)) text ++ 0 ∷ []) (replicate 256 7), d2))
fs_read_file_content-fs_write_file_content_example =
    fs_read_file_content-fs_write_file_content ram ram-IsReliable volume name text (replicate 256 7)
      5 256 empty_disk named absent free_cluster free_entry apart (omega arith) (omega arith)
      (omega arith) (omega arith)

-- A disk that holds the file.
abbrev disk_with_file : ℕ → Bytes
disk_with_file s =
    if s == 2
    then target ++ (32 ∷ replicate 8 0) ++ (0 ∷ 0 ∷ 0 ∷ 0 ∷ 0 ∷ 0 ∷ 3 ∷ 0 ∷ 5 ∷ [])
    else if s == 3
    then text
    else []

file_found : find_file target (ram.content disk_with_file (root_sector ram volume)) 16 0 ≡ (3, 5)
unfolding find_file sector_of cluster_to_sector bytes_eq bytes_at cluster_at size_at le16 le32
file_found = refl

length-list_from_example :
    length (list_from 256 (ram.content disk_with_file 2) 16 0 []) ≤ sub32 256 1
length-list_from_example = length-list_from 256 (ram.content disk_with_file 2) 16 0 [] (omega arith)

-- The same disk with a table in which the file's cluster is in use.
abbrev pub disk_again : ℕ → Bytes
disk_again s = if s == 1 then table ++ (255 ∷ 255 ∷ 255 ∷ 15 ∷ []) else disk_with_file s

abbrev pub directory : Bytes
directory = ram.content disk_again (root_sector ram volume)

pub there_first : find_index target directory 16 0 ≡ some 0
unfolding find_index sector_of cluster_to_sector bytes_eq bytes_at
there_first = refl

next_entry : find_free_entry directory 16 0 ≡ some 1
unfolding find_free_entry sector_of cluster_to_sector
next_entry = refl

next_cluster : find_free_cluster (ram.content disk_again 1) 126 2 ≡ some 4
unfolding find_free_cluster sector_of fat_entry le32
next_cluster = refl

pub old_cluster : cluster_at directory 0 ≡ 3
unfolding sector_of cluster_to_sector cluster_at le16
old_cluster = refl

pub old_size : size_at directory 0 ≡ 5
unfolding sector_of cluster_to_sector size_at le32
old_size = refl

new_sectors : Apart ram ram-IsReliable volume 4
unfolding cluster_to_sector
new_sectors = record {
  fat_root = λ e. absurd (omega arith);
  fat_file = λ e. absurd (omega arith);
  root_file = λ e. absurd (omega arith);
}

old_sectors : Apart ram ram-IsReliable volume (cluster_at directory 0)
old_sectors = subst (Apart ram ram-IsReliable volume) (sym old_cluster) apart

sectors_differ : cluster_to_sector volume (cluster_at directory 0) ≢ cluster_to_sector volume 4
unfolding cluster_to_sector
sectors_differ e = absurd (omega (arith, old_cluster))

fs_write_file_content-stale_example :
    (text' : Bytes) × (d1 : ℕ → Bytes) × (d2 : ℕ → Bytes) × (d3 : ℕ → Bytes)
    × (fs_write_file_content ram volume name (codes "other") 5 disk_again ≡ some d1)
    × (fs_read_file_content ram volume name (replicate 256 7) 256 disk_again ≡ some (text', d2))
    × (fs_read_file_content ram volume name (replicate 256 7) 256 d1 ≡ some (text', d3))
fs_write_file_content-stale_example =
    fs_write_file_content-stale ram ram-IsReliable volume name (codes "other") (replicate 256 7) 5
      256 disk_again named there_first next_entry (omega arith) next_cluster new_sectors old_sectors
      sectors_differ (omega (arith, old_cluster)) (omega arith) (omega (arith, old_size))
      (omega (arith, old_size))
