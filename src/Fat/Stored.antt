-- ===== src/Fat/Stored.antt =====
-- What a write of a new file leaves in the bytes of the disk: the fields of the directory entry, the
-- cluster's number in the table, and the file's sector.
use mathlib.Core.Path.{subst}
use ai_os_exchange.Prelude.{
  ℕ, zero, suc, ◌+◌, ◌-◌, ◌*◌, ◌^◌, ◌≤◌, ◌<◌, ◌≡◌, ◌≢◌, ◌⊎◌, refl, sym, ◌∙◌, ap, [], ◌∷◌, ◌++◌, min,
  some, Bytes, length, take, get_or, replicate, arith, ==_of_eq, ==_of_ne, overlay, length-append,
  length-take,
}
use ai_os_exchange.Disk.{BlockDevice, IsReliable}
use ai_os_exchange.Fat.{Fs, cluster_to_sector}
use ai_os_exchange.Fat.Name.{format_fat_name}
use ai_os_exchange.Fat.Name.Shape.{format_fat_name_lem}
use ai_os_exchange.Fat.Fields.{
  le16, le32, put16, put32, bytes_at, store, bytes_at_stored, get_or_stored_tail, get_or-store_self,
  get_or-store_ne, le16_stored, le32_stored,
}
use ai_os_exchange.Fat.Directory.{
  find_free_entry, find_free_cluster, entry_tail, mark_used, put_entry,
}
use ai_os_exchange.Fat.File.{data_sector, root_sector, fs_write_file_content}
use ai_os_exchange.Fat.Entry.{length-entry_tail, find_free_entry_lem}
use ai_os_exchange.Fat.Store.{find_free_cluster_lem, Apart, fs_write_file_content_lem}

-- A number in the table is four bytes.
marked_number :
    (fat : Bytes) (c : ℕ) → length fat ≡ 512 → c < 128 → le32 (mark_used fat c) (4 * c) ≡ 0x0FFFFFFF
unfolding mark_used le32 put32
marked_number fat c sized low =
    let byte : (j : ℕ)
        → j < 4
        → get_or (mark_used fat c) (4 * c + j) 0 ≡ get_or (255 ∷ 255 ∷ 255 ∷ 15 ∷ []) j 0 =
      λ j h. get_or-store_self fat (4 * c) (255 ∷ 255 ∷ 255 ∷ 15 ∷ []) j h (omega (arith, sized)) in
    let first : 4 * c ≡ 4 * c + 0 = omega arith in
    omega (
      arith,
      ap (λ i. get_or (mark_used fat c) i 0) first ∙ byte 0 (omega arith),
      byte 1 (omega arith),
      byte 2 (omega arith),
      byte 3 (omega arith),
    )

marked_others :
    (fat : Bytes) (c k : ℕ)
    → (k < 4 * c) ⊎ (4 * c + 4 ≤ k)
    → get_or (mark_used fat c) k 0 ≡ get_or fat k 0
unfolding mark_used put32
marked_others fat c k h = get_or-store_ne fat (4 * c) _ k h

-- The fields of an entry, by their offsets in `struct fat32_dir_entry`.
pub record IsEntry (dir : Bytes) (at : ℕ) (name : Bytes) (cluster size : ℕ) : Type 0 where
  pub name_field : bytes_at dir at 11 ≡ name
  pub attr : get_or dir (at + 11) 0 ≡ 0x20
  pub fst_clus_hi : le16 dir (at + 20) ≡ 0
  pub fst_clus_lo : le16 dir (at + 26) ≡ cluster
  pub file_size : le32 dir (at + 28) ≡ size

tail_fields :
    (c s : ℕ)
    → c < 128
    → s < 2 ^ 32
    → (le16 (entry_tail c s) 9 ≡ 0)
      × (le16 (entry_tail c s) 15 ≡ c)
      × (le32 (entry_tail c s) 17 ≡ s)
unfolding entry_tail put16 put32 le16 le32
tail_fields c s low fits = (omega arith, omega arith, omega arith)

tail_attr : (c s : ℕ) → get_or (entry_tail c s) 0 0 ≡ 0x20
unfolding entry_tail
tail_attr c s = refl

put_entry-IsEntry :
    (dir : Bytes) (i : ℕ) (name : Bytes) (c s : ℕ)
    → i < 16
    → length dir ≡ 512
    → length name ≡ 11
    → c < 128
    → s < 2 ^ 32
    → IsEntry (put_entry dir i name c s) (32 * i) name c s
unfolding put_entry
put_entry-IsEntry dir i name c s room sized long low small =
    let fits : 32 * i + length name + length (entry_tail c s) ≤ length dir =
      omega (arith, length-entry_tail c s) in
    let (hi, lo, size) = tail_fields c s low small in
    record {
      name_field =
          ap (bytes_at (store dir (32 * i) (name ++ entry_tail c s)) (32 * i)) (sym long)
          ∙ bytes_at_stored dir (32 * i) name (entry_tail c s) fits;
      attr =
          get_or_stored_tail dir (32 * i) name (entry_tail c s) fits (32 * i + 11) 0 (omega arith)
            (omega (arith, length-entry_tail c s))
          ∙ tail_attr c s;
      fst_clus_hi =
          le16_stored dir (32 * i) name (entry_tail c s) fits (32 * i + 20) 9 (omega arith)
            (omega (arith, length-entry_tail c s))
          ∙ hi;
      fst_clus_lo =
          le16_stored dir (32 * i) name (entry_tail c s) fits (32 * i + 26) 15 (omega arith)
            (omega (arith, length-entry_tail c s))
          ∙ lo;
      file_size =
          le32_stored dir (32 * i) name (entry_tail c s) fits (32 * i + 28) 17 (omega arith)
            (omega (arith, length-entry_tail c s))
          ∙ size;
    }

entry_others :
    (dir : Bytes) (i : ℕ) (name : Bytes) (c s k : ℕ)
    → length name ≡ 11
    → (k < 32 * i) ⊎ (32 * i + 32 ≤ k)
    → get_or (put_entry dir i name c s) k 0 ≡ get_or dir k 0
unfolding put_entry
entry_others dir i name c s k long h =
    get_or-store_ne dir (32 * i) (name ++ entry_tail c s) k
      (omega (arith, h, length-append name (entry_tail c s), length-entry_tail c s))

overlay_zeroes :
    (xs : Bytes) (n : ℕ)
    → length xs ≤ n
    → overlay xs (replicate n 0) ≡ xs ++ replicate (n - length xs) 0
overlay_zeroes [] n h = let e : n ≡ n - 0 = omega arith in ap (λ m. replicate m 0) e
overlay_zeroes (x ∷ xs) zero h = absurd (omega arith)
overlay_zeroes (x ∷ xs) (suc n) h =
    let e : n - length xs ≡ suc n - suc (length xs) = omega arith in
    ap (λ r. x ∷ r) (overlay_zeroes xs n (omega arith) ∙ ap (λ m. xs ++ replicate m 0) e)

filled_sector :
    (m : ℕ) (data_bytes : Bytes)
    → m ≤ 512
    → m ≤ length data_bytes
    → data_sector (take m data_bytes) ≡ take m data_bytes ++ replicate (512 - m) 0
unfolding data_sector
filled_sector m data_bytes small long =
    let n : length (take m data_bytes) ≡ m = omega (arith, length-take m data_bytes) in
    overlay_zeroes (take m data_bytes) 512 (omega arith)
    ∙ ap (λ l. take m data_bytes ++ replicate (512 - l) 0) n

module _ (dev : BlockDevice) (ok : IsReliable dev) (fs : Fs) where
  open dev use {Disk, content, content_size}

  -- On a device on which no request fails, with a free cluster of the first FAT sector, a free entry,
  -- and the sectors of the table, the directory and the file different: a write, of a size of 32 bits
  -- and of as many bytes as the data has at least, returns. Then the cluster's number in the table is
  -- the end-of-chain mark 0x0FFFFFFF and a byte of the table outside of this number is as it was; the
  -- free entry has the name, the archive attribute, the cluster and the size, at the offsets of the
  -- structure, and a byte of the directory outside of it is as it was; the file's sector has the first
  -- 512 bytes of the data at most, filled up with zeroes; and another sector is as it was.
  pub fs_write_file_content_stored :
      (filename data_bytes : Bytes) (size : ℕ) (d : Disk) {target : Bytes} {cluster i : ℕ}
      (j k t : ℕ)
      → format_fat_name filename ≡ some target
      → find_free_cluster (content d fs.fat_start_sector) 126 2 ≡ some cluster
      → find_free_entry (content d (root_sector dev fs)) 16 0 ≡ some i
      → Apart dev ok fs cluster
      → min size 512 ≤ length data_bytes
      → size < 2 ^ 32
      → (j < 4 * cluster) ⊎ (4 * cluster + 4 ≤ j)
      → (k < 32 * i) ⊎ (32 * i + 32 ≤ k)
      → t ≢ fs.fat_start_sector
      → t ≢ root_sector dev fs
      → t ≢ cluster_to_sector fs cluster
      → let root = root_sector dev fs in
        let start = fs.fat_start_sector in
        (d' : Disk) × (fs_write_file_content dev fs filename data_bytes size d ≡ some d')
        × (le32 (content d' start) (4 * cluster) ≡ 0x0FFFFFFF)
        × (get_or (content d' start) j 0 ≡ get_or (content d start) j 0)
        × IsEntry (content d' root) (32 * i) target cluster size
        × (get_or (content d' root) k 0 ≡ get_or (content d root) k 0)
        × (content d' (cluster_to_sector fs cluster)
            ≡ take (min size 512) data_bytes ++ replicate (512 - min size 512) 0)
        × (content d' t ≡ content d t)
  fs_write_file_content_stored filename data_bytes size d {target} {cluster} {i} j k t n c e a h
        fits other_j other_k not_fat not_root not_file =
      let root = root_sector dev fs in
      let start = fs.fat_start_sector in
      let file = cluster_to_sector fs cluster in
      let (d', returns, holds) =
        fs_write_file_content_lem dev ok fs filename data_bytes size d n c e a h in
      let (_, high, _) = find_free_cluster_lem (content d start) 126 2 {c = cluster} c in
      let (_, room, _, _) = find_free_entry_lem (content d root) 16 0 e in
      let (long, _) = format_fat_name_lem filename n in
      let table : content d' start ≡ mark_used (content d start) cluster =
        holds start
        ∙ rw
            (
              ==_of_ne start root a.fat_root,
              ==_of_ne start file a.fat_file,
              ==_of_eq start start refl,
            )
            refl in
      let directory : content d' root ≡ put_entry (content d root) i target cluster size =
        holds root ∙ rw (==_of_eq root root refl) refl in
      let sector : content d' file ≡ data_sector (take (min size 512) data_bytes) =
        holds file
        ∙ rw (==_of_ne file root (λ z. a.root_file (sym z)), ==_of_eq file file refl) refl in
      (
        d',
        returns,
        ap (λ b. le32 b (4 * cluster)) table
            ∙ marked_number (content d start) cluster (content_size d start) (omega arith),
        ap (λ b. get_or b j 0) table ∙ marked_others (content d start) cluster j other_j,
        subst (λ b. IsEntry b (32 * i) target cluster size) (sym directory)
            (put_entry-IsEntry (content d root) i target cluster size (omega arith)
              (content_size d root) long (omega arith) fits),
        ap (λ b. get_or b k 0) directory
            ∙ entry_others (content d root) i target cluster size k long other_k,
        sector ∙ filled_sector (min size 512) data_bytes (omega arith) h,
        holds t
            ∙ rw (==_of_ne t root not_root, ==_of_ne t file not_file, ==_of_ne t start not_fat)
                refl,
      )
