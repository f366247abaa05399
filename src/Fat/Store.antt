-- ===== src/Fat/Store.antt =====
-- What `fs_write_file_content` does to a disk on which no request fails, sector by sector.
use native.Mathlib.Decide.{ℕ_discrete}
use ai_os_exchange.Prelude.{
  ℕ, zero, suc, ◌+◌, ◌≤◌, ◌<◌, ◌≡◌, ◌≢◌, refl, sym, ◌∙◌, ap, [], ◌∷◌, if◌then◌else◌, ◌==◌, min,
  some, Bytes, length, take, arith, ==_of_eq, ==_of_ne, length-overlay, replicate, length-replicate,
  length-take, Bool-cases, inl, inr,
}
use ai_os_exchange.Disk.{BlockDevice, IsReliable, content-write}
use ai_os_exchange.Fat.{Fs, cluster_to_sector}
use ai_os_exchange.Fat.Name.{format_fat_name}
use ai_os_exchange.Fat.Directory.{
  find_free_entry, find_free_cluster, fat_entry, mark_used, put_entry, length-put_entry,
  length-mark_used,
}
use ai_os_exchange.Fat.File.{read_bytes, data_sector, root_sector, add_entry, fs_write_file_content}

-- Reading from an object that is long enough gives its front.
pub read_bytes-take : (n : ℕ) (xs : Bytes) → n ≤ length xs → read_bytes n xs ≡ some (take n xs)
unfolding read_bytes
read_bytes-take zero xs h = refl
read_bytes-take (suc n) [] h = absurd (omega arith)
read_bytes-take (suc n) (x ∷ xs) h = rw (read_bytes-take n xs (omega arith))

pub length-data_sector : (front : Bytes) → length front ≤ 512 → length (data_sector front) ≡ 512
unfolding data_sector
length-data_sector front h =
    length-overlay front (replicate 512 0) (omega (arith, length-replicate {A = ℕ} 512 0))
    ∙ length-replicate {A = ℕ} 512 0

-- What the search for a free cluster answers is free and one of the first sector's.
pub find_free_cluster_lem :
    (fat : Bytes) (n j : ℕ) {c : ℕ}
    → find_free_cluster fat n j ≡ some c
    → (j ≤ c) × (c < j + n) × (fat_entry fat c ≡ 0)
unfolding find_free_cluster
find_free_cluster_lem fat zero j e = cc
find_free_cluster_lem fat (suc n) j {c} e = elim (Bool-cases (fat_entry fat j == 0)) [
  | inl free ↦ ground arith
  | inr used ↦ ground (arith, find_free_cluster_lem fat n (j + 1) {c = c})
]

module _ (dev : BlockDevice) (ok : IsReliable dev) (fs : Fs) where
  open dev use {Disk, read_sector, write_sector, content}

  -- The three sectors that a write of a new file touches are different.
  pub record Apart (cluster : ℕ) : Type 0 where
    pub fat_root : fs.fat_start_sector ≢ root_sector dev fs
    pub fat_file : fs.fat_start_sector ≢ cluster_to_sector fs cluster
    pub root_file : root_sector dev fs ≢ cluster_to_sector fs cluster

  -- The disk that holds a new file: its entry, its data, and its mark in the table.
  abbrev pub with_file : Bytes → ℕ → ℕ → ℕ → Bytes → Disk → ℕ → Bytes
  with_file target cluster i size front d t =
      if t == root_sector dev fs
      then put_entry (content d t) i target cluster size
      else if t == cluster_to_sector fs cluster
      then data_sector front
      else if t == fs.fat_start_sector
      then mark_used (content d t) cluster
      else content d t

  add_entry-content :
      (target : Bytes) (cluster size : ℕ) (d : Disk) (t i : ℕ)
      → find_free_entry (content d (root_sector dev fs)) 16 0 ≡ some i
      → content (add_entry dev fs target cluster size d) t ≡ (
          if t == root_sector dev fs
          then put_entry (content d (root_sector dev fs)) i target cluster size
          else content d t)
  unfolding add_entry
  add_entry-content target cluster size d t i e =
      rw (ok.reads (root_sector dev fs) d, add_entry)
        (rw (e, add_entry)
          (rw (
            content-write dev ok (root_sector dev fs) t
                (put_entry (content d (root_sector dev fs)) i target cluster size)
                (read_sector (root_sector dev fs) d).1
                (length-put_entry _ _ _ _ _ ∙ dev.content_size d (root_sector dev fs)),
            dev.read_frame (root_sector dev fs) t d,
          )))

  -- The three stages of a write: the table, the data, the directory.
  abbrev marked : ℕ → Disk → Disk
  marked cluster d =
      (write_sector fs.fat_start_sector (mark_used (content d fs.fat_start_sector) cluster)
        (read_sector fs.fat_start_sector d).1).1

  abbrev filled : ℕ → Bytes → Disk → Disk
  filled cluster front d =
      (write_sector (cluster_to_sector fs cluster) (data_sector front) (marked cluster d)).1

  marked-content :
      (cluster : ℕ) (d : Disk) (t : ℕ)
      → content (marked cluster d) t
        ≡ (if t == fs.fat_start_sector then mark_used (content d t) cluster else content d t)
  marked-content cluster d t =
      let start = fs.fat_start_sector in
      let wrote =
        content-write dev ok start t (mark_used (content d start) cluster) (read_sector start d).1
          (length-mark_used (content d start) cluster ∙ dev.content_size d start) in
      elim (ℕ_discrete t start) [
        | yes e ↦ wrote ∙ rw (==_of_eq t start e, e)
        | no ne ↦ wrote ∙ rw (==_of_ne t start ne) (dev.read_frame start t d)
      ]

  filled-content :
      (cluster : ℕ) (front : Bytes) (d : Disk) (t : ℕ)
      → length front ≤ 512
      → content (filled cluster front d) t ≡ (
          if t == cluster_to_sector fs cluster
          then data_sector front
          else content (marked cluster d) t)
  filled-content cluster front d t h =
      content-write dev ok (cluster_to_sector fs cluster) t (data_sector front) (marked cluster d)
        (length-data_sector front h)

  filled_root :
      (cluster : ℕ) (front : Bytes) (d : Disk)
      → Apart cluster
      → length front ≤ 512
      → content (filled cluster front d) (root_sector dev fs) ≡ content d (root_sector dev fs)
  filled_root cluster front d a h =
      filled-content cluster front d (root_sector dev fs) h
      ∙ rw (
        ==_of_ne (root_sector dev fs) (cluster_to_sector fs cluster) a.root_file,
        marked-content cluster d (root_sector dev fs),
        ==_of_ne (root_sector dev fs) fs.fat_start_sector (λ e. a.fat_root (sym e)),
      )

  stored_content :
      (target : Bytes) (cluster size i : ℕ) (d : Disk) (front : Bytes) (t : ℕ)
      → find_free_entry (content d (root_sector dev fs)) 16 0 ≡ some i
      → Apart cluster
      → length front ≤ 512
      → content (add_entry dev fs target cluster size (filled cluster front d)) t
        ≡ with_file target cluster i size front d t
  stored_content target cluster size i d front t e a h =
      let root = root_sector dev fs in
      let kept = filled_root cluster front d a h in
      let added =
        add_entry-content target cluster size (filled cluster front d) t i
          (ap (λ b. find_free_entry b 16 0) kept ∙ e) in
      elim (ℕ_discrete t root) [
        | yes at_root ↦
            added
            ∙ rw (==_of_eq t root at_root, at_root)
                (ap (λ b. put_entry b i target cluster size) kept)
        | no ne ↦
            added
            ∙ rw (==_of_ne t root ne)
                (filled-content cluster front d t h ∙ rw (marked-content cluster d t))
      ]

  -- On a device on which no request fails, with a free cluster of the first FAT sector, a free
  -- entry, and the sectors of the table, the directory and the file different: a write, of as
  -- many bytes as the data has at least, returns; the disk then has the new entry, the front of
  -- the data in the file's sector, and the cluster marked, and is otherwise as it was.
  pub fs_write_file_content_lem :
      (filename data_bytes : Bytes) (size : ℕ) (d : Disk) {target : Bytes} {cluster i : ℕ}
      → format_fat_name filename ≡ some target
      → find_free_cluster (content d fs.fat_start_sector) 126 2 ≡ some cluster
      → find_free_entry (content d (root_sector dev fs)) 16 0 ≡ some i
      → Apart cluster
      → min size 512 ≤ length data_bytes
      → (d' : Disk) × (fs_write_file_content dev fs filename data_bytes size d ≡ some d')
        × ((t : ℕ)
            → content d' t ≡ with_file target cluster i size (take (min size 512) data_bytes) d t)
  unfolding fs_write_file_content
  fs_write_file_content_lem filename data_bytes size d {target} {cluster} {i} n c e a h =
      let front = take (min size 512) data_bytes in
      (
        add_entry dev fs target cluster size (filled cluster front d),
        rw (n, fs_write_file_content)
            (rw (ok.reads fs.fat_start_sector d, fs_write_file_content)
              (rw (c, fs_write_file_content) (rw (read_bytes-take (min size 512) data_bytes h)))),
        λ t.
            stored_content target cluster size i d front t e a
              (omega (arith, length-take (min size 512) data_bytes)),
      )
