-- ===== src/Fat/Stale.antt =====
-- Writing under a name that the directory has: the new entry goes in behind the old one, which the
-- search still finds first.
use ai_os_exchange.Prelude.{
  ℕ, zero, suc, ◌+◌, ◌*◌, ◌≤◌, ◌<◌, ◌≡◌, ◌≢◌, refl, sym, ◌∙◌, ap, ap₂, ◌++◌, min, true, some, Bytes,
  length, arith, inl, inr, Bool-cases, ==_of_eq, ==_of_ne, get_or, sub32, length-append,
}
use native.Mathlib.Decide.{ℕ_discrete}
use ai_os_exchange.Disk.{BlockDevice, IsReliable}
use ai_os_exchange.Fat.{Fs, cluster_to_sector}
use ai_os_exchange.Fat.Fields.{le16, le32, bytes_eq, bytes_eq_iff, get_or-store_ne}
use ai_os_exchange.Fat.Name.{format_fat_name}
use ai_os_exchange.Fat.Name.Shape.{format_fat_name_lem}
use ai_os_exchange.Fat.Directory.{
  find_file, find_index, find_free_entry, find_free_cluster, entry_tail, put_entry, name_at,
  cluster_at, size_at,
}
use ai_os_exchange.Fat.File.{root_sector, fs_read_file_content, fs_write_file_content}
use ai_os_exchange.Fat.Entry.{
  length-entry_tail, name_at-put_entry_ne, first_byte-put_entry_ne, find_file_at,
  find_free_entry_lem,
}
use ai_os_exchange.Fat.Store.{Apart, fs_write_file_content_lem}
use ai_os_exchange.Fat.ReadBack.{fs_read_file_content_lem}

-- What the appending search finds has the name, and no entry before it has.
pub find_index_lem :
    (target dir : Bytes) (n j : ℕ) {k : ℕ}
    → find_index target dir n j ≡ some k
    → (j ≤ k)
      × (k < j + n)
      × (name_at dir k ≡ target)
      × ((m : ℕ) → j ≤ m → m < k → name_at dir m ≢ target)
unfolding find_index
find_index_lem target dir zero j e = cc
find_index_lem target dir (suc n) j {k} e = elim (Bool-cases (bytes_eq (name_at dir j) target)) [
  | inl hit ↦
      let same : j ≡ k = cc (rw hit at e) in
      (
        omega arith,
        omega arith,
        ap (name_at dir) (sym same) ∙ (bytes_eq_iff (name_at dir j) target).0 hit,
        λ m a b. absurd (omega arith),
      )
  | inr other ↦
      let (p, q, r, before) = find_index_lem target dir n (j + 1) {k = k} (rw other at e) in
      (
        omega arith,
        omega arith,
        r,
        λ m a b. elim (ℕ_discrete j m) [
          | yes same ↦ λ z.
              let hit : bytes_eq (name_at dir j) target ≡ true =
                (bytes_eq_iff (name_at dir j) target).1 (ap (name_at dir) same ∙ z) in
              cc
          | no ne ↦ before m (omega arith) b
        ],
      )
]

module _ (dir : Bytes) (i : ℕ) (name : Bytes) (c s j : ℕ) (long : length name ≡ 11)
    (ne : j ≢ i) where
  -- The other fields of another entry stay, byte by byte.
  byte_stays :
      (p : ℕ)
      → 32 * j ≤ p
      → p < 32 * j + 32
      → get_or (put_entry dir i name c s) p 0 ≡ get_or dir p 0
  unfolding put_entry
  byte_stays p a b =
      get_or-store_ne dir (32 * i) (name ++ entry_tail c s) p
        (omega (arith, length-append name (entry_tail c s), length-entry_tail c s))

  cluster_at-put_entry_ne : cluster_at (put_entry dir i name c s) j ≡ cluster_at dir j
  unfolding cluster_at le16
  cluster_at-put_entry_ne = omega (
    arith,
    byte_stays (32 * j + 20) (omega arith) (omega arith),
    byte_stays (32 * j + 20 + 1) (omega arith) (omega arith),
    byte_stays (32 * j + 26) (omega arith) (omega arith),
    byte_stays (32 * j + 26 + 1) (omega arith) (omega arith),
  )

  size_at-put_entry_ne : size_at (put_entry dir i name c s) j ≡ size_at dir j
  unfolding size_at le32
  size_at-put_entry_ne = omega (
    arith,
    byte_stays (32 * j + 28) (omega arith) (omega arith),
    byte_stays (32 * j + 28 + 1) (omega arith) (omega arith),
    byte_stays (32 * j + 28 + 2) (omega arith) (omega arith),
    byte_stays (32 * j + 28 + 3) (omega arith) (omega arith),
  )

-- A second entry of the same name, behind the first: the search still finds the first.
find_file-put_entry_behind :
    (dir target : Bytes) (c s i k : ℕ)
    → length dir ≡ 512
    → length target ≡ 11
    → find_index target dir 16 0 ≡ some k
    → find_free_entry dir 16 0 ≡ some i
    → k < i
    → (find_file target dir 16 0 ≡ (cluster_at dir k, size_at dir k))
      × (find_file target (put_entry dir i target c s) 16 0 ≡ (cluster_at dir k, size_at dir k))
find_file-put_entry_behind dir target c s i k sized long first free lt =
    let (_, _, named, others) = find_index_lem target dir 16 0 first in
    let (_, room, _, used) = find_free_entry_lem dir 16 0 free in
    let room' : i < 16 = omega arith in
    (
      find_file_at target dir 16 0 k (omega arith) (omega arith)
          (λ m b. (used m (omega arith) (omega arith), others m (omega arith) b))
          (used k (omega arith) lt) named,
      find_file_at target (put_entry dir i target c s) 16 0 k (omega arith) (omega arith)
            (λ m b. (
              λ z. used m (omega arith) (omega arith) (
                  sym (first_byte-put_entry_ne dir i target c s room' sized long m (omega arith))
                  ∙ z),
              λ z. others m (omega arith) b (
                  sym (name_at-put_entry_ne dir i target c s room' sized long m (omega arith)) ∙ z),
            ))
            (λ z.
              used k (omega arith) lt (
                sym (first_byte-put_entry_ne dir i target c s room' sized long k (omega arith))
                ∙ z))
            (name_at-put_entry_ne dir i target c s room' sized long k (omega arith) ∙ named)
          ∙ ap₂ (λ (a b : ℕ). (a, b))
              (cluster_at-put_entry_ne dir i target c s k long (omega arith))
              (size_at-put_entry_ne dir i target c s k long (omega arith)),
    )

module _ (dev : BlockDevice) (ok : IsReliable dev) (fs : Fs) where
  open dev use {Disk, content, content_size}

  -- On a device on which no request fails: when a name is in the directory, in an entry before the
  -- first free one, a write under that name returns, and a read of the name gives afterwards what
  -- it gave before, whatever was written. The sectors of the table, the directory, the new data and
  -- the old file are different, the read is of at most 512 bytes, and the buffer has room for them
  -- and a NUL.
  pub fs_write_file_content-stale :
      (filename data_bytes buffer : Bytes) (size max_len : ℕ) (d : Disk) {target : Bytes}
      {cluster i k : ℕ}
      → format_fat_name filename ≡ some target
      → find_index target (content d (root_sector dev fs)) 16 0 ≡ some k
      → find_free_entry (content d (root_sector dev fs)) 16 0 ≡ some i
      → k < i
      → find_free_cluster (content d fs.fat_start_sector) 126 2 ≡ some cluster
      → Apart dev ok fs cluster
      → Apart dev ok fs (cluster_at (content d (root_sector dev fs)) k)
      → cluster_to_sector fs (cluster_at (content d (root_sector dev fs)) k)
        ≢ cluster_to_sector fs cluster
      → cluster_at (content d (root_sector dev fs)) k ≢ 0
      → min size 512 ≤ length data_bytes
      → min (size_at (content d (root_sector dev fs)) k) (sub32 max_len 1) ≤ 512
      → min (size_at (content d (root_sector dev fs)) k) (sub32 max_len 1) < length buffer
      → (text : Bytes) × (d1 : Disk) × (d2 : Disk) × (d3 : Disk) × (fs_write_file_content dev fs
            filename data_bytes size d
          ≡ some d1)
        × (fs_read_file_content dev fs filename buffer max_len d ≡ some (text, d2))
        × (fs_read_file_content dev fs filename buffer max_len d1 ≡ some (text, d3))
  fs_write_file_content-stale filename data_bytes buffer size max_len d {target} {cluster} {i} {k} n
        first free lt c a old other live len small room =
      let root = root_sector dev fs in
      let dir = content d root in
      let s = cluster_to_sector fs (cluster_at dir k) in
      let (long, _) = format_fat_name_lem filename n in
      let (before, after) =
        find_file-put_entry_behind dir target cluster size i k (content_size d root) long first free
          lt in
      let (d1, wrote, holds) =
        fs_write_file_content_lem dev ok fs filename data_bytes size d n c free a len in
      let at_root : content d1 root ≡ put_entry dir i target cluster size =
        holds root ∙ rw (==_of_eq root root refl) in
      let at_old : content d1 s ≡ content d s =
        holds s
        ∙ rw (
          ==_of_ne s root (λ z. old.root_file (sym z)),
          ==_of_ne s (cluster_to_sector fs cluster) other,
          ==_of_ne s fs.fat_start_sector (λ z. old.fat_file (sym z)),
        ) in
      let (d2, got2, _) =
        fs_read_file_content_lem dev ok fs filename buffer max_len d (cluster_at dir k)
          (size_at dir k) n before live small room in
      let (d3, got3, _) =
        fs_read_file_content_lem dev ok fs filename buffer max_len d1 (cluster_at dir k)
          (size_at dir k) n (ap (λ b. find_file target b 16 0) at_root ∙ after) live small room in
      (_, d1, d2, d3, wrote, got2, got3 ∙ rw at_old)
