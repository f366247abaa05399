-- ===== src/Fat/ReadBack.antt =====
-- `fs_read_file_content` against the sectors of the disk: a new file is read back, and a name that
-- was there before keeps its first content.
use ai_os_exchange.Prelude.{
  ℕ, zero, suc, ◌+◌, leb, true, length-append, ◌^◌, ◌≤◌, ◌<◌, ◌≡◌, ◌≢◌, refl, sym, ◌∙◌, ap, ap₂, [],
  ◌∷◌, ◌++◌, min, none, some, Bytes, length, take, arith, ==_of_eq, ==_of_ne, overlay, length-take,
  sub32, NoNul, get_or,
}
use ai_os_exchange.Disk.{BlockDevice, IsReliable}
use ai_os_exchange.Fat.{Fs, cluster_to_sector}
use ai_os_exchange.Fat.Name.{format_fat_name}
use ai_os_exchange.Fat.Name.Shape.{format_fat_name_lem}
use ai_os_exchange.Fat.Directory.{
  find_file, find_index, find_free_entry, find_free_cluster, put_entry,
}
use ai_os_exchange.Fat.File.{
  data_sector, root_sector, fill, read_found, fs_read_file_content, fs_write_file_content,
}
use ai_os_exchange.Fat.Entry.{
  name_at-put_entry, first_byte-put_entry, cluster_at-put_entry, size_at-put_entry,
  name_at-put_entry_ne, first_byte-put_entry_ne, find_file_at, find_free_entry_lem, find_index-none,
}
use ai_os_exchange.Fat.Store.{
  read_bytes-take, find_free_cluster_lem, Apart, fs_write_file_content_lem,
}

NoNul-first : (s : Bytes) → NoNul s → 0 < length s → get_or s 0 0 ≢ 0
NoNul-first [] h p = absurd (omega arith)
NoNul-first (c ∷ s) h p = h.0

-- The directory with a new entry of a new name: the search finds that entry.
find_file-put_entry :
    (dir target : Bytes) (c s i : ℕ)
    → length dir ≡ 512
    → (length target ≡ 11) × NoNul target
    → c < 2 ^ 32
    → s < 2 ^ 32
    → find_index target dir 16 0 ≡ none
    → find_free_entry dir 16 0 ≡ some i
    → find_file target (put_entry dir i target c s) 16 0 ≡ (c, s)
find_file-put_entry dir target c s i sized (long, clean) hc hs absent free =
    let (_, room, _, used) = find_free_entry_lem dir 16 0 free in
    let room' : i < 16 = omega arith in
    find_file_at target (put_entry dir i target c s) 16 0 i (omega arith) room
      (λ m lt. (
        λ z.
            used m (omega arith) lt
              (sym (first_byte-put_entry_ne dir i target c s room' sized long m (omega arith)) ∙ z),
        λ z.
            find_index-none target dir 16 0 absent m (omega arith) (omega arith)
              (sym (name_at-put_entry_ne dir i target c s room' sized long m (omega arith)) ∙ z),
      ))
      (λ z.
        NoNul-first target clean (omega arith)
          (sym (first_byte-put_entry dir i target c s room' sized long) ∙ z))
      (name_at-put_entry dir i target c s room' sized long)
    ∙ ap₂ (λ (a b : ℕ). (a, b)) (cluster_at-put_entry dir i target c s room' sized long hc)
        (size_at-put_entry dir i target c s room' sized long hs)

fill_fits :
    (new buffer : Bytes) → length new ≤ length buffer → fill new buffer ≡ some (overlay new buffer)
unfolding fill
fill_fits new buffer h =
    let fits : leb (length new) (length buffer) ≡ true = ground arith in rw (fits) refl

text_size : (n : ℕ) (sector : Bytes) → length (take n sector ++ 0 ∷ []) ≤ n + 1
text_size n sector = omega (arith, length-append (take n sector) (0 ∷ []), length-take n sector)

module _ (dev : BlockDevice) (ok : IsReliable dev) (fs : Fs) where
  open dev use {Disk, read_sector, write_sector, content, content_size, read_frame}

  read_found_lem :
      (cluster size : ℕ) (buffer : Bytes) (max_len : ℕ) (d : Disk)
      → cluster ≢ 0
      → min size (sub32 max_len 1) ≤ 512
      → min size (sub32 max_len 1) < length buffer
      → read_found dev fs cluster size buffer max_len d
        ≡ some (
          overlay
              (take (min size (sub32 max_len 1)) (content d (cluster_to_sector fs cluster))
                ++ 0 ∷ [])
              buffer,
          (read_sector (cluster_to_sector fs cluster) d).1,
        )
  unfolding read_found
  read_found_lem cluster size buffer max_len d ne small room =
      let s = cluster_to_sector fs cluster in
      rw (==_of_ne cluster 0 ne) (
        rw (ok.reads s d, read_found)
          (rw (
            read_bytes-take (min size (sub32 max_len 1)) (content d s)
                (omega (arith, content_size d s)),
            fill_fits (take (min size (sub32 max_len 1)) (content d s) ++ 0 ∷ []) buffer
                (omega (arith, text_size (min size (sub32 max_len 1)) (content d s))),
          )))

  -- On a device on which no request fails, a read of a file that the directory names with a
  -- cluster other than 0 gives the front of its first sector, as much as the buffer holds, then
  -- a NUL; the disk's content stays. The read is of at most 512 bytes, and the buffer has room.
  pub fs_read_file_content_lem :
      (filename buffer : Bytes) (max_len : ℕ) (d : Disk) {target : Bytes} (cluster size : ℕ)
      → format_fat_name filename ≡ some target
      → find_file target (content d (root_sector dev fs)) 16 0 ≡ (cluster, size)
      → cluster ≢ 0
      → min size (sub32 max_len 1) ≤ 512
      → min size (sub32 max_len 1) < length buffer
      → (d' : Disk) × (fs_read_file_content dev fs filename buffer max_len d
          ≡ some (
            overlay
                (take (min size (sub32 max_len 1)) (content d (cluster_to_sector fs cluster))
                  ++ 0 ∷ [])
                buffer,
            d',
          ))
        × ((t : ℕ) → content d' t ≡ content d t)
  unfolding fs_read_file_content
  fs_read_file_content_lem filename buffer max_len d {target} cluster size n found ne small room =
      let root = root_sector dev fs in
      let s = cluster_to_sector fs cluster in
      let d1 = (read_sector root d).1 in
      let got : content d1 s ≡ content d s = read_frame root s d in
      (
        (read_sector s d1).1,
        rw (n, fs_read_file_content)
            (rw (ok.reads root d, fs_read_file_content)
              (ap (λ r. read_found dev fs r.0 r.1 buffer max_len d1) found
                ∙ read_found_lem cluster size buffer max_len d1 ne small room
                ∙ rw (got))),
        λ t. read_frame s t d1 ∙ read_frame root t d,
      )

take-append_front : (n : ℕ) (xs ys : Bytes) → n ≤ length xs → take n (xs ++ ys) ≡ take n xs
take-append_front zero xs ys h = refl
take-append_front (suc n) [] ys h = absurd (omega arith)
take-append_front (suc n) (x ∷ xs) ys h = ap (λ r. x ∷ r) (take-append_front n xs ys (omega arith))

pub take-take : (n m : ℕ) (xs : Bytes) → n ≤ m → take n (take m xs) ≡ take n xs
take-take zero m xs h = refl
take-take (suc n) zero xs h = absurd (omega arith)
take-take (suc n) (suc m) [] h = refl
take-take (suc n) (suc m) (x ∷ xs) h = ap (λ r. x ∷ r) (take-take n m xs (omega arith))

-- The front of a data sector is the front of the data.
take-data_sector :
    (n m : ℕ) (data_bytes : Bytes)
    → n ≤ m
    → m ≤ length data_bytes
    → take n (data_sector (take m data_bytes)) ≡ take n data_bytes
unfolding data_sector
take-data_sector n m data_bytes a b =
    take-append_front n (take m data_bytes) _ (omega (arith, length-take m data_bytes))
    ∙ take-take n m data_bytes a

module _ (dev : BlockDevice) (ok : IsReliable dev) (fs : Fs) where
  open dev use {Disk, content, content_size}

  -- On a device on which no request fails, with a name that no entry has, a free cluster of the first
  -- FAT sector, a free entry, and three sectors that are different: a write returns, and a read of
  -- the same name on the disk that it leaves gives the front of what was written, as much as the
  -- reader's buffer holds, followed by a NUL. The read is of at most 512 bytes, and the buffer has
  -- room for them and the NUL.
  pub fs_read_file_content-fs_write_file_content :
      (filename data_bytes buffer : Bytes) (size max_len : ℕ) (d : Disk) {target : Bytes}
      {cluster i : ℕ}
      → format_fat_name filename ≡ some target
      → find_index target (content d (root_sector dev fs)) 16 0 ≡ none
      → find_free_cluster (content d fs.fat_start_sector) 126 2 ≡ some cluster
      → find_free_entry (content d (root_sector dev fs)) 16 0 ≡ some i
      → Apart dev ok fs cluster
      → min size 512 ≤ length data_bytes
      → size < 2 ^ 32
      → min size (sub32 max_len 1) ≤ 512
      → min size (sub32 max_len 1) < length buffer
      → (d1 : Disk) × (d2 : Disk) × (fs_write_file_content dev fs filename data_bytes size d
          ≡ some d1)
        × (fs_read_file_content dev fs filename buffer max_len d1
            ≡ some (overlay (take (min size (sub32 max_len 1)) data_bytes ++ 0 ∷ []) buffer, d2))
  fs_read_file_content-fs_write_file_content filename data_bytes buffer size max_len d {target}
        {cluster} {i} n absent c e a len big small room =
      let root = root_sector dev fs in
      let front = take (min size 512) data_bytes in
      let (d1, wrote, holds) =
        fs_write_file_content_lem dev ok fs filename data_bytes size d n c e a len in
      let (low, high, _) = find_free_cluster_lem (content d fs.fat_start_sector) 126 2 c in
      let at_root : content d1 root ≡ put_entry (content d root) i target cluster size =
        holds root ∙ rw (==_of_eq root root refl) in
      let at_file : content d1 (cluster_to_sector fs cluster) ≡ data_sector front =
        holds (cluster_to_sector fs cluster)
        ∙ rw (
          ==_of_ne (cluster_to_sector fs cluster) root (λ z. a.root_file (sym z)),
          ==_of_eq (cluster_to_sector fs cluster) (cluster_to_sector fs cluster) refl,
        ) in
      let found : find_file target (content d1 root) 16 0 ≡ (cluster, size) =
        ap (λ b. find_file target b 16 0) at_root
        ∙ find_file-put_entry (content d root) target cluster size i (content_size d root)
            (format_fat_name_lem filename n) (omega arith) big absent e in
      let (d2, got, _) =
        fs_read_file_content_lem dev ok fs filename buffer max_len d1 cluster size n found
          (omega arith) small room in
      (
        d1,
        d2,
        wrote,
        got
            ∙ rw (
              at_file,
              take-data_sector (min size (sub32 max_len 1)) (min size 512) data_bytes (omega arith)
                  len,
            ),
      )
