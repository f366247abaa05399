-- ===== src/Fat/ReadMore.antt =====
-- A read of a file after an append to it.
use ai_os_exchange.Prelude.{
  ℕ, zero, suc, ◌+◌, ◌-◌, ◌*◌, ◌%◌, ◌^◌, ◌≤◌, ◌<◌, ◌≡◌, ◌≢◌, refl, sym, ◌∙◌, ap, ap₂, [], ◌∷◌, ◌++◌,
  min, some, Bytes, length, take, arith, ==_of_eq, ==_of_ne, get_or, set, sub32, u32, overlay,
  length-take,
}
use ai_os_exchange.Disk.{BlockDevice, IsReliable}
use ai_os_exchange.Uart.{Uart}
use ai_os_exchange.Fat.{Fs, cluster_to_sector}
use ai_os_exchange.Fat.Fields.{
  store, put32, le16, le32, get_or-store_ne, get_or-store_self, bytes_at-store_ne,
}
use ai_os_exchange.Fat.Name.{format_fat_name}
use ai_os_exchange.Fat.Directory.{find_file, find_index, name_at, first_byte, cluster_at, size_at}
use ai_os_exchange.Fat.File.{
  last, walk, appended, grow, root_sector, fs_read_file_content, fs_append_file_content,
}
use ai_os_exchange.Fat.Entry.{find_file_at}
use ai_os_exchange.Fat.ReadBack.{fs_read_file_content_lem, take-take}
use ai_os_exchange.Fat.Stale.{find_index_lem}
use ai_os_exchange.Fat.Append.{fs_append_file_content_lem}

store-cons :
    (x : ℕ) (b : Bytes) (off : ℕ) (xs : Bytes) → store (x ∷ b) (off + 1) xs ≡ x ∷ store b off xs
unfolding store
store-cons x b off [] = refl
store-cons x b off (y ∷ ys) =
    let e : off + 1 ≡ suc off = omega arith in
    ap (λ k. store (set (x ∷ b) k y) (k + 1) ys) e
    ∙ ap (λ k. store (x ∷ set b off y) k ys) (omega arith)
    ∙ store-cons x (set b off y) (off + 1) ys

-- The bytes up to the end of what is stored are the old ones and the stored ones.
take-store :
    (n : ℕ) (b : Bytes) (off : ℕ) (xs : Bytes)
    → n ≡ off + length xs
    → n ≤ length b
    → take n (store b off xs) ≡ take off b ++ xs
unfolding store
take-store zero b zero [] e h = refl
take-store zero b zero (x ∷ xs) e h = absurd (omega arith)
take-store zero b (suc off) xs e h = absurd (omega arith)
take-store (suc n) [] off xs e h = absurd (omega arith)
take-store (suc n) (c ∷ b) zero [] e h = absurd (omega arith)
take-store (suc n) (c ∷ b) zero (x ∷ xs) e h =
    ap (take (suc n)) (store-cons x b 0 xs)
    ∙ ap (λ r. x ∷ r) (take-store n b zero xs (omega arith) (omega arith))
take-store (suc n) (c ∷ b) (suc off) xs e h =
    let one : suc off ≡ off + 1 = omega arith in
    ap (λ k. take (suc n) (store (c ∷ b) k xs)) one
    ∙ ap (take (suc n)) (store-cons c b off xs)
    ∙ ap (λ r. c ∷ r) (take-store n b off xs (omega arith) (omega arith))

-- The four bytes of a number are read back.
le32-store-put32 :
    (b : Bytes) (off v : ℕ) → off + 4 ≤ length b → v < 2 ^ 32 → le32 (store b off (put32 v)) off ≡ v
unfolding le32 put32
le32-store-put32 b off v h small =
    let at : (j : ℕ) → j < 4 → get_or (store b off (put32 v)) (off + j) 0 ≡ get_or (put32 v) j 0 =
      λ j p. get_or-store_self b off (put32 v) j p h in
    let first : get_or (store b off (put32 v)) off 0 ≡ v % 256 =
      ap (λ k. get_or (store b off (put32 v)) k 0) (omega arith) ∙ at 0 (omega arith) in
    omega (arith, first, at 1 (omega arith), at 2 (omega arith), at 3 (omega arith))

module _ (dir : Bytes) (i n : ℕ) (sized : length dir ≡ 512) (room : i < 16) where
  -- A new size leaves the other fields as they were.
  name_at-grow : (m : ℕ) → m ≤ i → name_at (grow dir i n) m ≡ name_at dir m
  unfolding grow put32
  name_at-grow m h = bytes_at-store_ne dir (32 * i + 28) _ (32 * m) 11 (omega arith)

  byte-grow : (p : ℕ) → p < 32 * i + 28 → get_or (grow dir i n) p 0 ≡ get_or dir p 0
  unfolding grow
  byte-grow p h = get_or-store_ne dir (32 * i + 28) _ p (omega arith)

  cluster_at-grow : cluster_at (grow dir i n) i ≡ cluster_at dir i
  unfolding cluster_at le16
  cluster_at-grow = omega (
    arith,
    byte-grow (32 * i + 20) (omega arith),
    byte-grow (32 * i + 20 + 1) (omega arith),
    byte-grow (32 * i + 26) (omega arith),
    byte-grow (32 * i + 26 + 1) (omega arith),
  )

  size_at-grow : size_at (grow dir i n) i ≡ u32 (size_at dir i + n)
  unfolding size_at grow
  size_at-grow =
      le32-store-put32 dir (32 * i + 28) (u32 (size_at dir i + n)) (omega arith) (omega arith)

  find_file-grow :
      (target : Bytes)
      → find_index target dir 16 0 ≡ some i
      → ((m : ℕ) → m ≤ i → first_byte dir m ≢ 0)
      → find_file target (grow dir i n) 16 0 ≡ (cluster_at dir i, u32 (size_at dir i + n))
  find_file-grow target found live =
      let (_, _, named, before) = find_index_lem target dir 16 0 {k = i} found in
      find_file_at target (grow dir i n) 16 0 i (omega arith) room
        (λ m lt. (
          λ z. live m (omega arith) (sym (byte-grow (32 * m) (omega arith)) ∙ z),
          λ z. before m (omega arith) lt (sym (name_at-grow m (omega arith)) ∙ z),
        ))
        (λ z. live i (omega arith) (sym (byte-grow (32 * i) (omega arith)) ∙ z))
        (name_at-grow i (omega arith) ∙ named)
      ∙ ap₂ (λ (a b : ℕ). (a, b)) cluster_at-grow size_at-grow

-- A sector with data behind the offset holds the old front and the data.
take-appended :
    (k n : ℕ) (sector : Bytes) (offset : ℕ) (front : Bytes)
    → n ≡ offset + length front
    → n ≤ length sector
    → k ≤ n
    → take k (appended sector offset front) ≡ take k (take offset sector ++ front)
unfolding appended
take-appended k n sector offset front e h small =
    sym (take-take k n (store sector offset front) small)
    ∙ ap (take k) (take-store n sector offset front e h)

module _ (dev : BlockDevice) (ok : IsReliable dev) (fs : Fs) where
  open dev use {Disk, content, content_size}

  -- On a device on which no request fails: a file in entry `i` of the directory, with no end mark up
  -- to it, has one cluster, other than 0 and in another sector than the directory, and fewer than
  -- 512 bytes. Then an append of as many bytes as the data has at least returns and prints nothing,
  -- and a read on the disk that it leaves gives the old bytes and behind them the new ones, as many
  -- as the sector has room for, cut to the reader's buffer, which has room for them, followed by a NUL.
  pub fs_read_file_content-fs_append_file_content :
      (filename data_bytes buffer : Bytes) (count max_len : ℕ) (d : Disk) (u : Uart)
      {target : Bytes} (i cluster size : ℕ)
      → let dir = content d (root_sector dev fs) in
        let n = min count (512 - size) in
        format_fat_name filename ≡ some target
        → find_index target dir 16 0 ≡ some i
        → ((m : ℕ) → m ≤ i → first_byte dir m ≢ 0)
        → cluster_at dir i ≡ cluster
        → size_at dir i ≡ size
        → walk fs.max_valid_clusters (content d fs.fat_start_sector) cluster ≡ last cluster
        → cluster ≢ 0
        → size < 512
        → root_sector dev fs ≢ cluster_to_sector fs cluster
        → n ≤ length data_bytes
        → min (size + n) (sub32 max_len 1) < length buffer
        → (d1 : Disk) × (d2 : Disk) × (fs_append_file_content dev fs filename data_bytes count d u
            ≡ some (d1, u))
          × (fs_read_file_content dev fs filename buffer max_len d1
              ≡ some (
                overlay
                    (take
                        (min (size + n) (sub32 max_len 1))
                        (take size (content d (cluster_to_sector fs cluster)) ++ take n data_bytes)
                      ++ 0 ∷ [])
                    buffer,
                d2,
              ))
  fs_read_file_content-fs_append_file_content filename data_bytes buffer count max_len d u {target}
        i cluster size named found live at_cluster sized ends there short apart h big_buffer =
      let root = root_sector dev fs in
      let s = cluster_to_sector fs cluster in
      let dir = content d root in
      let n = min count (512 - size) in
      let front = take n data_bytes in
      let same : size % 512 ≡ size = omega arith in
      let same_n : min count (512 - size % 512) ≡ n = omega arith in
      let (_, room, _, _) = find_index_lem target dir 16 0 {k = i} found in
      let (d1, wrote, holds) =
        fs_append_file_content_lem dev ok fs filename data_bytes count d u i cluster size named
          found sized
          (ap (walk fs.max_valid_clusters (content d fs.fat_start_sector)) at_cluster ∙ ends) apart
          (omega arith) in
      let at_root : content d1 root ≡ grow dir i n =
        holds root ∙ rw (==_of_eq root root refl) (ap (grow dir i) same_n) in
      let at_file : content d1 s ≡ appended (content d s) size front =
        holds s
        ∙ rw (==_of_ne s root (λ z. apart (sym z)), ==_of_eq s s refl)
            (ap₂ (λ a b. appended (content d s) a (take b data_bytes)) same same_n) in
      let listed : find_file target (content d1 root) 16 0 ≡ (cluster, size + n) =
        ap (λ b. find_file target b 16 0) at_root
        ∙ find_file-grow dir i n (content_size d root) (omega arith) target found live
        ∙ ap₂ (λ (a b : ℕ). (a, b)) at_cluster (omega arith) in
      let (d2, got, _) =
        fs_read_file_content_lem dev ok fs filename buffer max_len d1 cluster (size + n) named
          listed there (omega arith) big_buffer in
      (
        d1,
        d2,
        wrote,
        got
            ∙ rw (
              at_file,
              take-appended (min (size + n) (sub32 max_len 1)) (size + n) (content d s) size front
                  (omega (arith, length-take n data_bytes)) (omega (arith, content_size d s))
                  (omega arith),
            ),
      )
