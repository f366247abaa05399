-- ===== src/Fat/Append.antt =====
-- What `fs_append_file_content` does to a disk on which no request fails, sector by sector.
use native.Mathlib.Decide.{ℕ_discrete}
use ai_os_exchange.Prelude.{
  ℕ, ◌+◌, ◌-◌, ◌*◌, ◌%◌, ◌≤◌, ◌≡◌, ◌≢◌, sym, ◌∙◌, if◌then◌else◌, ◌==◌, min, some, Bytes, length,
  take, ==_of_eq, ==_of_ne,
}
use ai_os_exchange.Disk.{BlockDevice, IsReliable, content-write}
use ai_os_exchange.Uart.{Uart}
use ai_os_exchange.Fat.{Fs, cluster_to_sector}
use ai_os_exchange.Fat.Fields.{length-store}
use ai_os_exchange.Fat.Name.{format_fat_name}
use ai_os_exchange.Fat.Directory.{find_index, cluster_at, size_at}
use ai_os_exchange.Fat.File.{
  last, walk, appended, grow, root_sector, append_at, fs_append_file_content,
}
use ai_os_exchange.Fat.Store.{read_bytes-take}

length-appended :
    (sector : Bytes) (offset : ℕ) (front : Bytes)
    → length (appended sector offset front) ≡ length sector
unfolding appended
length-appended sector offset front = length-store sector offset front

length-grow : (dir : Bytes) (i n : ℕ) → length (grow dir i n) ≡ length dir
unfolding grow
length-grow dir i n = length-store dir (32 * i + 28) _

module _ (dev : BlockDevice) (ok : IsReliable dev) (fs : Fs) where
  open dev use {Disk, read_sector, write_sector, content, content_size, read_frame}

  -- The disk with `front` behind the end of the file: its last sector and its size.
  abbrev pub with_more : ℕ → ℕ → ℕ → ℕ → Bytes → Disk → ℕ → Bytes
  with_more i size cluster count front d t =
      if t == root_sector dev fs
      then grow (content d t) i count
      else if t == cluster_to_sector fs cluster
      then appended (content d t) (size % 512) front
      else content d t

  -- The two writes: the sector of the data, the directory.
  abbrev lengthened : ℕ → ℕ → Bytes → Disk → Disk
  lengthened size cluster front d =
      let s = cluster_to_sector fs cluster in
      (write_sector s (appended (content d s) (size % 512) front) (read_sector s d).1).1

  abbrev grown : ℕ → ℕ → Disk → Disk
  grown i count d =
      let root = root_sector dev fs in
      (write_sector root (grow (content d root) i count) (read_sector root d).1).1

  lengthened-content :
      (size cluster : ℕ) (front : Bytes) (d : Disk) (t : ℕ)
      → content (lengthened size cluster front d) t ≡ (
          if t == cluster_to_sector fs cluster
          then appended (content d t) (size % 512) front
          else content d t)
  lengthened-content size cluster front d t =
      let s = cluster_to_sector fs cluster in
      let b = appended (content d s) (size % 512) front in
      let wrote =
        content-write dev ok s t b (read_sector s d).1
          (length-appended (content d s) (size % 512) front ∙ content_size d s) in
      elim (ℕ_discrete t s) [
        | yes e ↦ wrote ∙ rw (==_of_eq t s e, e)
        | no ne ↦ wrote ∙ rw (==_of_ne t s ne) (read_frame s t d)
      ]

  grown-content :
      (i count : ℕ) (d : Disk) (t : ℕ)
      → content (grown i count d) t
        ≡ (if t == root_sector dev fs then grow (content d t) i count else content d t)
  grown-content i count d t =
      let root = root_sector dev fs in
      let wrote =
        content-write dev ok root t (grow (content d root) i count) (read_sector root d).1
          (length-grow (content d root) i count ∙ content_size d root) in
      elim (ℕ_discrete t root) [
        | yes e ↦ wrote ∙ rw (==_of_eq t root e, e)
        | no ne ↦ wrote ∙ rw (==_of_ne t root ne) (read_frame root t d)
      ]

  -- The two writes together.
  with_more_lem :
      (i size cluster n : ℕ) (front : Bytes) (d : Disk) (t : ℕ)
      → root_sector dev fs ≢ cluster_to_sector fs cluster
      → content (grown i n (lengthened size cluster front d)) t
        ≡ with_more i size cluster n front d t
  with_more_lem i size cluster n front d t apart =
      let root = root_sector dev fs in
      let s = cluster_to_sector fs cluster in
      let wrote = grown-content i n (lengthened size cluster front d) t in
      let before = lengthened-content size cluster front d t in
      elim (ℕ_discrete t root) [
        | yes e ↦
            let other : t ≢ s = λ z. apart (sym e ∙ z) in
            wrote ∙ rw (==_of_eq t root e, before, ==_of_ne t s other)
        | no ne ↦ wrote ∙ rw (==_of_ne t root ne, before)
      ]

  append_at_lem :
      (i size cluster : ℕ) (data_bytes : Bytes) (count : ℕ) (d : Disk)
      → min count (512 - size % 512) ≤ length data_bytes
      → let n = min count (512 - size % 512) in
        append_at dev fs i size cluster data_bytes count d
        ≡ some (grown i n (lengthened size cluster (take n data_bytes) d))
  unfolding append_at
  append_at_lem i size cluster data_bytes count d h =
      let n = min count (512 - size % 512) in
      let s = cluster_to_sector fs cluster in
      rw (ok.reads s d, append_at)
        (rw (read_bytes-take n data_bytes h, append_at)
          (rw (ok.reads (root_sector dev fs) (lengthened size cluster (take n data_bytes) d))))

  -- On a device on which no request fails, with the directory and the file's last sector different:
  -- an append to the file of entry `i`, whose chain ends at `cluster`, of as many bytes as the data
  -- has at least, returns and prints nothing. The disk then has the data, as much as fits into the
  -- last sector, behind the offset `size % 512`, and the size raised by as much; it is otherwise
  -- as it was.
  pub fs_append_file_content_lem :
      (filename data_bytes : Bytes) (count : ℕ) (d : Disk) (u : Uart) {target : Bytes}
      (i cluster size : ℕ)
      → format_fat_name filename ≡ some target
      → find_index target (content d (root_sector dev fs)) 16 0 ≡ some i
      → size_at (content d (root_sector dev fs)) i ≡ size
      → walk fs.max_valid_clusters
          (content d fs.fat_start_sector)
          (cluster_at (content d (root_sector dev fs)) i)
        ≡ last cluster
      → root_sector dev fs ≢ cluster_to_sector fs cluster
      → min count (512 - size % 512) ≤ length data_bytes
      → let n = min count (512 - size % 512) in
        (d' : Disk) × (fs_append_file_content dev fs filename data_bytes count d u ≡ some (d', u))
        × ((t : ℕ) → content d' t ≡ with_more i size cluster n (take n data_bytes) d t)
  unfolding fs_append_file_content
  fs_append_file_content_lem filename data_bytes count d u {target} i cluster size named found sized
        ends apart h =
      let root = root_sector dev fs in
      let start = fs.fat_start_sector in
      let n = min count (512 - size % 512) in
      let front = take n data_bytes in
      let d1 = (read_sector root d).1 in
      let d2 = (read_sector start d1).1 in
      let kept : (t : ℕ) → content d2 t ≡ content d t =
        λ t. read_frame start t d1 ∙ read_frame root t d in
      (
        grown i n (lengthened size cluster front d2),
        rw (named, fs_append_file_content)
            (rw (ok.reads root d, fs_append_file_content)
              (rw (found, fs_append_file_content)
                (rw (ok.reads start d1, read_frame root start d, fs_append_file_content)
                  (rw (ends, sized, fs_append_file_content)
                    (rw (append_at_lem i size cluster data_bytes count d2 h)))))),
        λ t. with_more_lem i size cluster n front d2 t apart ∙ rw (kept t),
      )
