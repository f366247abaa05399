-- ===== src/Fat/File.antt =====
-- The file operations of modules/fs/fat32.c.
use ai_os_exchange.Prelude.{
  length, ℕ, zero, suc, ◌+◌, ◌-◌, ◌*◌, ◌%◌, [], ◌∷◌, ◌++◌, if◌then◌else◌, ◌==◌, ◌&&◌, ltb, leb, min,
  Bool, Option, none, some, ◌>>=◌, Bytes, codes, u32, sub32, overlay, replicate,
}
use ai_os_exchange.Disk.{BlockDevice, sector_size}
use ai_os_exchange.Uart.{Uart, uart_print}
use ai_os_exchange.Fat.{Fs, cluster_to_sector}
use ai_os_exchange.Fat.Fields.{put32, store}
use ai_os_exchange.Fat.Name.{format_fat_name}
use ai_os_exchange.Fat.Directory.{
  dir_entries, cluster_at, size_at, find_file, find_index, find_free_entry, find_free_cluster,
  fat_entry, mark_used, put_entry,
}

-- `n` bytes from the front of an object; `none` if it is shorter.
unfoldable pub read_bytes : ℕ → Bytes → Option Bytes
read_bytes zero xs = some []
read_bytes (suc n) [] = none
read_bytes (suc n) (x ∷ xs) = read_bytes n xs >>= λ r. some (x ∷ r)

-- Where the walk along a FAT chain ends: at its last cluster, at the cycle guard, or outside the
-- sector that holds the table.
pub data Walk : Type 0 where
  last : ℕ → Walk
  circular : Walk
  outside : Walk

-- A table entry that names a further cluster.
abbrev pub is_link : ℕ → Bool
is_link v = leb 2 v && ltb v 0x0FFFFFF8

-- The `while` loop of `fs_append_file_content`; the first argument is how often the guard may still
-- be counted up, `max_valid_clusters - cycle_guard`.
unfoldable pub walk : ℕ → Bytes → ℕ → Walk
walk zero fat current =
    if leb 128 current
    then outside
    else if is_link (fat_entry fat current)
    then circular
    else last current
walk (suc left) fat current =
    if leb 128 current
    then outside
    else if is_link (fat_entry fat current)
    then walk left fat (fat_entry fat current)
    else last current

-- The buffer of 512 zeroes with the front of the data.
unfoldable pub data_sector : Bytes → Bytes
data_sector front = overlay front (replicate sector_size 0)

-- The last sector with data behind `offset`.
unfoldable pub appended : Bytes → ℕ → Bytes → Bytes
appended sector offset front = store sector offset front

-- The directory sector with the size of entry `i` raised.
unfoldable pub grow : Bytes → ℕ → ℕ → Bytes
grow dir i n = store dir (32 * i + 28) (put32 (u32 (size_at dir i + n)))

abbrev pub file_not_found : Bytes
file_not_found = codes "File not found.\n"

-- Bytes at the front of the reader's buffer; `none` if it is shorter.
unfoldable pub fill : Bytes → Bytes → Option Bytes
fill new buffer = if leb (length new) (length buffer) then some (overlay new buffer) else none

module _ (dev : BlockDevice) (fs : Fs) where
  open dev use {Disk, read_sector, write_sector}

  abbrev pub root_sector : ℕ
  root_sector = cluster_to_sector fs fs.root_dir_cluster

  -- The second part of `fs_read_file_content`: the first sector of the file that was found. A data
  -- sector that cannot be read leaves the buffer as it was.
  unfoldable pub read_found : ℕ → ℕ → Bytes → ℕ → Disk → Option (Bytes × Disk)
  read_found cluster size buffer max_len d1 =
      if cluster == 0
      then if ltb 16 max_len
        then (fill (file_not_found ++ 0 ∷ []) buffer >>= λ filled. some (filled, d1))
        else none
      else (let s = cluster_to_sector fs cluster in
          let d2 = (read_sector s d1).1 in
          elim (read_sector s d1).0 [
            | none ↦ some (buffer, d2)
            | some sector ↦ read_bytes (min size (sub32 max_len 1)) sector >>= λ text.
                fill (text ++ 0 ∷ []) buffer >>= λ filled. some (filled, d2)
          ])

  -- A buffer of `max_len` bytes gets the front of the file and a NUL, or a message.
  unfoldable pub fs_read_file_content : Bytes → Bytes → ℕ → Disk → Option (Bytes × Disk)
  fs_read_file_content filename buffer max_len d = format_fat_name filename >>= λ target.
      let d1 = (read_sector root_sector d).1 in
      elim (read_sector root_sector d).0 [
        | none ↦ fill (0 ∷ []) buffer >>= λ filled. some (filled, d1)
        | some dir ↦
            let found = find_file target dir dir_entries 0 in
            read_found found.0 found.1 buffer max_len d1
      ]

  -- The last part of `fs_write_file_content`: the directory entry.
  unfoldable pub add_entry : Bytes → ℕ → ℕ → Disk → Disk
  add_entry target cluster size d =
      let d1 = (read_sector root_sector d).1 in
      elim (read_sector root_sector d).0 [
        | none ↦ d1
        | some dir ↦ elim (find_free_entry dir dir_entries 0) [
          | none ↦ d1
          | some i ↦ (write_sector root_sector (put_entry dir i target cluster size) d1).1
        ]
      ]

  -- The results of the writes are not looked at. `data_bytes` goes to the end of its object.
  unfoldable pub fs_write_file_content : Bytes → Bytes → ℕ → Disk → Option Disk
  fs_write_file_content filename data_bytes size d = format_fat_name filename >>= λ target.
      let d1 = (read_sector fs.fat_start_sector d).1 in
      elim (read_sector fs.fat_start_sector d).0 [
        | none ↦ some d1
        | some fat ↦ elim (find_free_cluster fat 126 2) [
          | none ↦ some d1
          | some cluster ↦ read_bytes (min size sector_size) data_bytes >>= λ front.
              let d2 = (write_sector fs.fat_start_sector (mark_used fat cluster) d1).1 in
              let d3 = (write_sector (cluster_to_sector fs cluster) (data_sector front) d2).1 in
              some (add_entry target cluster size d3)
        ]
      ]

  -- The last part of `fs_append_file_content`: the last sector of the chain, then the size.
  unfoldable pub append_at : ℕ → ℕ → ℕ → Bytes → ℕ → Disk → Option Disk
  append_at index size cluster data_bytes count d =
      let s = cluster_to_sector fs cluster in
      let offset = size % 512 in
      let to_copy = min count (512 - offset) in
      let d1 = (read_sector s d).1 in
      elim (read_sector s d).0 [
        | none ↦ some d1
        | some sector ↦ read_bytes to_copy data_bytes >>= λ front.
            let d2 = (write_sector s (appended sector offset front) d1).1 in
            let d3 = (read_sector root_sector d2).1 in
            some (elim (read_sector root_sector d2).0 [
              | none ↦ d3
              | some dir ↦ (write_sector root_sector (grow dir index to_copy) d3).1
            ])
      ]

  unfoldable pub fs_append_file_content : Bytes → Bytes → ℕ → Disk → Uart → Option (Disk × Uart)
  fs_append_file_content filename data_bytes count d u = format_fat_name filename >>= λ target.
      let d1 = (read_sector root_sector d).1 in
      elim (read_sector root_sector d).0 [
        | none ↦ some (d1, u)
        | some dir ↦ elim (find_index target dir dir_entries 0) [
          | none ↦ fs_write_file_content filename data_bytes count d1 >>= λ d'. some (d', u)
          | some i ↦
              let d2 = (read_sector fs.fat_start_sector d1).1 in
              elim (read_sector fs.fat_start_sector d1).0 [
                | none ↦ some (d2, u)
                | some fat ↦ elim (walk fs.max_valid_clusters fat (cluster_at dir i)) [
                  | last cluster ↦
                      append_at i (size_at dir i) cluster data_bytes count d2 >>= λ d'. some (d', u)
                  | circular ↦ some (
                    d2,
                    uart_print (codes "[FS] FATAL: Circular FAT chain detected! Aborting append.\n")
                        u,
                  )
                  | outside ↦ none
                ]
              ]
        ]
      ]
