-- ===== src/Fat/Listing.antt =====
-- The listings of modules/fs/fat32.c: `fs_get_dir_list` writes the names of the root directory into
-- a buffer, `fs_list_root` prints them, and `fs_read_test_file` prints one file.
use ai_os_exchange.Prelude.{
  ℕ, zero, suc, ◌+◌, ◌-◌, ◌≤◌, [], ◌∷◌, ◌++◌, if◌then◌else◌, ◌==◌, ◌&&◌, not, ltb, Option, none,
  some, ◌>>=◌, Bytes, codes, get_or, set, length, take, drop, arith, sub32, overlay, c_string,
  length-append,
}
use ai_os_exchange.Disk.{BlockDevice}
use ai_os_exchange.Uart.{Uart, uart_print}
use ai_os_exchange.Uart.Hex.{uart_print_hex}
use ai_os_exchange.Fat.{Fs, cluster_to_sector}
use ai_os_exchange.Fat.Directory.{dir_entries, name_at, first_byte, attr_at, size_at, find_file}
use ai_os_exchange.Fat.File.{root_sector}

-- `if (pos < max_len - 1) buffer[pos++] = c;`, where `out` holds the `pos` bytes written so far.
unfoldable pub push : ℕ → ℕ → Bytes → Bytes
push max_len c out = if ltb (length out) (sub32 max_len 1) then out ++ c ∷ [] else out

-- A part of the name without its spaces.
unfoldable pub push_name : ℕ → Bytes → Bytes → Bytes
unfolding push
push_name max_len [] out = out
push_name max_len (c ∷ cs) out =
    push_name max_len cs (if c == 0x20 then out else push max_len c out)

unfoldable pub push_entry : ℕ → Bytes → Bytes → Bytes
unfolding push push_name
push_entry max_len name out =
    let stem = push_name max_len (take 8 name) out in
    let dotted =
      if not (get_or name 8 0 == 0x20) && ltb (length stem) (sub32 max_len 1)
      then push_name max_len (drop 8 name) (stem ++ 0x2E ∷ [])
      else stem in
    push max_len 0x0A dotted

-- The loop over the entries: an end mark ends it, deleted entries and parts of long names are passed
-- over.
unfoldable pub list_from : ℕ → Bytes → ℕ → ℕ → Bytes → Bytes
unfolding push_entry
list_from max_len dir zero i out = out
list_from max_len dir (suc n) i out =
    if first_byte dir i == 0
    then out
    else list_from max_len dir n (i + 1) (
        if first_byte dir i == 0xE5
        then out
        else if attr_at dir i == 0x0F
        then out
        else push_entry max_len (name_at dir i) out)

-- The same loop of `fs_list_root`; the number counts the files.
unfoldable pub print_from : Bytes → ℕ → ℕ → ℕ → Uart → Option (ℕ × Uart)
unfolding c_string
print_from dir zero i files_found u = some (files_found, u)
print_from dir (suc n) i files_found u =
    let skipped = print_from dir n (i + 1) files_found u in
    let printed = c_string (name_at dir i ++ 0 ∷ []) >>= λ name.
    print_from dir n (i + 1) (files_found + 1) (
      uart_print (codes " bytes\n") (
        uart_print_hex (size_at dir i) (
          uart_print (codes " | Size: ")
            (uart_print name (uart_print (codes "     -> FILE FOUND: ") u))))) in
    if first_byte dir i == 0
    then some (files_found, u)
    else if first_byte dir i == 0xE5
    then skipped
    else if attr_at dir i == 0x0F
    then skipped
    else printed

abbrev rule : Bytes
rule = codes "----------------------------------------\n"

-- The end of `fs_read_test_file`: the first sector, cut at the size. `disk_buffer[end_idx - 1]` of an
-- empty file is outside the buffer.
unfoldable pub print_sector : ℕ → Bytes → Uart → Option Uart
unfolding c_string
print_sector target_size sector u =
    let end_idx = if ltb target_size 512 then target_size else 511 in
    if end_idx == 0
    then none
    else (c_string (set sector end_idx 0) >>= λ text. some (
        uart_print rule (
          if not (get_or sector (end_idx - 1) 0 == 0x0A)
          then uart_print (codes "\n") (uart_print text u)
          else uart_print text u)))

module _ (dev : BlockDevice) (fs : Fs) where
  open dev use {Disk, read_sector}

  unfoldable pub fs_get_dir_list : Bytes → ℕ → Disk → Bytes × Disk
  unfolding list_from
  fs_get_dir_list buffer max_len d =
      let d1 = (read_sector (root_sector dev fs) d).1 in
      elim (read_sector (root_sector dev fs) d).0 [
        | none ↦ (overlay (0 ∷ []) buffer, d1)
        | some dir ↦ (overlay (list_from max_len dir dir_entries 0 [] ++ 0 ∷ []) buffer, d1)
      ]

  unfoldable pub fs_list_root : Disk → Uart → Option (Disk × Uart)
  unfolding print_from
  fs_list_root d u =
      let start = uart_print (codes "[FS] Scanning Root Directory...\n") u in
      let d1 = (read_sector (root_sector dev fs) d).1 in
      elim (read_sector (root_sector dev fs) d).0 [
        | none ↦
            some
              (d1, uart_print (codes "[FS] ERROR: Failed to read Root Directory sector.\n") start)
        | some dir ↦ print_from dir dir_entries 0 0 start >>= λ r.
            some (
              d1,
              if r.0 == 0 then uart_print (codes "     -> (Directory is empty)\n") r.1 else r.1,
            )
      ]

  -- The second part of `fs_read_test_file`, with the cluster and the size that it has found.
  unfoldable pub print_found : ℕ → ℕ → Disk → Uart → Option (Disk × Uart)
  unfolding print_sector
  print_found cluster size d1 u =
      if cluster == 0
      then some (d1, uart_print (codes "[FS] ERROR: TEST    TXT not found.\n") u)
      else (let heading = uart_print rule (
            uart_print (codes "\n[FS] Contents:\n")
              (uart_print_hex cluster (uart_print (codes "[FS] File found at Cluster: ") u))) in
          let d2 = (read_sector (cluster_to_sector fs cluster) d1).1 in
          elim (read_sector (cluster_to_sector fs cluster) d1).0 [
            | none ↦ some (d2, heading)
            | some sector ↦ print_sector size sector heading >>= λ u'. some (d2, u')
          ])

  unfoldable pub fs_read_test_file : Disk → Uart → Option (Disk × Uart)
  unfolding print_found
  fs_read_test_file d u =
      let start = uart_print (codes "[FS] Attempting to read TEST    TXT...\n") u in
      let d1 = (read_sector (root_sector dev fs) d).1 in
      elim (read_sector (root_sector dev fs) d).0 [
        | none ↦ some (d1, start)
        | some dir ↦
            let found = find_file (codes "TEST    TXT") dir dir_entries 0 in
            print_found found.0 found.1 d1 start
      ]

length-push :
    (max_len c : ℕ) (out : Bytes)
    → length out ≤ sub32 max_len 1
    → length (push max_len c out) ≤ sub32 max_len 1
unfolding push
length-push max_len c out h = ground (arith, length-append out (c ∷ []))

length-push_name :
    (max_len : ℕ) (cs out : Bytes)
    → length out ≤ sub32 max_len 1
    → length (push_name max_len cs out) ≤ sub32 max_len 1
unfolding push_name
length-push_name max_len [] out h = h
length-push_name max_len (c ∷ cs) out h =
    length-push_name max_len cs _ (ground (arith, length-push max_len c out h))

length-push_entry :
    (max_len : ℕ) (name out : Bytes)
    → length out ≤ sub32 max_len 1
    → length (push_entry max_len name out) ≤ sub32 max_len 1
unfolding push_entry
length-push_entry max_len name out h =
    let stem = push_name max_len (take 8 name) out in
    let short : length stem ≤ sub32 max_len 1 = length-push_name max_len (take 8 name) out h in
    length-push max_len 0x0A _ (dotted stem short)
  where
    dotted :
        (stem : Bytes)
        → length stem ≤ sub32 max_len 1
        → length (
            if not (get_or name 8 0 == 0x20) && ltb (length stem) (sub32 max_len 1)
            then push_name max_len (drop 8 name) (stem ++ 0x2E ∷ [])
            else stem)
          ≤ sub32 max_len 1
    dotted stem short = ground (
      arith,
      length-append stem (0x2E ∷ []),
      length-push_name max_len (drop 8 name) (stem ++ 0x2E ∷ []),
    )

-- If the text written so far leaves room for a NUL in the buffer, then so does the text after
-- any number of directory entries, of any bytes.
pub length-list_from :
    (max_len : ℕ) (dir : Bytes) (n i : ℕ) (out : Bytes)
    → length out ≤ sub32 max_len 1
    → length (list_from max_len dir n i out) ≤ sub32 max_len 1
unfolding list_from
length-list_from max_len dir zero i out h = h
length-list_from max_len dir (suc n) i out h = ground (
  arith,
  length-list_from max_len dir n (i + 1) out h,
  length-list_from max_len dir n (i + 1) (push_entry max_len (name_at dir i) out)
      (length-push_entry max_len (name_at dir i) out h),
)
