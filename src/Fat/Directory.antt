-- ===== src/Fat/Directory.antt =====
-- The 16 entries of 32 bytes in the first sector of the root directory, and the 128 entries of the
-- first FAT sector, as the loops of modules/fs/fat32.c search them.
use ai_os_exchange.Prelude.{
  ℕ, zero, suc, ◌+◌, ◌*◌, ◌/◌, ◌%◌, ◌^◌, ◌≡◌, [], ◌∷◌, ◌++◌, if◌then◌else◌, ◌==◌, ◌||◌, Option,
  none, some, Bytes, get_or, length,
}
use ai_os_exchange.Fat.Fields.{le16, le32, put16, put32, bytes_at, bytes_eq, store, length-store}

abbrev pub dir_entries : ℕ
dir_entries = 16

-- Fields of entry `i`.
abbrev pub name_at : Bytes → ℕ → Bytes
name_at dir i = bytes_at dir (32 * i) 11

abbrev pub first_byte : Bytes → ℕ → ℕ
first_byte dir i = get_or dir (32 * i) 0

abbrev pub attr_at : Bytes → ℕ → ℕ
attr_at dir i = get_or dir (32 * i + 11) 0

-- `((uint32_t)fst_clus_hi << 16) | fst_clus_lo`, whose bits do not overlap.
unfoldable pub cluster_at : Bytes → ℕ → ℕ
cluster_at dir i = le16 dir (32 * i + 20) * 2 ^ 16 + le16 dir (32 * i + 26)

unfoldable pub size_at : Bytes → ℕ → ℕ
size_at dir i = le32 dir (32 * i + 28)

-- The search of `fs_read_file_content`: cluster and size of the first entry of that name, among `n`
-- entries from `i` on and before the end mark; zeroes if there is none.
unfoldable pub find_file : Bytes → Bytes → ℕ → ℕ → ℕ × ℕ
find_file target dir zero i = (0, 0)
find_file target dir (suc n) i =
    if first_byte dir i == 0
    then (0, 0)
    else if bytes_eq (name_at dir i) target
    then (cluster_at dir i, size_at dir i)
    else find_file target dir n (i + 1)

-- The search of `fs_append_file_content`, which does not stop at the end mark.
unfoldable pub find_index : Bytes → Bytes → ℕ → ℕ → Option ℕ
find_index target dir zero i = none
find_index target dir (suc n) i =
    if bytes_eq (name_at dir i) target then some i else find_index target dir n (i + 1)

-- The first entry that is unused or deleted.
unfoldable pub find_free_entry : Bytes → ℕ → ℕ → Option ℕ
find_free_entry dir zero i = none
find_free_entry dir (suc n) i =
    if first_byte dir i == 0 || first_byte dir i == 0xE5
    then some i
    else find_free_entry dir n (i + 1)

-- `fat_table[i] & 0x0FFFFFFF`, the low 28 bits.
unfoldable pub fat_entry : Bytes → ℕ → ℕ
fat_entry fat i = le32 fat (4 * i) % 2 ^ 28

unfoldable pub find_free_cluster : Bytes → ℕ → ℕ → Option ℕ
find_free_cluster fat zero i = none
find_free_cluster fat (suc n) i =
    if fat_entry fat i == 0 then some i else find_free_cluster fat n (i + 1)

abbrev pub end_of_chain : ℕ
end_of_chain = 0x0FFFFFFF

-- `fat_table[i] = 0x0FFFFFFF`
unfoldable pub mark_used : Bytes → ℕ → Bytes
mark_used fat i = store fat (4 * i) (put32 end_of_chain)

-- The entry that `fs_write_file_content` fills in: behind the name the archive attribute, no times,
-- the cluster in two halves, and the size.
unfoldable pub entry_tail : ℕ → ℕ → Bytes
entry_tail cluster size =
    (0x20 ∷ 0 ∷ 0 ∷ 0 ∷ 0 ∷ 0 ∷ 0 ∷ 0 ∷ 0 ∷ [])
    ++ (put16 (cluster / 2 ^ 16 % 2 ^ 16)
        ++ ((0 ∷ 0 ∷ 0 ∷ 0 ∷ []) ++ (put16 (cluster % 2 ^ 16) ++ put32 size)))

unfoldable pub put_entry : Bytes → ℕ → Bytes → ℕ → ℕ → Bytes
put_entry dir i name cluster size = store dir (32 * i) (name ++ entry_tail cluster size)

pub length-put_entry :
    (dir : Bytes) (i : ℕ) (name : Bytes) (cluster size : ℕ)
    → length (put_entry dir i name cluster size) ≡ length dir
unfolding put_entry
length-put_entry dir i name cluster size =
    length-store dir (32 * i) (name ++ entry_tail cluster size)

pub length-mark_used : (fat : Bytes) (i : ℕ) → length (mark_used fat i) ≡ length fat
unfolding mark_used
length-mark_used fat i = length-store fat _ _
