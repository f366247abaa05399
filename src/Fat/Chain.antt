-- ===== src/Fat/Chain.antt =====
-- The chains of clusters in the first sector of the table, and the guard against cycles.
use ai_os_exchange.Prelude.{
  ℕ, zero, suc, ◌*◌, ◌%◌, ◌^◌, ◌≤◌, ◌<◌, ◌≡◌, refl, ◌∙◌, true, false, leb, some, Bytes, codes,
  arith,
}
use ai_os_exchange.Disk.{BlockDevice, IsReliable}
use ai_os_exchange.Uart.{Uart, uart_print}
use ai_os_exchange.Fat.{Fs}
use ai_os_exchange.Fat.Name.{format_fat_name}
use ai_os_exchange.Fat.Fields.{le32}
use ai_os_exchange.Fat.Directory.{find_index, fat_entry, cluster_at}
use ai_os_exchange.Fat.File.{circular, is_link, walk, root_sector, fs_append_file_content}

-- From one cluster to another by `n` links, each in the first sector of the table, in the 28 low bits
-- of the cluster's number: another cluster, and neither free, nor bad, nor an end.
pub data Chain (fat : Bytes) : ℕ → ℕ → ℕ → Type 0 where
  stop : {c : ℕ} → Chain fat zero c c
  link :
      {n c e : ℕ} (next : ℕ)
      → c < 128
      → le32 fat (4 * c) % 2 ^ 28 ≡ next
      → 2 ≤ next
      → next < 0x0FFFFFF8
      → Chain fat n next e
      → Chain fat (suc n) c e

-- What the code does with a link.
follows :
    (fat : Bytes) (c next : ℕ)
    → c < 128
    → le32 fat (4 * c) % 2 ^ 28 ≡ next
    → 2 ≤ next
    → next < 0x0FFFFFF8
    → (leb 128 c ≡ false) × (fat_entry fat c ≡ next) × (is_link next ≡ true)
unfolding fat_entry
follows fat c next low e a b = (ground arith, e, ground arith)

-- More links than the guard allows.
walk_circular : (fat : Bytes) (fuel c e : ℕ) → Chain fat (suc fuel) c e → walk fuel fat c ≡ circular
unfolding walk
walk_circular fat zero c e (link next low number a b rest) =
    let (inside, entry, more) = follows fat c next low number a b in rw (inside, entry, more) refl
walk_circular fat (suc fuel) c e (link next low number a b rest) =
    let (inside, entry, more) = follows fat c next low number a b in
    rw (inside, entry, more) (walk_circular fat fuel next e rest)

-- A chain and one link more.
one_more :
    (fat : Bytes) (n a c next : ℕ)
    → Chain fat n a c
    → c < 128
    → le32 fat (4 * c) % 2 ^ 28 ≡ next
    → 2 ≤ next
    → next < 0x0FFFFFF8
    → Chain fat (suc n) a next
one_more fat zero a c next stop low e p q = link next low e p q stop
one_more fat (suc n) a c next (link other low' e' p' q' rest) low e p q =
    link other low' e' p' q' (one_more fat n other c next rest low e p q)

-- A chain that runs into a cycle has no last link.
endless :
    (fat : Bytes) (m k n a c : ℕ)
    → Chain fat k a c
    → Chain fat (suc n) c c
    → (e : ℕ) × Chain fat m a e
endless fat zero k n a c to_cycle cycle = (a, stop)
endless fat (suc m) zero n a c stop (link next low number p q rest) =
    let (e, chain) =
      endless fat m zero n next next stop (one_more fat n next a next rest low number p q) in
    (e, link next low number p q chain)
endless fat (suc m) (suc k) n a c (link next low number p q rest) cycle =
    let (e, chain) = endless fat m k n next c rest cycle in (e, link next low number p q chain)

module _ (dev : BlockDevice) (ok : IsReliable dev) (fs : Fs) where
  open dev use {Disk, read_sector, content, read_frame}

  -- On a device on which no request fails, an append to a file whose chain of clusters, all below 128
  -- and so in the first sector of the table, runs into a cycle ends: it prints that the chain is
  -- circular, and the disk's content stays.
  pub fs_append_file_content_circular :
      (filename data_bytes : Bytes) (count : ℕ) (d : Disk) (u : Uart) {target : Bytes} (i k n c : ℕ)
      → format_fat_name filename ≡ some target
      → find_index target (content d (root_sector dev fs)) 16 0 ≡ some i
      → Chain (content d fs.fat_start_sector) k (cluster_at (content d (root_sector dev fs)) i) c
      → Chain (content d fs.fat_start_sector) (suc n) c c
      → (d' : Disk) × (fs_append_file_content dev fs filename data_bytes count d u
          ≡ some (
            d',
            uart_print (codes "[FS] FATAL: Circular FAT chain detected! Aborting append.\n") u,
          ))
        × ((t : ℕ) → content d' t ≡ content d t)
  unfolding fs_append_file_content
  fs_append_file_content_circular filename data_bytes count d u {target} i k n c named found
        to_cycle cycle =
      let root = root_sector dev fs in
      let start = fs.fat_start_sector in
      let d1 = (read_sector root d).1 in
      let (e, chain) =
        endless (content d start) (suc fs.max_valid_clusters) k n _ c to_cycle cycle in
      let round = walk_circular (content d start) fs.max_valid_clusters _ e chain in
      (
        (read_sector start d1).1,
        rw (named, fs_append_file_content)
            (rw (ok.reads root d, fs_append_file_content)
              (rw (found, fs_append_file_content)
                (rw (ok.reads start d1, read_frame root start d, fs_append_file_content)
                  (rw (round, fs_append_file_content) refl)))),
        λ t. read_frame start t d1 ∙ read_frame root t d,
      )
