-- ===== src/Fat/Mount.antt =====
-- A volume that was formatted: its clusters are sectors behind the tables, and different clusters are
-- different sectors.
use ai_os_exchange.Prelude.{
  ℕ, suc, ◌+◌, ◌-◌, ◌*◌, ◌/◌, ◌^◌, ◌≤◌, ◌<◌, ◌≡◌, ◌≢◌, sym, ◌∙◌, ap, some, Bytes, get_or, arith,
  sub32, some_cancel, ==_of_ne,
}
use native.Mathlib.Nat.{mul-le-mul_right, mul_comm, one-le-mul, suc-mul}
use native.Mathlib.Decide.{dec_lt}
use ai_os_exchange.Disk.{BlockDevice, IsReliable}
use ai_os_exchange.Fat.{Fs, cluster_to_sector, mount}
use ai_os_exchange.Fat.Fields.{le16, le32}
use ai_os_exchange.Fat.Store.{Apart}

-- The fields of a boot sector that a formatted volume of `n` clusters has.
pub record IsFormatted (boot : Bytes) (n : ℕ) : Type 0 where
  pub sector_bytes : le16 boot 11 ≡ 512
  pub some_sectors : 1 ≤ get_or boot 13 0
  pub few_sectors : get_or boot 13 0 < 2 ^ 8
  pub reserved : 1 ≤ le16 boot 14
  pub tables : 1 ≤ get_or boot 16 0
  pub table_sectors : 1 ≤ le32 boot 36
  pub root : 2 ≤ le32 boot 44
  pub root_in : le32 boot 44 < n + 2
  pub fits : le16 boot 14 + get_or boot 16 0 * le32 boot 36 + n * get_or boot 13 0 < 2 ^ 32

-- The first sector behind the tables.
abbrev pub tables_end : Bytes → ℕ
tables_end boot = le16 boot 14 + get_or boot 16 0 * le32 boot 36

-- The variables that such a boot sector gives.
record IsMounted (boot : Bytes) (fs : Fs) : Type 0 where
  cluster_bytes : fs.bytes_per_cluster ≡ 512 * get_or boot 13 0
  fat_start : fs.fat_start_sector ≡ le16 boot 14
  data_start : fs.data_start_sector ≡ tables_end boot
  root_cluster : fs.root_dir_cluster ≡ le32 boot 44

mount-IsMounted :
    (boot : Bytes) (n : ℕ) {fs : Fs} → IsFormatted boot n → mount boot ≡ some fs → IsMounted boot fs
unfolding mount
mount-IsMounted boot n {fs} h e =
    let there : get_or boot 13 0 ≢ 0 = omega (arith, h.some_sectors) in
    let same = some_cancel (rw (==_of_ne (get_or boot 13 0) 0 there) at e) in
    record {
      cluster_bytes =
          sym (ap (λ (v : Fs). v.bytes_per_cluster) same)
          ∙ rw (h.sector_bytes) (omega (arith, h.few_sectors));
      fat_start = sym (ap (λ (v : Fs). v.fat_start_sector) same);
      data_start = sym (ap (λ (v : Fs). v.data_start_sector) same) ∙ omega (arith, h.fits);
      root_cluster = sym (ap (λ (v : Fs). v.root_dir_cluster) same);
    }

-- A cluster's first sector.
first_sector :
    (boot : Bytes) (n c : ℕ) {fs : Fs}
    → IsFormatted boot n
    → IsMounted boot fs
    → 2 ≤ c
    → c < n + 2
    → cluster_to_sector fs c ≡ tables_end boot + (c - 2) * get_or boot 13 0
unfolding cluster_to_sector
first_sector boot n c {fs} h v low high =
    let k = get_or boot 13 0 in
    let per : 512 * k / 512 ≡ k = omega arith in
    let wide : 1 * n ≤ k * n = mul-le-mul_right {m = 1} {n = k} n h.some_sectors in
    let swap : k * n ≡ n * k = mul_comm k n in
    let tables : 1 ≤ get_or boot 16 0 * le32 boot 36 = one-le-mul h.tables h.table_sectors in
    let less : sub32 c 2 ≡ c - 2 = omega (arith, wide, swap, tables, h.reserved, h.fits) in
    let room : (c - 2) * k ≤ n * k = mul-le-mul_right {m = c - 2} {n = n} k (omega arith) in
    rw (v.cluster_bytes, v.data_start, per, less) (omega (arith, room, h.fits))

-- The sectors of a cluster end before those of a later one begin.
clusters_apart : (a b k : ℕ) → 2 ≤ a → a < b → (a - 2) * k + k ≤ (b - 2) * k
clusters_apart a b k low h =
    let step : suc (a - 2) * k ≤ (b - 2) * k =
      mul-le-mul_right {m = suc (a - 2)} {n = b - 2} k (omega arith) in
    omega (arith, step, suc-mul (a - 2) k)

module _ (dev : BlockDevice) (ok : IsReliable dev) where
  -- A boot sector of a formatted volume of `n` clusters, of sectors of 512 bytes, is mounted. For a
  -- cluster other than the directory's and any later cluster of the volume: the table, the directory
  -- and the cluster begin in different sectors, the cluster begins behind the tables and ends before
  -- the later one begins, and the later one ends within the `n` clusters.
  pub mount-Apart :
      (boot : Bytes) (n c b : ℕ) {fs : Fs}
      → IsFormatted boot n
      → mount boot ≡ some fs
      → 2 ≤ c
      → c < b
      → b < n + 2
      → c ≢ fs.root_dir_cluster
      → Apart dev ok fs c
        × (tables_end boot ≤ cluster_to_sector fs c)
        × (cluster_to_sector fs c + get_or boot 13 0 ≤ cluster_to_sector fs b)
        × (cluster_to_sector fs b + get_or boot 13 0 ≤ tables_end boot + n * get_or boot 13 0)
  mount-Apart boot n c b {fs} h e low lt high other =
      let k = get_or boot 13 0 in
      let v = mount-IsMounted boot n h e in
      let r = fs.root_dir_cluster in
      let tables : 1 ≤ get_or boot 16 0 * le32 boot 36 = one-le-mul h.tables h.table_sectors in
      let here = first_sector boot n c h v low (omega arith) in
      let later = first_sector boot n b h v (omega arith) high in
      let whole : n + 2 - 2 ≡ n = omega arith in
      let last : (b - 2) * k + k ≤ n * k =
        rw whole at (clusters_apart b (n + 2) k (omega arith) high) in
      let low_r : 2 ≤ r = omega (arith, v.root_cluster, h.root) in
      let high_r : r < n + 2 = omega (arith, v.root_cluster, h.root_in) in
      let root = first_sector boot n r h v low_r high_r in
      (
        record {
          fat_root = λ z. absurd (omega (arith, z, root, v.fat_start, tables));
          fat_file = λ z. absurd (omega (arith, z, here, v.fat_start, tables));
          root_file = λ z. elim (dec_lt c r) [
            | yes lt ↦
                absurd (omega (arith, z, root, here, clusters_apart c r k low lt, h.some_sectors))
            | no ge ↦ absurd (
                omega
                  (arith, z, root, here, clusters_apart r c k low_r (omega arith), h.some_sectors))
          ];
        },
        omega (arith, here),
        omega (arith, here, later, clusters_apart c b k low lt),
        omega (arith, later, last),
      )
