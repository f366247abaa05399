-- ===== src/Mmu.antt =====
-- kernel/mmu.c: the translation tables that `mmu_init_tables` and `mmu_map_framebuffer` build. The
-- registers that switch them on, and the barriers, are left out.
pub mod Ranges
pub mod Blocks
pub mod Bits
pub mod Pages
pub mod Translate
pub mod Tests
use Prim.Native.Nat.{bit_or}
use ai_os_exchange.Prelude.{
  ℕ, zero, suc, ◌+◌, ◌-◌, ◌*◌, ◌/◌, ◌%◌, ◌^◌, List, if◌then◌else◌, ◌==◌, ◌&&◌, ltb, Bytes, set,
  replicate, u32, u64,
}

abbrev pub page_size : ℕ
page_size = 4096

-- The bits of an entry.
abbrev pub desc_valid : ℕ
desc_valid = 0x001

abbrev pub desc_table : ℕ
desc_table = 0x002

abbrev pub desc_page : ℕ
desc_page = 0x002

abbrev pub desc_block : ℕ
desc_block = 0x000

abbrev pub desc_af : ℕ
desc_af = 0x400

abbrev pub ap_rw_el1 : ℕ
ap_rw_el1 = 0x000

abbrev pub ap_rw_any : ℕ
ap_rw_any = 0x040

abbrev pub attr_device : ℕ
attr_device = 0x000

abbrev pub attr_normal : ℕ
attr_normal = 0x004

-- The tables, of 512 entries each.
pub record Tables : Type 0 where
  pub l1_table : List ℕ
  pub l2_table_user : List ℕ
  pub l2_table_kernel : List ℕ
  pub l3_table_mmio : List ℕ
  pub l3_table_fb_0 : List ℕ
  pub l3_table_fb_1 : List ℕ

-- Where the linker has put the tables and the region of the shell.
pub record Layout : Type 0 where
  pub l2_table_user : ℕ
  pub l2_table_kernel : ℕ
  pub l3_table_mmio : ℕ
  pub l3_table_fb_0 : ℕ
  pub l3_table_fb_1 : ℕ
  pub el0_region_start : ℕ
  pub el0_region_end : ℕ

-- An entry is an address and its bits.
abbrev pub table_entry : ℕ → ℕ
table_entry addr = bit_or (bit_or addr desc_table) desc_valid

abbrev pub block_entry : ℕ → ℕ → ℕ → ℕ
block_entry addr attr ap =
    bit_or (bit_or (bit_or (bit_or (bit_or addr attr) ap) desc_af) desc_block) desc_valid

abbrev pub page_entry : ℕ → ℕ → ℕ → ℕ
page_entry addr attr ap =
    bit_or (bit_or (bit_or (bit_or (bit_or addr attr) ap) desc_af) desc_page) desc_valid

abbrev pub kbase : ℕ
kbase = 0x40000000

abbrev pub block_size : ℕ
block_size = 0x200000

abbrev pub virtio_mmio_base : ℕ
virtio_mmio_base = 0x0A000000

-- The entries of a block of kernel memory: for the kernel alone, and for the shell too.
abbrev pub kernel_block : ℕ → ℕ
kernel_block i = block_entry (kbase + i * block_size) attr_normal ap_rw_el1

abbrev pub el0_block : ℕ → ℕ
el0_block i = block_entry (kbase + i * block_size) attr_normal ap_rw_any

abbrev pub mmio_page : ℕ → ℕ
mmio_page i = page_entry (virtio_mmio_base + i * page_size) attr_device ap_rw_el1

-- `for (i = first; i < first + n; i++) table[ i ] = entry(i)`
unfoldable pub set_range : (ℕ → ℕ) → ℕ → ℕ → List ℕ → List ℕ
set_range entry zero i table = table
set_range entry (suc n) i table = set_range entry n (i + 1) (set table i (entry i))

-- `for (i = idx_start; i < idx_end && i < 64; i++)`, on fuel: 64 rounds are enough.
unfoldable pub map_el0 : ℕ → ℕ → ℕ → List ℕ → List ℕ
map_el0 zero i idx_end table = table
map_el0 (suc n) i idx_end table =
    let rest = map_el0 n (i + 1) idx_end (set table i (el0_block i)) in
    if ltb i idx_end && ltb i 64 then rest else table

-- The subtraction of addresses wraps at 64 bits.
abbrev pub sub64 : ℕ → ℕ → ℕ
sub64 a b = u64 (a + 2 ^ 64 - b)

abbrev pub idx_start : Layout → ℕ
idx_start at = u32 (sub64 at.el0_region_start kbase / block_size)

abbrev pub idx_end : Layout → ℕ
idx_end at = u32 (u64 (sub64 at.el0_region_end kbase + block_size - 1) / block_size)

abbrev pub empty_table : List ℕ
empty_table = replicate 512 0

-- The blocks of the kernel's memory, then those of the shell, then the heap for devices.
unfoldable pub kernel_blocks : Layout → List ℕ
kernel_blocks at =
    set
      (set (map_el0 64 (idx_start at) (idx_end at) (set_range kernel_block 64 0 empty_table)) 128
        (block_entry 0x50000000 attr_device ap_rw_el1))
      129 (block_entry 0x50200000 attr_device ap_rw_el1)

unfoldable pub mmu_init_tables : Layout → Tables
mmu_init_tables at = record {
  l1_table =
      set (set empty_table 1 (table_entry at.l2_table_kernel)) 0 (table_entry at.l2_table_user);
  l2_table_user =
      set
        (set (set empty_table 64 (block_entry 0x08000000 attr_device ap_rw_el1)) 72
          (block_entry 0x09000000 attr_device ap_rw_el1))
        80 (table_entry at.l3_table_mmio);
  l2_table_kernel = kernel_blocks at;
  l3_table_mmio = set_range mmio_page 32 0 empty_table;
  l3_table_fb_0 = empty_table;
  l3_table_fb_1 = empty_table;
}

-- A page of the framebuffer; pages from 1024 on are left out.
abbrev pub fb_page : ℕ → ℕ → ℕ
fb_page phys_addr page_idx =
    page_entry (u64 (phys_addr + page_idx * page_size)) attr_normal ap_rw_any

unfoldable pub map_page : ℕ → ℕ → Tables → Tables
map_page phys_addr page_idx t =
    if ltb page_idx 512
    then record t { l3_table_fb_0 = set t.l3_table_fb_0 page_idx (fb_page phys_addr page_idx) }
    else if ltb page_idx 1024
    then record t {
      l3_table_fb_1 = set t.l3_table_fb_1 (page_idx - 512) (fb_page phys_addr page_idx);
    }
    else t

-- `n` pages from a page on: `offset` is a multiple of the page size.
unfoldable pub map_pages : ℕ → ℕ → ℕ → Tables → Tables
map_pages phys_addr zero page_idx t = t
map_pages phys_addr (suc n) page_idx t =
    map_pages phys_addr n (page_idx + 1) (map_page phys_addr page_idx t)

unfoldable pub mmu_map_framebuffer : Layout → ℕ → ℕ → Tables → Tables
mmu_map_framebuffer at phys_addr size t =
    if phys_addr == 0
    then t
    else map_pages phys_addr ((size + page_size - 1) / page_size) 0 (record t {
      l2_table_user =
          set (set t.l2_table_user 256 (table_entry at.l3_table_fb_0)) 257
            (table_entry at.l3_table_fb_1);
    })
