-- ===== src/Mmu/Blocks.antt =====
-- Which blocks of the kernel's memory the shell reaches.
use native.Mathlib.Decide.{ℕ_discrete, dec_lt}
use mathlib.Core.Path.{subst}
use ai_os_exchange.Prelude.{
  ℕ, ◌+◌, ◌-◌, ◌*◌, ◌/◌, ◌%◌, ◌^◌, ◌≤◌, ◌<◌, ◌≡◌, ◌≢◌, refl, sym, ◌∙◌, ap, List, length, get_or,
  set, length-set, get_or-set_self, get_or-set_ne, arith, Bool, true, false, Bool-cases, inl, inr,
  not, if◌then◌else◌, ltb, leb, ◌==◌, ◌&&◌, ◌||◌, every, every_lem, lt→ltb, u32, u64,
}
use ai_os_exchange.Mmu.{
  Layout, kbase, block_size, kernel_block, el0_block, set_range, map_el0, idx_start, idx_end, sub64,
  empty_table, kernel_blocks, mmu_init_tables, block_entry, attr_device, ap_rw_el1,
}
use ai_os_exchange.Mmu.Ranges.{
  set_range_out, set_range_in, map_el0_out, map_el0_in, empty_entry, length-set_range,
  length-map_el0,
}

-- What the hardware reads in a block entry: the address of the block, that it is valid, and that
-- unprivileged code may use it.
abbrev pub block_address : ℕ → ℕ
block_address entry = entry / 2 ^ 21 * 2 ^ 21

abbrev pub is_block : ℕ → Bool
is_block entry = entry % 4 == 1

abbrev pub for_el0 : ℕ → Bool
for_el0 entry = entry / 2 ^ 6 % 2 == 1

-- The entries of both kinds, by evaluation.
abbrev is_place : ℕ → ℕ → Bool
is_place i entry = is_block entry && block_address entry == kbase + i * block_size

abbrev is_right : Bool → ℕ → ℕ → Bool
is_right el0 i entry = is_place i entry && (if el0 then for_el0 entry else not (for_el0 entry))

from_test : (el0 b e : Bool) → (b && (if el0 then e else not e)) ≡ true → (e ≡ el0) × (b ≡ true)
from_test true true true h = (refl, refl)
from_test true true false h = cc
from_test true false e h = cc
from_test false true true h = cc
from_test false true false h = (refl, refl)
from_test false false e h = cc

kernel_entries : every (λ i. is_right false i (kernel_block i)) 64 ≡ true
unfolding every
kernel_entries = refl

el0_entries : every (λ i. is_right true i (el0_block i)) 64 ≡ true
unfolding every
el0_entries = refl

-- Whether a block is one of the shell's region.
abbrev pub in_region : Layout → ℕ → Bool
in_region at i = leb (idx_start at) i && ltb i (idx_end at)

-- The blocks of the kernel's memory that the shell's region covers, the others, and what is behind.
module _ (at : Layout) where
  abbrev memory_table : List ℕ
  memory_table = map_el0 64 (idx_start at) (idx_end at) (set_range kernel_block 64 0 empty_table)

  memory_table_size : length memory_table ≡ 512
  memory_table_size =
      length-map_el0 64 (idx_start at) (idx_end at) (set_range kernel_block 64 0 empty_table)
      ∙ length-set_range kernel_block 64 0 empty_table

  entry_el0 : (i : ℕ) → i < 64 → in_region at i ≡ true → get_or memory_table i 0 ≡ el0_block i
  entry_el0 i low inside =
      map_el0_in 64 (idx_start at) (idx_end at) i (set_range kernel_block 64 0 empty_table)
        (length-set_range kernel_block 64 0 empty_table) (omega arith) (ground arith) (ground arith)
        low

  entry_kernel :
      (i : ℕ) → i < 64 → in_region at i ≡ false → get_or memory_table i 0 ≡ kernel_block i
  entry_kernel i low outside =
      map_el0_out 64 (idx_start at) (idx_end at) i (set_range kernel_block 64 0 empty_table)
        (ground arith)
      ∙ set_range_in kernel_block 64 0 i empty_table (omega arith) (omega arith) (omega arith)

  entry_none : (i : ℕ) → 64 ≤ i → get_or memory_table i 0 ≡ 0
  entry_none i high =
      map_el0_out 64 (idx_start at) (idx_end at) i (set_range kernel_block 64 0 empty_table)
        (inr (inr high))
      ∙ set_range_out kernel_block 64 0 i empty_table (inr (omega arith))
      ∙ empty_entry 512 i 0

  -- What is right for an entry of the table.
  abbrev Right : ℕ → ℕ → Type 0
  Right i entry =
      (for_el0 entry ≡ (ltb i 64 && in_region at i))
      × (is_place i entry ≡ (ltb i 64 || i == 128 || i == 129))

  is_right-Right :
      (i : ℕ) (entry : ℕ) (el0 : Bool)
      → i < 64
      → in_region at i ≡ el0
      → is_right el0 i entry ≡ true
      → Right i entry
  is_right-Right i entry el0 low is tested =
      let below = lt→ltb i 64 low in
      let (reach, place) = from_test el0 (is_place i entry) (for_el0 entry) tested in
      let e1 : (ltb i 64 && in_region at i) ≡ el0 = rw (below) is in
      let e2 : (ltb i 64 || i == 128 || i == 129) ≡ true = rw (below) refl in
      (reach ∙ sym e1, place ∙ sym e2)

  memory_table-Right : (i : ℕ) → i < 64 → Right i (get_or memory_table i 0)
  memory_table-Right i low = elim (Bool-cases (in_region at i)) [
    | inl inside ↦ subst (Right i) (sym (entry_el0 i low inside)) (
        is_right-Right i (el0_block i) true low inside
          (every_lem (λ i. is_right true i (el0_block i)) 64 low el0_entries))
    | inr outside ↦ subst (Right i) (sym (entry_kernel i low outside)) (
        is_right-Right i (kernel_block i) false low outside
          (every_lem (λ i. is_right false i (kernel_block i)) 64 low kernel_entries))
  ]

  zero-Right : (i : ℕ) → 64 ≤ i → i ≢ 128 → i ≢ 129 → Right i 0
  zero-Right i high not_first not_second = (ground arith, ground arith)

  abbrev first_heap : ℕ
  first_heap = block_entry 0x50000000 attr_device ap_rw_el1

  abbrev second_heap : ℕ
  second_heap = block_entry 0x50200000 attr_device ap_rw_el1

  without_heap : (i : ℕ) → i ≢ 128 → i ≢ 129 → Right i (get_or memory_table i 0)
  without_heap i not_first not_second = elim (dec_lt i 64) [
    | yes low ↦ memory_table-Right i low
    | no high ↦
        subst (Right i) (sym (entry_none i (omega arith)))
          (zero-Right i (omega arith) not_first not_second)
  ]

  without_second : (i : ℕ) → i ≢ 129 → Right i (get_or (set memory_table 128 first_heap) i 0)
  without_second i not_second = elim (ℕ_discrete i 128) [
    | yes first ↦
        subst (λ i. Right i (get_or (set memory_table 128 first_heap) i 0)) (sym first)
          (subst (Right 128)
            (sym (get_or-set_self memory_table 128 first_heap 0 (omega (arith, memory_table_size))))
            (refl, refl))
    | no not_first ↦
        subst (Right i)
          (sym (get_or-set_ne memory_table 128 i first_heap 0 (λ e. not_first (sym e))))
          (without_heap i not_first not_second)
  ]

  kernel_blocks-Right :
      (i : ℕ) → i < 512 → Right i (get_or (mmu_init_tables at).l2_table_kernel i 0)
  unfolding mmu_init_tables kernel_blocks
  kernel_blocks-Right i low = elim (ℕ_discrete i 129) [
    | yes last ↦
        subst (λ i. Right i (get_or (kernel_blocks at) i 0)) (sym last)
          (subst (Right 129)
            (sym (
              get_or-set_self (set memory_table 128 first_heap) 129 second_heap 0
                (omega (arith, memory_table_size, length-set memory_table 128 first_heap))))
            (refl, refl))
    | no not_last ↦
        subst (Right i)
          (sym (
            get_or-set_ne (set memory_table 128 first_heap) 129 i second_heap 0
              (λ e. not_last (sym e))))
          (without_second i not_last)
  ]

-- Whether a block and the shell's region have a byte in common, or the region starts inside it.
abbrev pub covers : Layout → ℕ → Bool
covers at i =
    ltb at.el0_region_start (kbase + i * block_size + block_size)
    && ltb (kbase + i * block_size) at.el0_region_end

in_region-covers :
    (start last i : ℕ)
    → kbase ≤ start
    → kbase ≤ last
    → start < 2 ^ 40
    → last < 2 ^ 40
    → (leb (u32 (sub64 start kbase / block_size)) i
        && ltb i (u32 (u64 (sub64 last kbase + block_size - 1) / block_size)))
      ≡ (ltb start (kbase + i * block_size + block_size) && ltb (kbase + i * block_size) last)
in_region-covers start last i a b c d = ground arith

-- With both ends of the shell's region linked at or above the start of the kernel's memory and below
-- 2 ^ 40, for every entry of the table of this memory: the shell reaches the block exactly if it is one of the 64 blocks of memory
-- and the region covers a part of it, and the entry maps a block, to its own address, exactly if it
-- is one of the 64 blocks or of the two of the heap for devices.
pub kernel_blocks_lem :
    (at : Layout) (i : ℕ)
    → i < 512
    → kbase ≤ at.el0_region_start
    → kbase ≤ at.el0_region_end
    → at.el0_region_start < 2 ^ 40
    → at.el0_region_end < 2 ^ 40
    → let entry = get_or (mmu_init_tables at).l2_table_kernel i 0 in
      (for_el0 entry ≡ (ltb i 64 && covers at i))
      × ((is_block entry && block_address entry == kbase + i * block_size)
          ≡ (ltb i 64 || i == 128 || i == 129))
kernel_blocks_lem at i low a b c d =
    let (reach, place) = kernel_blocks-Right at i low in
    (
      reach
          ∙ ap (λ r. ltb i 64 && r)
              (in_region-covers at.el0_region_start at.el0_region_end i a b c d),
      place,
    )
