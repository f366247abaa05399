-- ===== src/Mmu/Tests.antt =====
-- The translation tables' theorems on a kernel with the shell's region in its second block.
use ai_os_exchange.Prelude.{
  ◌+◌, ◌%◌, ◌*◌, ◌/◌, ◌≡◌, refl, get_or, ◌^◌, arith, if◌then◌else◌, ltb, ◌==◌, ◌&&◌, ◌||◌,
}
use ai_os_exchange.Mmu.{Layout, kbase, block_size, mmu_init_tables, mmu_map_framebuffer}
use ai_os_exchange.Mmu.Blocks.{block_address, is_block, for_el0, covers, kernel_blocks_lem}
use ai_os_exchange.Mmu.Translate.{
  output, LeadsTo, IsUserPage, IsPlace, mmu_map_framebuffer_translates,
}

abbrev pub linked : Layout
linked = record {
  l2_table_user = 0x40101000;
  l2_table_kernel = 0x40102000;
  l3_table_mmio = 0x40103000;
  l3_table_fb_0 = 0x40104000;
  l3_table_fb_1 = 0x40105000;
  el0_region_start = 0x40200000;
  el0_region_end = 0x40210000;
}

kernel_blocks_lem_example :
    let entry = get_or (mmu_init_tables linked).l2_table_kernel 1 0 in
    (for_el0 entry ≡ (ltb 1 64 && covers linked 1))
    × ((is_block entry && block_address entry == kbase + 1 * block_size)
        ≡ (ltb 1 64 || 1 == 128 || 1 == 129))
kernel_blocks_lem_example =
    kernel_blocks_lem linked 1 (omega arith) (omega arith) (omega arith) (omega arith) (omega arith)

linked_places :
    IsPlace linked.l2_table_user × IsPlace linked.l3_table_fb_0 × IsPlace linked.l3_table_fb_1
linked_places = ((refl, omega arith), (refl, omega arith), (refl, omega arith))

mmu_map_framebuffer_translates_example :
    let t = mmu_map_framebuffer linked 0x50010000 4096000 (mmu_init_tables linked) in
    let va = 0x20000000 + 4095999 in
    let low = ltb (va / 2 ^ 21 % 512) 257 in
    let l3 = if low then t.l3_table_fb_0 else t.l3_table_fb_1 in
    let page = get_or l3 (va / 2 ^ 12 % 512) 0 in
    LeadsTo 0x40101000 (get_or t.l1_table (va / 2 ^ 30) 0)
    × LeadsTo
        (if low then 0x40104000 else 0x40105000)
        (get_or t.l2_table_user (va / 2 ^ 21 % 512) 0)
    × IsUserPage (0x50010000 + 4095999 / 4096 * 4096) page
    × (output page + va % 4096 ≡ 0x50010000 + 4095999)
mmu_map_framebuffer_translates_example =
    mmu_map_framebuffer_translates linked 0x50010000 4096000 4095999 linked_places.0 linked_places.1
      linked_places.2 refl (omega arith) (omega arith) (omega arith) (omega arith)
