-- ===== src/Mmu/Translate.antt =====
-- The way of the hardware from an address of the shell to the framebuffer: what it reads in the entries
-- of the three levels, by the bits of the architecture.
use Prim.Native.Nat.{bit_or}
use ai_os_exchange.Prelude.{
  ℕ, ◌+◌, ◌-◌, ◌*◌, ◌/◌, ◌%◌, ◌^◌, ◌<◌, ◌≡◌, ◌≢◌, refl, ◌∙◌, ap, get_or, length, arith, zero, suc,
  true, false, lt→ltb, ltb_of_not-lt, ==_of_ne, if◌then◌else◌, ltb, u64, Bool-cases, inl, inr,
}
use native.Mathlib.Decide.{dec_lt}
use ai_os_exchange.Mmu.{
  Layout, Tables, table_entry, page_entry, attr_normal, ap_rw_any, map_page, map_pages,
  mmu_init_tables, mmu_map_framebuffer,
}
use ai_os_exchange.Mmu.Bits.{bit_or_flag}
use ai_os_exchange.Mmu.Pages.{IsSized, mmu_map_framebuffer_lem}

-- Bits 47 to 12 of an entry are an address.
abbrev pub output : ℕ → ℕ
output entry = entry / 2 ^ 12 % 2 ^ 36 * 2 ^ 12

-- Bits 1 and 0 say that an entry leads on to a table or, at the last level, is a page.
abbrev pub LeadsTo : ℕ → ℕ → Type 0
LeadsTo addr entry = (entry % 4 ≡ 3) × (output entry ≡ addr)

-- Bits 7 and 6: unprivileged code may read and write. Bit 10: the page was accessed.
abbrev pub IsUserPage : ℕ → ℕ → Type 0
IsUserPage addr entry = LeadsTo addr entry × (entry / 2 ^ 6 % 4 ≡ 1) × (entry / 2 ^ 10 % 2 ≡ 1)

abbrev pub IsPlace : ℕ → Type 0
IsPlace addr = (addr % 4096 ≡ 0) × (addr < 2 ^ 48)

plain : (addr : ℕ) → addr ≡ addr + 0
plain addr = omega arith

table_value : (addr : ℕ) → addr % 4096 ≡ 0 → table_entry addr ≡ addr + 3
table_value addr even =
    ap (λ x. bit_or (bit_or x 2) 1) (plain addr)
    ∙ ap (λ x. bit_or x 1) (bit_or_flag addr 0 2 even (omega arith) (omega arith))
    ∙ bit_or_flag addr 2 1 even (omega arith) (omega arith)

page_value : (addr : ℕ) → addr % 4096 ≡ 0 → page_entry addr attr_normal ap_rw_any ≡ addr + 0x447
page_value addr even =
    ap (λ x. bit_or (bit_or (bit_or (bit_or (bit_or x 4) 0x40) 0x400) 2) 1) (plain addr)
    ∙ ap (λ x. bit_or (bit_or (bit_or (bit_or x 0x40) 0x400) 2) 1)
        (bit_or_flag addr 0 4 even (omega arith) (omega arith))
    ∙ ap (λ x. bit_or (bit_or (bit_or x 0x400) 2) 1)
        (bit_or_flag addr 4 0x40 even (omega arith) (omega arith))
    ∙ ap (λ x. bit_or (bit_or x 2) 1) (bit_or_flag addr 0x44 0x400 even (omega arith) (omega arith))
    ∙ ap (λ x. bit_or x 1) (bit_or_flag addr 0x444 2 even (omega arith) (omega arith))
    ∙ bit_or_flag addr 0x446 1 even (omega arith) (omega arith)

table_entry-LeadsTo :
    (addr entry : ℕ) → IsPlace addr → entry ≡ table_entry addr → LeadsTo addr entry
table_entry-LeadsTo addr entry (even, low) e =
    let value : entry ≡ addr + 3 = e ∙ table_value addr even in
    (omega (arith, value), omega (arith, value))

page_entry-IsUserPage :
    (addr entry : ℕ)
    → IsPlace addr
    → entry ≡ page_entry addr attr_normal ap_rw_any
    → IsUserPage addr entry
page_entry-IsUserPage addr entry (even, low) e =
    let value : entry ≡ addr + 0x447 = e ∙ page_value addr even in
    ((omega (arith, value), omega (arith, value)), omega (arith, value), omega (arith, value))

init-IsSized : (at : Layout) → IsSized (mmu_init_tables at)
unfolding mmu_init_tables
init-IsSized at = record { first = refl; second = refl }

user_size : (at : Layout) → length (mmu_init_tables at).l2_table_user ≡ 512
unfolding mmu_init_tables
user_size at = refl

map_pages_root : (phys n p : ℕ) (t : Tables) → (map_pages phys n p t).l1_table ≡ t.l1_table
unfolding map_pages map_page
map_pages_root phys zero p t = refl
map_pages_root phys (suc n) p t =
    map_pages_root phys n (p + 1) (map_page phys p t) ∙ page_root phys p t
  where
    page_root : (phys p : ℕ) (t : Tables) → (map_page phys p t).l1_table ≡ t.l1_table
    page_root phys p t = elim (Bool-cases (ltb p 512)) [
      | inl low ↦ rw (low) refl
      | inr high ↦ elim (Bool-cases (ltb p 1024)) [
        | inl middle ↦ rw (high, middle) refl
        | inr out ↦ rw (high, out) refl
      ]
    ]

root_entry :
    (at : Layout) (phys size : ℕ)
    → phys ≢ 0
    → get_or (mmu_map_framebuffer at phys size (mmu_init_tables at)).l1_table 0 0
      ≡ table_entry at.l2_table_user
unfolding mmu_map_framebuffer mmu_init_tables
root_entry at phys size there =
    rw (==_of_ne phys 0 there)
      (ap (λ l. get_or l 0 0) (map_pages_root phys ((size + 4096 - 1) / 4096) 0 _))

-- The framebuffer at a page of physical memory is mapped on the tables of the start, which the linker
-- has put at pages, all below 2 ^ 48. Then the hardware takes every byte of the first four megabytes
-- of the framebuffer, at 0x20000000 and its offset, through the first entry of the root table, the
-- entry of its two megabytes, and the entry of its page, to that byte of the physical memory, and the
-- shell may read and write there.
pub mmu_map_framebuffer_translates :
    (at : Layout) (phys size a : ℕ)
    → IsPlace at.l2_table_user
    → IsPlace at.l3_table_fb_0
    → IsPlace at.l3_table_fb_1
    → phys % 4096 ≡ 0
    → phys + size < 2 ^ 48
    → phys ≢ 0
    → a < size
    → a < 2 ^ 22
    → let t = mmu_map_framebuffer at phys size (mmu_init_tables at) in
      let va = 0x20000000 + a in
      let low = ltb (va / 2 ^ 21 % 512) 257 in
      let l3 = if low then t.l3_table_fb_0 else t.l3_table_fb_1 in
      let page = get_or l3 (va / 2 ^ 12 % 512) 0 in
      LeadsTo at.l2_table_user (get_or t.l1_table (va / 2 ^ 30) 0)
      × LeadsTo
          (if low then at.l3_table_fb_0 else at.l3_table_fb_1)
          (get_or t.l2_table_user (va / 2 ^ 21 % 512) 0)
      × IsUserPage (phys + a / 4096 * 4096) page
      × (output page + va % 4096 ≡ phys + a)
mmu_map_framebuffer_translates at phys size a user first second even fits there inside small =
    let t = mmu_map_framebuffer at phys size (mmu_init_tables at) in
    let (table, page) =
      mmu_map_framebuffer_lem at phys size a (mmu_init_tables at) (init-IsSized at) (user_size at)
        there inside small in
    let root : (0x20000000 + a) / 2 ^ 30 ≡ 0 = omega arith in
    let index : (0x20000000 + a) / 2 ^ 21 % 512 ≡ 256 + a / 2 ^ 21 = omega arith in
    let word : u64 (phys + a / 4096 * 4096) ≡ phys + a / 4096 * 4096 = omega arith in
    let place : IsPlace (phys + a / 4096 * 4096) = (omega arith, omega arith) in
    elim (dec_lt (a / 4096) 512) [
      | yes low ↦
          let half : ltb ((0x20000000 + a) / 2 ^ 21 % 512) 257 ≡ true =
            lt→ltb _ 257 (omega arith) in
          let near : ltb (a / 4096) 512 ≡ true = lt→ltb (a / 4096) 512 low in
          let slot : (0x20000000 + a) / 2 ^ 12 % 512 ≡ a / 4096 = omega arith in
          let found = page_entry-IsUserPage _ _ place (rw (near, word) at page) in
          rw (half, root, index, slot)
            (
              table_entry-LeadsTo _ _ user (root_entry at phys size there),
              table_entry-LeadsTo _ _ first (rw (near) at table),
              found,
              omega (arith, found.0.1),
            )
      | no high ↦
          let half : ltb ((0x20000000 + a) / 2 ^ 21 % 512) 257 ≡ false =
            ltb_of_not-lt _ 257 (λ h. absurd (omega arith)) in
          let near : ltb (a / 4096) 512 ≡ false = ltb_of_not-lt (a / 4096) 512 high in
          let slot : (0x20000000 + a) / 2 ^ 12 % 512 ≡ a / 4096 - 512 = omega arith in
          let found = page_entry-IsUserPage _ _ place (rw (near, word) at page) in
          rw (half, root, index, slot)
            (
              table_entry-LeadsTo _ _ user (root_entry at phys size there),
              table_entry-LeadsTo _ _ second (rw (near) at table),
              found,
              omega (arith, found.0.1),
            )
    ]
