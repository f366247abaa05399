-- ===== src/Mmu/Pages.antt =====
-- Where the pages of the framebuffer are found.
use mathlib.Core.Path.{subst}
use native.Mathlib.Decide.{ℕ_discrete, dec_lt}
use ai_os_exchange.Prelude.{
  ℕ, zero, suc, ◌+◌, ◌-◌, ◌*◌, ◌/◌, ◌^◌, ◌≤◌, ◌<◌, ◌≡◌, ◌≢◌, inl, inr, refl, sym, ◌∙◌, ap, List,
  length, get_or, set, length-set, get_or-set_self, get_or-set_ne, arith, Bool-cases, if◌then◌else◌,
  ltb, lt→ltb, ltb_of_not-lt, ==_of_ne, u64,
}
use ai_os_exchange.Mmu.{
  Layout, Tables, table_entry, page_entry, attr_normal, ap_rw_any, fb_page, map_page, map_pages,
  mmu_map_framebuffer,
}

-- The entry of a page of the framebuffer, in the table that the page is in.
abbrev pub page_at : Tables → ℕ → ℕ
page_at t p = if ltb p 512 then get_or t.l3_table_fb_0 p 0 else get_or t.l3_table_fb_1 (p - 512) 0

pub record IsSized (t : Tables) : Type 0 where
  pub first : length t.l3_table_fb_0 ≡ 512
  pub second : length t.l3_table_fb_1 ≡ 512

map_page-IsSized : (phys p : ℕ) (t : Tables) → IsSized t → IsSized (map_page phys p t)
unfolding map_page
map_page-IsSized phys p t h = elim (Bool-cases (ltb p 512)) [
  | inl low ↦
      rw (low) (record { first = length-set t.l3_table_fb_0 p _ ∙ h.first; second = h.second })
  | inr high ↦ elim (Bool-cases (ltb p 1024)) [
    | inl middle ↦
        rw (high, middle)
          (record { first = h.first; second = length-set t.l3_table_fb_1 (p - 512) _ ∙ h.second })
    | inr out ↦ rw (high, out) h
  ]
]

-- A page that is mapped is found, and the others stay.
map_page_self :
    (phys p : ℕ) (t : Tables)
    → IsSized t
    → p < 1024
    → page_at (map_page phys p t) p ≡ fb_page phys p
unfolding map_page
map_page_self phys p t h fits = elim (dec_lt p 512) [
  | yes low ↦ rw (lt→ltb p 512 low) (get_or-set_self t.l3_table_fb_0 p _ 0 (omega (arith, h.first)))
  | no high ↦
      rw (ltb_of_not-lt p 512 high, lt→ltb p 1024 fits)
        (get_or-set_self t.l3_table_fb_1 (p - 512) _ 0 (omega (arith, h.second)))
]

map_page_other : (phys p j : ℕ) (t : Tables) → p ≢ j → page_at (map_page phys p t) j ≡ page_at t j
unfolding map_page
map_page_other phys p j t ne = elim (dec_lt p 512) [
  | yes low ↦ elim (dec_lt j 512) [
    | yes j_low ↦
        rw (lt→ltb p 512 low, lt→ltb j 512 j_low) (get_or-set_ne t.l3_table_fb_0 p j _ 0 ne)
    | no j_high ↦ rw (lt→ltb p 512 low, ltb_of_not-lt j 512 j_high) refl
  ]
  | no high ↦ elim (dec_lt p 1024) [
    | yes middle ↦ elim (dec_lt j 512) [
      | yes j_low ↦ rw (ltb_of_not-lt p 512 high, lt→ltb p 1024 middle, lt→ltb j 512 j_low) refl
      | no j_high ↦
          rw (ltb_of_not-lt p 512 high, lt→ltb p 1024 middle, ltb_of_not-lt j 512 j_high)
            (get_or-set_ne t.l3_table_fb_1 (p - 512) (j - 512) _ 0 (λ e. ne (omega arith)))
    ]
    | no out ↦ rw (ltb_of_not-lt p 512 high, ltb_of_not-lt p 1024 out) refl
  ]
]

map_pages_before :
    (phys n p j : ℕ) (t : Tables) → j < p → page_at (map_pages phys n p t) j ≡ page_at t j
unfolding map_pages
map_pages_before phys zero p j t h = refl
map_pages_before phys (suc n) p j t h =
    map_pages_before phys n (p + 1) j (map_page phys p t) (omega arith)
    ∙ map_page_other phys p j t (λ e. omega arith)

map_pages_in :
    (phys n p j : ℕ) (t : Tables)
    → IsSized t
    → j < 1024
    → p ≤ j
    → j < p + n
    → page_at (map_pages phys n p t) j ≡ fb_page phys j
unfolding map_pages
map_pages_in phys zero p j t h fits low high = absurd (omega arith)
map_pages_in phys (suc n) p j t h fits low high = elim (ℕ_discrete p j) [
  | yes here ↦
      map_pages_before phys n (p + 1) j (map_page phys p t) (omega arith)
      ∙ subst (λ p. page_at (map_page phys p t) j ≡ fb_page phys j) (sym here)
          (map_page_self phys j t h fits)
  | no later ↦
      map_pages_in phys n (p + 1) j (map_page phys p t) (map_page-IsSized phys p t h) fits
        (omega arith) (omega arith)
]

map_pages_user :
    (phys n p : ℕ) (t : Tables) → (map_pages phys n p t).l2_table_user ≡ t.l2_table_user
unfolding map_pages map_page
map_pages_user phys zero p t = refl
map_pages_user phys (suc n) p t =
    map_pages_user phys n (p + 1) (map_page phys p t) ∙ page_user phys p t
  where
    page_user : (phys p : ℕ) (t : Tables) → (map_page phys p t).l2_table_user ≡ t.l2_table_user
    page_user phys p t = elim (Bool-cases (ltb p 512)) [
      | inl low ↦ rw (low) refl
      | inr high ↦ elim (Bool-cases (ltb p 1024)) [
        | inl middle ↦ rw (high, middle) refl
        | inr out ↦ rw (high, out) refl
      ]
    ]

-- The two entries that lead to the tables of the framebuffer.
module _ (at : Layout) (table : List ℕ) (size : length table ≡ 512) where
  abbrev user_table : List ℕ
  user_table = set (set table 256 (table_entry at.l3_table_fb_0)) 257 (table_entry at.l3_table_fb_1)

  first_table : get_or user_table 256 0 ≡ table_entry at.l3_table_fb_0
  first_table =
      get_or-set_ne (set table 256 (table_entry at.l3_table_fb_0)) 257 256
        (table_entry at.l3_table_fb_1) 0 (omega arith)
      ∙ get_or-set_self table 256 (table_entry at.l3_table_fb_0) 0 (omega (arith, size))

  second_table : get_or user_table 257 0 ≡ table_entry at.l3_table_fb_1
  second_table =
      get_or-set_self (set table 256 (table_entry at.l3_table_fb_0)) 257
        (table_entry at.l3_table_fb_1) 0
        (omega (arith, size, length-set table 256 (table_entry at.l3_table_fb_0)))

  table_of_byte :
      (a : ℕ)
      → a < 2 ^ 22
      → get_or user_table (256 + a / 2 ^ 21) 0
        ≡ table_entry (if ltb (a / 4096) 512 then at.l3_table_fb_0 else at.l3_table_fb_1)
  table_of_byte a fits = elim (dec_lt (a / 4096) 512) [
    | yes low ↦
        let e : 256 + a / 2 ^ 21 ≡ 256 = omega arith in
        ap (λ i. get_or user_table i 0) e
        ∙ first_table
        ∙ ap (λ b. table_entry (if b then at.l3_table_fb_0 else at.l3_table_fb_1))
            (sym (lt→ltb (a / 4096) 512 low))
    | no high ↦
        let e : 256 + a / 2 ^ 21 ≡ 257 = omega arith in
        ap (λ i. get_or user_table i 0) e
        ∙ second_table
        ∙ ap (λ b. table_entry (if b then at.l3_table_fb_0 else at.l3_table_fb_1))
            (sym (ltb_of_not-lt (a / 4096) 512 high))
  ]

-- A framebuffer that is mapped, on tables of 512 entries: every byte of it, in the first four
-- megabytes, is found by the shell behind 0x20000000, in the page of the physical memory that the
-- display shows, and the shell may write there.
pub mmu_map_framebuffer_lem :
    (at : Layout) (phys size a : ℕ) (t : Tables)
    → IsSized t
    → length t.l2_table_user ≡ 512
    → phys ≢ 0
    → a < size
    → a < 2 ^ 22
    → let t' = mmu_map_framebuffer at phys size t in
      (get_or t'.l2_table_user (256 + a / 2 ^ 21) 0
        ≡ table_entry (if ltb (a / 4096) 512 then at.l3_table_fb_0 else at.l3_table_fb_1))
      × (page_at t' (a / 4096) ≡ page_entry (u64 (phys + a / 4096 * 4096)) attr_normal ap_rw_any)
unfolding mmu_map_framebuffer
mmu_map_framebuffer_lem at phys size a t h user there inside fits =
    let n = (size + 4096 - 1) / 4096 in
    let first = table_entry at.l3_table_fb_0 in
    let second = table_entry at.l3_table_fb_1 in
    let t1 = record t { l2_table_user = set (set t.l2_table_user 256 first) 257 second } in
    (
      rw (==_of_ne phys 0 there) (
          ap (λ l. get_or l (256 + a / 2 ^ 21) 0) (map_pages_user phys n 0 t1)
          ∙ table_of_byte at t.l2_table_user user a fits),
      rw (==_of_ne phys 0 there) (
          map_pages_in phys n 0 (a / 4096) t1 (record { first = h.first; second = h.second })
            (omega arith) (omega arith) (omega arith)),
    )
