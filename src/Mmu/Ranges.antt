-- ===== src/Mmu/Ranges.antt =====
-- What the loops of kernel/mmu.c leave in a table, entry by entry.
use native.Mathlib.Decide.{ℕ_discrete}
use ai_os_exchange.Prelude.{
  ℕ, zero, suc, ◌+◌, ◌≤◌, ◌<◌, ◌≡◌, refl, sym, ◌∙◌, ap, List, length, get_or, set, length-set,
  replicate, get_or-set_self, get_or-set_ne, arith, true, Bool-cases, inl, inr, ◌⊎◌, ltb, ◌&&◌,
}
use ai_os_exchange.Mmu.{el0_block, set_range, map_el0}

pub set_range_out :
    (entry : ℕ → ℕ) (n i j : ℕ) (table : List ℕ)
    → (j < i) ⊎ (i + n ≤ j)
    → get_or (set_range entry n i table) j 0 ≡ get_or table j 0
unfolding set_range
set_range_out entry zero i j table h = refl
set_range_out entry (suc n) i j table h =
    set_range_out entry n (i + 1) j (set table i (entry i)) (ground arith)
    ∙ get_or-set_ne table i j (entry i) 0 (ground arith)

pub set_range_in :
    (entry : ℕ → ℕ) (n i j : ℕ) (table : List ℕ)
    → i + n ≤ length table
    → i ≤ j
    → j < i + n
    → get_or (set_range entry n i table) j 0 ≡ entry j
unfolding set_range
set_range_in entry zero i j table h low high = absurd (omega arith)
set_range_in entry (suc n) i j table h low high =
    let table' = set table i (entry i) in
    elim (ℕ_discrete j i) [
      | yes same ↦
          set_range_out entry n (i + 1) j table' (inl (omega arith))
          ∙ ap (λ k. get_or table' k 0) same
          ∙ get_or-set_self table i (entry i) 0 (omega arith)
          ∙ ap entry (sym same)
      | no other ↦
          set_range_in entry n (i + 1) j table' (omega (arith, length-set table i (entry i)))
            (omega arith) (omega arith)
    ]

pub map_el0_out :
    (n i last j : ℕ) (table : List ℕ)
    → (j < i) ⊎ ((last ≤ j) ⊎ (64 ≤ j))
    → get_or (map_el0 n i last table) j 0 ≡ get_or table j 0
unfolding map_el0
map_el0_out zero i last j table h = refl
map_el0_out (suc n) i last j table h = elim (Bool-cases (ltb i last && ltb i 64)) [
  | inl goes_on ↦ rw (goes_on) (
      map_el0_out n (i + 1) last j (set table i (el0_block i)) (ground arith)
      ∙ get_or-set_ne table i j (el0_block i) 0 (ground arith))
  | inr ends ↦ rw (ends) refl
]

pub map_el0_in :
    (n i last j : ℕ) (table : List ℕ)
    → length table ≡ 512
    → 64 ≤ i + n
    → i ≤ j
    → j < last
    → j < 64
    → get_or (map_el0 n i last table) j 0 ≡ el0_block j
unfolding map_el0
map_el0_in zero i last j table size enough low high most = absurd (omega arith)
map_el0_in (suc n) i last j table size enough low high most =
    let table' = set table i (el0_block i) in
    let goes_on : (ltb i last && ltb i 64) ≡ true = ground arith in
    rw (goes_on) (elim (ℕ_discrete j i) [
      | yes same ↦
          map_el0_out n (i + 1) last j table' (inl (omega arith))
          ∙ ap (λ k. get_or table' k 0) same
          ∙ get_or-set_self table i (el0_block i) 0 (omega (arith, size))
          ∙ ap el0_block (sym same)
      | no other ↦
          map_el0_in n (i + 1) last j table' (length-set table i (el0_block i) ∙ size) (omega arith)
            (omega arith) high most
    ])

pub empty_entry : (n i d : ℕ) → get_or (replicate n d) i d ≡ d
empty_entry zero i d = refl
empty_entry (suc n) zero d = refl
empty_entry (suc n) (suc i) d = empty_entry n i d

pub length-set_range :
    (entry : ℕ → ℕ) (n i : ℕ) (table : List ℕ) → length (set_range entry n i table) ≡ length table
unfolding set_range
length-set_range entry zero i table = refl
length-set_range entry (suc n) i table =
    length-set_range entry n (i + 1) (set table i (entry i)) ∙ length-set table i (entry i)

pub length-map_el0 :
    (n i last : ℕ) (table : List ℕ) → length (map_el0 n i last table) ≡ length table
unfolding map_el0
length-map_el0 zero i last table = refl
length-map_el0 (suc n) i last table = elim (Bool-cases (ltb i last && ltb i 64)) [
  | inl goes_on ↦
      rw (goes_on) (
        length-map_el0 n (i + 1) last (set table i (el0_block i))
        ∙ length-set table i (el0_block i))
  | inr ends ↦ rw (ends) refl
]
