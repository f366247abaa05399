-- ===== src/Virtio/Cache.antt =====
-- `cache_flush` and `cache_invalidate` of kernel/virtio.c (kernel/virtio_net.c has copies of both): the
-- loops over cache lines. What an instruction does to the line of an address is a parameter.
use ai_os_exchange.Prelude.{
  ℕ, zero, suc, ◌+◌, ◌-◌, ◌*◌, ◌/◌, ◌%◌, ◌^◌, ◌≤◌, ◌<◌, ◌≡◌, ◌≢◌, ◌⊎◌, inl, inr, refl, ◌∙◌,
  if◌then◌else◌, ltb, arith, u64, lt→ltb, ltb_of_not-lt, Bool, true, false, leb, ◌&&◌,
}
use native.Mathlib.Decide.{ℕ_discrete, dec_lt}

-- The instructions `dc cvac` and `dc ivac`, and what the processor and a device read.
pub record Caches : Type 1 where
  pub State : Type 0
  pub clean : ℕ → State → State
  pub discard : ℕ → State → State
  pub cached : State → ℕ → ℕ
  pub ram : State → ℕ → ℕ

-- `for (p = start; p < end; p += 64)`, on fuel.
unfoldable pub for_lines : {S : Type 0} → (ℕ → S → S) → ℕ → ℕ → ℕ → S → S
for_lines op zero p end s = s
for_lines op (suc n) p end s =
    let rest = for_lines op n (u64 (p + 64)) end (op p s) in if ltb p end then rest else s

-- One line more than `size` fills is enough.
abbrev pub cache_loop : {S : Type 0} → (ℕ → S → S) → ℕ → ℕ → S → S
cache_loop op addr size = for_lines op (size / 64 + 2) (addr - addr % 64) (u64 (addr + size))

unfoldable pub cache_flush : (c : Caches) → ℕ → ℕ → c.State → c.State
unfolding for_lines
cache_flush c = cache_loop c.clean

unfoldable pub cache_invalidate : (c : Caches) → ℕ → ℕ → c.State → c.State
unfolding for_lines
cache_invalidate c = cache_loop c.discard

-- An instruction that copies the line of its address, from one view of memory to another.
pub record Copies {S : Type 0} (op : ℕ → S → S) (from to : S → ℕ → ℕ) : Type 0 where
  pub moved : (p a : ℕ) (s : S) → a / 64 ≡ p / 64 → to (op p s) a ≡ from s a
  pub source : (p a : ℕ) (s : S) → from (op p s) a ≡ from s a
  pub others : (p a : ℕ) (s : S) → a / 64 ≢ p / 64 → to (op p s) a ≡ to s a

-- Whether a byte is in a line of the range: from the line of `addr` to the last that begins before its end.
abbrev pub covers : ℕ → ℕ → ℕ → Bool
covers addr size a = leb (addr - addr % 64) a && ltb (a - a % 64) (addr + size)

leb_before : (a b : ℕ) → a ≤ b → leb a b ≡ true
leb_before a b h = ground arith

leb_after : (a b : ℕ) → b < a → leb a b ≡ false
leb_after a b h = ground arith

module _ {S : Type 0} (op : ℕ → S → S) (from to : S → ℕ → ℕ) (copies : Copies op from to) where
  for_lines_outside :
      (n p end a : ℕ) (s : S)
      → p % 64 ≡ 0
      → end + 64 < 2 ^ 64
      → (a < p) ⊎ (end ≤ a - a % 64)
      → to (for_lines op n p end s) a ≡ to s a
  unfolding for_lines
  for_lines_outside zero p end a s even low h = refl
  for_lines_outside (suc n) p end a s even low h = elim (dec_lt p end) [
    | yes lt ↦ rw (lt→ltb p end lt) (
        for_lines_outside n (u64 (p + 64)) end a (op p s) (omega arith) low (ground arith)
        ∙ copies.others p a s (λ e. ground arith))
    | no ge ↦ rw (ltb_of_not-lt p end ge) refl
  ]

  for_lines_inside :
      (n p end a : ℕ) (s : S)
      → p % 64 ≡ 0
      → end + 64 < 2 ^ 64
      → end ≤ p + n * 64
      → p ≤ a
      → a - a % 64 < end
      → to (for_lines op n p end s) a ≡ from s a
  unfolding for_lines
  for_lines_inside zero p end a s even low long above below = absurd (omega arith)
  for_lines_inside (suc n) p end a s even low long above below =
      let next : u64 (p + 64) ≡ p + 64 = omega arith in
      let more : suc n * 64 ≡ n * 64 + 64 = omega arith in
      rw (lt→ltb p end (omega arith), next)
        (elim (ℕ_discrete (a / 64) (p / 64)) [
          | yes same ↦
              for_lines_outside n (p + 64) end a (op p s) (omega arith) low (inl (omega arith))
              ∙ copies.moved p a s same
          | no other ↦
              for_lines_inside n (p + 64) end a (op p s) (omega arith) low (omega arith)
                (omega arith) below
              ∙ copies.source p a s
        ])

  cache_loop_lem :
      (addr size a : ℕ) (s : S)
      → addr + size + 64 < 2 ^ 64
      → to (cache_loop op addr size s) a ≡ (if covers addr size a then from s a else to s a)
  unfolding for_lines
  cache_loop_lem addr size a s low =
      let end : u64 (addr + size) ≡ addr + size = omega arith in
      let even : (addr - addr % 64) % 64 ≡ 0 = omega arith in
      let long : addr + size ≤ addr - addr % 64 + (size / 64 + 2) * 64 = omega arith in
      let outside =
        for_lines_outside (size / 64 + 2) (addr - addr % 64) (u64 (addr + size)) a s even
          (omega (arith, end)) in
      elim (dec_lt a (addr - addr % 64)) [
        | yes before ↦ rw (leb_after (addr - addr % 64) a before) (outside (inl before))
        | no after ↦
            rw (leb_before (addr - addr % 64) a (omega arith))
              (elim (dec_lt (a - a % 64) (addr + size)) [
                | yes within ↦ rw (lt→ltb (a - a % 64) (addr + size) within) (
                    for_lines_inside (size / 64 + 2) (addr - addr % 64) (u64 (addr + size)) a s even
                      (omega (arith, end)) (omega (arith, end, long)) (omega arith)
                      (omega (arith, end, within)))
                | no behind ↦
                    rw (ltb_of_not-lt (a - a % 64) (addr + size) behind)
                      (outside (inr (omega (arith, end, behind))))
              ])
      ]

-- `clean` copies the line of its address from the cache to memory and `discard` from memory to the
-- cache. Then, for a range that ends more than 64 bytes below 2^64, `cache_flush` leaves exactly the
-- bytes of the lines the range touches in memory as the processor reads them, `cache_invalidate`
-- leaves the processor to read exactly these bytes as they are in memory, and both leave every other
-- byte alone.
pub cache_flush-cache_invalidate :
    (c : Caches) (addr size a : ℕ) (s : c.State)
    → Copies c.clean c.cached c.ram
    → Copies c.discard c.ram c.cached
    → addr + size + 64 < 2 ^ 64
    → (c.ram (cache_flush c addr size s) a
        ≡ (if covers addr size a then c.cached s a else c.ram s a))
      × (c.cached (cache_invalidate c addr size s) a
          ≡ (if covers addr size a then c.ram s a else c.cached s a))
unfolding cache_flush cache_invalidate
cache_flush-cache_invalidate c addr size a s cleans discards low = (
  cache_loop_lem c.clean c.cached c.ram cleans addr size a s low,
  cache_loop_lem c.discard c.ram c.cached discards addr size a s low,
)
