-- ===== src/Fat/Entry.antt =====
-- An entry that is written into the root directory is read back, and the others stay.
use native.Mathlib.Decide.{ℕ_discrete}
use ai_os_exchange.Prelude.{
  ℕ, zero, suc, ◌+◌, ◌*◌, ◌^◌, ◌≤◌, ◌<◌, ◌≡◌, ◌≢◌, ◌⊎◌, refl, sym, ◌∙◌, ap, ◌++◌, ◌==◌, ◌||◌, true,
  false, none, some, Bytes, get_or, length, arith, Bool-cases, inl, inr, length-append, ==_of_ne,
}
use ai_os_exchange.Fat.Fields.{
  le16, le32, put16, put32, bytes_at, bytes_eq, store, bytes_at_stored, get_or_stored_head,
  le16_stored, le32_stored, bytes_at-store_ne, get_or-store_ne, bytes_eq_iff, bytes_eq_of_ne,
}
use ai_os_exchange.Fat.Directory.{
  name_at, first_byte, cluster_at, size_at, find_file, find_index, find_free_entry, entry_tail,
  put_entry,
}

pub length-entry_tail : (c s : ℕ) → length (entry_tail c s) ≡ 21
unfolding entry_tail put16 put32
length-entry_tail c s = refl

entry_tail_cluster :
    (c s : ℕ) → c < 2 ^ 32 → le16 (entry_tail c s) 9 * 2 ^ 16 + le16 (entry_tail c s) 15 ≡ c
unfolding entry_tail put16 put32 le16
entry_tail_cluster c s h = omega arith

entry_tail_size : (c s : ℕ) → s < 2 ^ 32 → le32 (entry_tail c s) 17 ≡ s
unfolding entry_tail put16 put32 le32
entry_tail_size c s h = omega arith

module _ (dir : Bytes) (i : ℕ) (name : Bytes) (c s : ℕ) (room : i < 16) (sized : length dir ≡ 512)
    (long : length name ≡ 11) where
  abbrev fits : 32 * i + length name + length (entry_tail c s) ≤ length dir
  fits = omega (arith, length-entry_tail c s)

  -- The entry's fields read back: its name, its first byte, its cluster and its size.
  pub name_at-put_entry : name_at (put_entry dir i name c s) i ≡ name
  unfolding put_entry
  name_at-put_entry =
      ap (bytes_at (store dir (32 * i) (name ++ entry_tail c s)) (32 * i)) (sym long)
      ∙ bytes_at_stored dir (32 * i) name (entry_tail c s) fits

  pub first_byte-put_entry : first_byte (put_entry dir i name c s) i ≡ get_or name 0 0
  unfolding put_entry
  first_byte-put_entry = get_or_stored_head dir (32 * i) name (entry_tail c s) fits (omega arith)

  pub cluster_at-put_entry : c < 2 ^ 32 → cluster_at (put_entry dir i name c s) i ≡ c
  unfolding put_entry cluster_at
  cluster_at-put_entry h = omega (
    arith,
    le16_stored dir (32 * i) name (entry_tail c s) fits (32 * i + 20) 9 (omega arith)
        (omega (arith, length-entry_tail c s)),
    le16_stored dir (32 * i) name (entry_tail c s) fits (32 * i + 26) 15 (omega arith)
        (omega (arith, length-entry_tail c s)),
    entry_tail_cluster c s h,
  )

  pub size_at-put_entry : s < 2 ^ 32 → size_at (put_entry dir i name c s) i ≡ s
  unfolding put_entry size_at
  size_at-put_entry h =
      le32_stored dir (32 * i) name (entry_tail c s) fits (32 * i + 28) 17 (omega arith)
        (omega (arith, length-entry_tail c s))
      ∙ entry_tail_size c s h

  -- Entry `j` stays.
  pub name_at-put_entry_ne : (j : ℕ) → j ≢ i → name_at (put_entry dir i name c s) j ≡ name_at dir j
  unfolding put_entry
  name_at-put_entry_ne j ne =
      bytes_at-store_ne dir (32 * i) (name ++ entry_tail c s) (32 * j) 11
        (omega (arith, length-append name (entry_tail c s), length-entry_tail c s))

  pub first_byte-put_entry_ne :
      (j : ℕ) → j ≢ i → first_byte (put_entry dir i name c s) j ≡ first_byte dir j
  unfolding put_entry
  first_byte-put_entry_ne j ne =
      get_or-store_ne dir (32 * i) (name ++ entry_tail c s) (32 * j)
        (omega (arith, length-append name (entry_tail c s), length-entry_tail c s))

-- The search finds entry `k` if it has the name, and no entry before it has the name or ends the
-- directory.
pub find_file_at :
    (target dir : Bytes) (n j k : ℕ)
    → j ≤ k
    → k < j + n
    → ((m : ℕ) → m < k → (first_byte dir m ≢ 0) × (name_at dir m ≢ target))
    → first_byte dir k ≢ 0
    → name_at dir k ≡ target
    → find_file target dir n j ≡ (cluster_at dir k, size_at dir k)
unfolding find_file
find_file_at target dir zero j k a b before live named = absurd (omega arith)
find_file_at target dir (suc n) j k a b before live named = elim (ℕ_discrete j k) [
  | yes e ↦
      rw (e, ==_of_ne (first_byte dir k) 0 live, (bytes_eq_iff (name_at dir k) target).1 named)
  | no ne ↦
      let (p, q) = before j (omega arith) in
      rw (==_of_ne (first_byte dir j) 0 p, bytes_eq_of_ne (name_at dir j) target q)
        (find_file_at target dir n (j + 1) k (omega arith) (omega arith) before live named)
]

free_of_test : (x : ℕ) → (x == 0 || x == 0xE5) ≡ true → (x ≡ 0) ⊎ (x ≡ 0xE5)
free_of_test x h = ground arith

live_of_test : (x : ℕ) → (x == 0 || x == 0xE5) ≡ false → x ≢ 0
live_of_test x h = ground arith

-- What the search for a free entry answers is free, and the entries before it are in use.
pub find_free_entry_lem :
    (dir : Bytes) (n j : ℕ) {i : ℕ}
    → find_free_entry dir n j ≡ some i
    → (j ≤ i)
      × (i < j + n)
      × ((first_byte dir i ≡ 0) ⊎ (first_byte dir i ≡ 0xE5))
      × ((m : ℕ) → j ≤ m → m < i → first_byte dir m ≢ 0)
unfolding find_free_entry
find_free_entry_lem dir zero j e = cc
find_free_entry_lem dir (suc n) j {i} e =
    elim (Bool-cases (first_byte dir j == 0 || first_byte dir j == 0xE5)) [
      | inl free ↦
          let same : j ≡ i = cc (rw free at e) in
          (
            omega arith,
            omega arith,
            free_of_test (first_byte dir i) (rw same at free),
            λ m a b. absurd (omega arith),
          )
      | inr used ↦
          let (p, q, r, live) = find_free_entry_lem dir n (j + 1) {i = i} (rw used at e) in
          (
            omega arith,
            omega arith,
            r,
            λ m a b. elim (ℕ_discrete j m) [
              | yes same ↦ λ z. live_of_test (first_byte dir j) used (ap (first_byte dir) same ∙ z)
              | no ne ↦ live m (omega arith) b
            ],
          )
    ]

-- A name that the appending search does not find stands nowhere.
pub find_index-none :
    (target dir : Bytes) (n j : ℕ)
    → find_index target dir n j ≡ none
    → (m : ℕ) → j ≤ m
    → m < j + n
    → name_at dir m ≢ target
unfolding find_index
find_index-none target dir zero j e m a b = absurd (omega arith)
find_index-none target dir (suc n) j e m a b = elim (Bool-cases (bytes_eq (name_at dir j) target)) [
  | inl found ↦ cc (rw found at e)
  | inr other ↦ elim (ℕ_discrete j m) [
    | yes same ↦ λ z.
        let hit : bytes_eq (name_at dir j) target ≡ true =
          (bytes_eq_iff (name_at dir j) target).1 (ap (name_at dir) same ∙ z) in
        cc
    | no ne ↦ find_index-none target dir n (j + 1) (rw other at e) m (omega arith) (omega arith)
  ]
]
