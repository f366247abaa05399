-- ===== src/Fat/Fields.antt =====
-- Fields of packed structures inside a sector: little-endian numbers, byte strings, and the stores
-- that write them.
use ai_os_exchange.Prelude.{
  ℕ, zero, suc, ◌+◌, ◌*◌, ◌/◌, ◌%◌, ◌^◌, ◌≤◌, ◌<◌, ◌≡◌, ◌≢◌, ◌↔◌, ◌⊎◌, refl, sym, ◌∙◌, ap, ap₂, [],
  ◌∷◌, ◌++◌, ◌==◌, ◌&&◌, Bool, true, false, Bytes, get_or, set, length, length-set, length-append,
  get_or-set_self, get_or-set_ne, arith, inl, inr, Bool-cases,
}

unfoldable pub le16 : Bytes → ℕ → ℕ
le16 b i = get_or b i 0 + get_or b (i + 1) 0 * 2 ^ 8

unfoldable pub le32 : Bytes → ℕ → ℕ
le32 b i =
    get_or b i 0
    + get_or b (i + 1) 0 * 2 ^ 8
    + get_or b (i + 2) 0 * 2 ^ 16
    + get_or b (i + 3) 0 * 2 ^ 24

-- The bytes of a uint16_t and of a uint32_t, in memory order.
unfoldable pub put16 : ℕ → Bytes
put16 v = (v % 256) ∷ (v / 2 ^ 8 % 256) ∷ []

unfoldable pub put32 : ℕ → Bytes
put32 v = (v % 256) ∷ (v / 2 ^ 8 % 256) ∷ (v / 2 ^ 16 % 256) ∷ (v / 2 ^ 24 % 256) ∷ []

-- `for (j = 0; j < n; j++) out[j] = b[off + j];`
unfoldable pub bytes_at : Bytes → ℕ → ℕ → Bytes
bytes_at b off zero = []
bytes_at b off (suc n) = get_or b off 0 ∷ bytes_at b (off + 1) n

-- `for (j = 0; j < n; j++) b[off + j] = xs[j];`
unfoldable pub store : Bytes → ℕ → Bytes → Bytes
store b off [] = b
store b off (x ∷ xs) = store (set b off x) (off + 1) xs

unfoldable pub bytes_eq : Bytes → Bytes → Bool
bytes_eq [] [] = true
bytes_eq (x ∷ xs) (y ∷ ys) = x == y && bytes_eq xs ys
bytes_eq _ _ = false

pub length-store : (b : Bytes) (off : ℕ) (xs : Bytes) → length (store b off xs) ≡ length b
unfolding store
length-store b off [] = refl
length-store b off (x ∷ xs) = length-store (set b off x) (off + 1) xs ∙ length-set b off x

-- A byte outside the stored range stays.
pub get_or-store_ne :
    (b : Bytes) (off : ℕ) (xs : Bytes) (j : ℕ)
    → (j < off) ⊎ (off + length xs ≤ j)
    → get_or (store b off xs) j 0 ≡ get_or b j 0
unfolding store
get_or-store_ne b off [] j h = refl
get_or-store_ne b off (x ∷ xs) j h =
    get_or-store_ne (set b off x) (off + 1) xs j (omega arith)
    ∙ get_or-set_ne b off j x 0 (omega arith)

-- Inside it is the stored one.
pub get_or-store_self :
    (b : Bytes) (off : ℕ) (xs : Bytes) (j : ℕ)
    → j < length xs
    → off + length xs ≤ length b
    → get_or (store b off xs) (off + j) 0 ≡ get_or xs j 0
unfolding store
get_or-store_self b off [] j h k = absurd (omega arith)
get_or-store_self b off (x ∷ xs) zero h k =
    ap (λ i. get_or (store (set b off x) (off + 1) xs) i 0) (omega arith)
    ∙ get_or-store_ne (set b off x) (off + 1) xs off (inl (omega arith))
    ∙ get_or-set_self b off x 0 (omega arith)
get_or-store_self b off (x ∷ xs) (suc j) h k =
    ap (λ i. get_or (store (set b off x) (off + 1) xs) i 0) (omega arith)
    ∙ get_or-store_self (set b off x) (off + 1) xs j (omega arith)
        (omega (arith, length-set b off x))

pub bytes_at-store_ne :
    (b : Bytes) (off : ℕ) (xs : Bytes) (at n : ℕ)
    → (at + n ≤ off) ⊎ (off + length xs ≤ at)
    → bytes_at (store b off xs) at n ≡ bytes_at b at n
unfolding bytes_at
bytes_at-store_ne b off xs at zero h = refl
bytes_at-store_ne b off xs at (suc n) h =
    ap₂ ◌∷◌ (get_or-store_ne b off xs at (omega arith))
      (bytes_at-store_ne b off xs (at + 1) n (omega arith))

bytes_eq_sound : (xs ys : Bytes) → bytes_eq xs ys ≡ true → xs ≡ ys
unfolding bytes_eq
bytes_eq_sound [] [] h = refl
bytes_eq_sound [] (y ∷ ys) h = cc
bytes_eq_sound (x ∷ xs) [] h = cc
bytes_eq_sound (x ∷ xs) (y ∷ ys) h = ground (arith, bytes_eq_sound xs ys)

pub bytes_eq_refl : (xs : Bytes) → bytes_eq xs xs ≡ true
unfolding bytes_eq
bytes_eq_refl [] = refl
bytes_eq_refl (x ∷ xs) = ground (arith, bytes_eq_refl xs)

pub bytes_eq_iff : (xs ys : Bytes) → (bytes_eq xs ys ≡ true) ↔ (xs ≡ ys)
bytes_eq_iff xs ys = (bytes_eq_sound xs ys, λ e. ap (bytes_eq xs) (sym e) ∙ bytes_eq_refl xs)

pub bytes_eq_of_ne : (xs ys : Bytes) → xs ≢ ys → bytes_eq xs ys ≡ false
bytes_eq_of_ne xs ys h = elim (Bool-cases (bytes_eq xs ys)) [
  | inl e ↦ absurd (h (bytes_eq_sound xs ys e))
  | inr e ↦ e
]

get_or-append_left : (xs ys : Bytes) (j : ℕ) → j < length xs → get_or (xs ++ ys) j 0 ≡ get_or xs j 0
get_or-append_left [] ys j h = absurd (omega arith)
get_or-append_left (x ∷ xs) ys zero h = refl
get_or-append_left (x ∷ xs) ys (suc j) h = get_or-append_left xs ys j (omega arith)

get_or-append_right : (xs ys : Bytes) (j : ℕ) → get_or (xs ++ ys) (length xs + j) 0 ≡ get_or ys j 0
get_or-append_right [] ys j = ap (λ i. get_or ys i 0) (omega arith)
get_or-append_right (x ∷ xs) ys j =
    let e : suc (length xs) + j ≡ suc (length xs + j) = omega arith in
    ap (λ i. get_or (x ∷ (xs ++ ys)) i 0) e ∙ get_or-append_right xs ys j

bytes_at-cons : (x : ℕ) (xs : Bytes) (k n : ℕ) → bytes_at (x ∷ xs) (k + 1) n ≡ bytes_at xs k n
unfolding bytes_at
bytes_at-cons x xs k zero = refl
bytes_at-cons x xs k (suc n) =
    let e : k + 1 ≡ suc k = omega arith in
    ap₂ ◌∷◌ (ap (λ i. get_or (x ∷ xs) i 0) e) (bytes_at-cons x xs (k + 1) n)

bytes_at-append : (xs ys : Bytes) → bytes_at (xs ++ ys) 0 (length xs) ≡ xs
unfolding bytes_at
bytes_at-append [] ys = refl
bytes_at-append (x ∷ xs) ys =
    ap (λ r. x ∷ r)
      (ap (λ k. bytes_at (x ∷ (xs ++ ys)) k (length xs)) (omega arith)
        ∙ bytes_at-cons x (xs ++ ys) 0 (length xs)
        ∙ bytes_at-append xs ys)

bytes_at-store_self :
    (b : Bytes) (off : ℕ) (xs : Bytes) (k n : ℕ)
    → k + n ≤ length xs
    → off + length xs ≤ length b
    → bytes_at (store b off xs) (off + k) n ≡ bytes_at xs k n
unfolding bytes_at
bytes_at-store_self b off xs k zero h p = refl
bytes_at-store_self b off xs k (suc n) h p =
    ap₂ ◌∷◌ (get_or-store_self b off xs k (omega arith) p) (
      ap (λ i. bytes_at (store b off xs) i n) (omega arith)
      ∙ bytes_at-store_self b off xs (k + 1) n (omega arith) p)

module _ (b : Bytes) (off : ℕ) (name tail : Bytes)
    (h : off + length name + length tail ≤ length b) where
  -- A structure of two parts is stored: the first part is read back whole,
  pub bytes_at_stored : bytes_at (store b off (name ++ tail)) off (length name) ≡ name
  bytes_at_stored =
      let n = length-append name tail in
      ap (λ k. bytes_at (store b off (name ++ tail)) k (length name)) (omega arith)
      ∙ bytes_at-store_self b off (name ++ tail) 0 (length name) (omega arith) (omega arith)
      ∙ bytes_at-append name tail

  -- and the second byte by byte.
  pub get_or_stored_tail :
      (at k : ℕ)
      → at ≡ off + length name + k
      → k < length tail
      → get_or (store b off (name ++ tail)) at 0 ≡ get_or tail k 0
  get_or_stored_tail at k e p =
      let n = length-append name tail in
      ap (λ i. get_or (store b off (name ++ tail)) i 0) (omega arith)
      ∙ get_or-store_self b off (name ++ tail) (length name + k) (omega arith) (omega arith)
      ∙ get_or-append_right name tail k

  pub get_or_stored_head :
      0 < length name → get_or (store b off (name ++ tail)) off 0 ≡ get_or name 0 0
  get_or_stored_head p =
      let n = length-append name tail in
      ap (λ i. get_or (store b off (name ++ tail)) i 0) (omega arith)
      ∙ get_or-store_self b off (name ++ tail) 0 (omega arith) (omega arith)
      ∙ get_or-append_left name tail 0 p

  pub le16_stored :
      (at k : ℕ)
      → at ≡ off + length name + k
      → k + 1 < length tail
      → le16 (store b off (name ++ tail)) at ≡ le16 tail k
  unfolding le16
  le16_stored at k e p = omega (
    arith,
    get_or_stored_tail at k e (omega arith),
    get_or_stored_tail (at + 1) (k + 1) (omega arith) p,
  )

  pub le32_stored :
      (at k : ℕ)
      → at ≡ off + length name + k
      → k + 3 < length tail
      → le32 (store b off (name ++ tail)) at ≡ le32 tail k
  unfolding le32
  le32_stored at k e p = omega (
    arith,
    get_or_stored_tail at k e (omega arith),
    get_or_stored_tail (at + 1) (k + 1) (omega arith) (omega arith),
    get_or_stored_tail (at + 2) (k + 2) (omega arith) (omega arith),
    get_or_stored_tail (at + 3) (k + 3) (omega arith) p,
  )
