-- ===== src/Virtio/Store.antt =====
-- Memory as a byte for each address, and what a store leaves in it.
use ai_os_exchange.Prelude.{
  ℕ, zero, suc, ◌+◌, ◌-◌, ◌/◌, ◌^◌, ◌≤◌, ◌<◌, ◌≡◌, ◌⊎◌, refl, sym, ◌∙◌, ap, ap₂, take, drop,
  take_of_le, [], ◌∷◌, ◌++◌, if◌then◌else◌, ◌&&◌, ltb, leb, Bytes, get_or, length, arith, true,
}
use ai_os_exchange.Fat.Fields.{put32}

abbrev pub Memory : Type 0
Memory = ℕ → ℕ

-- The bytes are written from the address on.
unfoldable pub store : ℕ → Bytes → Memory → Memory
store addr bytes m a =
    if leb addr a && ltb a (addr + length bytes) then get_or bytes (a - addr) 0 else m a

-- `n` bytes from the address on.
unfoldable pub load : ℕ → ℕ → Memory → Bytes
load zero addr m = []
load (suc n) addr m = m addr ∷ load n (addr + 1) m

-- A uint64_t, the low byte first.
abbrev pub put64 : ℕ → Bytes
put64 v = put32 v ++ put32 (v / 2 ^ 32)

-- A store is read back, in pieces of any size, and bytes outside it are as they were.
pub store_in :
    (addr : ℕ) (bytes : Bytes) (m : Memory) (i : ℕ)
    → i < length bytes
    → store addr bytes m (addr + i) ≡ get_or bytes i 0
unfolding store
store_in addr bytes m i h =
    let e : addr + i - addr ≡ i = omega arith in
    let low : leb addr (addr + i) ≡ true = ground arith in
    let high : ltb (addr + i) (addr + length bytes) ≡ true = ground arith in rw (low, high, e) refl

pub store_out :
    (addr : ℕ) (bytes : Bytes) (m : Memory) (a : ℕ)
    → (a < addr) ⊎ (addr + length bytes ≤ a)
    → store addr bytes m a ≡ m a
unfolding store
store_out addr bytes m a h = ground arith

pub load_out :
    (n at addr : ℕ) (bytes : Bytes) (m : Memory)
    → (at + n ≤ addr) ⊎ (addr + length bytes ≤ at)
    → load n at (store addr bytes m) ≡ load n at m
unfolding load
load_out zero at addr bytes m h = refl
load_out (suc n) at addr bytes m h =
    ap₂ (λ b bs. b ∷ bs) (store_out addr bytes m at (ground arith))
      (load_out n (at + 1) addr bytes m (ground arith))

take-drop_step :
    (n i : ℕ) (bytes : Bytes)
    → i < length bytes
    → take (suc n) (drop i bytes) ≡ get_or bytes i 0 ∷ take n (drop (i + 1) bytes)
take-drop_step n i [] h = absurd (omega arith)
take-drop_step n zero (b ∷ bytes) h = refl
take-drop_step n (suc i) (b ∷ bytes) h =
    let e : suc i + 1 ≡ suc (i + 1) = omega arith in
    take-drop_step n i bytes (omega arith)
    ∙ ap (λ j. get_or bytes i 0 ∷ take n (drop j (b ∷ bytes))) (sym e)

load_from :
    (n addr i : ℕ) (bytes : Bytes) (m : Memory)
    → i + n ≤ length bytes
    → load n (addr + i) (store addr bytes m) ≡ take n (drop i bytes)
unfolding load
load_from zero addr i bytes m h = refl
load_from (suc n) addr i bytes m h =
    ap₂ (λ b bs. b ∷ bs) (store_in addr bytes m i (omega arith))
      (ap (λ a. load n a (store addr bytes m)) (omega arith)
        ∙ load_from n addr (i + 1) bytes m (omega arith))
    ∙ sym (take-drop_step n i bytes (omega arith))

pub load_in :
    (addr : ℕ) (bytes : Bytes) (m : Memory) → load (length bytes) addr (store addr bytes m) ≡ bytes
load_in addr bytes m =
    ap (λ a. load (length bytes) a (store addr bytes m)) (omega arith)
    ∙ load_from (length bytes) addr 0 bytes m (omega arith)
    ∙ take_of_le (length bytes) bytes (omega arith)
