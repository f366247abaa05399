-- ===== src/Boot/Copy.antt =====
-- What `memcpy` leaves in memory.
use ai_os_exchange.Prelude.{
  ℕ, zero, suc, ◌+◌, ◌≤◌, ◌<◌, ◌≡◌, refl, ◌∙◌, ap, ap₂, ◌⊎◌, inl, ◌∷◌, arith, ==_of_eq, ==_of_ne,
}
use ai_os_exchange.Virtio.Store.{Memory, load}
use ai_os_exchange.Boot.{memcpy}

-- Outside the destination nothing changes.
memcpy-outside :
    (n dest src : ℕ) (m : Memory) (a : ℕ)
    → (a < dest) ⊎ (dest + n ≤ a)
    → memcpy dest src n m a ≡ m a
unfolding memcpy
memcpy-outside zero dest src m a h = refl
memcpy-outside (suc n) dest src m a h =
    memcpy-outside n (dest + 1) (src + 1) _ a (ground arith)
    ∙ rw (==_of_ne a dest (λ e. ground arith)) refl

memcpy-at :
    (n dest src i : ℕ) (m : Memory)
    → (dest ≤ src) ⊎ (src + n ≤ dest)
    → i < n
    → memcpy dest src n m (dest + i) ≡ m (src + i)
unfolding memcpy
memcpy-at zero dest src i m h p = absurd (omega arith)
memcpy-at (suc n) dest src zero m h p =
    let e : dest + 0 ≡ dest = omega arith in
    let e' : src + 0 ≡ src = omega arith in
    rw (e, e')
      (memcpy-outside n (dest + 1) (src + 1) _ dest (inl (omega arith))
        ∙ rw (==_of_eq dest dest refl) refl)
memcpy-at (suc n) dest src (suc j) m h p =
    let e : dest + suc j ≡ dest + 1 + j = omega arith in
    let e' : src + suc j ≡ src + 1 + j = omega arith in
    rw (e, e')
      (memcpy-at n (dest + 1) (src + 1) j _ (ground arith) (omega arith)
        ∙ rw (==_of_ne (src + 1 + j) dest (λ z. ground arith)) refl)

load-shift :
    (n dest src : ℕ) (m m' : Memory)
    → ((i : ℕ) → i < n → m' (dest + i) ≡ m (src + i))
    → load n dest m' ≡ load n src m
unfolding load
load-shift zero dest src m m' h = refl
load-shift (suc n) dest src m m' h =
    ap₂ (λ b bs. b ∷ bs) (ap m' (omega arith) ∙ h 0 (omega arith) ∙ ap m (omega arith))
      (load-shift n (dest + 1) (src + 1) m m'
        (λ i p. ap m' (omega arith) ∙ h (suc i) (omega arith) ∙ ap m (omega arith)))

-- If the destination begins no later than the source, or at least `n` bytes behind it, then the
-- copy holds the bytes that the source had before, also where the two overlap, and a byte outside of
-- the destination is as it was.
pub memcpy_lem :
    (n dest src a : ℕ) (m : Memory)
    → (dest ≤ src) ⊎ (src + n ≤ dest)
    → (a < dest) ⊎ (dest + n ≤ a)
    → (load n dest (memcpy dest src n m) ≡ load n src m) × (memcpy dest src n m a ≡ m a)
memcpy_lem n dest src a m h outside = (
  load-shift n dest src m (memcpy dest src n m) (λ i p. memcpy-at n dest src i m h p),
  memcpy-outside n dest src m a outside,
)
