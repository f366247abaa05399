-- ===== src/Window.antt =====
-- The live part of a circular array: `n` entries from index `h` on, going round at `cap`. The
-- message queue of kernel/syscall.c and the event history of kernel/watcher.c are such arrays.
use native.Mathlib.Nat.{mod-lt, mod-eq_of_lt, mod-add-mod, mod-eq-sub-mod}
use native.Mathlib.Decide.{dec_lt}
use ai_os_exchange.Prelude.{
  ℕ, zero, suc, ◌+◌, ◌-◌, ◌%◌, ◌≤◌, ◌<◌, ◌≡◌, ◌≢◌, refl, ap, ap₂, sym, ◌∙◌, ◌⊎◌, inl, inr, List, [],
  ◌∷◌, ◌++◌, arith, length, get_or, set, get_or-set_self, get_or-set_ne, length-append,
}

module _ {ℓ} {A : Type ℓ} (d : A) (cap : ℕ) where
  unfoldable pub window : List A → ℕ → ℕ → List A
  window xs h zero = []
  window xs h (suc n) = window xs h n ++ get_or xs ((h + n) % cap) d ∷ []

  pub length-window : (xs : List A) (h n : ℕ) → length (window xs h n) ≡ n
  unfolding window
  length-window xs h zero = refl
  length-window xs h (suc n) = omega (
    arith,
    length-append (window xs h n) (get_or xs ((h + n) % cap) d ∷ []),
    length-window xs h n,
  )

-- Below twice the capacity, `%` goes round at most once.
mod-cases :
    (cap x : ℕ) → x < cap + cap → ((x < cap) × (x % cap ≡ x)) ⊎ ((cap ≤ x) × (x % cap + cap ≡ x))
mod-cases cap x h = elim (dec_lt x cap) [
  | yes p ↦ inl (p, mod-eq_of_lt p)
  | no p ↦ inr (
    omega arith,
    omega (
      arith,
      mod-eq-sub-mod {n = x} {m = cap} (omega arith),
      mod-eq_of_lt {n = x - cap} {m = cap} (omega arith),
    ),
  )
]

-- Two entries less than `cap` apart stand at different indices.
pub mod-ne : (cap h k n : ℕ) → k < n → n < cap → h < cap → (h + k) % cap ≢ (h + n) % cap
mod-ne cap h k n p q r =
    omega (arith, mod-cases cap (h + k) (omega arith), mod-cases cap (h + n) (omega arith))

module _ {ℓ} {A : Type ℓ} (d : A) (cap : ℕ) where
  -- Writing at the end of the window leaves its entries.
  pub window-set_ne :
      (xs : List A) (h m n : ℕ) (v : A)
      → m ≤ n
      → n < cap
      → h < cap
      → window d cap (set xs ((h + n) % cap) v) h m ≡ window d cap xs h m
  unfolding window
  window-set_ne xs h zero n v p q r = refl
  window-set_ne xs h (suc m) n v p q r = rw (
    window-set_ne xs h m n v (omega arith) q r,
    get_or-set_ne xs ((h + n) % cap) ((h + m) % cap) v d (λ e. mod-ne cap h m n p q r (sym e)),
  )

  -- Writing just past the window extends it by that entry.
  pub window-set_self :
      (xs : List A) (h n : ℕ) (v : A)
      → cap ≤ length xs
      → n < cap
      → h < cap
      → window d cap (set xs ((h + n) % cap) v) h (suc n) ≡ window d cap xs h n ++ v ∷ []
  unfolding window
  window-set_self xs h n v p q r =
      ap₂ (λ a b. a ++ b ∷ []) (window-set_ne xs h n n v (omega arith) q r)
        (get_or-set_self xs ((h + n) % cap) v d
          (omega (arith, mod-lt (h + n) {m = cap} (omega arith))))

  shift : (h n : ℕ) → (h + suc n) % cap ≡ ((h + 1) % cap + n) % cap
  shift h n = ap (λ k. k % cap) (omega arith) ∙ sym (mod-add-mod (h + 1) cap n)

  -- The oldest entry stands first.
  pub window_first :
      (xs : List A) (h n : ℕ)
      → h < cap
      → window d cap xs h (suc n) ≡ get_or xs h d ∷ window d cap xs ((h + 1) % cap) n
  unfolding window
  window_first xs h zero p =
      ap (λ i. get_or xs i d ∷ []) (omega (arith, mod-eq_of_lt {n = h + 0} {m = cap} (omega arith)))
  window_first xs h (suc n) p =
      ap₂ (λ a b. a ++ get_or xs b d ∷ []) (window_first xs h n p) (shift h n)
