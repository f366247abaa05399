-- ===== src/Mmu/Bits.antt =====
-- `|` of an address and the bits of a table entry: the address is a multiple of 4096 and the bits are
-- below that, so the two do not meet.
use Prim.Native.Nat.{bit_or, max, digits, bit_or-bitwise}
use native.Mathlib.Nat.{pow-suc}
use ai_os_exchange.Prelude.{
  ℕ, zero, suc, ◌+◌, ◌*◌, ◌/◌, ◌%◌, ◌^◌, ◌≤◌, ◌<◌, ◌≡◌, refl, sym, ◌∙◌, ap, arith,
}

-- Digit by digit, on any fuel that is enough.
digits_of : ℕ → ℕ → ℕ → ℕ
digits_of n a b = digits (λ b. b) max n a b

more_fuel : (n m a b : ℕ) → a ≤ n → a ≤ m → digits_of n a b ≡ digits_of m a b
unfolding digits_of
more_fuel zero zero a b p q = refl
more_fuel zero (suc m) zero b p q = refl
more_fuel zero (suc m) (suc a) b p q = absurd (omega arith)
more_fuel (suc n) zero zero b p q = refl
more_fuel (suc n) zero (suc a) b p q = absurd (omega arith)
more_fuel (suc n) (suc m) zero b p q = refl
more_fuel (suc n) (suc m) (suc a) b p q =
    omega (arith, more_fuel n m (suc a / 2) (b / 2) (omega arith) (omega arith))

zero_or : (b : ℕ) → bit_or 0 b ≡ b
zero_or b = bit_or-bitwise 0 b

-- The lowest digit, and the others.
bit_or_digit :
    (a b : ℕ) → bit_or (suc a) b ≡ bit_or (suc a / 2) (b / 2) * 2 + max (suc a % 2) (b % 2)
unfolding digits_of
bit_or_digit a b = omega (
  arith,
  bit_or-bitwise (suc a) b,
  bit_or-bitwise (suc a / 2) (b / 2),
  more_fuel a (suc a / 2) (suc a / 2) (b / 2) (omega arith) (omega arith),
)

zero_digit : (b : ℕ) → b ≡ b / 2 * 2 + max 0 (b % 2)
zero_digit b = omega arith

step : (a b : ℕ) → bit_or a b ≡ bit_or (a / 2) (b / 2) * 2 + max (a % 2) (b % 2)
step zero b = omega (arith, zero_or b, zero_or (b / 2))
step (suc a) b = bit_or_digit a b

or_zero_on : (n a : ℕ) → a ≤ n → bit_or a 0 ≡ a
or_zero_on n zero h = refl
or_zero_on zero (suc a) h = absurd (omega arith)
or_zero_on (suc n) (suc a) h = omega (arith, step (suc a) 0, or_zero_on n (suc a / 2) (omega arith))

or_zero : (a : ℕ) → bit_or a 0 ≡ a
or_zero a = or_zero_on a a (omega arith)

-- Bits above the lowest `k` stay.
bit_or_high :
    (k q r s : ℕ) → r < 2 ^ k → s < 2 ^ k → bit_or (q * 2 ^ k + r) s ≡ q * 2 ^ k + bit_or r s
bit_or_high zero q r s a b =
    let none_r : r ≡ 0 = omega arith in
    let none_s : s ≡ 0 = omega arith in rw (none_r, none_s) (or_zero (q * 2 ^ 0 + 0))
bit_or_high (suc k) q r s a b =
    let two : 2 ^ suc k ≡ 2 * 2 ^ k = omega (arith, pow-suc 2 k) in
    let twice : q * 2 ^ suc k ≡ 2 * (q * 2 ^ k) =
      omega (arith, ap (λ (t : ℕ). q * t) (pow-suc 2 k)) in
    let half : (q * 2 ^ suc k + r) / 2 ≡ q * 2 ^ k + r / 2 = omega (arith, twice) in
    let digit : (q * 2 ^ suc k + r) % 2 ≡ r % 2 = omega (arith, twice) in
    omega (
      arith,
      step (q * 2 ^ suc k + r) s
          ∙ ap (λ x. bit_or x (s / 2) * 2 + max ((q * 2 ^ suc k + r) % 2) (s % 2)) half
          ∙ ap (λ x. bit_or (q * 2 ^ k + r / 2) (s / 2) * 2 + max x (s % 2)) digit,
      step r s,
      bit_or_high k q (r / 2) (s / 2) (omega arith) (omega arith),
      twice,
    )

-- One more flag of an entry.
pub bit_or_flag :
    (addr r s : ℕ) → addr % 4096 ≡ 0 → r < 4096 → s < 4096 → bit_or (addr + r) s ≡ addr + bit_or r s
bit_or_flag addr r s even a b =
    let e : addr ≡ addr / 4096 * 2 ^ 12 = omega arith in
    ap (λ x. bit_or (x + r) s) e
    ∙ bit_or_high 12 (addr / 4096) r s a b
    ∙ ap (λ x. x + bit_or r s) (sym e)
