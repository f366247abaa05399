-- ===== src/Watcher/Decimal.antt =====
-- `i32_to_dec_str` of kernel/watcher.c.
use mathlib.Core.List.{foldl, reverse, foldl-append, reverse-append, reverse-cons}
use native.Mathlib.Nat.{pow-suc}
use native.Mathlib.Decide.{ℕ_discrete}
use ai_os_exchange.Prelude.{
  ℕ, zero, suc, ◌+◌, ◌-◌, ◌*◌, ◌/◌, ◌%◌, ◌^◌, ◌≤◌, ◌<◌, ◌≡◌, refl, sym, ◌∙◌, ap, [], ◌∷◌, ◌++◌,
  if◌then◌else◌, arith, ◌==◌, Option, none, some, ◌>>=◌, Bytes, NoNul, length, length-append,
  ==_of_eq, ==_of_ne,
}
use ai_os_exchange.Prelude.Int.{ℤ, pos, negsuc}

-- `while (val > 0) { temp[ti++] = (val % 10) + '0'; val /= 10; }` on fuel: the digits, the last one
-- first.
unfoldable pub dec_digits : ℕ → ℕ → Option Bytes
dec_digits zero val = none
dec_digits (suc fuel) val =
    let rest = dec_digits fuel (val / 10) >>= λ r. some ((val % 10 + b'0') ∷ r) in
    if val == 0 then some [] else rest

-- The buffer with its NUL. A negative value is negated first, which is undefined for the least
-- int32_t: `none`. The last loop copies `temp` backwards.
unfoldable pub i32_to_dec_str : ℤ → Option Bytes
i32_to_dec_str (pos n) =
    if n == 0
    then some (b'0' ∷ 0 ∷ [])
    else dec_digits 11 n >>= λ temp. some (reverse temp ++ 0 ∷ [])
i32_to_dec_str (negsuc n) =
    if n == 2 ^ 31 - 1
    then none
    else dec_digits 11 (n + 1) >>= λ temp. some (reverse (temp ++ b'-' ∷ []) ++ 0 ∷ [])

-- The number that decimal digits spell, and the integer that a signed text spells.
abbrev pub dec_value : Bytes → ℕ
dec_value = foldl (λ n c. n * 10 + (c - b'0')) 0

abbrev pub negate : ℕ → ℤ
negate zero = pos zero
negate (suc n) = negsuc n

abbrev pub signed_value : Bytes → ℤ
signed_value [] = pos 0
signed_value (c ∷ s) = if c == b'-' then negate (dec_value s) else pos (dec_value (c ∷ s))

abbrev pub AllDigits : Bytes → Type 0
AllDigits [] = Unit
AllDigits (c ∷ s) = (b'0' ≤ c) × (c ≤ b'9') × AllDigits s

AllDigits-append : (s r : Bytes) → AllDigits s → AllDigits r → AllDigits (s ++ r)
AllDigits-append [] r h k = k
AllDigits-append (c ∷ s) r h k = (h.0, h.1, AllDigits-append s r h.2 k)

pub AllDigits-NoNul : (s : Bytes) → AllDigits s → NoNul s
AllDigits-NoNul [] h = tt
AllDigits-NoNul (c ∷ s) h = (omega arith, AllDigits-NoNul s h.2)

signed_value_of_digits : (s : Bytes) → AllDigits s → signed_value s ≡ pos (dec_value s)
signed_value_of_digits [] h = refl
signed_value_of_digits (c ∷ s) h = rw (==_of_ne c b'-' (omega arith))

-- A text of at most `n` digits that spells `val`.
pub record Spells (n val : ℕ) (s : Bytes) : Type 0 where
  pub value : dec_value s ≡ val
  pub digits : AllDigits s
  pub fits : length s ≤ n

digit-Spells :
    (n val : ℕ) (r : Bytes)
    → Spells n (val / 10) (reverse r)
    → Spells (suc n) val (reverse ((val % 10 + b'0') ∷ r))
digit-Spells n val r sp =
    let last : Bytes = (val % 10 + b'0') ∷ [] in
    rw (reverse-cons (val % 10 + b'0') r) (record {
      value =
          foldl-append (λ m c. m * 10 + (c - b'0')) 0 (reverse r) last
          ∙ ap (λ m. m * 10 + (val % 10 + b'0' - b'0')) sp.value
          ∙ omega arith;
      digits = AllDigits-append (reverse r) last sp.digits (omega arith);
      fits = omega (arith, length-append (reverse r) last, sp.fits);
    })

-- Enough fuel for the value gives its digits.
dec_digits_total :
    (fuel val : ℕ)
    → val < 10 ^ fuel
    → (t : Bytes) × (dec_digits (suc fuel) val ≡ some t) × Spells fuel val (reverse t)
unfolding dec_digits
dec_digits_total zero val h = (
  [],
  rw (==_of_eq val 0 (omega arith)),
  record { value = omega arith; digits = tt; fits = omega arith },
)
dec_digits_total (suc fuel) val h = elim (ℕ_discrete val 0) [
  | yes e ↦ ([], rw (==_of_eq val 0 e), record { value = sym e; digits = tt; fits = omega arith })
  | no ne ↦
      let (t, p, sp) = dec_digits_total fuel (val / 10) (omega (arith, pow-suc 10 fuel)) in
      ((val % 10 + b'0') ∷ t, rw (==_of_ne val 0 ne, p), digit-Spells fuel val t sp)
]

-- The digits of a positive value that fits an int32_t.
pub i32_to_dec_str_pos :
    (n : ℕ)
    → n < 2 ^ 31
    → (s : Bytes) × (i32_to_dec_str (pos n) ≡ some (s ++ 0 ∷ [])) × Spells 10 n s
unfolding i32_to_dec_str
i32_to_dec_str_pos n h = elim (ℕ_discrete n 0) [
  | yes e ↦ (
    b'0' ∷ [],
    rw (==_of_eq n 0 e),
    record { value = sym e; digits = omega arith; fits = omega arith },
  )
  | no ne ↦
      let (t, p, sp) = dec_digits_total 10 n (omega arith) in
      (reverse t, rw (==_of_ne n 0 ne, p), sp)
]

-- A negative value other than the least is a minus sign and the digits of its magnitude.
pub i32_to_dec_str_neg :
    (n : ℕ)
    → n < 2 ^ 31 - 1
    → (s : Bytes) × (i32_to_dec_str (negsuc n) ≡ some ((b'-' ∷ s) ++ 0 ∷ [])) × Spells 10 (n + 1) s
unfolding i32_to_dec_str
i32_to_dec_str_neg n h =
    let (t, p, sp) = dec_digits_total 10 (n + 1) (omega arith) in
    (reverse t, rw (==_of_ne n (2 ^ 31 - 1) (omega arith), p, reverse-append t (b'-' ∷ [])), sp)

-- What an int32_t other than the least can be.
abbrev pub IsNegatable : ℤ → Type 0
IsNegatable (pos n) = n < 2 ^ 31
IsNegatable (negsuc n) = n < 2 ^ 31 - 1

-- The text of an int32_t other than the least spells it, has no NUL inside, and fits the 16 bytes
-- of its buffers.
pub i32_to_dec_str_lem :
    (v : ℤ)
    → IsNegatable v
    → (s : Bytes) × (i32_to_dec_str v ≡ some (s ++ 0 ∷ []))
      × (signed_value s ≡ v)
      × NoNul s
      × (length s ≤ 11)
i32_to_dec_str_lem (pos n) h =
    let (s, p, sp) = i32_to_dec_str_pos n h in
    (
      s,
      p,
      signed_value_of_digits s sp.digits ∙ ap pos sp.value,
      AllDigits-NoNul s sp.digits,
      omega (arith, sp.fits),
    )
i32_to_dec_str_lem (negsuc n) h =
    let (s, p, sp) = i32_to_dec_str_neg n h in
    let magnitude : dec_value s ≡ suc n = omega (arith, sp.value) in
    (
      b'-' ∷ s,
      p,
      ap negate magnitude,
      (omega arith, AllDigits-NoNul s sp.digits),
      omega (arith, sp.fits),
    )
