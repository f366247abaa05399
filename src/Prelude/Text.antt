-- ===== src/Prelude/Text.antt =====
-- Bytes, literals, and NUL-terminated strings inside byte arrays.
use Prim.Native.Nat.{ℕ, zero, suc, ◌≤◌}
use Prim.Native.Char.{code}
use Prim.Native.String.{String}
use mathlib.Core.Path.{◌≡◌, refl}
use mathlib.Core.Logic.{◌≢◌, inl, inr}
use mathlib.Core.Option
use mathlib.Core.Option.{Option, none, some}
use mathlib.Core.List.{List, [], ◌∷◌, ◌++◌}
use native.Mathlib.Omega.{arith}
use ai_os_exchange.Prelude.Tests.{◌==◌, if◌then◌else◌, Option-cases}
use ai_os_exchange.Prelude.Lists.{length, take, drop, length-append, length-drop}

abbrev pub Bytes : Type 0
Bytes = List ℕ

-- The bytes of an ASCII literal, without its NUL.
abbrev pub codes : String → Bytes
codes String.[] = []
codes (String.◌∷◌ c s) = code c ∷ codes s

-- No byte is NUL.
abbrev pub NoNul : Bytes → Type 0
NoNul [] = Unit
NoNul (c ∷ cs) = (c ≢ 0) × NoNul cs

-- `while (s[i] != '\0') i++` over the bytes from `s` to the end of its object: the bytes before the
-- NUL. `none` is a read past the end of the object.
unfoldable pub c_string : Bytes → Option Bytes
c_string [] = none
c_string (c ∷ cs) = if c == 0 then some [] else Option.map (λ r. c ∷ r) (c_string cs)

-- `while (s[i] != '\0' && i < n) { out[i] = s[i]; i++; }`: the bytes copied. The byte at `n` is read
-- before the bound is tested.
unfoldable pub copy_string : ℕ → Bytes → Option Bytes
copy_string zero [] = none
copy_string zero (c ∷ cs) = some []
copy_string (suc n) [] = none
copy_string (suc n) (c ∷ cs) =
    if c == 0 then some [] else Option.map (λ r. c ∷ r) (copy_string n cs)

-- Writing bytes over the front of an array that is at least as long.
abbrev pub overlay : Bytes → Bytes → Bytes
overlay new old = new ++ drop (length new) old

pub length-overlay :
    (new old : Bytes) → length new ≤ length old → length (overlay new old) ≡ length old
length-overlay new old h =
    omega (arith, length-append new (drop (length new) old), length-drop (length new) old)

-- A string that is stored with its NUL is read back, whatever follows.
pub c_string-append_nul : (s rest : Bytes) → NoNul s → c_string (s ++ 0 ∷ rest) ≡ some s
unfolding c_string
c_string-append_nul [] rest h = refl
c_string-append_nul (c ∷ s) rest h = ground (arith, c_string-append_nul s rest h.1)

-- The bounded copy takes the first `n` bytes of a stored string.
pub copy_string-append_nul :
    (n : ℕ) (s rest : Bytes) → NoNul s → copy_string n (s ++ 0 ∷ rest) ≡ some (take n s)
unfolding copy_string
copy_string-append_nul zero [] rest h = refl
copy_string-append_nul zero (c ∷ s) rest h = refl
copy_string-append_nul (suc n) [] rest h = refl
copy_string-append_nul (suc n) (c ∷ s) rest h = ground (arith, copy_string-append_nul n s rest h.1)

-- What a bounded copy delivers: at most `n` bytes, none of them NUL.
pub copy_string_bounds :
    (n : ℕ) (s : Bytes) {r : Bytes} → copy_string n s ≡ some r → (length r ≤ n) × NoNul r
unfolding copy_string
copy_string_bounds zero [] h = cc
copy_string_bounds zero (c ∷ s) h = ground arith
copy_string_bounds (suc n) [] h = cc
copy_string_bounds (suc n) (c ∷ s) h = elim (Option-cases (copy_string n s)) [
  | inl e ↦ ground arith
  | inr (a, e) ↦ ground (arith, copy_string_bounds n s e)
]

pub NoNul-take : (n : ℕ) (s : Bytes) → NoNul s → NoNul (take n s)
NoNul-take zero s h = tt
NoNul-take (suc n) [] h = tt
NoNul-take (suc n) (c ∷ s) h = (h.0, NoNul-take n s h.1)

pub NoNul-append : (s r : Bytes) → NoNul s → NoNul r → NoNul (s ++ r)
NoNul-append [] r h k = k
NoNul-append (c ∷ s) r h k = (h.0, NoNul-append s r h.1 k)
