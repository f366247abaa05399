-- ===== src/Terminal/Strings.antt =====
-- The string functions of modules/shell_gui/main.c, by which the shell tells its commands apart. A
-- string is the bytes from a pointer to the end of its object; `none` is a read past that end.
use ai_os_exchange.Prelude.{
  ℕ, ◌-◌, ◌≡◌, ◌↔◌, refl, sym, ap₂, [], ◌∷◌, ◌++◌, if◌then◌else◌, ◌==◌, ◌&&◌, not, leb, Option,
  none, some, Bytes, u8, arith, NoNul, ==_of_eq, ==_of_ne,
}
use native.Mathlib.Decide.{ℕ_discrete}
use ai_os_exchange.Prelude.Int.{ℤ, pos, negsuc}

-- `a - b` of two bytes, an int.
unfoldable pub difference : ℕ → ℕ → ℤ
difference a b = if leb b a then pos (a - b) else negsuc (b - a - 1)

unfoldable pub shell_strcmp : Bytes → Bytes → Option ℤ
unfolding difference
shell_strcmp [] t = none
shell_strcmp (a ∷ s) [] = none
shell_strcmp (a ∷ s) (b ∷ t) =
    if not (a == 0) && a == b then shell_strcmp s t else some (difference a b)

-- The pointer that is returned, as the bytes from there on; `some none` is a null pointer.
unfoldable pub shell_strchr : Bytes → ℕ → Option (Option Bytes)
shell_strchr [] c = none
shell_strchr (a ∷ s) c =
    if a == 0 then some none else if a == u8 c then some (some (a ∷ s)) else shell_strchr s c

difference_zero : (a b : ℕ) → difference a b ≡ pos 0 → a ≡ b
unfolding difference
difference_zero a b e = ground arith

head_eq : {a b : ℕ} {s t : Bytes} → a ∷ s ≡ b ∷ t → a ≡ b
head_eq e = cc

tail_eq : {a b : ℕ} {s t : Bytes} → a ∷ s ≡ b ∷ t → s ≡ t
tail_eq e = cc

-- Comparing two stored strings returns, whatever follows them, and the result is 0 exactly if they
-- are the same.
pub shell_strcmp_lem :
    (s t rest rest' : Bytes)
    → NoNul s
    → NoNul t
    → (v : ℤ) × (shell_strcmp (s ++ 0 ∷ rest) (t ++ 0 ∷ rest') ≡ some v) × ((v ≡ pos 0) ↔ (s ≡ t))
unfolding shell_strcmp
shell_strcmp_lem [] [] rest rest' hs ht = (pos 0, refl, (λ _. refl, λ _. refl))
shell_strcmp_lem [] (b ∷ t) rest rest' hs ht =
    (difference 0 b, refl, (λ e. absurd (ht.0 (sym (difference_zero 0 b e))), λ e. cc))
shell_strcmp_lem (a ∷ s) [] rest rest' hs ht =
    (difference a 0, rw (==_of_ne a 0 hs.0), (λ e. absurd (hs.0 (difference_zero a 0 e)), λ e. cc))
shell_strcmp_lem (a ∷ s) (b ∷ t) rest rest' hs ht = elim (ℕ_discrete a b) [
  | yes same ↦
      let (v, p, zero_iff) = shell_strcmp_lem s t rest rest' hs.1 ht.1 in
      (
        v,
        rw (==_of_ne a 0 hs.0, ==_of_eq a b same) p,
        (λ e. ap₂ (λ x xs. x ∷ xs) same (zero_iff.0 e), λ e. zero_iff.1 (tail_eq e)),
      )
  | no ne ↦ (
    difference a b,
    rw (==_of_ne a 0 hs.0, ==_of_ne a b ne),
    (λ e. absurd (ne (difference_zero a b e)), λ e. absurd (ne (head_eq e))),
  )
]
