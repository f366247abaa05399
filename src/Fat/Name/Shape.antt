-- ===== src/Fat/Name/Shape.antt =====
-- What `format_fat_name` makes of a name.
use ai_os_exchange.Prelude.{
  ◌⊎◌, ℕ, zero, suc, ◌-◌, ◌≤◌, ◌≡◌, ◌≢◌, refl, [], ◌∷◌, ◌++◌, ◌==◌, Bytes, some, >>=-eq-some, map,
  take, length, replicate, length-append, length-replicate, arith, NoNul, NoNul-append, Bool-cases,
  Option-cases, inl, inr,
}
use ai_os_exchange.Fat.Name.{
  space, upper, base_part, skip_part, extension_part, after_dot, pad, format_fat_name,
}

upper-ne-zero : (c : ℕ) → c ≢ 0 → upper c ≢ 0
unfolding upper
upper-ne-zero c h = ground arith

spaces-NoNul : (n : ℕ) → NoNul (replicate n space)
spaces-NoNul zero = tt
spaces-NoNul (suc n) = (omega arith, spaces-NoNul n)

-- A field of a name: as long as it should be, and free of NUL.
pad_lem : (n : ℕ) (s : Bytes) → length s ≤ n → NoNul s → (length (pad n s) ≡ n) × NoNul (pad n s)
unfolding pad
pad_lem n s h k = (
  omega (
    arith,
    length-append s (replicate (n - length s) space),
    length-replicate {A = ℕ} (n - length s) space,
  ),
  NoNul-append s _ k (spaces-NoNul (n - length s)),
)

base_part_lem :
    (n : ℕ) (cs : Bytes) {r : Bytes × Bytes}
    → base_part n cs ≡ some r
    → (length r.0 ≤ n) × NoNul r.0
unfolding base_part
base_part_lem n [] e = cc
base_part_lem zero (c ∷ cs) e = ground arith
base_part_lem (suc n) (c ∷ cs) e = elim (Option-cases (base_part n cs)) [
  | inl p ↦ ground arith
  | inr (r, p) ↦ ground (arith, base_part_lem n cs p, upper-ne-zero c)
]

extension_part_lem :
    (n : ℕ) (cs : Bytes) {r : Bytes} → extension_part n cs ≡ some r → (length r ≤ n) × NoNul r
unfolding extension_part
extension_part_lem n [] e = cc
extension_part_lem zero (c ∷ cs) e = ground arith
extension_part_lem (suc n) (c ∷ cs) e = elim (Option-cases (extension_part n cs)) [
  | inl p ↦ ground arith
  | inr (r, p) ↦ ground (arith, extension_part_lem n cs p, upper-ne-zero c)
]

after_dot_lem : (cs : Bytes) {r : Bytes} → after_dot cs ≡ some r → (length r ≤ 3) × NoNul r
unfolding after_dot
after_dot_lem [] e = cc
after_dot_lem (c ∷ cs) e = elim (Bool-cases (c == b'.')) [
  | inl dot ↦ extension_part_lem 3 cs (rw dot at e)
  | inr other ↦ ground arith
]

-- Whatever the input, a name that is made has 11 bytes and no NUL.
pub format_fat_name_lem :
    (input : Bytes) {t : Bytes} → format_fat_name input ≡ some t → (length t ≡ 11) × NoNul t
unfolding format_fat_name
format_fat_name_lem input {t} e =
    let (r, p, e1) = >>=-eq-some (base_part 8 input) _ e in
    let (rest, q, e2) = >>=-eq-some (skip_part r.1) _ e1 in
    let (ext, x, e3) = >>=-eq-some (after_dot rest) _ e2 in
    let same : pad 8 r.0 ++ pad 3 ext ≡ t = cc in
    let (bl, bn) = base_part_lem 8 input p in
    let (xl, xn) = after_dot_lem rest x in
    let (pl, pn) = pad_lem 8 r.0 bl bn in
    let (ql, qn) = pad_lem 3 ext xl xn in
    rw same at (
      let both : (length (pad 8 r.0 ++ pad 3 ext) ≡ 11) × NoNul (pad 8 r.0 ++ pad 3 ext) =
        (omega (arith, length-append (pad 8 r.0) (pad 3 ext)), NoNul-append _ _ pn qn) in
      both)

-- No byte ends a name's first part.
abbrev pub Plain : Bytes → Type 0
Plain [] = Unit
Plain (c ∷ cs) = (c ≢ 0) × (c ≢ b'.') × Plain cs

skip_part-Plain :
    (s rest : Bytes) (c : ℕ)
    → Plain s
    → (c ≡ 0) ⊎ (c ≡ b'.')
    → skip_part (s ++ c ∷ rest) ≡ some (c ∷ rest)
unfolding skip_part
skip_part-Plain [] rest c h k = ground arith
skip_part-Plain (x ∷ s) rest c h k = ground (arith, skip_part-Plain s rest c h.2 k)

base_part-Plain :
    (n : ℕ) (s rest : Bytes) (c : ℕ)
    → Plain s
    → (c ≡ 0) ⊎ (c ≡ b'.')
    → (tail : Bytes) × (base_part n (s ++ c ∷ rest) ≡ some (map upper (take n s), tail))
      × (skip_part tail ≡ some (c ∷ rest))
unfolding base_part skip_part
base_part-Plain zero [] rest c h k = (c ∷ rest, refl, ground arith)
base_part-Plain (suc n) [] rest c h k = (c ∷ rest, ground arith, ground arith)
base_part-Plain zero (x ∷ s) rest c h k =
    (x ∷ (s ++ c ∷ rest), refl, skip_part-Plain (x ∷ s) rest c h k)
base_part-Plain (suc n) (x ∷ s) rest c h k =
    let (tail, p, q) = base_part-Plain n s rest c h.2 k in (tail, ground (arith, p), q)

extension_part-text :
    (n : ℕ) (s rest : Bytes)
    → NoNul s
    → extension_part n (s ++ 0 ∷ rest) ≡ some (map upper (take n s))
unfolding extension_part
extension_part-text zero [] rest h = refl
extension_part-text zero (x ∷ s) rest h = refl
extension_part-text (suc n) [] rest h = refl
extension_part-text (suc n) (x ∷ s) rest h = ground (arith, extension_part-text n s rest h.1)

-- A name with an extension, neither of them with a NUL and the part before the dot without
-- another: the first eight characters before the dot and the first three behind it, in upper
-- case, each padded with spaces.
pub format_fat_name_dotted :
    (base ext rest : Bytes)
    → Plain base
    → NoNul ext
    → format_fat_name (base ++ b'.' ∷ (ext ++ 0 ∷ rest))
      ≡ some (pad 8 (map upper (take 8 base)) ++ pad 3 (map upper (take 3 ext)))
unfolding format_fat_name after_dot
format_fat_name_dotted base ext rest h k =
    let (tail, p, q) = base_part-Plain 8 base (ext ++ 0 ∷ rest) b'.' h (inr refl) in
    rw (p, q, extension_part-text 3 ext rest k)

-- A name without one: the extension is blank.
pub format_fat_name_bare :
    (base rest : Bytes)
    → Plain base
    → format_fat_name (base ++ 0 ∷ rest) ≡ some (pad 8 (map upper (take 8 base)) ++ pad 3 [])
unfolding format_fat_name after_dot
format_fat_name_bare base rest h =
    let (tail, p, q) = base_part-Plain 8 base rest 0 h (inl refl) in rw (p, q)
