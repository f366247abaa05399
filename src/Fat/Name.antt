-- ===== src/Fat/Name.antt =====
-- `format_fat_name`: a file name as the 11 bytes of a directory entry.
pub mod Shape
use ai_os_exchange.Prelude.{
  ℕ, zero, suc, ◌+◌, ◌-◌, ◌*◌, ◌/◌, ◌%◌, ◌^◌, ◌≤◌, ◌<◌, ◌≡◌, ◌≢◌, refl, sym, ◌∙◌, ap, ap₂, List, [],
  ◌∷◌, ◌++◌, if◌then◌else◌, ◌==◌, ◌&&◌, ◌||◌, leb, Bool, true, false, Bytes, Option, none, some,
  ◌>>=◌, map, length, replicate, length-append, length-replicate, arith, codes, NoNul,
}

abbrev pub space : ℕ
space = b' '

unfoldable pub upper : ℕ → ℕ
upper c = if leb b'a' c && leb c b'z' then c - 32 else c

-- `while (input[i] != '\0' && input[i] != '.' && j < 8)`: the characters copied, and the input from
-- where the loop stops. The input is read before the bound is tested.
unfoldable pub base_part : ℕ → Bytes → Option (Bytes × Bytes)
base_part n [] = none
base_part zero (c ∷ cs) = some ([], c ∷ cs)
base_part (suc n) (c ∷ cs) =
    if c == 0 || c == b'.'
    then some ([], c ∷ cs)
    else base_part n cs >>= λ r. some (upper c ∷ r.0, r.1)

-- `while (input[i] != '\0' && input[i] != '.') i++;`
unfoldable pub skip_part : Bytes → Option Bytes
skip_part [] = none
skip_part (c ∷ cs) = if c == 0 || c == b'.' then some (c ∷ cs) else skip_part cs

-- `while (input[i] != '\0' && j < 11)`, from `j = 8`.
unfoldable pub extension_part : ℕ → Bytes → Option Bytes
extension_part n [] = none
extension_part zero (c ∷ cs) = some []
extension_part (suc n) (c ∷ cs) =
    if c == 0 then some [] else extension_part n cs >>= λ r. some (upper c ∷ r)

-- What stands in a field of `n` bytes that was filled with spaces first.
unfoldable pub pad : ℕ → Bytes → Bytes
pad n s = s ++ replicate (n - length s) space

-- The extension, if the input goes on with a dot.
unfoldable pub after_dot : Bytes → Option Bytes
unfolding extension_part
after_dot [] = none
after_dot (c ∷ cs) = if c == b'.' then extension_part 3 cs else some []

unfoldable pub format_fat_name : Bytes → Option Bytes
format_fat_name input = base_part 8 input >>= λ r.
    skip_part r.1 >>= λ rest. after_dot rest >>= λ ext. some (pad 8 r.0 ++ pad 3 ext)
