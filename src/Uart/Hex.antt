-- ===== src/Uart/Hex.antt =====
-- The hexadecimal digits of `uart_print_hex` in kernel/uart.c and of `u64_to_hex_str` in
-- kernel/watcher.c. Both loops write the last digit first, towards the front of the buffer.
use mathlib.Core.List.{foldl}
use native.Mathlib.Nat.{pow-suc}
use ai_os_exchange.Prelude.{
  ℕ, zero, suc, ◌+◌, ◌-◌, ◌*◌, ◌/◌, ◌%◌, ◌^◌, ◌<◌, ◌≡◌, ◌≢◌, refl, [], ◌∷◌, ◌++◌, arith, true,
  length, get_or, Bytes, codes, NoNul, ltb, if◌then◌else◌, append_assoc, ap, ◌∙◌, every, every_lem,
  ◌==◌, ◌&&◌,
}
use ai_os_exchange.Uart.{Uart, uart_print}

unfoldable pub hex_char : ℕ → ℕ
hex_char d = get_or (codes "0123456789ABCDEF") d 0

-- `for (i = n - 1; i >= 0; i--) { buf[i] = hex_chars[val & 0xF]; val >>= 4; }`
unfoldable pub hex_digits : ℕ → ℕ → Bytes → Bytes
unfolding hex_char
hex_digits zero val out = out
hex_digits (suc n) val out = hex_digits n (val / 16) (hex_char (val % 16) ∷ out)

-- The buffer of 17 bytes with its NUL.
unfoldable pub u64_to_hex_str : ℕ → Bytes
unfolding hex_digits
u64_to_hex_str val = hex_digits 16 val (0 ∷ [])

unfoldable pub uart_print_hex : ℕ → Uart → Uart
unfolding hex_digits
uart_print_hex val = uart_print (codes "0x" ++ hex_digits 16 val [])

-- The number that hexadecimal digits spell, behind `n`.
abbrev pub digit_value : ℕ → ℕ
digit_value c = if ltb c b'A' then c - b'0' else c - b'A' + 10

abbrev pub hex_value : ℕ → Bytes → ℕ
hex_value = foldl (λ n c. n * 16 + digit_value c)

hex_char_table : every (λ d. digit_value (hex_char d) == d && ltb 0 (hex_char d)) 16 ≡ true
unfolding every hex_char
hex_char_table = refl

digit_value-hex_char : (d : ℕ) → d < 16 → (digit_value (hex_char d) ≡ d) × (hex_char d ≢ 0)
digit_value-hex_char d h = ground (arith, every_lem _ 16 h hex_char_table)

hex_digits-append : (n val : ℕ) (out : Bytes) → hex_digits n val out ≡ hex_digits n val [] ++ out
unfolding hex_digits
hex_digits-append zero val out = refl
hex_digits-append (suc n) val out = rw (
  hex_digits-append n (val / 16) (hex_char (val % 16) ∷ out),
  hex_digits-append n (val / 16) (hex_char (val % 16) ∷ []),
  append_assoc,
)

length-hex_digits : (n val : ℕ) (out : Bytes) → length (hex_digits n val out) ≡ n + length out
unfolding hex_digits
length-hex_digits zero val out = omega arith
length-hex_digits (suc n) val out =
    omega (arith, length-hex_digits n (val / 16) (hex_char (val % 16) ∷ out))

hex_digits-NoNul : (n val : ℕ) (out : Bytes) → NoNul out → NoNul (hex_digits n val out)
unfolding hex_digits
hex_digits-NoNul zero val out h = h
hex_digits-NoNul (suc n) val out h =
    hex_digits-NoNul n (val / 16) (hex_char (val % 16) ∷ out)
      ((digit_value-hex_char (val % 16) (omega arith)).1, h)

hex_value-hex_digits :
    (n val : ℕ) (out : Bytes)
    → val < 16 ^ n
    → hex_value 0 (hex_digits n val out) ≡ hex_value val out
unfolding hex_digits
hex_value-hex_digits zero val out h = ap (λ v. hex_value v out) (omega arith)
hex_value-hex_digits (suc n) val out h =
    hex_value-hex_digits n (val / 16) (hex_char (val % 16) ∷ out) (omega (arith, pow-suc 16 n))
    ∙ ap (λ v. hex_value v out) (omega (arith, digit_value-hex_char (val % 16) (omega arith)))

-- The digits of a uint64_t fill the buffer's 17 bytes with their NUL, hold no other NUL, and
-- spell the number.
pub u64_to_hex_str_lem :
    (val : ℕ)
    → val < 2 ^ 64
    → (s : Bytes) × (u64_to_hex_str val ≡ s ++ 0 ∷ [])
      × (length s ≡ 16)
      × NoNul s
      × (hex_value 0 s ≡ val)
unfolding u64_to_hex_str
u64_to_hex_str_lem val h = (
  hex_digits 16 val [],
  hex_digits-append 16 val (0 ∷ []),
  omega (arith, length-hex_digits 16 val []),
  hex_digits-NoNul 16 val [] tt,
  hex_value-hex_digits 16 val [] h,
)
