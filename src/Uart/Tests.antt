-- ===== src/Uart/Tests.antt =====
-- Hexadecimal text of a concrete number.
use ai_os_exchange.Prelude.{◌≡◌, [], ◌∷◌, ◌++◌, Bytes, length, NoNul, arith}
use ai_os_exchange.Uart.Hex.{u64_to_hex_str, hex_value, u64_to_hex_str_lem}

u64_to_hex_str_lem_example :
    (s : Bytes) × (u64_to_hex_str 48879 ≡ s ++ 0 ∷ [])
    × (length s ≡ 16)
    × NoNul s
    × (hex_value 0 s ≡ 48879)
u64_to_hex_str_lem_example = u64_to_hex_str_lem 48879 (omega arith)
