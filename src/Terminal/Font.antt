-- ===== src/Terminal/Font.antt =====
-- The 8 by 8 glyphs of modules/shell_gui/main.c, for the characters from space to tilde, a byte per
-- row with the leftmost pixel in the highest bit.
use ai_os_exchange.Prelude.{List, [], ◌∷◌, Bytes}

unfoldable pub font8x8 : List Bytes
font8x8 =
    (0 ∷ 0 ∷ 0 ∷ 0 ∷ 0 ∷ 0 ∷ 0 ∷ 0 ∷ [])
    ∷ (24 ∷ 60 ∷ 60 ∷ 24 ∷ 24 ∷ 0 ∷ 24 ∷ 0 ∷ [])
    ∷ (108 ∷ 108 ∷ 108 ∷ 0 ∷ 0 ∷ 0 ∷ 0 ∷ 0 ∷ [])
    ∷ (108 ∷ 108 ∷ 254 ∷ 108 ∷ 254 ∷ 108 ∷ 108 ∷ 0 ∷ [])
    ∷ (24 ∷ 126 ∷ 192 ∷ 126 ∷ 6 ∷ 126 ∷ 24 ∷ 0 ∷ [])
    ∷ (0 ∷ 198 ∷ 204 ∷ 24 ∷ 48 ∷ 102 ∷ 198 ∷ 0 ∷ [])
    ∷ (56 ∷ 108 ∷ 56 ∷ 118 ∷ 220 ∷ 204 ∷ 118 ∷ 0 ∷ [])
    ∷ (48 ∷ 48 ∷ 96 ∷ 0 ∷ 0 ∷ 0 ∷ 0 ∷ 0 ∷ [])
    ∷ (24 ∷ 48 ∷ 96 ∷ 96 ∷ 96 ∷ 48 ∷ 24 ∷ 0 ∷ [])
    ∷ (96 ∷ 48 ∷ 24 ∷ 24 ∷ 24 ∷ 48 ∷ 96 ∷ 0 ∷ [])
    ∷ (0 ∷ 102 ∷ 60 ∷ 255 ∷ 60 ∷ 102 ∷ 0 ∷ 0 ∷ [])
    ∷ (0 ∷ 24 ∷ 24 ∷ 126 ∷ 24 ∷ 24 ∷ 0 ∷ 0 ∷ [])
    ∷ (0 ∷ 0 ∷ 0 ∷ 0 ∷ 0 ∷ 48 ∷ 48 ∷ 96 ∷ [])
    ∷ (0 ∷ 0 ∷ 0 ∷ 126 ∷ 0 ∷ 0 ∷ 0 ∷ 0 ∷ [])
    ∷ (0 ∷ 0 ∷ 0 ∷ 0 ∷ 0 ∷ 24 ∷ 24 ∷ 0 ∷ [])
    ∷ (6 ∷ 12 ∷ 24 ∷ 48 ∷ 96 ∷ 192 ∷ 128 ∷ 0 ∷ [])
    ∷ (124 ∷ 198 ∷ 206 ∷ 214 ∷ 230 ∷ 198 ∷ 124 ∷ 0 ∷ [])
    ∷ (24 ∷ 56 ∷ 24 ∷ 24 ∷ 24 ∷ 24 ∷ 126 ∷ 0 ∷ [])
    ∷ (124 ∷ 198 ∷ 6 ∷ 28 ∷ 48 ∷ 96 ∷ 254 ∷ 0 ∷ [])
    ∷ (124 ∷ 198 ∷ 6 ∷ 60 ∷ 6 ∷ 198 ∷ 124 ∷ 0 ∷ [])
    ∷ (28 ∷ 60 ∷ 108 ∷ 204 ∷ 254 ∷ 12 ∷ 30 ∷ 0 ∷ [])
    ∷ (254 ∷ 192 ∷ 252 ∷ 6 ∷ 6 ∷ 198 ∷ 124 ∷ 0 ∷ [])
    ∷ (56 ∷ 96 ∷ 192 ∷ 252 ∷ 198 ∷ 198 ∷ 124 ∷ 0 ∷ [])
    ∷ (254 ∷ 198 ∷ 6 ∷ 12 ∷ 24 ∷ 48 ∷ 48 ∷ 0 ∷ [])
    ∷ (124 ∷ 198 ∷ 198 ∷ 124 ∷ 198 ∷ 198 ∷ 124 ∷ 0 ∷ [])
    ∷ (124 ∷ 198 ∷ 198 ∷ 126 ∷ 6 ∷ 12 ∷ 120 ∷ 0 ∷ [])
    ∷ (0 ∷ 48 ∷ 48 ∷ 0 ∷ 0 ∷ 48 ∷ 48 ∷ 0 ∷ [])
    ∷ (0 ∷ 48 ∷ 48 ∷ 0 ∷ 0 ∷ 48 ∷ 48 ∷ 96 ∷ [])
    ∷ (24 ∷ 48 ∷ 96 ∷ 192 ∷ 96 ∷ 48 ∷ 24 ∷ 0 ∷ [])
    ∷ (0 ∷ 0 ∷ 126 ∷ 0 ∷ 126 ∷ 0 ∷ 0 ∷ 0 ∷ [])
    ∷ (96 ∷ 48 ∷ 24 ∷ 12 ∷ 24 ∷ 48 ∷ 96 ∷ 0 ∷ [])
    ∷ (124 ∷ 198 ∷ 6 ∷ 28 ∷ 24 ∷ 0 ∷ 24 ∷ 0 ∷ [])
    ∷ (124 ∷ 198 ∷ 222 ∷ 222 ∷ 220 ∷ 192 ∷ 124 ∷ 0 ∷ [])
    ∷ (56 ∷ 108 ∷ 198 ∷ 254 ∷ 198 ∷ 198 ∷ 198 ∷ 0 ∷ [])
    ∷ (252 ∷ 198 ∷ 198 ∷ 252 ∷ 198 ∷ 198 ∷ 252 ∷ 0 ∷ [])
    ∷ (60 ∷ 102 ∷ 192 ∷ 192 ∷ 192 ∷ 102 ∷ 60 ∷ 0 ∷ [])
    ∷ (248 ∷ 204 ∷ 198 ∷ 198 ∷ 198 ∷ 204 ∷ 248 ∷ 0 ∷ [])
    ∷ (254 ∷ 192 ∷ 192 ∷ 252 ∷ 192 ∷ 192 ∷ 254 ∷ 0 ∷ [])
    ∷ (254 ∷ 192 ∷ 192 ∷ 252 ∷ 192 ∷ 192 ∷ 192 ∷ 0 ∷ [])
    ∷ (60 ∷ 102 ∷ 192 ∷ 206 ∷ 198 ∷ 102 ∷ 62 ∷ 0 ∷ [])
    ∷ (198 ∷ 198 ∷ 198 ∷ 254 ∷ 198 ∷ 198 ∷ 198 ∷ 0 ∷ [])
    ∷ (126 ∷ 24 ∷ 24 ∷ 24 ∷ 24 ∷ 24 ∷ 126 ∷ 0 ∷ [])
    ∷ (14 ∷ 6 ∷ 6 ∷ 6 ∷ 198 ∷ 198 ∷ 124 ∷ 0 ∷ [])
    ∷ (198 ∷ 204 ∷ 216 ∷ 240 ∷ 216 ∷ 204 ∷ 198 ∷ 0 ∷ [])
    ∷ (192 ∷ 192 ∷ 192 ∷ 192 ∷ 192 ∷ 192 ∷ 254 ∷ 0 ∷ [])
    ∷ (198 ∷ 238 ∷ 254 ∷ 214 ∷ 198 ∷ 198 ∷ 198 ∷ 0 ∷ [])
    ∷ (198 ∷ 230 ∷ 246 ∷ 222 ∷ 206 ∷ 198 ∷ 198 ∷ 0 ∷ [])
    ∷ (124 ∷ 198 ∷ 198 ∷ 198 ∷ 198 ∷ 198 ∷ 124 ∷ 0 ∷ [])
    ∷ (252 ∷ 198 ∷ 198 ∷ 252 ∷ 192 ∷ 192 ∷ 192 ∷ 0 ∷ [])
    ∷ (124 ∷ 198 ∷ 198 ∷ 198 ∷ 218 ∷ 204 ∷ 122 ∷ 0 ∷ [])
    ∷ (252 ∷ 198 ∷ 198 ∷ 252 ∷ 216 ∷ 204 ∷ 198 ∷ 0 ∷ [])
    ∷ (124 ∷ 198 ∷ 192 ∷ 124 ∷ 6 ∷ 198 ∷ 124 ∷ 0 ∷ [])
    ∷ (254 ∷ 24 ∷ 24 ∷ 24 ∷ 24 ∷ 24 ∷ 24 ∷ 0 ∷ [])
    ∷ (198 ∷ 198 ∷ 198 ∷ 198 ∷ 198 ∷ 198 ∷ 124 ∷ 0 ∷ [])
    ∷ (198 ∷ 198 ∷ 198 ∷ 198 ∷ 198 ∷ 108 ∷ 56 ∷ 0 ∷ [])
    ∷ (198 ∷ 198 ∷ 198 ∷ 214 ∷ 254 ∷ 238 ∷ 198 ∷ 0 ∷ [])
    ∷ (198 ∷ 198 ∷ 108 ∷ 56 ∷ 108 ∷ 198 ∷ 198 ∷ 0 ∷ [])
    ∷ (198 ∷ 198 ∷ 198 ∷ 124 ∷ 24 ∷ 24 ∷ 24 ∷ 0 ∷ [])
    ∷ (254 ∷ 6 ∷ 12 ∷ 24 ∷ 48 ∷ 96 ∷ 254 ∷ 0 ∷ [])
    ∷ (60 ∷ 48 ∷ 48 ∷ 48 ∷ 48 ∷ 48 ∷ 60 ∷ 0 ∷ [])
    ∷ (128 ∷ 192 ∷ 96 ∷ 48 ∷ 24 ∷ 12 ∷ 6 ∷ 0 ∷ [])
    ∷ (60 ∷ 12 ∷ 12 ∷ 12 ∷ 12 ∷ 12 ∷ 60 ∷ 0 ∷ [])
    ∷ (24 ∷ 60 ∷ 102 ∷ 0 ∷ 0 ∷ 0 ∷ 0 ∷ 0 ∷ [])
    ∷ (0 ∷ 0 ∷ 0 ∷ 0 ∷ 0 ∷ 0 ∷ 255 ∷ 0 ∷ [])
    ∷ (96 ∷ 96 ∷ 48 ∷ 0 ∷ 0 ∷ 0 ∷ 0 ∷ 0 ∷ [])
    ∷ (0 ∷ 0 ∷ 124 ∷ 6 ∷ 126 ∷ 198 ∷ 126 ∷ 0 ∷ [])
    ∷ (192 ∷ 192 ∷ 252 ∷ 198 ∷ 198 ∷ 198 ∷ 252 ∷ 0 ∷ [])
    ∷ (0 ∷ 0 ∷ 124 ∷ 198 ∷ 192 ∷ 198 ∷ 124 ∷ 0 ∷ [])
    ∷ (6 ∷ 6 ∷ 126 ∷ 198 ∷ 198 ∷ 198 ∷ 126 ∷ 0 ∷ [])
    ∷ (0 ∷ 0 ∷ 124 ∷ 198 ∷ 254 ∷ 192 ∷ 124 ∷ 0 ∷ [])
    ∷ (28 ∷ 48 ∷ 252 ∷ 48 ∷ 48 ∷ 48 ∷ 48 ∷ 0 ∷ [])
    ∷ (0 ∷ 0 ∷ 126 ∷ 198 ∷ 198 ∷ 126 ∷ 6 ∷ 124 ∷ [])
    ∷ (192 ∷ 192 ∷ 252 ∷ 198 ∷ 198 ∷ 198 ∷ 198 ∷ 0 ∷ [])
    ∷ (24 ∷ 0 ∷ 56 ∷ 24 ∷ 24 ∷ 24 ∷ 60 ∷ 0 ∷ [])
    ∷ (6 ∷ 0 ∷ 6 ∷ 6 ∷ 6 ∷ 198 ∷ 124 ∷ 0 ∷ [])
    ∷ (192 ∷ 192 ∷ 204 ∷ 216 ∷ 240 ∷ 216 ∷ 204 ∷ 0 ∷ [])
    ∷ (56 ∷ 24 ∷ 24 ∷ 24 ∷ 24 ∷ 24 ∷ 60 ∷ 0 ∷ [])
    ∷ (0 ∷ 0 ∷ 252 ∷ 254 ∷ 214 ∷ 214 ∷ 198 ∷ 0 ∷ [])
    ∷ (0 ∷ 0 ∷ 252 ∷ 198 ∷ 198 ∷ 198 ∷ 198 ∷ 0 ∷ [])
    ∷ (0 ∷ 0 ∷ 124 ∷ 198 ∷ 198 ∷ 198 ∷ 124 ∷ 0 ∷ [])
    ∷ (0 ∷ 0 ∷ 252 ∷ 198 ∷ 198 ∷ 252 ∷ 192 ∷ 192 ∷ [])
    ∷ (0 ∷ 0 ∷ 126 ∷ 198 ∷ 198 ∷ 126 ∷ 6 ∷ 6 ∷ [])
    ∷ (0 ∷ 0 ∷ 220 ∷ 102 ∷ 96 ∷ 96 ∷ 96 ∷ 0 ∷ [])
    ∷ (0 ∷ 0 ∷ 124 ∷ 192 ∷ 124 ∷ 6 ∷ 124 ∷ 0 ∷ [])
    ∷ (48 ∷ 48 ∷ 252 ∷ 48 ∷ 48 ∷ 48 ∷ 28 ∷ 0 ∷ [])
    ∷ (0 ∷ 0 ∷ 198 ∷ 198 ∷ 198 ∷ 198 ∷ 126 ∷ 0 ∷ [])
    ∷ (0 ∷ 0 ∷ 198 ∷ 198 ∷ 198 ∷ 108 ∷ 56 ∷ 0 ∷ [])
    ∷ (0 ∷ 0 ∷ 198 ∷ 198 ∷ 214 ∷ 254 ∷ 108 ∷ 0 ∷ [])
    ∷ (0 ∷ 0 ∷ 198 ∷ 108 ∷ 56 ∷ 108 ∷ 198 ∷ 0 ∷ [])
    ∷ (0 ∷ 0 ∷ 198 ∷ 198 ∷ 198 ∷ 126 ∷ 6 ∷ 124 ∷ [])
    ∷ (0 ∷ 0 ∷ 254 ∷ 12 ∷ 24 ∷ 48 ∷ 254 ∷ 0 ∷ [])
    ∷ (14 ∷ 24 ∷ 24 ∷ 112 ∷ 24 ∷ 24 ∷ 14 ∷ 0 ∷ [])
    ∷ (24 ∷ 24 ∷ 24 ∷ 0 ∷ 24 ∷ 24 ∷ 24 ∷ 0 ∷ [])
    ∷ (112 ∷ 24 ∷ 24 ∷ 14 ∷ 24 ∷ 24 ∷ 112 ∷ 0 ∷ [])
    ∷ (118 ∷ 220 ∷ 0 ∷ 0 ∷ 0 ∷ 0 ∷ 0 ∷ 0 ∷ [])
    ∷ []
