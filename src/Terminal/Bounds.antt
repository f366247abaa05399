-- ===== src/Terminal/Bounds.antt =====
-- Every write of the terminal is inside the framebuffer, and the cursor's cell stays on the screen.
use native.Mathlib.Nat.{mul-le-mul_right, suc-mul, mul_comm}
use ai_os_exchange.Prelude.{
  ℕ, zero, suc, ◌+◌, ◌-◌, ◌*◌, ◌/◌, ◌%◌, ◌^◌, ◌≤◌, ◌<◌, ◌≡◌, ◌≢◌, ◌∙◌, [], if◌then◌else◌, ◌==◌,
  ◌&&◌, ◌||◌, ltb, Bool, true, false, Bytes, get_or, u32, arith, inl, inr, Bool-cases, ==_of_ne,
}
use ai_os_exchange.Terminal.Font.{font8x8}
use ai_os_exchange.Terminal.{
  Terminal, color_bg, color_fg, poke, dot, block, draw_row, draw_rows, term_draw_char, erase_row,
  erase_rows,
}

-- The index of a pixel on a screen is inside the framebuffer.
index-lt : (w h x y : ℕ) → w * h < 2 ^ 32 → x < w → y < h → u32 (u32 (y * w) + x) < w * h
index-lt w h x y area a b =
    let row : suc y * w ≤ h * w = mul-le-mul_right w b in
    omega (arith, row, suc-mul y w, mul_comm h w)

poke_ne : (i v : ℕ) (fb : ℕ → ℕ) (j : ℕ) → j ≢ i → poke i v fb j ≡ fb j
unfolding poke
poke_ne i v fb j ne = rw (==_of_ne j i ne)

module _ (w h : ℕ) (area : w * h < 2 ^ 32) (start : ℕ → ℕ) where
  -- The screen has its size, the cursor stands at `x` and `y`, and the memory behind the framebuffer
  -- is as it was.
  pub record Holds (x y : ℕ) (t : Terminal) : Type 0 where
    pub width : t.screen_width ≡ w
    pub height : t.screen_height ≡ h
    pub at_x : t.cursor_x ≡ x
    pub at_y : t.cursor_y ≡ y
    pub beyond : (i : ℕ) → w * h ≤ i → t.framebuffer i ≡ start i

  poke-Holds :
      (x y i v : ℕ) {t : Terminal}
      → i < w * h
      → Holds x y t
      → Holds x y (record t { framebuffer = poke i v t.framebuffer })
  poke-Holds x y i v {t} lt g = record {
    width = g.width;
    height = g.height;
    at_x = g.at_x;
    at_y = g.at_y;
    beyond = λ j le. poke_ne i v t.framebuffer j (omega arith) ∙ g.beyond j le;
  }

  dot-Holds : (x y px py : ℕ) {t : Terminal} → Holds x y t → Holds x y (dot px py t)
  unfolding dot
  dot-Holds x y px py {t} g = elim (Bool-cases (ltb px t.screen_width && ltb py t.screen_height)) [
    | inl on ↦ rw on (poke-Holds x y _ color_fg (inside on) g)
    | inr off ↦ rw off g
  ]
    where
      inside :
          (ltb px t.screen_width && ltb py t.screen_height) ≡ true
          → u32 (u32 (py * t.screen_width) + px) < w * h
      inside on =
          let lt : (px < t.screen_width) × (py < t.screen_height) = ground arith in
          rw (g.width)
            (index-lt w h px py area (omega (arith, lt.0, g.width)) (omega (arith, lt.1, g.height)))

  block-Holds : (x y px py : ℕ) {t : Terminal} → Holds x y t → Holds x y (block px py t)
  unfolding block
  block-Holds x y px py g =
      dot-Holds x y _ _ (dot-Holds x y _ _ (dot-Holds x y _ _ (dot-Holds x y px py g)))

  draw_row-Holds :
      (x y n col row_data px py : ℕ) (t : Terminal)
      → Holds x y t
      → Holds x y (draw_row n col row_data px py t)
  unfolding draw_row
  draw_row-Holds x y zero col row_data px py t g = g
  draw_row-Holds x y (suc n) col row_data px py t g =
      draw_row-Holds x y n (col + 1) row_data px py _ (lit (row_data / 2 ^ (7 - col) % 2 == 1))
    where
      lit : (b : Bool) → Holds x y (if b then block (u32 (px + col * 2)) py t else t)
      lit true = block-Holds x y _ py g
      lit false = g

  draw_rows-Holds :
      (x y n row : ℕ) (glyph : Bytes) (px py : ℕ) (t : Terminal)
      → Holds x y t
      → Holds x y (draw_rows n row glyph px py t)
  unfolding draw_rows
  draw_rows-Holds x y zero row glyph px py t g = g
  draw_rows-Holds x y (suc n) row glyph px py t g =
      draw_rows-Holds x y n (row + 1) glyph px py _
        (draw_row-Holds x y 8 0 (get_or glyph row 0) px _ t g)

  pub term_draw_char-Holds :
      (x y c px py : ℕ) (t : Terminal) → Holds x y t → Holds x y (term_draw_char c px py t)
  unfolding term_draw_char
  term_draw_char-Holds x y c px py t g = elim (Bool-cases (ltb c 32 || ltb 126 c)) [
    | inl skip ↦ rw skip g
    | inr shown ↦ rw shown (draw_rows-Holds x y 8 0 (get_or font8x8 (c - 32) []) px py t g)
  ]

  erase_row-Holds :
      (x y n dx dy : ℕ) (t : Terminal)
      → x + dx + n ≤ w
      → y + dy < h
      → w < 2 ^ 31
      → h < 2 ^ 31
      → Holds x y t
      → Holds x y (erase_row n dx dy t)
  unfolding erase_row
  erase_row-Holds x y zero dx dy t a b sw sh g = g
  erase_row-Holds x y (suc n) dx dy t a b sw sh g =
      erase_row-Holds x y n (dx + 1) dy _ (omega arith) b sw sh (
        poke-Holds x y _ color_bg
          (rw (g.width, g.at_x, g.at_y)
            (index-lt w h (u32 (x + dx)) (u32 (y + dy)) area (omega arith) (omega arith)))
          g)

  pub erase_rows-Holds :
      (x y m dy : ℕ) (t : Terminal)
      → x + 16 ≤ w
      → y + dy + m ≤ h
      → w < 2 ^ 31
      → h < 2 ^ 31
      → Holds x y t
      → Holds x y (erase_rows m dy t)
  unfolding erase_rows
  erase_rows-Holds x y zero dy t a b sw sh g = g
  erase_rows-Holds x y (suc m) dy t a b sw sh g =
      erase_rows-Holds x y m (dy + 1) _ a (omega arith) sw sh
        (erase_row-Holds x y 16 0 dy t (omega arith) (omega arith) sw sh g)
