-- ===== src/Terminal.antt =====
-- The terminal of modules/shell_gui/main.c: characters of 16 by 16 pixels in a framebuffer. The
-- framebuffer is all of memory from its first word on, so that a write behind its end shows. A char
-- is an unsigned byte, as on AArch64.
pub mod Font
pub mod Bounds
pub mod Scroll
pub mod Putc
pub mod Strings
pub mod Tests
use ai_os_exchange.Prelude.{
  ℕ, zero, suc, ◌+◌, ◌-◌, ◌*◌, ◌/◌, ◌%◌, ◌^◌, ◌≤◌, ◌<◌, ◌≡◌, List, [], ◌∷◌, if◌then◌else◌, ◌==◌,
  ◌&&◌, ◌||◌, ltb, leb, Bool, Bytes, get_or, u32, sub32,
}
use ai_os_exchange.Terminal.Font.{font8x8}

abbrev pub color_bg : ℕ
color_bg = 0xFF1E1E1E

abbrev pub color_fg : ℕ
color_fg = 0xFF00FF00

-- `term_ctx_t`
pub record Terminal : Type 0 where
  pub framebuffer : ℕ → ℕ
  pub screen_width : ℕ
  pub screen_height : ℕ
  pub cursor_x : ℕ
  pub cursor_y : ℕ

-- `framebuffer[i] = v`
unfoldable pub poke : ℕ → ℕ → (ℕ → ℕ) → ℕ → ℕ
poke i v fb j = if j == i then v else fb j

-- `n` words from word `i` on get the background colour.
unfoldable pub fill : ℕ → ℕ → (ℕ → ℕ) → ℕ → ℕ
unfolding poke
fill zero i fb = fb
fill (suc n) i fb = fill n (i + 1) (poke i color_bg fb)

-- `for (i = 0; i < n; i++) dest[i] = src[i]`, with `src` `by` words behind `dest`.
unfoldable pub move : ℕ → ℕ → ℕ → (ℕ → ℕ) → ℕ → ℕ
unfolding poke
move zero i by fb = fb
move (suc n) i by fb = move n (i + 1) by (poke i (fb (i + by)) fb)

unfoldable pub term_clear_screen : Terminal → Terminal
unfolding fill
term_clear_screen t = record t {
  framebuffer = fill (u32 (t.screen_width * t.screen_height)) 0 t.framebuffer;
  cursor_x = 0;
  cursor_y = 0;
}

-- One pixel of a glyph, if it is on the screen.
unfoldable pub dot : ℕ → ℕ → Terminal → Terminal
unfolding poke
dot px py t =
    if ltb px t.screen_width && ltb py t.screen_height
    then record t {
      framebuffer = poke (u32 (u32 (py * t.screen_width) + px)) color_fg t.framebuffer;
    }
    else t

-- The two inner loops: a pixel of the font is two by two on the screen.
unfoldable pub block : ℕ → ℕ → Terminal → Terminal
unfolding dot
block px py t =
    dot (u32 (px + 1)) (u32 (py + 1)) (dot px (u32 (py + 1)) (dot (u32 (px + 1)) py (dot px py t)))

-- `n` columns of a row from column `col` on.
unfoldable pub draw_row : ℕ → ℕ → ℕ → ℕ → ℕ → Terminal → Terminal
unfolding block
draw_row zero col row_data px py t = t
draw_row (suc n) col row_data px py t =
    draw_row n (col + 1) row_data px py
      (if row_data / 2 ^ (7 - col) % 2 == 1 then block (u32 (px + col * 2)) py t else t)

-- `n` rows of a glyph from row `row` on.
unfoldable pub draw_rows : ℕ → ℕ → Bytes → ℕ → ℕ → Terminal → Terminal
unfolding draw_row
draw_rows zero row glyph x y t = t
draw_rows (suc n) row glyph x y t =
    draw_rows n (row + 1) glyph x y (draw_row 8 0 (get_or glyph row 0) x (u32 (y + row * 2)) t)

unfoldable pub term_draw_char : ℕ → ℕ → ℕ → Terminal → Terminal
unfolding draw_rows font8x8
term_draw_char c x y t =
    if ltb c 32 || ltb 126 c then t else draw_rows 8 0 (get_or font8x8 (c - 32) []) x y t

unfoldable pub term_scroll : Terminal → Terminal
unfolding fill move
term_scroll t =
    let words_to_move = u32 (t.screen_width * sub32 t.screen_height 16) in
    let moved = move words_to_move 0 (u32 (t.screen_width * 16)) t.framebuffer in
    record t {
      framebuffer =
          fill (u32 (t.screen_width * t.screen_height) - words_to_move) words_to_move moved;
      cursor_y = sub32 t.cursor_y 16;
    }

-- `n` pixels of a row of the erased cell from column `dx` on, and `m` rows from row `dy` on.
unfoldable pub erase_row : ℕ → ℕ → ℕ → Terminal → Terminal
unfolding poke
erase_row zero dx dy t = t
erase_row (suc n) dx dy t = erase_row n (dx + 1) dy (record t {
  framebuffer =
      poke (u32 (u32 (u32 (t.cursor_y + dy) * t.screen_width) + u32 (t.cursor_x + dx))) color_bg
        t.framebuffer;
})

unfoldable pub erase_rows : ℕ → ℕ → Terminal → Terminal
unfolding erase_row
erase_rows zero dy t = t
erase_rows (suc m) dy t = erase_rows m (dy + 1) (erase_row 16 0 dy t)

-- The three cases of `term_putc`: a line feed, a backspace, any other character.
unfoldable pub line_feed : Terminal → Terminal
line_feed t = record t { cursor_x = 0; cursor_y = u32 (t.cursor_y + 16) }

unfoldable pub backspace : Terminal → Terminal
unfolding erase_rows
backspace t =
    if leb 16 t.cursor_x then erase_rows 16 0 (record t { cursor_x = t.cursor_x - 16 }) else t

unfoldable pub next_cell : Terminal → Terminal
next_cell t =
    let x = u32 (t.cursor_x + 16) in
    if ltb t.screen_width (u32 (x + 16))
    then record t { cursor_x = 0; cursor_y = u32 (t.cursor_y + 16) }
    else record t { cursor_x = x }

unfoldable pub term_putc : ℕ → Terminal → Terminal
unfolding term_draw_char term_scroll line_feed backspace next_cell
term_putc c t =
    let t' =
      if c == 10
      then line_feed t
      else if c == 8
      then backspace t
      else next_cell (term_draw_char c t.cursor_x t.cursor_y t) in
    if ltb t'.screen_height (u32 (t'.cursor_y + 16)) then term_scroll t' else t'

-- The bytes of a string, without its NUL.
unfoldable pub term_print : Bytes → Terminal → Terminal
unfolding term_putc
term_print [] t = t
term_print (c ∷ cs) t = term_print cs (term_putc c t)
