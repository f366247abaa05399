-- ===== src/Terminal/Putc.antt =====
-- Printing keeps the cursor's cell on the screen and never writes behind the framebuffer.
use ai_os_exchange.Prelude.{
  ℕ, ◌+◌, ◌-◌, ◌*◌, ◌^◌, ◌≤◌, ◌<◌, ◌≡◌, refl, ◌∙◌, [], ◌∷◌, if◌then◌else◌, ◌==◌, ltb, leb, true,
  false, Bytes, u32, arith, inl, inr, Bool-cases, ◌⊎◌,
}
use ai_os_exchange.Terminal.{
  Terminal, term_draw_char, term_scroll, line_feed, backspace, next_cell, term_putc, term_print,
}
use ai_os_exchange.Terminal.Bounds.{Holds, term_draw_char-Holds, erase_rows-Holds}
use ai_os_exchange.Terminal.Scroll.{term_scroll_beyond, term_scroll_fields}

-- A screen with room for a character, whose pixels a 32-bit index counts.
pub record IsScreen (w h : ℕ) : Type 0 where
  pub wide : 16 ≤ w
  pub tall : 16 ≤ h
  pub width_fits : w < 2 ^ 31
  pub height_fits : h < 2 ^ 31
  pub area : w * h < 2 ^ 32

module _ (w h : ℕ) (screen : IsScreen w h) (start : ℕ → ℕ) where
  -- The cursor's cell is on the screen, and the memory behind the framebuffer is as it was.
  pub record IsInside (t : Terminal) : Type 0 where
    pub holds : Holds w h screen.area start t.cursor_x t.cursor_y t
    pub x_in : t.cursor_x + 16 ≤ w
    pub y_in : t.cursor_y + 16 ≤ h

  -- After the character and before the scroll, the cursor may stand up to one row below the screen.
  record IsBelow (t : Terminal) : Type 0 where
    below_holds : Holds w h screen.area start t.cursor_x t.cursor_y t
    below_x : t.cursor_x + 16 ≤ w
    below_y : t.cursor_y ≤ h
    below_step : (t.cursor_y + 16 ≤ h) ⊎ (16 ≤ t.cursor_y)

  line_feed-IsBelow : {t : Terminal} → IsInside t → IsBelow (line_feed t)
  unfolding line_feed
  line_feed-IsBelow {t} g = record {
    below_holds = record {
      width = g.holds.width;
      height = g.holds.height;
      at_x = refl;
      at_y = refl;
      beyond = g.holds.beyond;
    };
    below_x = screen.wide;
    below_y = omega (arith, g.y_in, screen.height_fits);
    below_step = inr (omega (arith, g.y_in, screen.height_fits));
  }

  next_cell-IsBelow : {t : Terminal} → IsInside t → IsBelow (next_cell t)
  unfolding next_cell line_feed
  next_cell-IsBelow {t} g =
      elim (Bool-cases (ltb t.screen_width (u32 (u32 (t.cursor_x + 16) + 16)))) [
        | inl full ↦ rw full (line_feed-IsBelow g)
        | inr room ↦ rw room (record {
          below_holds = record {
            width = g.holds.width;
            height = g.holds.height;
            at_x = refl;
            at_y = refl;
            beyond = g.holds.beyond;
          };
          below_x = below_right (g.holds.width) g.x_in room;
          below_y = omega (arith, g.y_in);
          below_step = inl g.y_in;
        })
      ]
    where
      below_right :
          t.screen_width ≡ w
          → t.cursor_x + 16 ≤ w
          → ltb t.screen_width (u32 (u32 (t.cursor_x + 16) + 16)) ≡ false
          → u32 (t.cursor_x + 16) + 16 ≤ w
      below_right e le f = ground (arith, screen.width_fits)

  pub Holds-IsInside :
      (x y : ℕ) {t : Terminal}
      → Holds w h screen.area start x y t
      → x + 16 ≤ w
      → y + 16 ≤ h
      → IsInside t
  Holds-IsInside x y {t} g a b = record {
    holds = record {
      width = g.width;
      height = g.height;
      at_x = refl;
      at_y = refl;
      beyond = g.beyond;
    };
    x_in = omega (arith, g.at_x);
    y_in = omega (arith, g.at_y);
  }

  IsInside-IsBelow : {t : Terminal} → IsInside t → IsBelow t
  IsInside-IsBelow g = record {
    below_holds = g.holds;
    below_x = g.x_in;
    below_y = omega (arith, g.y_in);
    below_step = inl g.y_in;
  }

  draw-IsInside :
      (c : ℕ) {t : Terminal} → IsInside t → IsInside (term_draw_char c t.cursor_x t.cursor_y t)
  draw-IsInside c {t} g =
      Holds-IsInside t.cursor_x t.cursor_y
        (term_draw_char-Holds w h screen.area start t.cursor_x t.cursor_y c t.cursor_x t.cursor_y t
          g.holds)
        g.x_in g.y_in

  backspace-IsInside : {t : Terminal} → IsInside t → IsInside (backspace t)
  unfolding backspace
  backspace-IsInside {t} g = elim (Bool-cases (leb 16 t.cursor_x)) [
    | inl back ↦ rw back (
        Holds-IsInside (t.cursor_x - 16) t.cursor_y
          (erase_rows-Holds w h screen.area start (t.cursor_x - 16) t.cursor_y 16 0
            (record t { cursor_x = t.cursor_x - 16 }) (left_in back g.x_in) (omega (arith, g.y_in))
            screen.width_fits screen.height_fits
            (record {
              width = g.holds.width;
              height = g.holds.height;
              at_x = refl;
              at_y = refl;
              beyond = g.holds.beyond;
            }))
          (left_in back g.x_in) g.y_in)
    | inr start_of_line ↦ rw start_of_line g
  ]
    where
      left_in : leb 16 t.cursor_x ≡ true → t.cursor_x + 16 ≤ w → t.cursor_x - 16 + 16 ≤ w
      left_in back le = ground arith

  scroll-IsInside : {t : Terminal} → IsBelow t → h < t.cursor_y + 16 → IsInside (term_scroll t)
  scroll-IsInside {t} g low =
      let (scroll_width, scroll_height, scroll_x, scroll_y) = term_scroll_fields t in
      record {
        holds = record {
          width = scroll_width ∙ g.below_holds.width;
          height = scroll_height ∙ g.below_holds.height;
          at_x = refl;
          at_y = refl;
          beyond = λ j le.
              term_scroll_beyond t j (omega (arith, screen.tall, g.below_holds.height))
                (omega (arith, screen.height_fits, g.below_holds.height))
                (rw (g.below_holds.width, g.below_holds.height) screen.area)
                (rw (g.below_holds.width, g.below_holds.height) le)
              ∙ g.below_holds.beyond j le;
        };
        x_in = rw scroll_x g.below_x;
        y_in =
            rw scroll_y (ground (arith, screen.tall, screen.height_fits, g.below_y, g.below_step));
      }

  settle :
      (t : Terminal)
      → IsBelow t
      → IsInside (if ltb t.screen_height (u32 (t.cursor_y + 16)) then term_scroll t else t)
  settle t g = elim (Bool-cases (ltb t.screen_height (u32 (t.cursor_y + 16)))) [
    | inl below ↦ rw below (scroll-IsInside g (low g.below_holds.height g.below_y below))
    | inr on ↦ rw on (
        Holds-IsInside t.cursor_x t.cursor_y g.below_holds g.below_x
          (high g.below_holds.height g.below_y on))
  ]
    where
      low :
          t.screen_height ≡ h
          → t.cursor_y ≤ h
          → ltb t.screen_height (u32 (t.cursor_y + 16)) ≡ true
          → h < t.cursor_y + 16
      low e le b = ground (arith, screen.height_fits)

      high :
          t.screen_height ≡ h
          → t.cursor_y ≤ h
          → ltb t.screen_height (u32 (t.cursor_y + 16)) ≡ false
          → t.cursor_y + 16 ≤ h
      high e le b = ground (arith, screen.height_fits)

  after_char :
      (c : ℕ) {t : Terminal}
      → IsInside t
      → IsBelow (
          if c == 10
          then line_feed t
          else if c == 8
          then backspace t
          else next_cell (term_draw_char c t.cursor_x t.cursor_y t))
  after_char c {t} g = elim (Bool-cases (c == 10)) [
    | inl lf ↦ rw lf (line_feed-IsBelow g)
    | inr other ↦ rw other (elim (Bool-cases (c == 8)) [
      | inl bs ↦ rw bs (IsInside-IsBelow (backspace-IsInside g))
      | inr shown ↦ rw shown (next_cell-IsBelow (draw-IsInside c g))
    ])
  ]

  -- Printing a character keeps the cursor's cell on the screen and leaves the memory behind the
  -- framebuffer as it was.
  pub term_putc-IsInside : (c : ℕ) {t : Terminal} → IsInside t → IsInside (term_putc c t)
  unfolding term_putc
  term_putc-IsInside c g = settle _ (after_char c g)

  -- On a screen of at least 16 by 16 pixels whose pixels a 32-bit index counts, with the cursor's
  -- cell on it: after any text, line feeds and backspaces among it, the cursor's cell is on the
  -- screen, and the memory behind the framebuffer is as it was.
  pub term_print-IsInside : (cs : Bytes) (t : Terminal) → IsInside t → IsInside (term_print cs t)
  unfolding term_print
  term_print-IsInside [] t g = g
  term_print-IsInside (c ∷ cs) t g = term_print-IsInside cs (term_putc c t) (term_putc-IsInside c g)
