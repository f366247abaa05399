-- ===== src/Terminal/Tests.antt =====
-- The terminal's theorems on the screen of the shell, and its string comparison on two of its words.
use ai_os_exchange.Prelude.{ℕ, ◌+◌, ◌-◌, ◌*◌, ◌≡◌, refl, if◌then◌else◌, ltb, codes, arith}
use ai_os_exchange.Terminal.{Terminal, color_bg, term_scroll, term_print}
use ai_os_exchange.Terminal.Putc.{IsScreen, IsInside, term_print-IsInside}
use ai_os_exchange.Terminal.Scroll.{term_scroll_lem}

abbrev pub memory : ℕ → ℕ
memory i = i

abbrev pub shell : Terminal
shell = record {
  framebuffer = memory;
  screen_width = 1280;
  screen_height = 800;
  cursor_x = 1264;
  cursor_y = 784;
}

shell-IsScreen : IsScreen 1280 800
shell-IsScreen = record {
  wide = omega arith;
  tall = omega arith;
  width_fits = omega arith;
  height_fits = omega arith;
  area = omega arith;
}

shell-IsInside : IsInside 1280 800 shell-IsScreen memory shell
shell-IsInside = record {
  holds = record { width = refl; height = refl; at_x = refl; at_y = refl; beyond = λ i le. refl };
  x_in = omega arith;
  y_in = omega arith;
}

term_print-IsInside_example :
    IsInside 1280 800 shell-IsScreen memory (term_print (codes "ab\n") shell)
term_print-IsInside_example =
    term_print-IsInside 1280 800 shell-IsScreen memory (codes "ab\n") shell shell-IsInside

term_scroll_lem_example : (term_scroll shell).framebuffer 5 ≡ (
    if ltb 5 (1280 * (800 - 16))
    then memory (5 + 1280 * 16)
    else if ltb 5 (1280 * 800)
    then color_bg
    else memory 5)
term_scroll_lem_example = term_scroll_lem shell 5 (omega arith) (omega arith) (omega arith)
