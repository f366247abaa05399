-- ===== src/Shell/Ready.antt =====
-- The shell never writes behind its line buffer or the screen, whatever the user types and the kernel
-- answers.
use mathlib.Core.Path.{subst}
use ai_os_exchange.Prelude.{
  ℕ, ◌*◌, ◌≤◌, ◌<◌, ◌≡◌, refl, ◌∙◌, ap₂, length, arith, Bytes, ltb_of_not-lt,
}
use ai_os_exchange.Ipc.{Message}
use ai_os_exchange.Terminal.{Terminal, term_clear_screen, term_print}
use ai_os_exchange.Terminal.Putc.{IsScreen, IsInside, term_print-IsInside}
use ai_os_exchange.Terminal.Scroll.{term_clear_screen_lem}
use ai_os_exchange.Shell.Calls.{System, done, exchange}
use ai_os_exchange.Shell.Done.{bind_elim, lift_elim, done_cancel}
use ai_os_exchange.Shell.{Shell, print, flush, drain, ask}

-- The shell's screen.
pub screen : IsScreen 1280 800
screen = record {
  wide = omega arith;
  tall = omega arith;
  width_fits = omega arith;
  height_fits = omega arith;
  area = omega arith;
}

module _ (sys : System) (stack : Message) (memory : ℕ → ℕ) where
  -- The line buffer has its 256 bytes, its index is inside it, the cursor's cell is on the screen,
  -- and the memory behind the framebuffer is as it was.
  pub record IsReady (sh : Shell sys stack) : Type 0 where
    pub buffer_size : length sh.cmd_buffer ≡ 256
    pub index_in : sh.cmd_idx < 256
    pub on_screen : IsInside 1280 800 screen memory sh.ctx

  pub printed :
      (text : Bytes) {t : Terminal}
      → IsInside 1280 800 screen memory t
      → IsInside 1280 800 screen memory (term_print text t)
  printed text {t} h = term_print-IsInside 1280 800 screen memory text t h

  pub cleared :
      (t : Terminal)
      → t.screen_width ≡ 1280
      → t.screen_height ≡ 800
      → ((i : ℕ) → 1280 * 800 ≤ i → t.framebuffer i ≡ memory i)
      → IsInside 1280 800 screen memory (term_clear_screen t)
  unfolding term_clear_screen
  cleared t wide tall same = record {
    holds = record {
      width = wide;
      height = tall;
      at_x = refl;
      at_y = refl;
      beyond = λ j le.
          let size : t.screen_width * t.screen_height ≡ 1280 * 800 = ap₂ (λ a b. a * b) wide tall in
          term_clear_screen_lem t j (omega arith)
          ∙ rw (ltb_of_not-lt j (t.screen_width * t.screen_height) (omega arith)) (same j le);
    };
    x_in = omega arith;
    y_in = omega arith;
  }

  pub print-IsReady :
      (text : Bytes) {sh sh' : Shell sys stack}
      → IsReady sh
      → print sys stack text sh ≡ done sh'
      → IsReady sh'
  print-IsReady text h e = subst IsReady (done_cancel e) (record {
    buffer_size = h.buffer_size;
    index_in = h.index_in;
    on_screen = printed text h.on_screen;
  })

  pub flush-IsReady :
      {sh sh' : Shell sys stack} → IsReady sh → flush sys stack sh ≡ done sh' → IsReady sh'
  flush-IsReady {sh} h = lift_elim (sys.sys_gpu_flush sh.system) _ (λ s _ e.
      subst IsReady (done_cancel e)
        (record { buffer_size = h.buffer_size; index_in = h.index_in; on_screen = h.on_screen }))

  pub drain-IsReady :
      {sh sh' : Shell sys stack} → IsReady sh → drain sys stack sh ≡ done sh' → IsReady sh'
  drain-IsReady {sh} h = lift_elim (sys.sys_hw_drain sh.system) _ (λ s _ e.
      subst IsReady (done_cancel e)
        (record { buffer_size = h.buffer_size; index_in = h.index_in; on_screen = h.on_screen }))

  pub ask-IsReady :
      (fuel : ℕ) (req : Message) (tail : Bytes) {sh sh' : Shell sys stack}
      → IsReady sh
      → ask sys stack fuel req tail sh ≡ done sh'
      → IsReady sh'
  unfolding ask
  ask-IsReady fuel req tail {sh} h = bind_elim (exchange sys fuel req stack sh.system) _ (λ r _.
      drain-IsReady (record {
        buffer_size = h.buffer_size;
        index_in = h.index_in;
        on_screen = printed tail (printed r.0 h.on_screen);
      }))
