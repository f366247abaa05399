-- ===== src/Shell/Loop.antt =====
-- The main loop of the shell, and the invariant along its rounds.
use mathlib.Core.Path.{subst}
use ai_os_exchange.Prelude.{
  ℕ, zero, suc, ◌≡◌, refl, ◌∙◌, length, set, get_or, arith, Option, none, some, Bytes, length-set,
  if_elim, if◌then◌else◌, ltb, ltb→lt, ◌==◌, ◌&&◌, ◌||◌, Bool-cases, inl, inr,
}
use ai_os_exchange.Ipc.{Message}
use ai_os_exchange.Terminal.{term_putc}
use ai_os_exchange.Terminal.Putc.{term_putc-IsInside}
use ai_os_exchange.Shell.Calls.{System, done, ◌>>-◌}
use ai_os_exchange.Shell.Request.{Command, parse}
use ai_os_exchange.Shell.Done.{bind_elim, lift_elim, done_cancel}
use ai_os_exchange.Shell.Bounds.{parse-IsCut}
use ai_os_exchange.Shell.Ready.{
  screen, IsReady, printed, cleared, print-IsReady, flush-IsReady, drain-IsReady,
}
use ai_os_exchange.Shell.Commands.{namespace_command-IsReady, plain_command-IsReady}
use ai_os_exchange.Shell.{
  Shell, flush, drain, run_words, run_command, enter, erase_char, add_char, key, round, rounds,
  shell_start, end_line, msg_prompt, shell_main,
}

module _ (sys : System) (stack : Message) (memory : ℕ → ℕ) where
  abbrev Good : Shell sys stack → Type 0
  Good = IsReady sys stack memory

  run_words-IsReady :
      (fuel : ℕ) {sh sh' : Shell sys stack} (c : Option Command)
      → parse sh.cmd_buffer ≡ some c
      → Good sh
      → run_words sys stack fuel sh c ≡ done sh'
      → Good sh'
  run_words-IsReady fuel none is h = plain_command-IsReady sys stack memory h
  run_words-IsReady fuel {sh} (some cmd) is h =
      let whole = parse-IsCut sh.cmd_buffer cmd h.buffer_size is in
      namespace_command-IsReady sys stack memory fuel cmd whole
        (record { buffer_size = whole.buffer_size; index_in = h.index_in; on_screen = h.on_screen })

  pub run_command-IsReady :
      (fuel : ℕ) {sh sh' : Shell sys stack}
      → Good sh
      → run_command sys stack fuel sh ≡ done sh'
      → Good sh'
  unfolding run_command
  run_command-IsReady fuel {sh} h =
      lift_elim (parse sh.cmd_buffer) _ (λ c is. run_words-IsReady fuel c is h)

  -- The shell with another terminal.
  shown : (c : ℕ) {sh : Shell sys stack} → Good sh → Good (record sh { ctx = term_putc c sh.ctx })
  shown c h = record {
    buffer_size = h.buffer_size;
    index_in = h.index_in;
    on_screen = term_putc-IsInside 1280 800 screen memory c h.on_screen;
  }

  end_line-IsReady :
      (fuel : ℕ) {sh sh' : Shell sys stack}
      → Good sh
      → end_line sys stack fuel sh ≡ done sh'
      → Good sh'
  end_line-IsReady fuel {sh} h =
      let terminated : Good (record sh { cmd_buffer = set sh.cmd_buffer sh.cmd_idx 0 }) = record {
        buffer_size = length-set sh.cmd_buffer sh.cmd_idx 0 ∙ h.buffer_size;
        index_in = h.index_in;
        on_screen = h.on_screen;
      } in
      if_elim (ltb 0 sh.cmd_idx) _ _ (run_command-IsReady fuel terminated)
        (λ q. subst Good (done_cancel q) terminated)

  enter-IsReady :
      (fuel : ℕ) {sh sh' : Shell sys stack}
      → Good sh
      → enter sys stack fuel sh ≡ done sh'
      → Good sh'
  unfolding enter
  enter-IsReady fuel {sh} h =
      let sh1 = record sh { ctx = term_putc 10 sh.ctx } in
      bind_elim (flush sys stack sh1 >>- end_line sys stack fuel) _ (λ sh2 ended e.
        let good =
          bind_elim (flush sys stack sh1) _
            (λ _ flushed.
              end_line-IsReady fuel (flush-IsReady sys stack memory (shown 10 h) flushed))
            ended in
        print-IsReady sys stack memory msg_prompt
          (record {
            buffer_size = good.buffer_size;
            index_in = omega arith;
            on_screen = good.on_screen;
          })
          e)

  erase_char-IsReady : {sh : Shell sys stack} → Good sh → Good (erase_char sys stack sh)
  unfolding erase_char
  erase_char-IsReady {sh} h = elim (Bool-cases (ltb 0 sh.cmd_idx)) [
    | inl some_typed ↦
        let back = shown 8 h in
        rw (some_typed) (record {
          buffer_size = h.buffer_size;
          index_in = omega (arith, h.index_in);
          on_screen = back.on_screen;
        })
    | inr empty ↦ rw (empty) h
  ]

  add_char-IsReady : (c : ℕ) {sh : Shell sys stack} → Good sh → Good (add_char sys stack c sh)
  unfolding add_char
  add_char-IsReady c {sh} h = elim (Bool-cases (ltb sh.cmd_idx 255)) [
    | inl room ↦
        let more = shown c h in
        rw (room) (record {
          buffer_size = length-set sh.cmd_buffer sh.cmd_idx c ∙ h.buffer_size;
          index_in = omega (arith, ltb→lt sh.cmd_idx 255 room);
          on_screen = more.on_screen;
        })
    | inr full ↦ rw (full) h
  ]

  key-IsReady :
      (fuel c : ℕ) {sh sh' : Shell sys stack}
      → Good sh
      → key sys stack fuel c sh ≡ done sh'
      → Good sh'
  unfolding key
  key-IsReady fuel c {sh} h =
      let typed = if c == 8 then erase_char sys stack sh else add_char sys stack c sh in
      bind_elim (if c == 10 || c == 13 then enter sys stack fuel sh else done typed) _ (λ sh1 e.
        flush-IsReady sys stack memory (
          if_elim (c == 10 || c == 13) _ _ (enter-IsReady fuel h)
            (λ q.
              if_elim (c == 8) _ _ (λ p. subst Good p (erase_char-IsReady h))
                (λ p. subst Good p (add_char-IsReady c h)) (done_cancel q))
            e))

  round-IsReady :
      (fuel : ℕ) {sh sh' : Shell sys stack}
      → Good sh
      → round sys stack fuel sh ≡ done sh'
      → Good sh'
  unfolding round
  round-IsReady fuel {sh} h = bind_elim (drain sys stack sh) _ (λ sh1 drained.
      let h1 = drain-IsReady sys stack memory h drained in
      lift_elim (sys.ipc_receive stack sh1.system) _ (λ r _.
        let h2 : Good (record sh1 { system = r.1 }) = record {
          buffer_size = h1.buffer_size;
          index_in = h1.index_in;
          on_screen = h1.on_screen;
        } in
        if_elim (r.0.type == 1 && ltb 0 r.0.length) _ _
          (key-IsReady fuel (get_or r.0.payload 0 0) h2) (λ q. subst Good (done_cancel q) h2)))

  rounds-IsReady :
      (fuel n : ℕ) (sh sh' : Shell sys stack)
      → Good sh
      → rounds sys stack fuel n sh ≡ done sh'
      → Good sh'
  unfolding rounds
  rounds-IsReady fuel zero sh sh' h e = subst Good (done_cancel e) h
  rounds-IsReady fuel (suc n) sh sh' h e =
      bind_elim (round sys stack fuel sh) _
        (λ sh1 p. rounds-IsReady fuel n sh1 sh' (round-IsReady fuel h p)) e

  shell_start-IsReady :
      (buffer : Bytes) (s : sys.State) {sh : Shell sys stack}
      → length buffer ≡ 256
      → shell_start sys stack memory buffer s ≡ done sh
      → Good sh
  unfolding shell_start
  shell_start-IsReady buffer s size = flush-IsReady sys stack memory (record {
    buffer_size = size;
    index_in = omega arith;
    on_screen = printed sys stack memory _ (cleared sys stack memory _ refl refl (λ i le. refl));
  })

  -- From the start of the shell with a buffer of 256 bytes, over any number of rounds of the main loop that end,
  -- whatever keys and answers come in: the line buffer keeps its size, its index stays inside it, the
  -- cursor's cell stays on the screen, and nothing is written behind the framebuffer.
  pub shell_main-IsReady :
      (fuel n : ℕ) (buffer : Bytes) (s : sys.State) (sh' : Shell sys stack)
      → length buffer ≡ 256
      → shell_main sys stack fuel n memory buffer s ≡ done sh'
      → IsReady sys stack memory sh'
  unfolding shell_main
  shell_main-IsReady fuel n buffer s sh' size =
      bind_elim (shell_start sys stack memory buffer s) _
        (λ sh1 p. rounds-IsReady fuel n sh1 sh' (shell_start-IsReady buffer s size p))
