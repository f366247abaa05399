-- ===== src/Shell/Commands.antt =====
-- Every command keeps the shell's buffer and screen in order.
use mathlib.Core.Path.{subst}
use Prim.Native.String.{String}
use ai_os_exchange.Prelude.{
  ℕ, ◌-◌, ◌≤◌, ◌≡◌, [], ◌∷◌, ◌++◌, length, take, arith, Option, none, some, Bytes, length-append,
  length-take, if_elim, codes, c_string, >>=-eq-some, some_cancel,
}
use ai_os_exchange.Ipc.{Message}
use ai_os_exchange.Terminal.Putc.{term_putc-IsInside}
use ai_os_exchange.Shell.Calls.{System, done}
use ai_os_exchange.Shell.Request.{
  Command, is_word, is_either, cut, args_of, write_file_request, text_request,
}
use ai_os_exchange.Shell.Trade.{trade_listen}
use ai_os_exchange.Shell.Done.{bind_elim, lift_elim, choose_elim, choose_args_elim, done_cancel}
use ai_os_exchange.Shell.Bounds.{IsCut, cut_length, trade_listen_endless}
use ai_os_exchange.Shell.{
  Shell, write_cut, write_command, storage_command, agent_command, atk_command, ledger_command,
  trade_command, namespace_command, plain_command,
}
use ai_os_exchange.Shell.Ready.{screen, IsReady, printed, cleared, print-IsReady, ask-IsReady}

module _ (sys : System) (stack : Message) (memory : ℕ → ℕ) where
  -- The texts of a buffer that the shell cuts further.
  write_cut-IsReady :
      (fuel : ℕ) (cmd : Command) (args : Bytes) {sh sh' : Shell sys stack}
      (d : Option (Bytes × Bytes))
      → length cmd.buffer ≡ 256
      → length args ≤ 256
      → cut 32 args ≡ some d
      → IsReady sys stack memory sh
      → write_cut sys stack fuel cmd args sh d ≡ done sh'
      → IsReady sys stack memory sh'
  write_cut-IsReady fuel cmd args none size short is h = print-IsReady sys stack memory _ h
  write_cut-IsReady fuel cmd args (some (filename, data_bytes)) size short is h =
      lift_elim (write_file_request stack.payload (filename ++ 0 ∷ data_bytes) data_bytes) _
        (λ req _. ask-IsReady sys stack memory fuel req [] (record {
          buffer_size = omega (
            arith,
            length-append (take (length cmd.buffer - length args) cmd.buffer)
                (filename ++ 0 ∷ data_bytes),
            length-append filename (0 ∷ data_bytes),
            length-take (length cmd.buffer - length args) cmd.buffer,
            cut_length 32 args filename data_bytes is,
          );
          index_in = h.index_in;
          on_screen = h.on_screen;
        }))

  args_of_cmd :
      (word : String) (cmd : Command) {args : Bytes}
      → args_of word cmd ≡ some (some args)
      → cmd.args ≡ some args
  args_of_cmd word cmd e =
      let (b, _, picked) = >>=-eq-some (is_word cmd.verb word) _ e in
      if_elim b cmd.args none (λ same. same) (λ no. cc) (some_cancel picked)

  storage_command-IsReady :
      (fuel : ℕ) (cmd : Command) {sh sh' : Shell sys stack}
      → IsCut cmd
      → IsReady sys stack memory sh
      → storage_command sys stack fuel cmd sh ≡ done sh'
      → IsReady sys stack memory sh'
  unfolding storage_command write_command
  storage_command-IsReady fuel cmd {sh} whole h =
      choose_elim (is_either cmd.verb "list" "ls") _ _ (ask-IsReady sys stack memory fuel _ [] h) (
        choose_args_elim (args_of "read" cmd) _ _
          (λ args _.
            lift_elim (text_request stack.payload 4 args) _
              (λ req _. ask-IsReady sys stack memory fuel req _ h))
          (choose_args_elim (args_of "write" cmd) _ _
            (λ args picked. lift_elim (cut 32 args) _ (λ d is.
              write_cut-IsReady fuel cmd args d whole.buffer_size
                (whole.args_inside args (args_of_cmd "write" cmd picked)) is h))
            (print-IsReady sys stack memory _ h)))

  atk_command-IsReady :
      (fuel : ℕ) (cmd : Command) {sh sh' : Shell sys stack}
      → IsReady sys stack memory sh
      → atk_command sys stack fuel cmd sh ≡ done sh'
      → IsReady sys stack memory sh'
  unfolding atk_command
  atk_command-IsReady fuel cmd h =
      choose_args_elim (args_of "run" cmd) _ _
        (λ args _.
          lift_elim (text_request stack.payload 8 args) _
            (λ req _. ask-IsReady sys stack memory fuel req _ h))
        (print-IsReady sys stack memory _ h)

  trade_command-IsReady :
      (fuel : ℕ) (cmd : Command) {sh sh' : Shell sys stack}
      → IsReady sys stack memory sh
      → trade_command sys stack fuel cmd sh ≡ done sh'
      → IsReady sys stack memory sh'
  unfolding trade_command
  trade_command-IsReady fuel cmd {sh} h =
      choose_elim (is_word cmd.verb "listen") _ _
        (bind_elim (trade_listen sys stack fuel sh.ctx sh.system) _
          (λ r e _. absurd (trade_listen_endless sys stack fuel sh.ctx sh.system e)))
        (print-IsReady sys stack memory _ h)

  pub namespace_command-IsReady :
      (fuel : ℕ) (cmd : Command) {sh sh' : Shell sys stack}
      → IsCut cmd
      → IsReady sys stack memory sh
      → namespace_command sys stack fuel cmd sh ≡ done sh'
      → IsReady sys stack memory sh'
  unfolding namespace_command agent_command ledger_command
  namespace_command-IsReady fuel cmd whole h =
      choose_elim (is_either cmd.buffer "storage" "s") _ _
        (storage_command-IsReady fuel cmd whole h)
        (choose_elim (is_word cmd.buffer "agent") _ _
          (choose_elim (is_word cmd.verb "why") _ _ (ask-IsReady sys stack memory fuel _ [] h)
            (print-IsReady sys stack memory _ h))
          (choose_elim (is_word cmd.buffer "atk") _ _ (atk_command-IsReady fuel cmd h) (
            choose_elim (is_word cmd.buffer "ledger") _ _
              (choose_elim (is_word cmd.verb "sync") _ _ (ask-IsReady sys stack memory fuel _ [] h)
                (print-IsReady sys stack memory _ h))
              (choose_elim (is_word cmd.buffer "trade") _ _ (trade_command-IsReady fuel cmd h)
                (print-IsReady sys stack memory _ h)))))

  pub plain_command-IsReady :
      {sh sh' : Shell sys stack}
      → IsReady sys stack memory sh
      → plain_command sys stack sh ≡ done sh'
      → IsReady sys stack memory sh'
  unfolding plain_command
  plain_command-IsReady {sh} h =
      choose_elim (is_word sh.cmd_buffer "clear") _ _
        (λ e. subst (IsReady sys stack memory) (done_cancel e) (record {
          buffer_size = h.buffer_size;
          index_in = h.index_in;
          on_screen =
              cleared sys stack memory sh.ctx h.on_screen.holds.width h.on_screen.holds.height
                h.on_screen.holds.beyond;
        }))
        (choose_elim (is_word sh.cmd_buffer "help") _ _ (print-IsReady sys stack memory _ h) (
          lift_elim (c_string sh.cmd_buffer) _ (λ line _ e.
            subst (IsReady sys stack memory) (done_cancel e) (record {
              buffer_size = h.buffer_size;
              index_in = h.index_in;
              on_screen = term_putc-IsInside 1280 800 screen memory 10 (
                  printed sys stack memory line
                    (printed sys stack memory (codes "Unknown command: ") h.on_screen));
            }))))
