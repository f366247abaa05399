-- ===== src/Shell.antt =====
-- modules/shell_gui/main.c: the shell, `shell_main`. It reads keys from its mailbox, collects them in
-- a buffer of 256 bytes, and carries out a line as a command: it sends a request to the kernel and
-- waits for the answer. A loop runs on fuel: `blocked` says that it has not ended within it.
pub mod Calls
pub mod Request
pub mod Trade
pub mod Wait
pub mod Line
pub mod Service
pub mod Done
pub mod Capture
pub mod Gateway
pub mod Save
pub mod Bounds
pub mod Ready
pub mod Commands
pub mod Loop
pub mod Tests
use ai_os_exchange.Prelude.{
  ℕ, zero, suc, ◌-◌, ◌+◌, [], if◌then◌else◌, ◌==◌, ◌&&◌, ◌||◌, ltb, Option, none, some, Bytes,
  codes, length, take, set, get_or, ◌++◌, ◌∷◌, c_string,
}
use ai_os_exchange.Ipc.{Message, msg_key_press}
use ai_os_exchange.Syscall.{
  msg_fs_list_req, msg_fs_read_req, msg_fs_write_req, msg_atk_exec_req, msg_watcher_dump_req,
  msg_watcher_sync_req,
}
use ai_os_exchange.Terminal.{Terminal, term_clear_screen, term_putc, term_print}
use ai_os_exchange.Shell.Calls.{System, Run, done, blocked, fault, ◌>>-◌, lift, choose, exchange}
use ai_os_exchange.Shell.Request.{
  Command, is_word, is_either, args_of, choose_args, parse, cut, plain_request, text_request,
  write_file_request,
}
use ai_os_exchange.Shell.Trade.{trade_listen}

abbrev pub cmd_max_len : ℕ
cmd_max_len = 256

-- The texts of `help`, one behind the other.
abbrev pub help_text : Bytes
help_text =
    codes "Available commands:\n"
    ++ codes "  help      - Show this message\n"
    ++ codes "  clear     - Clear the terminal screen\n"
    ++ codes "  s.list    - List directory contents (alias: s.ls)\n"
    ++ codes "  s.read    - Print file contents (Usage: s.read <file>)\n"
    ++ codes "  s.write   - Write file (Usage: s.write <file> <data>)\n"
    ++ codes "  agent.why - View OS short-term memory logic\n"
    ++ codes "  atk.run   - Execute Autarky bytecode (.atk)\n"
    ++ codes "  ledger.sync - Persist VM history to LEDGER.LOG\n"
    ++ codes " trade.listen - Lock GUI and wait for trade payloads\n"

abbrev pub msg_prompt : Bytes
msg_prompt = codes "ai-os / % "

-- `stack` is what the uninitialised messages of the stack hold.
module _ (sys : System) (stack : Message) where
  -- The locals of `shell_main`, and the rest of the machine.
  pub record Shell : Type 0 where
    pub ctx : Terminal
    pub cmd_buffer : Bytes
    pub cmd_idx : ℕ
    pub system : sys.State

  abbrev pub print : Bytes → Shell → Run Shell
  print text sh = done (record sh { ctx = term_print text sh.ctx })

  abbrev pub flush : Shell → Run Shell
  flush sh = lift (sys.sys_gpu_flush sh.system) >>- λ s. done (record sh { system = s })

  abbrev pub drain : Shell → Run Shell
  drain sh = lift (sys.sys_hw_drain sh.system) >>- λ s. done (record sh { system = s })

  -- A request, its answer printed with `tail` behind it, and a drain of the hardware queues.
  unfoldable pub ask : ℕ → Message → Bytes → Shell → Run Shell
  ask fuel req tail sh = exchange sys fuel req stack sh.system >>- λ r.
      drain (record sh { ctx = term_print tail (term_print r.0 sh.ctx); system = r.1 })

  abbrev pub write_cut : ℕ → Command → Bytes → Shell → Option (Bytes × Bytes) → Run Shell
  write_cut fuel cmd args sh none = print (codes "Usage: s.write <filename> <data>\n") sh
  write_cut fuel cmd args sh (some (filename, data_bytes)) =
      let kept = take (length cmd.buffer - length args) cmd.buffer in
      lift (write_file_request stack.payload (filename ++ 0 ∷ data_bytes) data_bytes) >>- λ req.
      ask fuel req [] (record sh { cmd_buffer = kept ++ (filename ++ 0 ∷ data_bytes) })

  unfoldable pub write_command : ℕ → Command → Bytes → Shell → Run Shell
  write_command fuel cmd args sh = lift (cut 32 args) >>- write_cut fuel cmd args sh

  unfoldable pub storage_command : ℕ → Command → Shell → Run Shell
  storage_command fuel cmd sh =
      choose (is_either cmd.verb "list" "ls")
        (ask fuel (plain_request stack.payload msg_fs_list_req) [] sh)
        (choose_args (args_of "read" cmd)
          (λ args. lift (text_request stack.payload msg_fs_read_req args) >>- λ req.
            ask fuel req (codes "\n") sh)
          (choose_args (args_of "write" cmd) (λ args. write_command fuel cmd args sh)
            (print (codes "Unknown storage verb.\n") sh)))

  unfoldable pub agent_command : ℕ → Command → Shell → Run Shell
  agent_command fuel cmd sh =
      choose (is_word cmd.verb "why")
        (ask fuel (plain_request stack.payload msg_watcher_dump_req) [] sh)
        (print (codes "Unknown agent verb.\n") sh)

  unfoldable pub atk_command : ℕ → Command → Shell → Run Shell
  atk_command fuel cmd sh =
      choose_args (args_of "run" cmd)
        (λ args. lift (text_request stack.payload msg_atk_exec_req args) >>- λ req.
          ask fuel req (codes "\n") sh)
        (print (codes "Usage: atk.run <filename>\n") sh)

  unfoldable pub ledger_command : ℕ → Command → Shell → Run Shell
  ledger_command fuel cmd sh =
      choose (is_word cmd.verb "sync")
        (ask fuel (plain_request stack.payload msg_watcher_sync_req) [] sh)
        (print (codes "Unknown ledger verb.\n") sh)

  -- The exchange mode is never left.
  unfoldable pub trade_command : ℕ → Command → Shell → Run Shell
  trade_command fuel cmd sh =
      choose (is_word cmd.verb "listen")
        (trade_listen sys stack fuel sh.ctx sh.system >>- λ r.
          done (record sh { ctx = r.0; system = r.1 }))
        (print (codes "Unknown trade verb.\n") sh)

  -- A line with a dot: a namespace, a verb, and arguments.
  unfoldable pub namespace_command : ℕ → Command → Shell → Run Shell
  namespace_command fuel cmd sh =
      choose (is_either cmd.buffer "storage" "s") (storage_command fuel cmd sh) (
        choose (is_word cmd.buffer "agent") (agent_command fuel cmd sh) (
          choose (is_word cmd.buffer "atk") (atk_command fuel cmd sh) (
            choose (is_word cmd.buffer "ledger") (ledger_command fuel cmd sh) (
              choose (is_word cmd.buffer "trade") (trade_command fuel cmd sh)
                (print (codes "Unknown namespace.\n") sh)))))

  unfoldable pub plain_command : Shell → Run Shell
  plain_command sh =
      choose (is_word sh.cmd_buffer "clear") (done (record sh { ctx = term_clear_screen sh.ctx })) (
        choose (is_word sh.cmd_buffer "help") (print help_text sh) (
          lift (c_string sh.cmd_buffer) >>- λ line. done (record sh {
            ctx = term_putc 10 (term_print line (term_print (codes "Unknown command: ") sh.ctx));
          })))

  abbrev pub run_words : ℕ → Shell → Option Command → Run Shell
  run_words fuel sh none = plain_command sh
  run_words fuel sh (some cmd) = namespace_command fuel cmd (record sh { cmd_buffer = cmd.buffer })

  unfoldable pub run_command : ℕ → Shell → Run Shell
  run_command fuel sh = lift (parse sh.cmd_buffer) >>- run_words fuel sh

  -- The end of a line.
  abbrev pub end_line : ℕ → Shell → Run Shell
  end_line fuel sh =
      let terminated = record sh { cmd_buffer = set sh.cmd_buffer sh.cmd_idx 0 } in
      if ltb 0 sh.cmd_idx then run_command fuel terminated else done terminated

  abbrev pub prompt : Shell → Run Shell
  prompt sh = print msg_prompt (record sh { cmd_idx = 0 })

  unfoldable pub enter : ℕ → Shell → Run Shell
  enter fuel sh = flush (record sh { ctx = term_putc 10 sh.ctx }) >>- end_line fuel >>- prompt

  unfoldable pub erase_char : Shell → Shell
  erase_char sh =
      if ltb 0 sh.cmd_idx
      then record sh { cmd_idx = sh.cmd_idx - 1; ctx = term_putc 8 sh.ctx }
      else sh

  unfoldable pub add_char : ℕ → Shell → Shell
  add_char c sh =
      if ltb sh.cmd_idx (cmd_max_len - 1)
      then record sh {
        cmd_buffer = set sh.cmd_buffer sh.cmd_idx c;
        cmd_idx = sh.cmd_idx + 1;
        ctx = term_putc c sh.ctx;
      }
      else sh

  unfoldable pub key : ℕ → ℕ → Shell → Run Shell
  key fuel c sh =
      (if c == 10 || c == 13
        then enter fuel sh
        else done (if c == 8 then erase_char sh else add_char c sh))
      >>- flush

  -- A round of the main loop.
  abbrev pub on_message : ℕ → Shell → Message × sys.State → Run Shell
  on_message fuel sh r =
      let sh' = record sh { system = r.1 } in
      if r.0.type == msg_key_press && ltb 0 r.0.length
      then key fuel (get_or r.0.payload 0 0) sh'
      else done sh'

  unfoldable pub round : ℕ → Shell → Run Shell
  round fuel sh = drain sh >>- λ sh. lift (sys.ipc_receive stack sh.system) >>- on_message fuel sh

  -- The start, and the first `n` rounds.
  unfoldable pub shell_start : (ℕ → ℕ) → Bytes → sys.State → Run Shell
  shell_start memory buffer s = flush (record {
    ctx =
        term_print
          (codes "ai-os-desktop terminal subsystem initialized.\n"
            ++ codes "Framebuffer rendering active.\n"
            ++ codes "IPC Mailbox Online. Ready for commands.\n\n"
            ++ msg_prompt)
          (term_clear_screen (record {
            framebuffer = memory;
            screen_width = 1280;
            screen_height = 800;
            cursor_x = 0;
            cursor_y = 0;
          }));
    cmd_buffer = buffer;
    cmd_idx = 0;
    system = s;
  })

  unfoldable pub rounds : ℕ → ℕ → Shell → Run Shell
  rounds fuel zero sh = done sh
  rounds fuel (suc n) sh = round fuel sh >>- rounds fuel n

  unfoldable pub shell_main : ℕ → ℕ → (ℕ → ℕ) → Bytes → sys.State → Run Shell
  shell_main fuel n memory buffer s = shell_start memory buffer s >>- rounds fuel n
