-- ===== src/Shell/Trade.antt =====
-- The exchange mode of `shell_main`: lines that come in over the serial port are written to a file.
use ai_os_exchange.Prelude.{
  ℕ, zero, suc, ◌+◌, ◌%◌, [], ◌∷◌, ◌++◌, if◌then◌else◌, ◌==◌, ◌||◌, ltb, Bytes, codes, length,
  get_or, u8, u32, overlay, copy_string,
}
use ai_os_exchange.Ipc.{Message}
use ai_os_exchange.Syscall.{msg_fs_write_req}
use ai_os_exchange.Terminal.{Terminal, term_print}
use ai_os_exchange.Shell.Calls.{System, Run, done, blocked, ◌>>-◌, lift, await}
use ai_os_exchange.Shell.Request.{request}

abbrev pub timeout_max : ℕ
timeout_max = 5000000

abbrev pub file_trades : Bytes
file_trades = codes "TRADES.LOG"

-- The message that writes a trade, a line feed behind it.
unfoldable pub trade_request : Bytes → Bytes → Message
trade_request payload text =
    request (overlay (file_trades ++ 0 ∷ (text ++ 10 ∷ 0 ∷ [])) payload) msg_fs_write_req
      (length file_trades + 1 + length text + 1)

-- `timeout_counter` and the line after a character that does not end it; no character is 0, and too
-- many of these in a row clear the line.
unfoldable pub after_char : ℕ → ℕ → Bytes → ℕ × Bytes
after_char c timeout line =
    if c == 0
    then (if ltb timeout_max (u32 (timeout + 1)) then (0, []) else (u32 (timeout + 1), line))
    else (0, line ++ c ∷ [])

module _ (sys : System) (stack : Message) where
  -- `while (index < 255)`: the bytes of `trade_payload` up to `index`.
  unfoldable pub read_line : ℕ → ℕ → Bytes → sys.State → Run (Bytes × sys.State)
  read_line zero timeout line s = blocked
  read_line (suc fuel) timeout line s =
      let more = lift (sys.sys_uart_recv s) >>- λ r.
      let next = after_char (u8 r.0) timeout line in
      let rest = read_line fuel next.0 next.1 r.1 in
      if u8 r.0 == 10 || u8 r.0 == 13 then done (line, r.1) else rest in
      if ltb (length line) 255 then more else done (line, s)

  -- `if (trade_count % 100 == 0) sys_gpu_flush();`
  unfoldable pub flush_sometimes : ℕ → sys.State → Run sys.State
  flush_sometimes count s = if count % 100 == 0 then lift (sys.sys_gpu_flush s) else done s

  -- A line that is a trade is printed, sent to the kernel, and its answer awaited.
  unfoldable pub capture : ℕ → Bytes → ℕ → Terminal → sys.State → Run (Terminal × sys.State)
  capture fuel line count ctx s =
      let shown =
        term_print (codes "\n")
          (term_print line (term_print (codes "[GATEWAY] SECURE TRADE CAPTURED: ") ctx)) in
      flush_sometimes count s >>- λ s1. lift (copy_string 242 (line ++ 0 ∷ [])) >>- λ text.
      lift (sys.sys_ipc_send (trade_request stack.payload text) s1) >>- λ s2.
      await sys fuel (msg_fs_write_req + 1) stack s2 >>- λ r. flush_sometimes count r.1 >>- λ s3.
      done (term_print (codes "[SYSTEM] Payload committed to TRADES.LOG on disk.\n\n") shown, s3)

  unfoldable pub trade_loop : ℕ → ℕ → ℕ → Terminal → sys.State → Run (Terminal × sys.State)
  trade_loop fuel zero count ctx s = blocked
  trade_loop fuel (suc n) count ctx s = read_line fuel 0 [] s >>- λ l.
      let trade = get_or l.0 0 0 == 123 in
      let count' = if trade then u32 (count + 1) else count in
      (if trade then capture fuel l.0 count' ctx l.1 else done (ctx, l.1)) >>- λ r.
      trade_loop fuel n count' r.0 r.1

  unfoldable pub trade_listen : ℕ → Terminal → sys.State → Run (Terminal × sys.State)
  trade_listen fuel ctx s =
      let ready =
        term_print
          (codes "\n[SYSTEM] Suspending UI Thread...\n"
            ++ codes "[SYSTEM] Entering High-Frequency Exchange Mode.\n"
            ++ codes "[SYSTEM] Locked onto Gateway. Awaiting payloads...\n\n")
          ctx in
      lift (sys.sys_gpu_flush s) >>- λ s1. trade_loop fuel fuel 0 ready s1
