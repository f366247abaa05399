-- ===== src/Shell/Gateway.antt =====
-- A trade on its way from the exchange mode of the shell to the disk.
use ai_os_exchange.Prelude.{
  ℕ, ◌+◌, ◌%◌, ◌≤◌, ◌<◌, ◌≡◌, refl, sym, ◌∙◌, ap, ap₂, [], ◌∷◌, ◌++◌, length, take, drop, arith,
  some, Bytes, codes, NoNul, append_assoc, length-append, length-take, copy_string-append_nul,
  Bool-cases, inl, inr, ◌==◌,
}
use ai_os_exchange.Ipc.{Message, IsValid, contents}
use ai_os_exchange.Disk.{BlockDevice, IsReliable}
use ai_os_exchange.Fat.Name.{format_fat_name, base_part, skip_part, after_dot, pad, upper}
use ai_os_exchange.Fat.Directory.{find_free_cluster, find_free_entry}
use ai_os_exchange.Fat.File.{root_sector}
use ai_os_exchange.Fat.Store.{Apart, with_file}
use ai_os_exchange.Syscall.{Devices, Kernel, syscall_handler}
use ai_os_exchange.Syscall.Requests.{write_message, write_request_lem}
use ai_os_exchange.Terminal.{Terminal, term_print}
use ai_os_exchange.Shell.Calls.{done}
use ai_os_exchange.Shell.Request.{request}
use ai_os_exchange.Shell.Trade.{file_trades, trade_request, flush_sometimes, capture}
use ai_os_exchange.Shell.Wait.{NoneOf}
use ai_os_exchange.Shell.Service.{
  Schedule, Served, kernel_system, answer_awaited, send_call_of_send,
}

-- The message of a trade asks to write the file of trades.
trade_request_lem :
    (payload text : Bytes)
    → trade_request payload text
      ≡ write_message 3 file_trades
          (text ++ 10 ∷ [])
          (0 ∷ drop (length (file_trades ++ 0 ∷ (text ++ 10 ∷ 0 ∷ []))) payload)
unfolding trade_request
trade_request_lem payload text =
    let behind = drop (length (file_trades ++ 0 ∷ (text ++ 10 ∷ 0 ∷ []))) payload in
    let size : length file_trades + 1 + length text + 1
        ≡ length file_trades + 1 + length (text ++ 10 ∷ []) =
      omega (arith, length-append text (10 ∷ [])) in
    let texts : (text ++ 10 ∷ 0 ∷ []) ++ behind ≡ (text ++ 10 ∷ []) ++ 0 ∷ behind =
      append_assoc text (10 ∷ 0 ∷ []) behind ∙ sym (append_assoc text (10 ∷ []) (0 ∷ behind)) in
    ap₂ (λ l p. request (file_trades ++ 0 ∷ p) 6 l) size texts

-- The entry of the file of trades, whatever stands behind its name.
abbrev pub trades_target : Bytes
trades_target = codes "TRADES  LOG"

trades_named : (rest : Bytes) → format_fat_name (file_trades ++ 0 ∷ rest) ≡ some trades_target
unfolding format_fat_name base_part skip_part after_dot pad upper
trades_named rest = refl

-- The data of a trade: at most 242 bytes of its line, and a line feed.
abbrev pub trade_text : Bytes → Bytes
trade_text line = take 242 line ++ 10 ∷ []

-- What the terminal shows of a trade.
abbrev pub trade_screen : Bytes → Terminal → Terminal
trade_screen line ctx = term_print (codes "[SYSTEM] Payload committed to TRADES.LOG on disk.\n\n") (
    term_print (codes "\n")
      (term_print line (term_print (codes "[GATEWAY] SECURE TRADE CAPTURED: ") ctx)))

module _ (dev : BlockDevice) (env : Devices) (times : Schedule) (stack : Message) where
  flush_served :
      (count : ℕ) (s : Served dev env times)
      → (s' : Served dev env times) × (flush_sometimes (kernel_system dev env times) stack count s
          ≡ done s')
        × (s'.0.mailbox ≡ s.0.mailbox)
        × (s'.0.disk ≡ s.0.disk)
  unfolding flush_sometimes syscall_handler
  flush_served count s = elim (Bool-cases (count % 100 == 0)) [
    | inl now ↦
        let s' : Served dev env times =
          (record s.0 { devices = env.virtio_gpu_flush s.0.devices }, s.1 + 1) in
        (s', rw (now), refl, refl)
    | inr later ↦ (s, rw (later), refl, refl)
  ]

  -- A captured trade, from the state that its first flush has left.
  capture_flushed :
      (ok : IsReliable dev) (fuel count n n1 : ℕ) (k k1 : Kernel dev env) (ctx : Terminal)
      (line : Bytes) {cluster i : ℕ}
      → flush_sometimes (kernel_system dev env times) stack count (k, n) ≡ done (k1, n1)
      → NoNul line
      → find_free_cluster (dev.content k1.disk k1.fs.fat_start_sector) 126 2 ≡ some cluster
      → find_free_entry (dev.content k1.disk (root_sector dev k1.fs)) 16 0 ≡ some i
      → Apart dev ok k1.fs cluster
      → IsValid k1.mailbox
      → ai_os_exchange.Ipc.count k1.mailbox < 255
      → NoneOf 7 (contents k1.mailbox)
      → ai_os_exchange.Ipc.count k1.mailbox < fuel
      → (s' : Served dev env times) × (capture
            (kernel_system dev env times)
            stack
            fuel
            line
            count
            ctx
            (k, n)
          ≡ done (trade_screen line ctx, s'))
        × (contents s'.0.mailbox ≡ [])
        × ((t : ℕ)
            → dev.content s'.0.disk t
              ≡ with_file dev ok k1.fs trades_target cluster i
                  (length (trade_text line))
                  (trade_text line)
                  k1.disk
                  t)
  unfolding capture
  capture_flushed ok fuel count n n1 k k1 ctx line flushed clean room slot apart v few none_yet
        enough =
      let text = trade_text line in
      let behind =
        0 ∷ drop (length (file_trades ++ 0 ∷ (take 242 line ++ 10 ∷ 0 ∷ []))) stack.payload in
      let req = write_message 3 file_trades text behind in
      let sys = kernel_system dev env times in
      let size : length file_trades + 1 + length text ≤ 256 =
        omega (arith, length-append (take 242 line) (10 ∷ []), length-take 242 line) in
      let (k2, sent, left, w, disk) =
        write_request_lem dev env ok (times.now n1) 3 file_trades text behind (times.locals n1) k1
          (omega arith) size (trades_named (text ++ behind)) room slot apart in
      let (s2, p, q, same) =
        answer_awaited dev env times k1 n1 stack req fuel (codes "Write committed to disk.\n")
          (times.locals n1).payload k2 v few none_yet enough left in
      let (s3, flushed', box, stays) = flush_served count s2 in
      (
        s3,
        rw
            (
              flushed,
              copy_string-append_nul 242 line [] clean,
              trade_request_lem stack.payload (take 242 line),
              send_call_of_send dev env times req k1 n1 sent,
              p,
              flushed',
            )
            refl,
        ap contents box ∙ q,
        λ t. ap (λ d. dev.content d t) stays ∙ ap (λ o. dev.content o.3 t) same ∙ disk t,
      )

  -- A line without a NUL is captured in the exchange mode, on a device on which no request fails, with
  -- a free cluster and a free entry, the three sectors different; fewer than 255 messages wait, none
  -- of them an answer to a write, and the wait has a round for each of them and one more. Then,
  -- whatever the number of trades so far, the terminal shows the trade, the mailbox is left empty,
  -- and the disk holds a file of trades with at most 242 bytes of the line and a line feed.
  pub capture_stores :
      (ok : IsReliable dev) (fuel count n : ℕ) (k : Kernel dev env) (ctx : Terminal) (line : Bytes)
      {cluster i : ℕ}
      → NoNul line
      → find_free_cluster (dev.content k.disk k.fs.fat_start_sector) 126 2 ≡ some cluster
      → find_free_entry (dev.content k.disk (root_sector dev k.fs)) 16 0 ≡ some i
      → Apart dev ok k.fs cluster
      → IsValid k.mailbox
      → ai_os_exchange.Ipc.count k.mailbox < 255
      → NoneOf 7 (contents k.mailbox)
      → ai_os_exchange.Ipc.count k.mailbox < fuel
      → (s' : Served dev env times) × (capture
            (kernel_system dev env times)
            stack
            fuel
            line
            count
            ctx
            (k, n)
          ≡ done (trade_screen line ctx, s'))
        × (contents s'.0.mailbox ≡ [])
        × ((t : ℕ)
            → dev.content s'.0.disk t
              ≡ with_file dev ok k.fs trades_target cluster i
                  (length (trade_text line))
                  (trade_text line)
                  k.disk
                  t)
  unfolding flush_sometimes syscall_handler
  capture_stores ok fuel count n k ctx line clean room slot apart v few none_yet enough =
      elim (Bool-cases (count % 100 == 0)) [
        | inl now ↦
            capture_flushed ok fuel count n (n + 1) k
              (record k { devices = env.virtio_gpu_flush k.devices }) ctx line (rw (now) refl) clean
              room slot apart v few none_yet enough
        | inr later ↦
            capture_flushed ok fuel count n n k k ctx line (rw (later) refl) clean room slot apart v
              few none_yet enough
      ]
