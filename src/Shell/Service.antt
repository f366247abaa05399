-- ===== src/Shell/Service.antt =====
-- The shell's system calls served by `syscall_handler` of kernel/syscall.c, and what becomes of its
-- requests.
use ai_os_exchange.Prelude.{
  ℕ, ◌+◌, ◌≤◌, ◌<◌, ◌≡◌, refl, ◌∙◌, ap, [], ◌∷◌, ◌++◌, length, arith, Option, some, ◌>>=◌, Bytes,
  c_string, c_string-append_nul, append_assoc, NoNul, lt→ltb, copy_string, drop,
}
use ai_os_exchange.Ipc.{Message, ipc_kernel_send, ipc_receive, IsValid, count, contents}
use ai_os_exchange.Ipc.Fifo
use ai_os_exchange.Ipc.Order.{
  send-IsValid, receive-IsValid, receive-contents, send-contents, send_of_full, length-contents,
}
use ai_os_exchange.Watcher.{Watcher}
use ai_os_exchange.Uart.{Uart}
use ai_os_exchange.Disk.{BlockDevice}
use ai_os_exchange.Fat.{Fs}
use ai_os_exchange.Syscall.{
  msg_fs_list_req, Devices, Kernel, Locals, Caller, sys_ipc_send, sys_ipc_recv, sys_gpu_flush,
  sys_hw_drain, sys_uart_recv, reply, ipc_send, syscall_handler,
}
use ai_os_exchange.Syscall.Requests.{list_request_lem}
use ai_os_exchange.Fat.Listing.{fs_get_dir_list}
use ai_os_exchange.Shell.Request.{plain_request}
use ai_os_exchange.Shell.Calls.{System, done, blocked, await, exchange}
use ai_os_exchange.Shell.Wait.{NoneOf, await_answer, await-blocked, exchange-done, exchange-blocked}

-- How the kernel finds its surroundings at the n-th call: the fuel of its drain, the system timer,
-- and what its uninitialised locals hold.
pub record Schedule : Type 0 where
  pub fuel : ℕ → ℕ
  pub now : ℕ → ℕ
  pub locals : ℕ → Locals

module _ (dev : BlockDevice) (env : Devices) (times : Schedule) where
  -- The kernel, and how many calls it has served.
  abbrev pub Served : Type 0
  Served = Kernel dev env × ℕ

  abbrev pub svc : ℕ → Caller → Served → Option (Caller × Served)
  svc num c s =
      syscall_handler dev env (times.fuel s.1) (times.now s.1) (times.locals s.1) num c s.0 >>= λ r.
      some (r.0, (r.1, s.1 + 1))

  -- The registers of a call without a message, and of one with a message.
  abbrev pub no_message : Message
  no_message = record { sender_id = 0; target_id = 0; type = 0; length = 0; payload = [] }

  -- `ipc_receive`, `sys_ipc_send`, `sys_uart_recv`, and a call without arguments.
  abbrev pub receive_call : Message → Served → Option (Message × Served)
  receive_call m s = svc sys_ipc_recv (record { x0 = 0; msg = m }) s >>= λ r. some (r.0.msg, r.1)

  abbrev pub send_call : Message → Served → Option Served
  send_call m s = svc sys_ipc_send (record { x0 = 0; msg = m }) s >>= λ r. some r.1

  abbrev pub uart_call : Served → Option (ℕ × Served)
  uart_call s =
      svc sys_uart_recv (record { x0 = 0; msg = no_message }) s >>= λ r. some (r.0.x0, r.1)

  abbrev pub plain_call : ℕ → Served → Option Served
  plain_call num s = svc num (record { x0 = 0; msg = no_message }) s >>= λ r. some r.1

  abbrev pub others : Served → Watcher × Uart × Fs × dev.Disk × env.State
  others s = (s.0.watcher, s.0.uart, s.0.fs, s.0.disk, s.0.devices)

  pub receive_call_lem :
      (m : Message) (s : Served)
      → IsValid s.0.mailbox
      → (s' : Served) × (receive_call m s ≡ some ((Fifo.receive m (contents s.0.mailbox)).0, s'))
        × (contents s'.0.mailbox ≡ (Fifo.receive m (contents s.0.mailbox)).1)
        × (others s' ≡ others s)
        × IsValid s'.0.mailbox
  unfolding syscall_handler
  receive_call_lem m s v =
      let s' : Served = (record s.0 { mailbox = (ipc_receive m s.0.mailbox).1 }, s.1 + 1) in
      (
        s',
        ap (λ r. some (r.0, s')) (receive-contents m v),
        ap (λ r. r.1) (receive-contents m v),
        refl,
        receive-IsValid m v,
      )

  abbrev pub kernel_system : System
  kernel_system = record {
    State = Served;
    sys_ipc_send = send_call;
    ipc_receive = receive_call;
    sys_gpu_flush = plain_call sys_gpu_flush;
    sys_hw_drain = plain_call sys_hw_drain;
    sys_uart_recv = uart_call;
    IsGood = λ s. IsValid s.0.mailbox;
    waiting = λ s. contents s.0.mailbox;
    Rest = Watcher × Uart × Fs × dev.Disk × env.State;
    rest = others;
    receive_lem = receive_call_lem;
  }

  pub send_call_of_send :
      (req : Message) (k : Kernel dev env) (n : ℕ) {k' : Kernel dev env}
      → ipc_send dev env (times.now n) (times.locals n) req k ≡ some k'
      → send_call req (k, n) ≡ some (k', n + 1)
  unfolding syscall_handler
  send_call_of_send req k n sent = rw (sent)

  reply_text :
      (type : ℕ) (text garbage : Bytes)
      → NoNul text
      → c_string (reply type 3 text garbage).payload ≡ some text
  unfolding reply
  reply_text type text garbage clean =
      rw (append_assoc, c_string-append_nul text (drop (length (text ++ 0 ∷ [])) garbage) clean)
        refl

  module _ (k : Kernel dev env) (n : ℕ) (resp req : Message) where
    -- A request that the kernel answers, while fewer than 255 messages wait and none of them has the
    -- type of the answer: the shell gets the answer, and its text.
    pub answer_awaited :
        (fuel : ℕ) (text garbage : Bytes) (k' : Kernel dev env)
        → IsValid k.mailbox
        → count k.mailbox < 255
        → NoneOf (req.type + 1) (contents k.mailbox)
        → count k.mailbox < fuel
        → k'.mailbox ≡ ipc_kernel_send (reply (req.type + 1) 3 text garbage) k.mailbox
        → (s' : Served) × (await kernel_system fuel (req.type + 1) resp (k', n + 1)
            ≡ done (reply (req.type + 1) 3 text garbage, s'))
          × (contents s'.0.mailbox ≡ [])
          × (others s' ≡ others (k', n + 1))
    unfolding Fifo.send reply
    answer_awaited fuel text garbage k' v room none_yet enough left =
        let m = reply (req.type + 1) 3 text garbage in
        let q : contents k'.mailbox ≡ contents k.mailbox ++ m ∷ [] =
          ap contents left
          ∙ send-contents m v
          ∙ rw (lt→ltb (length (contents k.mailbox)) 255 (omega (arith, length-contents k.mailbox)))
              refl in
        let (s', p, w, same, good) =
          await_answer kernel_system fuel (req.type + 1) (contents k.mailbox) [] resp m (k', n + 1)
            (rw left (send-IsValid m v)) q none_yet refl
            (omega (arith, length-contents k.mailbox)) in
        (s', p, w, same)

    pub exchange_answered :
        (fuel : ℕ) (text garbage : Bytes) (k' : Kernel dev env)
        → IsValid k.mailbox
        → count k.mailbox < 255
        → NoneOf (req.type + 1) (contents k.mailbox)
        → count k.mailbox < fuel
        → NoNul text
        → ipc_send dev env (times.now n) (times.locals n) req k ≡ some k'
        → k'.mailbox ≡ ipc_kernel_send (reply (req.type + 1) 3 text garbage) k.mailbox
        → (s' : Served) × (exchange kernel_system fuel req resp (k, n) ≡ done (text, s'))
          × (contents s'.0.mailbox ≡ [])
          × (others s' ≡ others (k', n + 1))
    exchange_answered fuel text garbage k' v room none_yet enough clean sent left =
        let (s', p, w, same) = answer_awaited fuel text garbage k' v room none_yet enough left in
        (
          s',
          exchange-done kernel_system fuel req resp (reply (req.type + 1) 3 text garbage) text
              (k, n) (k', n + 1) s' (send_call_of_send req k n sent) p
              (reply_text (req.type + 1) text garbage clean),
          w,
          same,
        )

    -- A request that the kernel serves while its mailbox is full, and no answer of its type waits:
    -- the answer is dropped.
    exchange_dropped :
        (fuel : ℕ) (text garbage : Bytes) (k' : Kernel dev env)
        → IsValid k.mailbox
        → 255 ≤ count k.mailbox
        → NoneOf (req.type + 1) (contents k.mailbox)
        → ipc_send dev env (times.now n) (times.locals n) req k ≡ some k'
        → k'.mailbox ≡ ipc_kernel_send (reply (req.type + 1) 3 text garbage) k.mailbox
        → exchange kernel_system fuel req resp (k, n) ≡ blocked
    exchange_dropped fuel text garbage k' v full none_yet sent left =
        let m = reply (req.type + 1) 3 text garbage in
        let q : k'.mailbox ≡ k.mailbox = left ∙ send_of_full m v full in
        exchange-blocked kernel_system fuel req resp (k, n) (k', n + 1)
          (send_call_of_send req k n sent)
          (await-blocked kernel_system fuel (req.type + 1) (contents k.mailbox) resp (k', n + 1)
            (omega arith) (rw q v) (ap contents q) none_yet)

  -- The shell asks the kernel for the directory, while fewer than 255 messages wait for it and no
  -- answer to such a request is among them: after as many rounds of its wait as messages wait and one
  -- more, it has the string of the listing, of at most 255 bytes. The messages that waited are
  -- gone, and no sector of the disk has changed.
  pub list_exchange :
      (fuel n : ℕ) (k : Kernel dev env) (resp : Message) (payload : Bytes)
      → IsValid k.mailbox
      → count k.mailbox < 255
      → NoneOf 3 (contents k.mailbox)
      → count k.mailbox < fuel
      → (text : Bytes) × (s' : Served) × (exchange kernel_system fuel
            (plain_request payload msg_fs_list_req)
            resp
            (k, n)
          ≡ done (text, s'))
        × (copy_string 255 (fs_get_dir_list dev k.fs (times.locals n).buffer 256 k.disk).0
            ≡ some text)
        × (length text ≤ 255)
        × (contents s'.0.mailbox ≡ [])
        × ((t : ℕ) → dev.content s'.0.disk t ≡ dev.content k.disk t)
  list_exchange fuel n k resp payload v room none_yet enough =
      let (text, k', sent, listed, short, clean, left, w, u, d, disk) =
        list_request_lem dev env (times.now n) 3 payload (times.locals n) k in
      let (s', p, q, same) =
        exchange_answered k n resp (plain_request payload msg_fs_list_req) fuel text
          (times.locals n).payload k' v room none_yet enough clean sent left in
      (text, s', p, listed, short, q, λ t. ap (λ o. dev.content o.3 t) same ∙ disk t)

  -- The shell asks the kernel for the directory while its mailbox is full, with no answer to such
  -- a request in it: the answer is dropped, and no number of rounds ends the wait.
  pub list_exchange_full :
      (fuel n : ℕ) (k : Kernel dev env) (resp : Message) (payload : Bytes)
      → IsValid k.mailbox
      → 255 ≤ count k.mailbox
      → NoneOf 3 (contents k.mailbox)
      → exchange kernel_system fuel (plain_request payload msg_fs_list_req) resp (k, n) ≡ blocked
  list_exchange_full fuel n k resp payload v full none_yet =
      let (text, k', sent, listed, short, clean, left, w, u, d, disk) =
        list_request_lem dev env (times.now n) 3 payload (times.locals n) k in
      exchange_dropped k n resp (plain_request payload msg_fs_list_req) fuel text
        (times.locals n).payload k' v full none_yet sent left
