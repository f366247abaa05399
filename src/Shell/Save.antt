-- ===== src/Shell/Save.antt =====
-- From a typed line to the disk: the shell, the system calls and the file system together.
use ai_os_exchange.Prelude.{
  ℕ, ◌+◌, ◌≤◌, ◌<◌, ◌≡◌, refl, ◌∙◌, ap, [], ◌∷◌, ◌++◌, length, drop, arith, some, Bytes, codes,
  NoNul,
}
use ai_os_exchange.Ipc.{Message, IsValid, count, contents}
use ai_os_exchange.Disk.{BlockDevice, IsReliable}
use ai_os_exchange.Fat.Name.{format_fat_name}
use ai_os_exchange.Fat.Directory.{find_free_cluster, find_free_entry}
use ai_os_exchange.Fat.File.{root_sector}
use ai_os_exchange.Fat.Store.{Apart, with_file}
use ai_os_exchange.Syscall.{Devices, Kernel}
use ai_os_exchange.Syscall.Requests.{write_message, write_request_lem}
use ai_os_exchange.Terminal.{term_print}
use ai_os_exchange.Shell.Calls.{System, done, exchange}
use ai_os_exchange.Shell.Wait.{NoneOf}
use ai_os_exchange.Shell.Service.{Schedule, Served, kernel_system, exchange_answered}
use ai_os_exchange.Shell.Line.{Without, write_words, run_command-write_request}
use ai_os_exchange.Shell.{Shell, ask, drain, run_command}

ask-done :
    (sys : System) (stack : Message) (fuel : ℕ) (req : Message) (tail text : Bytes)
    (sh : Shell sys stack) (s' : sys.State)
    → exchange sys fuel req stack sh.system ≡ done (text, s')
    → ask sys stack fuel req tail sh
      ≡ drain sys stack (record sh { ctx = term_print tail (term_print text sh.ctx); system = s' })
unfolding ask
ask-done sys stack fuel req tail text sh s' e = rw (e) refl

abbrev committed : Bytes
committed = codes "Write committed to disk.\n"

module _ (dev : BlockDevice) (env : Devices) (times : Schedule) (stack : Message) where
  -- The user types `s.write NAME DATA`, of a name without a space and at most 254 bytes with the data,
  -- on a device on which no request fails, with a free cluster and a free entry, the three sectors
  -- different; fewer than 255 messages wait, none of them an answer to a write, and the wait has a
  -- round for each of them and one more. Then the command prints that the write was committed and
  -- ends with a drain of the hardware queues; before this drain the mailbox is empty, and the disk
  -- holds the file with the data that was typed.
  pub run_command_stores :
      (ok : IsReliable dev) (fuel n : ℕ) (k : Kernel dev env)
      (sh : Shell (kernel_system dev env times) stack) (name data_bytes rest : Bytes)
      {target : Bytes} {cluster i : ℕ}
      → sh.system ≡ (k, n)
      → sh.cmd_buffer ≡ codes "s.write " ++ (name ++ 32 ∷ (data_bytes ++ 0 ∷ rest))
      → NoNul name
      → Without 32 name
      → NoNul data_bytes
      → length name + 1 + length data_bytes ≤ 254
      → format_fat_name (
          name
          ++ 0
            ∷ (data_bytes ++ 0 ∷ drop (length (name ++ 0 ∷ (data_bytes ++ 0 ∷ []))) stack.payload))
        ≡ some target
      → find_free_cluster (dev.content k.disk k.fs.fat_start_sector) 126 2 ≡ some cluster
      → find_free_entry (dev.content k.disk (root_sector dev k.fs)) 16 0 ≡ some i
      → Apart dev ok k.fs cluster
      → IsValid k.mailbox
      → count k.mailbox < 255
      → NoneOf 7 (contents k.mailbox)
      → count k.mailbox < fuel
      → (s' : Served dev env times) × (run_command (kernel_system dev env times) stack fuel sh
          ≡ drain (kernel_system dev env times) stack (record sh {
            cmd_buffer = write_words (name ++ 0 ∷ (data_bytes ++ 0 ∷ rest));
            ctx = term_print committed sh.ctx;
            system = s';
          }))
        × (contents s'.0.mailbox ≡ [])
        × ((t : ℕ)
            → dev.content s'.0.disk t
              ≡ with_file dev ok k.fs target cluster i (length data_bytes) data_bytes k.disk t)
  unfolding term_print
  run_command_stores ok fuel n k sh name data_bytes rest at typed clean free clean' fits named room
        slot apart v few none_yet enough =
      let behind = 0 ∷ drop (length (name ++ 0 ∷ (data_bytes ++ 0 ∷ []))) stack.payload in
      let req = write_message 3 name data_bytes behind in
      let locals = times.locals n in
      let (k', sent, left, w, disk) =
        write_request_lem dev env ok (times.now n) 3 name data_bytes behind locals k clean
          (omega arith) named room slot apart in
      let (s', p, q, same) =
        exchange_answered dev env times k n stack req fuel committed locals.payload k' v few
          none_yet enough (omega arith) sent left in
      let sys = kernel_system dev env times in
      let sh1 = record sh { cmd_buffer = write_words (name ++ 0 ∷ (data_bytes ++ 0 ∷ rest)) } in
      (
        s',
        run_command-write_request sys stack fuel sh name data_bytes rest clean free clean' fits
              typed
            ∙ ask-done sys stack fuel req [] committed sh1 s'
                (ap (exchange sys fuel req stack) at ∙ p),
        q,
        λ t. ap (λ o. dev.content o.3 t) same ∙ disk t,
      )
