-- ===== src/Syscall/Reach.antt =====
-- The machine as a step relation, a system call per step, and the invariant along its runs.
use mathlib.Core.Path.{subst}
use ai_os_exchange.Prelude.{ℕ, ◌≡◌, ap, ◌==◌, Option, some, >>=-eq-some, some_cancel, if_elim}
use ai_os_exchange.Ipc.{Message}
use ai_os_exchange.Ipc.Order.{send-IsValid, receive-IsValid}
use ai_os_exchange.Disk.{BlockDevice}
use ai_os_exchange.Syscall.{
  Devices, Kernel, Locals, Caller, drain_hardware_queues, kernel_request, ipc_send, syscall_handler,
}
use ai_os_exchange.Syscall.Sound.{
  IsSound, KeepsHistory, drain-IsSound, list-IsSound, read-IsSound, write-IsSound, exec-IsSound,
  dump-IsSound, sync-IsSound,
}

module _ (dev : BlockDevice) (env : Devices) where
  -- A system call that returns, and a sequence of them.
  pub data Step : Kernel dev env → Kernel dev env → Type 0 where
    call :
        (fuel now : ℕ) (locals : Locals) (num : ℕ) (c c' : Caller) {k k' : Kernel dev env}
        → syscall_handler dev env fuel now locals num c k ≡ some (c', k')
        → Step k k'

  pub data Steps : Kernel dev env → Kernel dev env → Type 0 where
    here : {k : Kernel dev env} → Steps k k
    there : {k k' k'' : Kernel dev env} → Step k k' → Steps k' k'' → Steps k k''

  kernel_request-IsSound :
      (now : ℕ) (locals : Locals) (m : Message) (k : Kernel dev env) {k' : Kernel dev env}
      → KeepsHistory env
      → IsSound dev env k
      → kernel_request dev env now locals m k ≡ some k'
      → IsSound dev env k'
  unfolding kernel_request
  kernel_request-IsSound now locals m k keeps h =
      if_elim (m.type == 2) _ _ (list-IsSound dev env now locals m k h) (
        if_elim (m.type == 4) _ _ (read-IsSound dev env now locals m k h) (
          if_elim (m.type == 6) _ _ (write-IsSound dev env now locals m k h) (
            if_elim (m.type == 8) _ _ (exec-IsSound dev env now locals m k keeps h) (
              if_elim (m.type == 10) _ _ (dump-IsSound dev env locals m k h) (
                if_elim (m.type == 12) _ _ (sync-IsSound dev env locals m k h)
                  (λ e. subst (IsSound dev env) (some_cancel e) h))))))

  ipc_send-IsSound :
      (now : ℕ) (locals : Locals) (m : Message) (k : Kernel dev env) {k' : Kernel dev env}
      → KeepsHistory env
      → IsSound dev env k
      → ipc_send dev env now locals m k ≡ some k'
      → IsSound dev env k'
  unfolding ipc_send
  ipc_send-IsSound now locals m k keeps h =
      if_elim (m.target_id == 1) _ _ (kernel_request-IsSound now locals m k keeps h) (λ e.
        subst (IsSound dev env) (some_cancel e)
          (record { mailbox_valid = send-IsValid m h.mailbox_valid; history = h.history }))

  -- If the virtual machine changes the history only by logging, then every system call that returns,
  -- with any number, arguments and uninitialised locals, keeps the mailbox's indices in range, the
  -- history well formed, and every context in the history a string.
  pub syscall_handler-IsSound :
      (fuel now : ℕ) (locals : Locals) (num : ℕ) (c c' : Caller) (k k' : Kernel dev env)
      → KeepsHistory env
      → IsSound dev env k
      → syscall_handler dev env fuel now locals num c k ≡ some (c', k')
      → IsSound dev env k'
  unfolding syscall_handler
  syscall_handler-IsSound fuel now locals num c c' k k' keeps h =
      if_elim (num == 4) _ _
        (λ e.
          let (k1, p, q) = >>=-eq-some (drain_hardware_queues dev env fuel locals.payload k) _ e in
          subst (IsSound dev env) (ap (λ r. r.1) (some_cancel q))
            (drain-IsSound dev env fuel locals.payload k h p))
        (if_elim (num == 3) _ _
          (kept (record { mailbox_valid = h.mailbox_valid; history = h.history }))
          (if_elim (num == 5) _ _
            (kept (record { mailbox_valid = h.mailbox_valid; history = h.history }))
            (if_elim (num == 1) _ _
              (λ e.
                let (k1, p, q) = >>=-eq-some (ipc_send dev env now locals c.msg k) _ e in
                subst (IsSound dev env) (ap (λ r. r.1) (some_cancel q))
                  (ipc_send-IsSound now locals c.msg k keeps h p))
              (if_elim (num == 2) _ _
                (kept (record {
                  mailbox_valid = receive-IsValid c.msg h.mailbox_valid;
                  history = h.history;
                }))
                (kept h)))))
    where
      kept :
          {a : Caller} {k1 : Kernel dev env}
          → IsSound dev env k1
          → Path (Option (Caller × Kernel dev env)) (some (a, k1)) (some (c', k'))
          → IsSound dev env k'
      kept s e = subst (IsSound dev env) (ap (λ r. r.1) (some_cancel e)) s

  -- Along every sequence of system calls that return, from a kernel that satisfies the invariant, the
  -- invariant holds, if the virtual machine changes the history only by logging.
  pub Steps-IsSound :
      {k k' : Kernel dev env}
      → KeepsHistory env
      → Steps k k'
      → IsSound dev env k
      → IsSound dev env k'
  Steps-IsSound keeps here h = h
  Steps-IsSound keeps (there (call fuel now locals num c c' {k} {k'} e) rest) h =
      Steps-IsSound keeps rest (syscall_handler-IsSound fuel now locals num c c' k k' keeps h e)
