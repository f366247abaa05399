-- ===== src/Syscall/Sound.antt =====
-- The invariant of the whole kernel: whatever system calls are made, the mailbox and the history stay
-- well formed, and every context in the history stays a string.
use mathlib.Core.Path.{subst}
use ai_os_exchange.Prelude.{
  ℕ, zero, suc, ◌+◌, ◌≡◌, sym, ◌∙◌, ap, [], ◌∷◌, ◌++◌, ◌==◌, Option, some, ◌>>=◌, Bytes, codes,
  drop, length, sub32, inl, inr, Bool-cases, >>=-eq-some, some_cancel, c_string, copy_string,
}
use ai_os_exchange.Ipc
use ai_os_exchange.Ipc.{Message, Mailbox, mod_kernel, mod_uart, ipc_kernel_send, ipc_receive}
use ai_os_exchange.Ipc.Order.{send-IsValid}
use ai_os_exchange.Uart.{Uart}
use ai_os_exchange.Watcher
use ai_os_exchange.Watcher.{Watcher, watcher_log_event, watcher_dump_history, entry}
use ai_os_exchange.Watcher.History.{advance-IsValid, watcher_log_event-eq-some}
use ai_os_exchange.Watcher.Texts.{AllText, watcher_log_event-AllText}
use ai_os_exchange.Watcher.Sync.{watcher_sync_to_disk, sync-state}
use ai_os_exchange.Watcher.Wedge.{caught_up-IsValid}
use ai_os_exchange.Disk.{BlockDevice}
use ai_os_exchange.Fat.File.{fs_read_file_content, fs_write_file_content}
use ai_os_exchange.Fat.Listing.{fs_get_dir_list}
use ai_os_exchange.Syscall.{
  Devices, Kernel, Locals, key_message, drain_keys, drain_hardware_queues, reply, answer,
  list_request, read_request, write_request, exec_request, dump_request, sync_request, append_text,
}
use ai_os_exchange.Syscall.Drain.{send_keys, typed_on, drain_uart_lem}

-- A well-formed history of strings.
pub record IsHistory (w : Watcher) : Type 0 where
  pub valid : Watcher.IsValid w
  pub texts : AllText w.events

-- What the virtual machine is relied on for: it changes the history by logging to it only.
abbrev pub KeepsHistory : Devices → Type 0
KeepsHistory env =
    (bytecode out_buf : Bytes) (w : Watcher) (u : Uart) (s : env.State) (o : Bytes) (w' : Watcher)
    (u' : Uart) (s' : env.State)
    → IsHistory w
    → env.autarky_execute bytecode out_buf (w, u, s) ≡ some (o, (w', u', s'))
    → IsHistory w'

watcher_log_event-IsHistory :
    (now type pid : ℕ) (c : Option Bytes) (w : Watcher) {w' : Watcher}
    → IsHistory w
    → watcher_log_event now type pid c w ≡ some w'
    → IsHistory w'
watcher_log_event-IsHistory now type pid c w h e =
    let (text, _, p) = watcher_log_event-eq-some now type pid c w e in
    record {
      valid = subst Watcher.IsValid (sym p) (advance-IsValid (entry now type pid text w) h.valid);
      texts = watcher_log_event-AllText now type pid c w h.texts e;
    }

send_keys-IsValid :
    (sender : ℕ) (garbage keys : Bytes) (q : Mailbox)
    → Ipc.IsValid q
    → Ipc.IsValid (send_keys sender garbage keys q)
unfolding send_keys
send_keys-IsValid sender garbage [] q v = v
send_keys-IsValid sender garbage (c ∷ cs) q v =
    send_keys-IsValid sender garbage cs _ (send-IsValid (key_message sender c garbage) v)

module _ (dev : BlockDevice) (env : Devices) where
  -- The invariant.
  pub record IsSound (k : Kernel dev env) : Type 0 where
    pub mailbox_valid : Ipc.IsValid k.mailbox
    pub history : IsHistory k.watcher

  drain_keys-IsValid :
      (fuel : ℕ) (garbage : Bytes) (q : Mailbox) (s : env.State) {r : Mailbox × env.State}
      → Ipc.IsValid q
      → drain_keys dev env fuel garbage q s ≡ some r
      → Ipc.IsValid r.0
  unfolding drain_keys
  drain_keys-IsValid zero garbage q s v e = cc
  drain_keys-IsValid (suc fuel) garbage q s v e =
      elim (Bool-cases ((env.virtio_input_poll s).0 == 0)) [
        | inl stop ↦ subst (λ r. Ipc.IsValid r.0) (some_cancel (rw stop at e)) v
        | inr key ↦
            drain_keys-IsValid fuel garbage _ _
              (send-IsValid (key_message mod_kernel (env.virtio_input_poll s).0 garbage) v)
              (rw key at e)
      ]

  pub drain-IsSound :
      (fuel : ℕ) (garbage : Bytes) (k : Kernel dev env) {k' : Kernel dev env}
      → IsSound k
      → drain_hardware_queues dev env fuel garbage k ≡ some k'
      → IsSound k'
  unfolding drain_hardware_queues
  drain-IsSound fuel garbage k h e =
      let (r, p, q) = >>=-eq-some (drain_keys dev env fuel garbage k.mailbox k.devices) _ e in
      let done =
        sym (
          ap (λ m. m >>= λ t. some (record k { mailbox = t.0; uart = t.1; devices = r.1 }))
            (drain_uart_lem garbage r.0 k.uart))
        ∙ q in
      subst IsSound (some_cancel done) (record {
        mailbox_valid =
            send_keys-IsValid mod_uart garbage (typed_on k.uart.arriving k.uart.received) r.0
              (drain_keys-IsValid fuel garbage k.mailbox k.devices h.mailbox_valid p);
        history = h.history;
      })

  answer-IsSound :
      (type : ℕ) (in_msg : Message) (text : Bytes) (locals : Locals) (k : Kernel dev env)
      → IsSound k
      → IsSound (answer dev env type in_msg text locals k)
  answer-IsSound type in_msg text locals k h = record {
    mailbox_valid = send-IsValid (reply type in_msg.sender_id text locals.payload) h.mailbox_valid;
    history = h.history;
  }

  pub list-IsSound :
      (now : ℕ) (locals : Locals) (m : Message) (k : Kernel dev env) {k' : Kernel dev env}
      → IsSound k
      → list_request dev env now locals m k ≡ some k'
      → IsSound k'
  unfolding list_request
  list-IsSound now locals m k h e =
      let (w, p, e1) =
        >>=-eq-some
          (watcher_log_event now 2 m.sender_id (some (codes "ROOT_DIR" ++ 0 ∷ [])) k.watcher) _ e in
      let (text, _, e2) =
        >>=-eq-some (copy_string 255 (fs_get_dir_list dev k.fs locals.buffer 256 k.disk).0) _ e1 in
      subst IsSound (some_cancel e2) (
        answer-IsSound 3 m text locals _ (record {
          mailbox_valid = h.mailbox_valid;
          history = watcher_log_event-IsHistory now 2 m.sender_id _ k.watcher h.history p;
        }))

  pub read-IsSound :
      (now : ℕ) (locals : Locals) (m : Message) (k : Kernel dev env) {k' : Kernel dev env}
      → IsSound k
      → read_request dev env now locals m k ≡ some k'
      → IsSound k'
  unfolding read_request
  read-IsSound now locals m k h e =
      let (w, p, e1) =
        >>=-eq-some (watcher_log_event now 2 m.sender_id (some m.payload) k.watcher) _ e in
      let (r, _, e2) =
        >>=-eq-some (fs_read_file_content dev k.fs m.payload locals.buffer 256 k.disk) _ e1 in
      let (text, _, e3) = >>=-eq-some (copy_string 255 r.0) _ e2 in
      subst IsSound (some_cancel e3) (
        answer-IsSound 5 m text locals _ (record {
          mailbox_valid = h.mailbox_valid;
          history = watcher_log_event-IsHistory now 2 m.sender_id _ k.watcher h.history p;
        }))

  pub write-IsSound :
      (now : ℕ) (locals : Locals) (m : Message) (k : Kernel dev env) {k' : Kernel dev env}
      → IsSound k
      → write_request dev env now locals m k ≡ some k'
      → IsSound k'
  unfolding write_request
  write-IsSound now locals m k h e =
      let (w, p, e1) =
        >>=-eq-some (watcher_log_event now 3 m.sender_id (some m.payload) k.watcher) _ e in
      let (name, _, e2) = >>=-eq-some (c_string m.payload) _ e1 in
      let start = length name + 1 in
      let (d, _, e3) =
        >>=-eq-some
          (fs_write_file_content dev k.fs m.payload (drop start m.payload) (sub32 m.length start)
            k.disk)
          _ e2 in
      subst IsSound (some_cancel e3) (
        answer-IsSound 7 m _ locals _ (record {
          mailbox_valid = h.mailbox_valid;
          history = watcher_log_event-IsHistory now 3 m.sender_id _ k.watcher h.history p;
        }))

  pub exec-IsSound :
      (now : ℕ) (locals : Locals) (m : Message) (k : Kernel dev env) {k' : Kernel dev env}
      → KeepsHistory env
      → IsSound k
      → exec_request dev env now locals m k ≡ some k'
      → IsSound k'
  unfolding exec_request
  exec-IsSound now locals m k keeps h e =
      let (w, p, e1) =
        >>=-eq-some (watcher_log_event now 2 m.sender_id (some m.payload) k.watcher) _ e in
      let (r, _, e2) =
        >>=-eq-some (fs_read_file_content dev k.fs m.payload locals.buffer 1024 k.disk) _ e1 in
      let (x, ran, e3) =
        >>=-eq-some (env.autarky_execute r.0 locals.out_buf (w, k.uart, k.devices)) _ e2 in
      let (text, _, e4) = >>=-eq-some (copy_string 255 x.0) _ e3 in
      let logged = watcher_log_event-IsHistory now 2 m.sender_id _ k.watcher h.history p in
      subst IsSound (some_cancel e4) (
        answer-IsSound 9 m text locals _ (record {
          mailbox_valid = h.mailbox_valid;
          history = keeps r.0 locals.out_buf w k.uart k.devices x.0 x.1.0 x.1.1 x.1.2 logged ran;
        }))

  pub dump-IsSound :
      (locals : Locals) (m : Message) (k : Kernel dev env) {k' : Kernel dev env}
      → IsSound k
      → dump_request dev env locals m k ≡ some k'
      → IsSound k'
  unfolding dump_request
  dump-IsSound locals m k h e =
      let (u, _, e1) = >>=-eq-some (watcher_dump_history k.watcher k.uart) _ e in
      subst IsSound (some_cancel e1) (
        answer-IsSound 11 m _ locals _
          (record { mailbox_valid = h.mailbox_valid; history = h.history }))

  pub sync-IsSound :
      (locals : Locals) (m : Message) (k : Kernel dev env) {k' : Kernel dev env}
      → IsSound k
      → sync_request dev env locals m k ≡ some k'
      → IsSound k'
  unfolding sync_request
  sync-IsSound locals m k h e =
      let (r, p, e1) =
        >>=-eq-some (watcher_sync_to_disk (append_text dev env k.fs) k.watcher k.disk k.uart) _ e in
      let same =
        sync-state (append_text dev env k.fs) k.disk k.uart k.watcher r.0 r.1 r.2 h.history.valid
          p in
      subst IsSound (some_cancel e1) (
        answer-IsSound 13 m _ locals _ (record {
          mailbox_valid = h.mailbox_valid;
          history =
              subst IsHistory (sym same)
                (record { valid = caught_up-IsValid h.history.valid; texts = h.history.texts });
        }))
