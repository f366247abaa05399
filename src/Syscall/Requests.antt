-- ===== src/Syscall/Requests.antt =====
-- The kernel's answers to file requests: what a caller of SYS_IPC_SEND gets, and what it leaves.
use ai_os_exchange.Prelude.{
  ℕ, zero, suc, ◌+◌, ◌≤◌, ◌≡◌, refl, ◌∙◌, ap, [], ◌∷◌, ◌++◌, if◌then◌else◌, ◌==◌, min, some, Bytes,
  codes, take, drop, length, sub32, arith, inl, inr, Option-cases, take-append_all, copy_string,
  copy_string_bounds, c_string-append_nul, NoNul, append_assoc, length-append,
}
use ai_os_exchange.Ipc.{Message, mod_kernel, ipc_kernel_send}
use ai_os_exchange.Watcher.{advance, put, entry}
use ai_os_exchange.Watcher.History.{watcher_log_event_total}
use ai_os_exchange.Disk.{BlockDevice, IsReliable}
use ai_os_exchange.Fat.{Fs}
use ai_os_exchange.Fat.Name.{format_fat_name}
use ai_os_exchange.Fat.Directory.{find_free_cluster, find_free_entry}
use ai_os_exchange.Fat.File.{root_sector, fs_write_file_content}
use ai_os_exchange.Fat.Store.{Apart, with_file, fs_write_file_content_lem}
use ai_os_exchange.Fat.Listing.{fs_get_dir_list, list_from, length-list_from}
use ai_os_exchange.Syscall.{
  Devices, Kernel, Locals, msg_fs_list_req, msg_fs_write_req, reply, answer, list_request,
  write_request, kernel_request, ipc_send,
}

-- A bounded copy returns if a NUL comes soon enough.
copy_string_total :
    (n : ℕ) (s rest : Bytes) → length s ≤ n → (r : Bytes) × (copy_string n (s ++ 0 ∷ rest) ≡ some r)
unfolding copy_string
copy_string_total zero [] rest h = ([], refl)
copy_string_total zero (c ∷ s) rest h = absurd (omega arith)
copy_string_total (suc n) [] rest h = ([], refl)
copy_string_total (suc n) (c ∷ s) rest h =
    let (r, p) = copy_string_total n s rest (omega arith) in
    (if c == 0 then [] else c ∷ r, ground arith)

drop-append_nul : (s rest : Bytes) → drop (length s + 1) (s ++ 0 ∷ rest) ≡ rest
drop-append_nul [] rest = refl
drop-append_nul (c ∷ s) rest =
    let e : suc (length s) + 1 ≡ suc (length s + 1) = omega arith in
    ap (λ n. drop n (c ∷ (s ++ 0 ∷ rest))) e ∙ drop-append_nul s rest

-- A message that asks for the directory, and one that asks to write a file: the name, a NUL, and the
-- data, with the rest of the payload behind them.
abbrev pub list_message : ℕ → Bytes → Message
list_message sender payload = record {
  sender_id = sender;
  target_id = mod_kernel;
  type = msg_fs_list_req;
  length = 0;
  payload = payload;
}

abbrev pub write_message : ℕ → Bytes → Bytes → Bytes → Message
write_message sender name data_bytes rest = record {
  sender_id = sender;
  target_id = mod_kernel;
  type = msg_fs_write_req;
  length = length name + 1 + length data_bytes;
  payload = name ++ 0 ∷ (data_bytes ++ rest);
}

module _ (dev : BlockDevice) (env : Devices) where
  open dev use {read_sector, content, read_frame}

  listing_text :
      (fs : Fs) (buffer : Bytes) (d : dev.Disk)
      → (text : Bytes) × (copy_string 255 (fs_get_dir_list dev fs buffer 256 d).0 ≡ some text)
  unfolding fs_get_dir_list
  listing_text fs buffer d = elim (Option-cases (read_sector (root_sector dev fs) d).0) [
    | inl e ↦
        let (r, p) = copy_string_total 255 [] (drop 1 buffer) (omega arith) in
        (r, rw (e, fs_get_dir_list) p)
    | inr (dir, e) ↦
        let out = list_from 256 dir 16 0 [] in
        let (r, p) =
          copy_string_total 255 out (drop (length (out ++ 0 ∷ [])) buffer)
            (length-list_from 256 dir 16 0 [] (omega arith)) in
        (r, rw (e, fs_get_dir_list) (rw (append_assoc) p))
  ]

  listing_frame :
      (fs : Fs) (buffer : Bytes) (d : dev.Disk) (t : ℕ)
      → content (fs_get_dir_list dev fs buffer 256 d).1 t ≡ content d t
  unfolding fs_get_dir_list
  listing_frame fs buffer d t = elim (Option-cases (read_sector (root_sector dev fs) d).0) [
    | inl e ↦ rw (e, fs_get_dir_list) (read_frame (root_sector dev fs) t d)
    | inr (dir, e) ↦ rw (e, fs_get_dir_list) (read_frame (root_sector dev fs) t d)
  ]

  -- A request for the directory always returns, also when the disk cannot be read or the directory
  -- holds any bytes: the answer, the listing's string, of at most 255 bytes, is sent to the sender,
  -- the request is logged, the serial port, the devices and the content of every sector stay.
  pub list_request_lem :
      (now sender : ℕ) (payload : Bytes) (locals : Locals) (k : Kernel dev env)
      → (text : Bytes) × (k' : Kernel dev env) × (ipc_send dev env now locals
            (list_message sender payload)
            k
          ≡ some k')
        × (copy_string 255 (fs_get_dir_list dev k.fs locals.buffer 256 k.disk).0 ≡ some text)
        × (length text ≤ 255)
        × NoNul text
        × (k'.mailbox ≡ ipc_kernel_send (reply 3 sender text locals.payload) k.mailbox)
        × (k'.watcher ≡ advance (put (entry now 2 sender (codes "ROOT_DIR") k.watcher) k.watcher))
        × (k'.uart ≡ k.uart)
        × (k'.devices ≡ k.devices)
        × ((t : ℕ) → content k'.disk t ≡ content k.disk t)
  unfolding ipc_send kernel_request list_request
  list_request_lem now sender payload locals k =
      let listed = fs_get_dir_list dev k.fs locals.buffer 256 k.disk in
      let w = advance (put (entry now 2 sender (codes "ROOT_DIR") k.watcher) k.watcher) in
      let (text, p) = listing_text k.fs locals.buffer k.disk in
      let (short, clean) = copy_string_bounds 255 listed.0 p in
      (
        text,
        answer dev env 3 (list_message sender payload) text locals
            (record k { watcher = w; disk = listed.1 }),
        rw (watcher_log_event_total now 2 sender (codes "ROOT_DIR") [] k.watcher (omega arith), p),
        p,
        short,
        clean,
        refl,
        refl,
        refl,
        refl,
        listing_frame k.fs locals.buffer k.disk,
      )

  -- A request to write calls the file system with the data behind the NUL, and its length.
  write_request_of_write :
      (now sender : ℕ) (name data_bytes rest : Bytes) (locals : Locals) (k : Kernel dev env)
      (d : dev.Disk)
      → NoNul name
      → length name + 1 + length data_bytes ≤ 256
      → fs_write_file_content dev k.fs
          (name ++ 0 ∷ (data_bytes ++ rest))
          (data_bytes ++ rest)
          (length data_bytes)
          k.disk
        ≡ some d
      → ipc_send dev env now locals (write_message sender name data_bytes rest) k
        ≡ some (
            answer dev env 7
              (write_message sender name data_bytes rest)
              (codes "Write committed to disk.\n")
              locals
              (record k {
                watcher = advance (put (entry now 3 sender (take 63 name) k.watcher) k.watcher);
                disk = d;
              }))
  unfolding ipc_send kernel_request write_request
  write_request_of_write now sender name data_bytes rest locals k d clean fits wrote =
      let size : sub32 (length name + 1 + length data_bytes) (length name + 1) ≡ length data_bytes =
        omega arith in
      rw (
        watcher_log_event_total now 3 sender name (data_bytes ++ rest) k.watcher clean,
        c_string-append_nul name (data_bytes ++ rest) clean,
        drop-append_nul name (data_bytes ++ rest),
        size,
        wrote,
      )

  pub write_request_lem :
      (ok : IsReliable dev) (now sender : ℕ) (name data_bytes rest : Bytes) (locals : Locals)
      (k : Kernel dev env) {target : Bytes} {cluster i : ℕ}
      → NoNul name
      → length name + 1 + length data_bytes ≤ 256
      → format_fat_name (name ++ 0 ∷ (data_bytes ++ rest)) ≡ some target
      → find_free_cluster (content k.disk k.fs.fat_start_sector) 126 2 ≡ some cluster
      → find_free_entry (content k.disk (root_sector dev k.fs)) 16 0 ≡ some i
      → Apart dev ok k.fs cluster
      → (k' : Kernel dev env) × (ipc_send dev env now locals
            (write_message sender name data_bytes rest)
            k
          ≡ some k')
        × (k'.mailbox
            ≡ ipc_kernel_send
                (reply 7 sender (codes "Write committed to disk.\n") locals.payload)
                k.mailbox)
        × (k'.watcher ≡ advance (put (entry now 3 sender (take 63 name) k.watcher) k.watcher))
        × ((t : ℕ)
            → content k'.disk t
              ≡ with_file dev ok k.fs target cluster i (length data_bytes) data_bytes k.disk t)
  write_request_lem ok now sender name data_bytes rest locals k {target} {cluster} {i} clean fits
        named free slot apart =
      let m = write_message sender name data_bytes rest in
      let w = advance (put (entry now 3 sender (take 63 name) k.watcher) k.watcher) in
      let (d, wrote, holds) =
        fs_write_file_content_lem dev ok k.fs m.payload (data_bytes ++ rest) (length data_bytes)
          k.disk named free slot apart (omega (arith, length-append data_bytes rest)) in
      (
        answer dev env 7 m (codes "Write committed to disk.\n") locals
            (record k { watcher = w; disk = d }),
        write_request_of_write now sender name data_bytes rest locals k d clean fits wrote,
        refl,
        refl,
        λ t.
            holds t
            ∙ ap (λ f. with_file dev ok k.fs target cluster i (length data_bytes) f k.disk t)
                (take-append_all (min (length data_bytes) 512) data_bytes rest (omega arith)),
      )
