-- ===== src/Virtio/Tests.antt =====
-- The driver's theorems on a block device that keeps its sectors by the bytes of their numbers.
use ai_os_exchange.Prelude.{
  ℕ, zero, suc, ◌+◌, ◌≡◌, ◌≢◌, refl, sym, ◌∙◌, ap, List, [], ◌∷◌, ◌⊎◌, inl, some, none, Option,
  Bytes, Bool, false, replicate, length, arith, if◌then◌else◌, ◌==◌,
}
use ai_os_exchange.Fat.Tests.{sector_of, length-sector_of, sector_of_full}
use ai_os_exchange.Virtio.Store.{Memory, store, load, put64, load_in, load_out}
use ai_os_exchange.Virtio.{
  Queue, Driver, Device, blk_submit, virtio_gpu_flush, send_gpu_command, gpu_chain, bump_allocate,
  blk_transfer, blk_chain, virtio_blk_read_sector, virtio_blk_write_sector,
}
use ai_os_exchange.Virtio.Chain.{IsQueue, follow, head_of, no_desc}
use ai_os_exchange.Virtio.Arena.{Request, sector_request, flush_request, run_requests}
use ai_os_exchange.Virtio.Offer.{IsOffered, IsReader, IsWriter, IsIdle, Bytes-discrete}
use ai_os_exchange.Virtio.Serve.{virtio_blk_read_sector_lem, virtio_blk_write_sector_lem}

abbrev pub Platter : Type 0
Platter = Bytes → Bytes

abbrev pub pick : {P : Type 0} → Dec P → Bytes → Bytes → Bytes
pick (yes p) x y = x
pick (no p) x y = y

pick_yes : {P : Type 0} (d : Dec P) (x y : Bytes) → P → pick d x y ≡ x
pick_yes (yes p) x y h = refl
pick_yes (no p) x y h = absurd (p h)

pick_no : {P : Type 0} (d : Dec P) (x y : Bytes) → ¬ P → pick d x y ≡ y
pick_no (yes p) x y h = absurd (h p)
pick_no (no p) x y h = refl

abbrev pub with_sector : Bytes → Bytes → Platter → Platter
with_sector key data_bytes s other = pick (Bytes-discrete other key) data_bytes (s other)

-- A read fills the buffer, a write stores it; both report success.
abbrev pub act : List (ℕ × ℕ × ℕ) → Memory → Platter → Memory × Platter
act (a ∷ b ∷ c ∷ rest) m s =
    let key = load 8 (a.0 + 8) m in
    if b.2 == 3
    then (store c.0 (0 ∷ []) (store b.0 (sector_of (s key)) m), s)
    else (store c.0 (0 ∷ []) m, with_sector key (load 512 b.0 m) s)
act (a ∷ b ∷ []) m s = (m, s)
act (a ∷ []) m s = (m, s)
act [] m s = (m, s)

abbrev pub platter : Device
platter = record {
  State = Platter;
  serve = λ q m s.
      let r = act (follow 3 q.desc (head_of q)) m s in
      (record q { used_idx = q.avail_idx }, r.0, r.1);
}

abbrev pub content : Platter → ℕ → Bytes
content s t = sector_of (s (put64 t))

pub platter-IsReader : IsReader platter content
platter-IsReader = record {
  uses = λ sector buffer status q m s h. refl;
  fills = λ sector buffer status q m s h fine. filled sector buffer status q m s h;
  keeps = λ sector buffer status q m s t h. rw (h.chain) refl;
}
  where
    filled :
        (sector buffer status : ℕ) (q : Queue) (m : Memory) (s : Platter)
        → IsOffered 0 3 sector buffer status q m
        → load 512 buffer (act (follow 3 q.desc (head_of q)) m s).0 ≡ content s sector
    filled sector buffer status q m s h =
        let data_bytes = sector_of (s (load 8 (h.req + 8) m)) in
        rw (h.chain) (
          load_out 512 buffer status (0 ∷ []) (store buffer data_bytes m) (inl h.apart)
          ∙ ap (λ n. load n buffer (store buffer data_bytes m)) (sym (length-sector_of _))
          ∙ load_in buffer data_bytes m
          ∙ ap (λ k. sector_of (s k)) h.req_sector)

length-load : (n at : ℕ) (m : Memory) → length (load n at m) ≡ n
unfolding load
length-load zero at m = refl
length-load (suc n) at m = ap suc (length-load n (at + 1) m)

pub platter-IsWriter : IsWriter platter content
platter-IsWriter = record {
  uses = λ sector buffer status q m s h. refl;
  fills = λ sector buffer status q m s h fine. stored sector buffer status q m s h;
  keeps = λ sector buffer status q m s t ne h. others sector buffer status q m s t ne h;
}
  where
    stored :
        (sector buffer status : ℕ) (q : Queue) (m : Memory) (s : Platter)
        → IsOffered 1 1 sector buffer status q m
        → content (act (follow 3 q.desc (head_of q)) m s).1 sector ≡ load 512 buffer m
    stored sector buffer status q m s h =
        let key = load 8 (h.req + 8) m in
        rw (h.chain) (
          ap sector_of (
            pick_yes (Bytes-discrete (put64 sector) key) (load 512 buffer m) (s (put64 sector))
              (sym h.req_sector))
          ∙ sector_of_full (load 512 buffer m) (length-load 512 buffer m))

    others :
        (sector buffer status : ℕ) (q : Queue) (m : Memory) (s : Platter) (t : ℕ)
        → put64 t ≢ put64 sector
        → IsOffered 1 1 sector buffer status q m
        → content (act (follow 3 q.desc (head_of q)) m s).1 t ≡ content s t
    others sector buffer status q m s t ne h =
        let key = load 8 (h.req + 8) m in
        rw (h.chain) (
          ap sector_of (
            pick_no (Bytes-discrete (put64 t) key) (load 512 buffer m) (s (put64 t))
              (λ e. ne (e ∙ h.req_sector))))

abbrev pub idle_queue : Queue
idle_queue = record {
  desc = replicate 256 no_desc;
  avail_idx = 65535;
  ring = replicate 256 0;
  used_idx = 65535;
  last_used_idx = 65535;
}

-- The counters stand where they wrap.
abbrev pub idle : Driver
idle = record {
  memory = λ a. 7;
  dma_heap_curr = 0x50000001;
  global_desc_idx = 65535;
  blk_mmio_base = 0x0A000000;
  blk = idle_queue;
  gpu_mmio_base = 0x0A000200;
  gpu = idle_queue;
  active_fb_phys = 0x50100000;
  active_fb_width = 1280;
  active_fb_height = 800;
}

idle_queue-IsQueue : IsQueue idle_queue
idle_queue-IsQueue = record { descs = refl; slots = refl; index = omega arith }

pub idle-IsIdle : IsIdle idle
idle-IsIdle = record {
  present = omega arith;
  queue = idle_queue-IsQueue;
  counter = omega arith;
  used = refl;
  seen_used = refl;
  room = omega arith;
}

abbrev blank : Platter
blank key = replicate 512 1

virtio_blk_read_sector_lem_example :
    (ok : Bool) × (v' : Driver) × (s' : Platter) × (virtio_blk_read_sector platter 9 0x40001000
        (idle, blank)
      ≡ some (ok, (v', s')))
    × IsIdle v'
    × (v'.dma_heap_curr ≡ 0x50000001)
    × ((t : ℕ) → content s' t ≡ content blank t)
    × ((ok ≡ false) ⊎ (load 512 0x40001000 v'.memory ≡ content blank 9))
virtio_blk_read_sector_lem_example =
    virtio_blk_read_sector_lem platter content platter-IsReader 9 0x40001000 idle blank idle-IsIdle
      (omega arith)

virtio_blk_write_sector_lem_example :
    (ok : Bool) × (v' : Driver) × (s' : Platter) × (virtio_blk_write_sector platter 9 0x40001000
        (idle, blank)
      ≡ some (ok, (v', s')))
    × IsIdle v'
    × (v'.dma_heap_curr ≡ 0x50000001)
    × ((t : ℕ) → (put64 t ≡ put64 9) ⊎ (content s' t ≡ content blank t))
    × ((ok ≡ false) ⊎ (content s' 9 ≡ load 512 0x40001000 idle.memory))
virtio_blk_write_sector_lem_example =
    virtio_blk_write_sector_lem platter content platter-IsWriter 9 0x40001000 idle blank idle-IsIdle
      (omega arith)

abbrev served : Option (Driver × Platter) → Driver × Platter
served none = (idle, blank)
served (some r) = r

abbrev two_requests : List (Request platter)
two_requests = flush_request ∷ sector_request 1 1 9 0x40001000 ∷ []

requests_end :
    run_requests platter two_requests (idle, blank)
    ≡ some (served (run_requests platter two_requests (idle, blank)))
unfolding run_requests virtio_gpu_flush send_gpu_command gpu_chain bump_allocate blk_transfer
    blk_submit blk_chain
requests_end = refl
