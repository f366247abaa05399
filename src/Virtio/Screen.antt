-- ===== src/Virtio/Screen.antt =====
-- `gpu_init` ends on a display that answers, and leaves the block device alone.
use ai_os_exchange.Prelude.{
  ℕ, ◌+◌, ◌/◌, ◌^◌, ◌≤◌, ◌<◌, ◌≡◌, ◌≢◌, refl, List, [], ◌∷◌, Option, some, ◌>>=◌, arith, u16, u64,
  ==_of_ne,
}
use ai_os_exchange.Mmu.{Layout, Tables, mmu_map_framebuffer}
use ai_os_exchange.Virtio.{
  Queue, Driver, Device, bump_allocate, round_up, write_memory, put_words, send_gpu_command,
  next_desc, gpu_chain, gpu_command, transfer_and_show, transfer_words, show_words,
}
use ai_os_exchange.Virtio.Probe.{
  load_word, create_words, attach_words, scanout_words, display_size, fb_size, pixels, gpu_create,
  gpu_attach, gpu_init,
}

-- From one driver to another: the block device is as it was, and the heap is below `high`.
pub record Spares (high : ℕ) (v v' : Driver) : Type 0 where
  pub queue : v'.blk ≡ v.blk
  pub base : v'.blk_mmio_base ≡ v.blk_mmio_base
  pub counter : v'.global_desc_idx < 2 ^ 16
  pub heap : v'.dma_heap_curr ≤ high

-- The display uses something whenever it is notified.
abbrev pub Answers : Device → Type 0
Answers display =
    (q : Queue) (m : ℕ → ℕ) (s : display.State)
    → (display.serve q m s).0.used_idx ≢ (display.serve q m s).0.last_used_idx

pub put_words-Spares :
    (addr : ℕ) (ws : List (ℕ × ℕ)) (high : ℕ) (v v' : Driver)
    → Spares high v v'
    → Spares high v (put_words addr ws v')
put_words-Spares addr [] high v v' h = h
put_words-Spares addr (w ∷ ws) high v v' h =
    put_words-Spares addr ws high v _
      (record { queue = h.queue; base = h.base; counter = h.counter; heap = h.heap })

pub Spares-weaken : {low high : ℕ} {v v' : Driver} → low ≤ high → Spares low v v' → Spares high v v'
Spares-weaken le h = record {
  queue = h.queue;
  base = h.base;
  counter = h.counter;
  heap = omega (arith, h.heap);
}

pub heap_8 :
    (size heap high : ℕ)
    → heap ≤ high
    → high < 2 ^ 40
    → size < 2 ^ 33
    → u64 (round_up heap 8 + size) ≤ high + size + 8
heap_8 size heap high h a b = ground arith

pub heap_4096 :
    (size heap high : ℕ)
    → heap ≤ high
    → high < 2 ^ 40
    → size < 2 ^ 33
    → u64 (round_up heap 4096 + size) ≤ high + size + 4096
heap_4096 size heap high h a b = ground arith

pub bump_8-Spares :
    (size high : ℕ) (v v' : Driver)
    → high < 2 ^ 40
    → size < 2 ^ 33
    → Spares high v v'
    → Spares (high + size + 8) v (bump_allocate size 8 v').1
unfolding bump_allocate
bump_8-Spares size high v v' low small h = record {
  queue = h.queue;
  base = h.base;
  counter = h.counter;
  heap = heap_8 size v'.dma_heap_curr high h.heap low small;
}

pub bump_4096-Spares :
    (size high : ℕ) (v v' : Driver)
    → high < 2 ^ 40
    → size < 2 ^ 33
    → Spares high v v'
    → Spares (high + size + 4096) v (bump_allocate size 4096 v').1
unfolding bump_allocate
bump_4096-Spares size high v v' low small h = record {
  queue = h.queue;
  base = h.base;
  counter = h.counter;
  heap = heap_4096 size v'.dma_heap_curr high h.heap low small;
}

module _ (display : Device) (answers : Answers display) where
  open display use {State, serve}

  -- A command that returns, and what it spares.
  abbrev pub Sends : ℕ → Driver → Option (Driver × State) → Type 0
  Sends high v r = (p : Driver × State) × (r ≡ some p) × Spares high v p.0

  send_gpu_command-Sends :
      (req req_size resp resp_size high : ℕ) (v v1 : Driver) (s : State)
      → Spares high v v1
      → Sends high v (send_gpu_command display req req_size resp resp_size (v1, s))
  unfolding send_gpu_command
  send_gpu_command-Sends req req_size resp resp_size high v v1 s h =
      let (d0, v2) = next_desc v1 in
      let (d1, v3) = next_desc v2 in
      let chain = gpu_chain req req_size resp resp_size (d0, d1) v3.gpu in
      let (q, m, s1) = serve chain v3.memory s in
      (
        (
          record v3 { gpu = record q { last_used_idx = u16 (q.last_used_idx + 1) }; memory = m },
          s1,
        ),
        rw (==_of_ne q.used_idx q.last_used_idx (answers chain v3.memory s)) refl,
        record { queue = h.queue; base = h.base; counter = omega arith; heap = h.heap },
      )

  gpu_command-Sends :
      (size : ℕ) (words : List (ℕ × ℕ)) (high : ℕ) (v v1 : Driver) (s : State)
      → high < 2 ^ 39
      → size < 2 ^ 10
      → Spares high v v1
      → Sends (high + 2 ^ 11) v (gpu_command display size words (v1, s))
  gpu_command-Sends size words high v v1 s low small h =
      let (req, v2) = bump_allocate size 8 v1 in
      let (resp, v3) = bump_allocate 24 8 v2 in
      let a = bump_8-Spares size high v v1 (omega arith) (omega arith) h in
      let b = bump_8-Spares 24 (high + size + 8) v v2 (omega arith) (omega arith) a in
      send_gpu_command-Sends req size resp 24 (high + 2 ^ 11) v (put_words req words v3) s (
        put_words-Spares req words (high + 2 ^ 11) v v3 (record {
          queue = b.queue;
          base = b.base;
          counter = b.counter;
          heap = omega (arith, b.heap);
        }))

  -- One command behind another.
  and_then :
      (high more : ℕ) (v : Driver) (r : Option (Driver × State))
      (f : Driver × State → Option (Driver × State))
      → Sends high v r
      → ((v1 : Driver) (s : State) → Spares high v v1 → Sends more v (f (v1, s)))
      → Sends more v (r >>= f)
  and_then high more v r f (p, e, h) k = rw (e) (k p.0 p.1 h)

  transfer_and_show-Sends :
      (high : ℕ) (v v1 : Driver) (s : State)
      → high < 2 ^ 38
      → Spares high v v1
      → Sends (high + 2 ^ 11 + 2 ^ 11) v (transfer_and_show display (v1, s))
  transfer_and_show-Sends high v v1 s low h =
      let w = v1.active_fb_width in
      let t = v1.active_fb_height in
      and_then (high + 2 ^ 11) (high + 2 ^ 11 + 2 ^ 11) v _ _
        (gpu_command-Sends 56 (transfer_words w t) high v v1 s (omega arith) (omega arith) h)
        (λ v2 s2 h2.
          gpu_command-Sends 48 (show_words w t) (high + 2 ^ 11) v v2 s2 (omega arith) (omega arith)
            h2)

  gpu_create-Sends :
      (high : ℕ) (v v1 : Driver) (s : State)
      → high < 2 ^ 37
      → Spares high v v1
      → (size : ℕ × ℕ) × (p : Driver × State) × (gpu_create display (v1, s) ≡ some (size, p))
        × Spares (high + 448 + 2 ^ 11) v p.0
  unfolding gpu_create
  gpu_create-Sends high v v1 s low h =
      let (req, v2) = bump_allocate 24 8 v1 in
      let (resp, v3) = bump_allocate 408 8 v2 in
      let a = bump_8-Spares 24 high v v1 (omega arith) (omega arith) h in
      let b = bump_8-Spares 408 (high + 24 + 8) v v2 (omega arith) (omega arith) a in
      let (p, e, c) =
        send_gpu_command-Sends req 24 resp 408 (high + 448) v (put_words req ((0, 0x100) ∷ []) v3) s
          (put_words-Spares req ((0, 0x100) ∷ []) (high + 448) v v3
            (Spares-weaken (omega arith) b)) in
      let size =
        display_size (load_word (resp + 32) p.0.memory) (load_word (resp + 36) p.0.memory) in
      let (p', e', d) =
        gpu_command-Sends 40 (create_words size) (high + 448) v
          (record p.0 { active_fb_width = size.0; active_fb_height = size.1 }) p.1 (omega arith)
          (omega arith)
          (record { queue = c.queue; base = c.base; counter = c.counter; heap = c.heap }) in
      (size, p', rw (e) (rw (e') refl), d)

  gpu_attach-Sends :
      (at : Layout) (size : ℕ × ℕ) (high : ℕ) (v v1 : Driver) (s : State) (t : Tables)
      → high < 2 ^ 37 + 2 ^ 13
      → Spares high v v1
      → (p : Driver × State) × (t' : Tables) × (gpu_attach at display size (v1, s) t ≡ some (p, t'))
        × Spares (high + 2 ^ 32 + 2 ^ 15) v p.0
  unfolding gpu_attach
  gpu_attach-Sends at size high v v1 s t low h =
      let bytes = fb_size size in
      let small : bytes < 2 ^ 32 = omega arith in
      let (fb_phys, v2) = bump_allocate bytes 4096 v1 in
      let next = high + bytes + 4096 in
      let a = bump_4096-Spares bytes high v v1 (omega arith) (omega arith) h in
      let (p1, e1, b) =
        gpu_command-Sends 48 (attach_words fb_phys bytes) next v
          (record v2 { active_fb_phys = fb_phys }) s (omega arith) (omega arith)
          (record { queue = a.queue; base = a.base; counter = a.counter; heap = a.heap }) in
      let (p2, e2, c) =
        gpu_command-Sends 48 (scanout_words size) (next + 2 ^ 11) v p1.0 p1.1 (omega arith)
          (omega arith) b in
      let (p3, e3, d) =
        transfer_and_show-Sends (next + 2 ^ 11 + 2 ^ 11) v
          (write_memory fb_phys (pixels (bytes / 4)) p2.0) p2.1 (omega arith)
          (record { queue = c.queue; base = c.base; counter = c.counter; heap = c.heap }) in
      (
        p3,
        mmu_map_framebuffer at fb_phys bytes t,
        rw (e1) (rw (e2) (rw (e3) refl)),
        Spares-weaken (omega arith) d,
      )

  -- The set-up of the display ends, and takes at most 2 ^ 32 + 2 ^ 16 bytes.
  pub gpu_init-Sends :
      (at : Layout) (high : ℕ) (v v1 : Driver) (s : State) (t : Tables)
      → high < 2 ^ 37
      → Spares high v v1
      → (p : Driver × State) × (t' : Tables) × (gpu_init at display (v1, s) t ≡ some (p, t'))
        × Spares (high + 2 ^ 32 + 2 ^ 16) v p.0
  unfolding gpu_init
  gpu_init-Sends at high v v1 s t low h =
      let (size, p, e, a) = gpu_create-Sends high v v1 s (omega arith) h in
      let (p', t', e', b) =
        gpu_attach-Sends at size (high + 448 + 2 ^ 11) v p.0 p.1 t (omega arith) a in
      (p', t', rw (e) (rw (e') refl), Spares-weaken (omega arith) b)
