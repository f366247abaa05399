-- ===== src/Virtio/Found.antt =====
-- What the search for devices at boot leaves: the driver is ready for its first request.
use mathlib.Core.Path.{subst}
use ai_os_exchange.Prelude.{
  ℕ, ◌+◌, ◌%◌, ◌^◌, ◌≤◌, ◌<◌, ◌≡◌, ◌≢◌, refl, sym, ◌∙◌, ap, List, [], ◌∷◌, ◌⊎◌, inl, inr, ◌==◌,
  Bool-cases, arith, replicate, length-replicate,
}
use ai_os_exchange.Keyboard.{virtq_size}
use ai_os_exchange.Virtio.{Queue, Driver}
use ai_os_exchange.Virtio.Setup.{
  Mmio, write_all, negotiate, set_status, setup_virtqueue, fresh_queue, zero_desc,
}
use ai_os_exchange.Virtio.Screen.{Spares, Spares-weaken, bump_4096-Spares}
use ai_os_exchange.Virtio.Chain.{IsQueue}
use ai_os_exchange.Virtio.Offer.{IsIdle}

-- Cleared memory as a queue that nothing was offered on.
abbrev pub zero_queue : Queue
zero_queue = record {
  desc = replicate virtq_size zero_desc;
  avail_idx = 0;
  ring = replicate virtq_size 0;
  used_idx = 0;
  last_used_idx = 0;
}

-- The driver during the search: either there is no block device yet, or its queue is new.
pub record IsPrepared (high : ℕ) (v : Driver) : Type 0 where
  pub counter : v.global_desc_idx < 2 ^ 16
  pub heap : v.dma_heap_curr ≤ high
  pub unused : v.blk.last_used_idx ≡ 0
  pub queue : (v.blk_mmio_base ≡ 0) ⊎ (v.blk ≡ zero_queue)

pub Spares-IsPrepared :
    {low high : ℕ} {v v' : Driver} → IsPrepared low v → Spares high v v' → IsPrepared high v'
Spares-IsPrepared h k = record {
  counter = k.counter;
  heap = k.heap;
  unused = ap (λ (q : Queue). q.last_used_idx) k.queue ∙ h.unused;
  queue = elim h.queue [ inl none_yet ↦ inl (k.base ∙ none_yet) | inr new ↦ inr (k.queue ∙ new) ];
}

pub IsPrepared-Spares : {high : ℕ} {v : Driver} → IsPrepared high v → Spares high v v
IsPrepared-Spares h = record { queue = refl; base = refl; counter = h.counter; heap = h.heap }

pub fresh_queue-zero : (q : Queue) → q.last_used_idx ≡ 0 → fresh_queue q ≡ zero_queue
fresh_queue-zero q h = rw (h) refl

pub IsPrepared-IsIdle :
    {high : ℕ} {v : Driver} → IsPrepared high v → high < 2 ^ 40 → v.blk_mmio_base ≢ 0 → IsIdle v
IsPrepared-IsIdle {high} {v} h low found = elim h.queue [
  | inl absent ↦ absurd (found absent)
  | inr new ↦ record {
    present = found;
    queue =
        subst (λ q. IsQueue q) (sym new)
          (record {
            descs = length-replicate virtq_size zero_desc;
            slots = length-replicate {A = ℕ} virtq_size 0;
            index = omega arith;
          });
    counter = h.counter;
    used = rw (new) refl;
    seen_used = rw (new) refl;
    room = omega (arith, h.heap);
  }
]

module _ (io : Mmio) where
  open io use {Bus, read, write}

  -- The first registers of a slot, up to the device's id, cannot be written.
  abbrev pub HasIds : Type 0
  HasIds = (a c x : ℕ) (b : Bus) → a % 512 ≤ 8 → read a (write c x b) ≡ read a b

  -- Two states of the bus with the same devices on it.
  abbrev pub SameIds : Bus → Bus → Type 0
  SameIds b b' = (a : ℕ) → a % 512 ≤ 8 → read a b' ≡ read a b

  module _ (ids : HasIds) where
    pub write_all-SameIds :
        (base : ℕ) (ws : List (ℕ × ℕ)) (b : Bus) → SameIds b (write_all io base ws b)
    unfolding write_all
    write_all-SameIds base [] b a h = refl
    write_all-SameIds base (w ∷ ws) b a h =
        write_all-SameIds base ws (write (base + w.0) w.1 b) a h ∙ ids a (base + w.0) w.1 b h

    pub set_status-SameIds : (base flag : ℕ) (b : Bus) → SameIds b (set_status io base flag b)
    set_status-SameIds base flag b a h = ids a _ _ b h

    pub negotiate-SameIds : (base version : ℕ) (b : Bus) → SameIds b (negotiate io base version b)
    negotiate-SameIds base version b a h = elim (Bool-cases (version == 1)) [
      | inl legacy ↦ rw (legacy) refl
      | inr modern ↦
          rw (modern)
            (set_status-SameIds base 8 (write_all io base _ b) a h ∙ write_all-SameIds base _ b a h)
    ]

    pub setup_virtqueue-SameIds :
        (base version : ℕ) (v : Driver) (b : Bus)
        → SameIds b (setup_virtqueue io base version (v, b)).1.1
    unfolding setup_virtqueue
    setup_virtqueue-SameIds base version v b a h =
        write_all-SameIds base _ (write_all io base ((0x030, 0) ∷ (0x038, virtq_size) ∷ []) b) a h
        ∙ write_all-SameIds base _ b a h

  pub setup_virtqueue-Spares :
      (base version high : ℕ) (v v1 : Driver) (b : Bus)
      → high < 2 ^ 39
      → Spares high v v1
      → Spares (high + 2 ^ 14) v (setup_virtqueue io base version (v1, b)).1.0
  unfolding setup_virtqueue
  setup_virtqueue-Spares base version high v v1 b low h =
      Spares-weaken (omega arith) (bump_4096-Spares 10246 high v v1 (omega arith) (omega arith) h)
