-- ===== src/Virtio/Drive.antt =====
-- The sector calls of kernel/virtio.c as the disk that modules/fs/fat32.c works on: the driver
-- between two requests, with a device that keeps to the specification and a buffer below the heap.
use ai_os_exchange.Prelude.{
  ℕ, ◌+◌, ◌^◌, ◌≤◌, ◌<◌, ◌≡◌, ◌≢◌, refl, sym, ◌∙◌, ap, inl, inr, Option, none, some, Bool, true,
  Bool-cases, if◌then◌else◌, ◌==◌, Bytes, length, get_or, some_cancel, ◌&&◌, arith, ==_of_eq,
  ==_of_ne,
}
use native.Mathlib.Decide.{dec_lt}
use ai_os_exchange.Disk.{BlockDevice}
use ai_os_exchange.Fat.Fields.{put32}
use ai_os_exchange.Virtio.Store.{store, load, put64, load_in}
use ai_os_exchange.Virtio.{
  Driver, Device, write_memory, virtio_blk_read_sector, virtio_blk_write_sector,
}
use ai_os_exchange.Virtio.Offer.{IsReader, IsWriter, IsIdle}
use ai_os_exchange.Virtio.Serve.{virtio_blk_read_sector_lem, virtio_blk_write_sector_lem}

-- The bytes of a uint64_t determine it.
put64-eq : (s t : ℕ) → s < 2 ^ 64 → t < 2 ^ 64 → put64 t ≡ put64 s → t ≡ s
unfolding put32
put64-eq s t a b e =
    let byte : (k : ℕ) → get_or (put64 t) k 0 ≡ get_or (put64 s) k 0 =
      λ k. ap (λ l. get_or l k 0) e in
    omega (arith, byte 0, byte 1, byte 2, byte 3, byte 4, byte 5, byte 6, byte 7)

module _ (dev : Device) (contents : dev.State → ℕ → Bytes)
    (sized : (s : dev.State) (t : ℕ) → length (contents s t) ≡ 512) (reader : IsReader dev contents)
    (writer : IsWriter dev contents) (buffer : ℕ) where
  open dev use {State}

  -- The driver between two requests. The interface has sectors of any number: those that are no
  -- uint64_t, and that no call can name, are kept beside the device.
  pub record Drive : Type 0 where
    pub driver : Driver
    pub state : State
    pub idle : IsIdle driver
    pub below : buffer + 512 ≤ driver.dma_heap_curr
    pub beside : ℕ → Bytes
    pub beside_size : (t : ℕ) → length (beside t) ≡ 512

  abbrev pub at_sector : (t : ℕ) → Dec (t < 2 ^ 64) → Drive → Bytes
  at_sector t (yes h) d = contents d.state t
  at_sector t (no h) d = d.beside t

  abbrev pub drive_content : Drive → ℕ → Bytes
  drive_content d t = at_sector t (dec_lt t (2 ^ 64)) d

  -- `virtio_blk_read_sector(sector, buffer)`, and the buffer if it succeeds.
  pub drive_read : (t : ℕ) → Dec (t < 2 ^ 64) → Drive → Option Bytes × Drive
  drive_read t (no h) d = (some (d.beside t), d)
  drive_read t (yes h) d =
      let (ok, v, s, _, idle, heap, _, _) =
        virtio_blk_read_sector_lem dev contents reader t buffer d.driver d.state d.idle d.below in
      (
        if ok then some (load 512 buffer v.memory) else none,
        record d { driver = v; state = s; idle = idle; below = rw (heap) d.below },
      )

  pub drive_read-frame :
      (t u : ℕ) (h : Dec (t < 2 ^ 64)) (k : Dec (u < 2 ^ 64)) (d : Drive)
      → at_sector u k (drive_read t h d).1 ≡ at_sector u k d
  unfolding drive_read
  drive_read-frame t u (no h) k d = refl
  drive_read-frame t u (yes h) (no k) d = refl
  drive_read-frame t u (yes h) (yes k) d =
      let (ok, v, s, _, idle, heap, keeps, _) =
        virtio_blk_read_sector_lem dev contents reader t buffer d.driver d.state d.idle d.below in
      keeps u

  pub drive_read-back :
      (t : ℕ) (h : Dec (t < 2 ^ 64)) (d : Drive) {b : Bytes}
      → (drive_read t h d).0 ≡ some b
      → b ≡ at_sector t h d
  unfolding drive_read
  drive_read-back t (no h) d e = sym (some_cancel e)
  drive_read-back t (yes h) d e =
      let (ok, v, s, _, idle, heap, keeps, either) =
        virtio_blk_read_sector_lem dev contents reader t buffer d.driver d.state d.idle d.below in
      elim either [
        | inl failed ↦ cc (rw (failed) at e)
        | inr filled ↦ elim (Bool-cases ok) [
          | inl fine ↦ sym (some_cancel (rw (fine) at e)) ∙ filled
          | inr failed ↦ cc (rw (failed) at e)
        ]
      ]

  abbrev with_beside : ℕ → Bytes → Drive → ℕ → Bytes
  with_beside t b d u = if u == t && length b == 512 then b else d.beside u

  kept_size : (t : ℕ) (b : Bytes) (d : Drive) (u : ℕ) → length (with_beside t b d u) ≡ 512
  kept_size t b d u = ground (arith, d.beside_size u)

  pub refilled : (b : Bytes) (d : Drive) → IsIdle (write_memory buffer b d.driver)
  refilled b d = record {
    present = d.idle.present;
    queue = d.idle.queue;
    counter = d.idle.counter;
    used = d.idle.used;
    seen_used = d.idle.seen_used;
    room = d.idle.room;
  }

  -- The buffer is filled, then `virtio_blk_write_sector(sector, buffer)` is called.
  pub drive_write : (t : ℕ) → Dec (t < 2 ^ 64) → Bytes → Drive → Bool × Drive
  drive_write t (no h) b d =
      (true, record d { beside = with_beside t b d; beside_size = kept_size t b d })
  drive_write t (yes h) b d =
      let (ok, v, s, _, idle, heap, _, _) =
        virtio_blk_write_sector_lem dev contents writer t buffer (write_memory buffer b d.driver)
          d.state (refilled b d) d.below in
      (ok, record d { driver = v; state = s; idle = idle; below = rw (heap) d.below })

  pub drive_write-frame :
      (t u : ℕ) (h : Dec (t < 2 ^ 64)) (k : Dec (u < 2 ^ 64)) (b : Bytes) (d : Drive)
      → u ≢ t
      → at_sector u k (drive_write t h b d).1 ≡ at_sector u k d
  unfolding drive_write
  drive_write-frame t u (no h) (no k) b d ne = rw (==_of_ne u t ne) refl
  drive_write-frame t u (no h) (yes k) b d ne = refl
  drive_write-frame t u (yes h) (no k) b d ne = refl
  drive_write-frame t u (yes h) (yes k) b d ne =
      let (ok, v, s, _, idle, heap, keeps, _) =
        virtio_blk_write_sector_lem dev contents writer t buffer (write_memory buffer b d.driver)
          d.state (refilled b d) d.below in
      elim (keeps u) [ inl same ↦ absurd (ne (put64-eq t u h k same)) | inr kept ↦ kept ]

  pub drive_write-back :
      (t : ℕ) (h : Dec (t < 2 ^ 64)) (b : Bytes) (d : Drive)
      → length b ≡ 512
      → (drive_write t h b d).0 ≡ true
      → at_sector t h (drive_write t h b d).1 ≡ b
  unfolding drive_write
  drive_write-back t (no h) b d size e = rw (==_of_eq t t refl, ==_of_eq (length b) 512 size) refl
  drive_write-back t (yes h) b d size e =
      let (ok, v, s, _, idle, heap, keeps, either) =
        virtio_blk_write_sector_lem dev contents writer t buffer (write_memory buffer b d.driver)
          d.state (refilled b d) d.below in
      elim either [
        | inl failed ↦ cc (rw (failed) at e)
        | inr written ↦
            written
            ∙ ap (λ n. load n buffer (store buffer b d.driver.memory)) (sym size)
            ∙ load_in buffer b d.driver.memory
      ]

  pub at_sector-size : (t : ℕ) (k : Dec (t < 2 ^ 64)) (d : Drive) → length (at_sector t k d) ≡ 512
  at_sector-size t (yes h) d = sized d.state t
  at_sector-size t (no h) d = d.beside_size t

  -- The disk interface, by the driver.
  abbrev pub drive : BlockDevice
  drive = record {
    Disk = Drive;
    read_sector = λ t d. drive_read t (dec_lt t (2 ^ 64)) d;
    write_sector = λ t b d. drive_write t (dec_lt t (2 ^ 64)) b d;
    content = drive_content;
    content_size = λ d t. at_sector-size t (dec_lt t (2 ^ 64)) d;
    read_frame = λ t u d. drive_read-frame t u (dec_lt t (2 ^ 64)) (dec_lt u (2 ^ 64)) d;
    read_back = λ t d {b} e. drive_read-back t (dec_lt t (2 ^ 64)) d e;
    write_frame =
        λ t u b d ne. drive_write-frame t u (dec_lt t (2 ^ 64)) (dec_lt u (2 ^ 64)) b d ne;
    write_back = λ t b d size e. drive_write-back t (dec_lt t (2 ^ 64)) b d size e;
  }

  drive_calls :
      (t : ℕ) (h : Dec (t < 2 ^ 64)) (b : Bytes) (d : Drive)
      → t < 2 ^ 64
      → let r = drive_read t h d in
        let w = drive_write t h b d in
        (ok : Bool) × (virtio_blk_read_sector dev t buffer (d.driver, d.state)
          ≡ some (ok, (r.1.driver, r.1.state)))
        × (r.0 ≡ (if ok then some (load 512 buffer r.1.driver.memory) else none))
        × (virtio_blk_write_sector dev t buffer (write_memory buffer b d.driver, d.state)
            ≡ some (w.0, (w.1.driver, w.1.state)))
  unfolding drive_read drive_write
  drive_calls t (no high) b d low = absurd (high low)
  drive_calls t (yes h) b d low =
      let (ok, _, _, read, _, _, _, _) =
        virtio_blk_read_sector_lem dev contents reader t buffer d.driver d.state d.idle d.below in
      let (_, _, _, written, _, _, _, _) =
        virtio_blk_write_sector_lem dev contents writer t buffer (write_memory buffer b d.driver)
          d.state (refilled b d) d.below in
      (ok, read, refl, written)

  -- For a sector whose number is a uint64_t, between two requests: the operations of the disk interface
  -- are the driver's. `virtio_blk_read_sector` returns, with the state that the interface's read
  -- leaves, and the read gives the buffer if the result is 0 and nothing if it is -1. With the bytes
  -- in the buffer, `virtio_blk_write_sector` returns with the result and the state of the
  -- interface's write.
  pub drive_lem :
      (t : ℕ) (b : Bytes) (d : Drive)
      → t < 2 ^ 64
      → let r = drive.read_sector t d in
        let w = drive.write_sector t b d in
        (ok : Bool) × (virtio_blk_read_sector dev t buffer (d.driver, d.state)
          ≡ some (ok, (r.1.driver, r.1.state)))
        × (r.0 ≡ (if ok then some (load 512 buffer r.1.driver.memory) else none))
        × (virtio_blk_write_sector dev t buffer (write_memory buffer b d.driver, d.state)
            ≡ some (w.0, (w.1.driver, w.1.state)))
  drive_lem t b d low = drive_calls t (dec_lt t (2 ^ 64)) b d low

  beside_calls :
      (t : ℕ) (h : Dec (t < 2 ^ 64)) (b : Bytes) (d : Drive)
      → ¬ (t < 2 ^ 64)
      → ((drive_read t h d).0 ≡ some (at_sector t h d)) × ((drive_write t h b d).0 ≡ true)
  unfolding drive_read drive_write
  beside_calls t (no h) b d high = (refl, refl)
  beside_calls t (yes h) b d high = absurd (high h)

  -- Beside the device nothing fails.
  pub beside_lem :
      (t : ℕ) (b : Bytes) (d : Drive)
      → ¬ (t < 2 ^ 64)
      → ((drive.read_sector t d).0 ≡ some (drive_content d t))
        × ((drive.write_sector t b d).0 ≡ true)
  beside_lem t b d high = beside_calls t (dec_lt t (2 ^ 64)) b d high
