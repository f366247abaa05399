-- ===== src/Virtio/Faultless.antt =====
-- On a block device that never reports an error, no request of the file system fails.
use ai_os_exchange.Prelude.{
  ℕ, ◌+◌, ◌^◌, ◌≤◌, ◌≡◌, refl, sym, ◌∙◌, ap, Option, [], none, some, Bool, true, Bytes, length,
  some_cancel, if◌then◌else◌, ==_of_eq,
}
use native.Mathlib.Decide.{dec_lt}
use ai_os_exchange.Disk.{IsReliable}
use ai_os_exchange.Virtio.Store.{Memory}
use ai_os_exchange.Virtio.{
  Queue, Driver, Device, blk_submit, write_memory, virtio_blk_read_sector, virtio_blk_write_sector,
}
use ai_os_exchange.Virtio.Offer.{IsOffered, IsReader, IsWriter, IsIdle, blk_submit-IsOffered}
use ai_os_exchange.Virtio.Serve.{blk_transfer_used}
use ai_os_exchange.Virtio.Drive.{drive, refilled, drive_lem, beside_lem}

pub record IsFaultless (dev : Device) : Type 0 where
  pub read_fine :
      (sector buffer status : ℕ) (q : Queue) (m : Memory) (s : dev.State)
      → IsOffered 0 3 sector buffer status q m
      → (dev.serve q m s).1 status ≡ 0
  pub write_fine :
      (sector buffer status : ℕ) (q : Queue) (m : Memory) (s : dev.State)
      → IsOffered 1 1 sector buffer status q m
      → (dev.serve q m s).1 status ≡ 0

module _ (dev : Device) (contents : dev.State → ℕ → Bytes) (fine : IsFaultless dev) where
  open dev use {State, serve}

  read_succeeds :
      (reader : IsReader dev contents) (t buffer : ℕ) (v : Driver) (s : State)
      (r : Bool × (Driver × State))
      → IsIdle v
      → buffer + 512 ≤ v.dma_heap_curr
      → virtio_blk_read_sector dev t buffer (v, s) ≡ some r
      → r.0 ≡ true
  read_succeeds reader t buffer v s r idle below e =
      let (status, v1) = blk_submit 0 3 t buffer v in
      let offered = blk_submit-IsOffered 0 3 t buffer v idle below refl in
      let returned =
        blk_transfer_used dev 0 3 t buffer v s idle
          (reader.uses t buffer status v1.blk v1.memory s offered) in
      ap (λ (r : Bool × (Driver × State)). r.0) (sym (some_cancel (sym returned ∙ e)))
      ∙ ==_of_eq _ 0 (fine.read_fine t buffer status v1.blk v1.memory s offered)

  write_succeeds :
      (writer : IsWriter dev contents) (t buffer : ℕ) (v : Driver) (s : State)
      (r : Bool × (Driver × State))
      → IsIdle v
      → buffer + 512 ≤ v.dma_heap_curr
      → virtio_blk_write_sector dev t buffer (v, s) ≡ some r
      → r.0 ≡ true
  write_succeeds writer t buffer v s r idle below e =
      let (status, v1) = blk_submit 1 1 t buffer v in
      let offered = blk_submit-IsOffered 1 1 t buffer v idle below refl in
      let returned =
        blk_transfer_used dev 1 1 t buffer v s idle
          (writer.uses t buffer status v1.blk v1.memory s offered) in
      ap (λ (r : Bool × (Driver × State)). r.0) (sym (some_cancel (sym returned ∙ e)))
      ∙ ==_of_eq _ 0 (fine.write_fine t buffer status v1.blk v1.memory s offered)

given_if :
    (ok : Bool) (x : Option Bytes) (b : Bytes)
    → ok ≡ true
    → x ≡ (if ok then some b else none)
    → x ≡ some b
given_if ok x b fine given = given ∙ rw (fine) refl

module _ (dev : Device) (contents : dev.State → ℕ → Bytes)
    (sized : (s : dev.State) (t : ℕ) → length (contents s t) ≡ 512) (reader : IsReader dev contents)
    (writer : IsWriter dev contents) (buffer : ℕ) (fine : IsFaultless dev) where
  -- A device that keeps to the specification and never reports an error, behind the driver: as the
  -- file system's disk, no request fails.
  pub drive-IsReliable : IsReliable (drive dev contents sized reader writer buffer)
  drive-IsReliable = record {
    reads = λ t d. elim (dec_lt t (2 ^ 64)) [
      | yes low ↦
          let (ok, called, given, _) =
            drive_lem dev contents sized reader writer buffer t [] d low in
          let succeeds =
            read_succeeds dev contents fine reader t buffer d.driver d.state _ d.idle d.below
              called in
          let filled = given_if ok _ _ succeeds given in
          filled ∙ ap some ((drive dev contents sized reader writer buffer).read_back t d filled)
      | no high ↦ (beside_lem dev contents sized reader writer buffer t [] d high).0
    ];
    writes = λ t b d. elim (dec_lt t (2 ^ 64)) [
      | yes low ↦
          let (_, _, _, called) = drive_lem dev contents sized reader writer buffer t b d low in
          write_succeeds dev contents fine writer t buffer (write_memory buffer b d.driver) d.state
            _ (refilled dev contents sized reader writer buffer b d) d.below called
      | no high ↦ (beside_lem dev contents sized reader writer buffer t b d high).1
    ];
  }
