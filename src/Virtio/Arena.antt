-- ===== src/Virtio/Arena.antt =====
-- The heap for requests is given back: the driver can serve requests for ever.
use ai_os_exchange.Prelude.{
  ℕ, ◌≡◌, sym, ◌∙◌, ap, List, [], ◌∷◌, Option, some, ◌>>=◌, >>=-eq-some, some_cancel, if_elim, Bool,
  ◌==◌, ◌||◌,
}
use ai_os_exchange.Virtio.{
  Driver, Device, await_used, blk_submit, blk_transfer, transfer_and_show, virtio_gpu_flush,
}

module _ (dev : Device) where
  open dev use {State, serve}

  -- What the kernel asks of the driver: a sector of any kind, or the screen.
  pub data Request : Type 0 where
    sector_request : (type flags sector buffer : ℕ) → Request
    flush_request : Request

  unfoldable pub run_requests : List Request → Driver × State → Option (Driver × State)
  run_requests [] v = some v
  run_requests (sector_request type flags sector buffer ∷ rs) v =
      blk_transfer dev type flags sector buffer v >>= λ r. run_requests rs r.1
  run_requests (flush_request ∷ rs) v = virtio_gpu_flush dev v >>= run_requests rs

  blk_transfer_heap :
      (type flags sector buffer : ℕ) (v : Driver) (s : State) {r : Bool × (Driver × State)}
      → blk_transfer dev type flags sector buffer (v, s) ≡ some r
      → r.1.0.dma_heap_curr ≡ v.dma_heap_curr
  unfolding blk_transfer
  blk_transfer_heap type flags sector buffer v s {r} =
      if_elim (v.blk_mmio_base == 0) _ _
        (λ e. ap (λ (r : Bool × (Driver × State)). r.1.0.dma_heap_curr) (sym (some_cancel e)))
        (λ e.
          let v1 = (blk_submit type flags sector buffer v).1 in
          let (q, _, made) = >>=-eq-some (await_used (serve v1.blk v1.memory s).0) _ e in
          ap (λ (r : Bool × (Driver × State)). r.1.0.dma_heap_curr) (sym (some_cancel made)))

  virtio_gpu_flush_heap :
      (v : Driver) (s : State) {r : Driver × State}
      → virtio_gpu_flush dev (v, s) ≡ some r
      → r.0.dma_heap_curr ≡ v.dma_heap_curr
  unfolding virtio_gpu_flush
  virtio_gpu_flush_heap v s {r} =
      if_elim (v.gpu_mmio_base == 0 || v.active_fb_phys == 0) _ _
        (λ e. ap (λ (r : Driver × State). r.0.dma_heap_curr) (sym (some_cancel e)))
        (λ e.
          let (a, _, made) = >>=-eq-some (transfer_and_show dev (v, s)) _ e in
          ap (λ (r : Driver × State). r.0.dma_heap_curr) (sym (some_cancel made)))

  -- Over any sequence of requests for sectors and for the screen that end, whatever the devices do to
  -- the queues and to memory, the pointer of the heap is back where it was.
  pub run_requests_heap :
      (rs : List Request) (v : Driver) (s : State) {r : Driver × State}
      → run_requests rs (v, s) ≡ some r
      → r.0.dma_heap_curr ≡ v.dma_heap_curr
  unfolding run_requests
  run_requests_heap [] v s e = ap (λ (r : Driver × State). r.0.dma_heap_curr) (sym (some_cancel e))
  run_requests_heap (sector_request type flags sector buffer ∷ rs) v s e =
      let (a, first, then) = >>=-eq-some (blk_transfer dev type flags sector buffer (v, s)) _ e in
      run_requests_heap rs a.1.0 a.1.1 then ∙ blk_transfer_heap type flags sector buffer v s first
  run_requests_heap (flush_request ∷ rs) v s e =
      let (a, first, then) = >>=-eq-some (virtio_gpu_flush dev (v, s)) _ e in
      run_requests_heap rs a.0 a.1 then ∙ virtio_gpu_flush_heap v s first
