-- ===== src/Virtio/Chain.antt =====
-- What a device finds when it is notified: it follows the chain from the head that the driver has
-- offered.
use ai_os_exchange.Prelude.{
  ℕ, zero, suc, ◌+◌, ◌-◌, ◌%◌, ◌^◌, ◌<◌, ◌≡◌, ◌≢◌, refl, sym, ◌∙◌, ap, List, [], ◌∷◌, if◌then◌else◌,
  ◌==◌, length, get_or, set, length-set, get_or-set_self, get_or-set_ne, arith, u16, u64,
}
use ai_os_exchange.Virtio.{Desc, Queue, Driver, blk_chain, offer, blk_submit, round_up}

abbrev pub no_desc : Desc
no_desc = record { addr = 0; len = 0; flags = 0; next = 0 }

-- A buffer as the device sees it: its address, its size, and the flags.
abbrev pub seen : Desc → ℕ × ℕ × ℕ
seen d = (d.addr, d.len, d.flags)

-- The chain from a descriptor on, of at most `n`: the flag 1 says that another one follows.
unfoldable pub follow : ℕ → List Desc → ℕ → List (ℕ × ℕ × ℕ)
follow zero ds i = []
follow (suc n) ds i =
    let d = get_or ds i no_desc in
    let rest = follow n ds d.next in seen d ∷ (if d.flags % 2 == 1 then rest else [])

-- The head that was offered last.
abbrev pub head_of : Queue → ℕ
head_of q = get_or q.ring ((q.avail_idx + 2 ^ 16 - 1) % 2 ^ 16 % 256) 0

-- A queue of the size of the driver, the index of which is 16 bits wide.
pub record IsQueue (q : Queue) : Type 0 where
  pub descs : length q.desc ≡ 256
  pub slots : length q.ring ≡ 256
  pub index : q.avail_idx < 2 ^ 16

head_of-offer :
    (head : ℕ) (q : Queue)
    → length q.ring ≡ 256
    → q.avail_idx < 2 ^ 16
    → head_of (offer head q) ≡ head
head_of-offer head q slots index =
    let e : (u16 (q.avail_idx + 1) + 2 ^ 16 - 1) % 2 ^ 16 % 256 ≡ q.avail_idx % 256 = omega arith in
    ap (λ i. get_or (set q.ring (q.avail_idx % 256) head) i 0) e
    ∙ get_or-set_self q.ring (q.avail_idx % 256) head 0 (omega (arith, slots))

head_of-blk_chain :
    (req buffer status flags : ℕ) (ds : ℕ × ℕ × ℕ) (q : Queue)
    → IsQueue q
    → head_of (blk_chain req buffer status flags ds q) ≡ ds.0
unfolding blk_chain
head_of-blk_chain req buffer status flags ds q h = head_of-offer ds.0 q h.slots h.index

-- Three writes to different entries of a table, and two.
module _ (xs : List Desc) (size : length xs ≡ 256) (a b c : Desc) (i j k : ℕ) where
  first_of_three : i < 256 → i ≢ j → i ≢ k → get_or (set (set (set xs i a) j b) k c) i no_desc ≡ a
  first_of_three low ij ik =
      get_or-set_ne (set (set xs i a) j b) k i c no_desc (λ e. ik (sym e))
      ∙ get_or-set_ne (set xs i a) j i b no_desc (λ e. ij (sym e))
      ∙ get_or-set_self xs i a no_desc (omega (arith, size))

  second_of_three : j < 256 → j ≢ k → get_or (set (set (set xs i a) j b) k c) j no_desc ≡ b
  second_of_three low jk =
      get_or-set_ne (set (set xs i a) j b) k j c no_desc (λ e. jk (sym e))
      ∙ get_or-set_self (set xs i a) j b no_desc (omega (arith, size, length-set xs i a))

  third_of_three : k < 256 → get_or (set (set (set xs i a) j b) k c) k no_desc ≡ c
  third_of_three low =
      get_or-set_self (set (set xs i a) j b) k c no_desc
        (omega (arith, size, length-set xs i a, length-set (set xs i a) j b))

follow_more :
    (n : ℕ) (ds : List Desc) (i : ℕ) (d : Desc)
    → get_or ds i no_desc ≡ d
    → d.flags % 2 ≡ 1
    → follow (suc n) ds i ≡ seen d ∷ follow n ds d.next
unfolding follow
follow_more n ds i d e more = rw (e, more) refl

follow_last :
    (n : ℕ) (ds : List Desc) (i : ℕ) (d : Desc)
    → get_or ds i no_desc ≡ d
    → d.flags % 2 ≡ 0
    → follow (suc n) ds i ≡ seen d ∷ []
unfolding follow
follow_last n ds i d e last = rw (e, last) refl

-- From three different descriptors, and with a flag on the buffer that says that the status follows,
-- the device finds the request, the buffer and the status, and the end of the chain behind it.
follow-blk_chain :
    (req buffer status flags d0 d1 d2 n : ℕ) (q : Queue)
    → IsQueue q
    → d0 < 256
    → d1 < 256
    → d2 < 256
    → d0 ≢ d1
    → d0 ≢ d2
    → d1 ≢ d2
    → flags % 2 ≡ 1
    → follow (suc (suc (suc n))) (blk_chain req buffer status flags (d0, d1, d2) q).desc d0
      ≡ (req, 16, 1) ∷ (buffer, 512, flags) ∷ (status, 1, 2) ∷ []
unfolding blk_chain
follow-blk_chain req buffer status flags d0 d1 d2 n q h low0 low1 low2 ab ac bc more =
    let a : Desc = record { addr = req; len = 16; flags = 1; next = d1 } in
    let b : Desc = record { addr = buffer; len = 512; flags = flags; next = d2 } in
    let c : Desc = record { addr = status; len = 1; flags = 2; next = 0 } in
    let ds = set (set (set q.desc d0 a) d1 b) d2 c in
    follow_more (suc (suc n)) ds d0 a (first_of_three q.desc h.descs a b c d0 d1 d2 low0 ab ac) refl
    ∙ ap (λ r. (req, 16, 1) ∷ r)
        (follow_more (suc n) ds d1 b (second_of_three q.desc h.descs a b c d0 d1 d2 low1 bc) more
          ∙ ap (λ r. (buffer, 512, flags) ∷ r)
              (follow_last n ds d2 c (third_of_three q.desc h.descs a b c d0 d1 d2 low2) refl))

-- The descriptors that are taken one after the other are different, also where the counter wraps.
three_descs :
    (g : ℕ)
    → g < 2 ^ 16
    → (g % 256 ≢ u16 (g + 1) % 256)
      × (g % 256 ≢ u16 (u16 (g + 1) + 1) % 256)
      × (u16 (g + 1) % 256 ≢ u16 (u16 (g + 1) + 1) % 256)
three_descs g h = ((λ e. omega arith), (λ e. omega arith), (λ e. omega arith))

-- A request to the block device is submitted on a queue of 256 entries, with any counter of
-- descriptors, wherever it wraps, and with a flag on the buffer that says that another descriptor
-- follows. Then the device, from the head that it is offered, finds three buffers and no more: the
-- request of 16 bytes, the buffer of 512 bytes with its flags, and the status byte, which it may
-- write.
pub follow-blk_submit :
    (type flags sector buffer n : ℕ) (v : Driver)
    → IsQueue v.blk
    → v.global_desc_idx < 2 ^ 16
    → flags % 2 ≡ 1
    → let (status, v') = blk_submit type flags sector buffer v in
      (follow (suc (suc (suc n))) v'.blk.desc (head_of v'.blk)
        ≡ (round_up v.dma_heap_curr 16, 16, 1) ∷ (buffer, 512, flags) ∷ (status, 1, 2) ∷ [])
unfolding blk_submit
follow-blk_submit type flags sector buffer n v h low more =
    let g = v.global_desc_idx in
    let d0 = g % 256 in
    let d1 = u16 (g + 1) % 256 in
    let d2 = u16 (u16 (g + 1) + 1) % 256 in
    let req = round_up v.dma_heap_curr 16 in
    let status = round_up (u64 (req + 16)) 1 in
    let (ab, ac, bc) = three_descs g low in
    ap (follow (suc (suc (suc n))) (blk_chain req buffer status flags (d0, d1, d2) v.blk).desc)
      (head_of-blk_chain req buffer status flags (d0, d1, d2) v.blk h)
    ∙ follow-blk_chain req buffer status flags d0 d1 d2 n v.blk h (omega arith) (omega arith)
        (omega arith) ab ac bc more
