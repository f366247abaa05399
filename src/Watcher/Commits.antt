-- ===== src/Watcher/Commits.antt =====
-- What a sync appends to LEDGER.LOG: an account of its own of the entries that are persisted.
use mathlib.Core.Path.{fun_ext}
use ai_os_exchange.Prelude.{
  ℕ, suc, ◌+◌, ◌^◌, ◌<◌, ◌≡◌, ◌≢◌, refl, sym, ◌∙◌, ap, List, [], ◌∷◌, Option, none, some, ◌>>=◌,
  Bytes, codes, c_string, length, arith, inl, inr, if◌then◌else◌, ◌==◌, Bool-cases, u32,
}
use ai_os_exchange.Uart.{Uart}
use ai_os_exchange.Window.{length-window}
use ai_os_exchange.Watcher.{Event, Watcher, blank, IsValid, waiting, pending}
use ai_os_exchange.Watcher.Sync.{
  sync_entry, persist, watcher_sync_to_disk, flushing, synced_report, sync-persist,
}

-- The contexts of the ledger commits: the events of type 5 with a timestamp other than 0.
pub commits : List Event → List Bytes
commits [] = []
commits (e ∷ es) =
    if e.type == 5
    then (if e.timestamp == 0 then commits es else e.context ∷ commits es)
    else commits es

chain :
    {A B C : Type 0} (m : Option A) (f : A → Option B) (g : B → Option C)
    → ((m >>= f) >>= g) ≡ (m >>= λ a. f a >>= g)
chain none f g = refl
chain (some a) f g = refl

zero_add : (n : ℕ) → 0 + n ≡ n
zero_add n = omega arith

-- Three steps and what follows them.
three_steps :
    {A B C D E : Type 0} (m : Option A) (f : A → Option B) (g : B → Option C) (h : C → Option D)
    (k : D → Option E)
    → ((m >>= λ a. f a >>= λ b. g b >>= h) >>= k) ≡ (m >>= λ a. f a >>= λ b. g b >>= λ c. h c >>= k)
three_steps m f g h k =
    chain m (λ a. f a >>= λ b. g b >>= h) k
    ∙ ap (λ r. m >>= r)
        (fun_ext
          λ a. chain (f a) (λ b. g b >>= h) k ∙ ap (λ r. f a >>= r) (fun_ext λ b. chain (g b) h k))

module _ {Disk : Type 0} (append : Bytes → Bytes → Disk × Uart → Option (Disk × Uart)) where
  -- Strings that are appended to the ledger, each on a line of its own.
  pub append_lines : List Bytes → Disk × Uart → Option (Disk × Uart)
  append_lines [] d = some d
  append_lines (c ∷ cs) d = c_string c >>= λ text. append (codes "LEDGER.LOG") text d >>= λ d1.
      append (codes "LEDGER.LOG") (codes "\n") d1 >>= append_lines cs

  -- The events that are not commits leave everything.
  persist-append_lines :
      (es : List Event) (d : Disk × Uart) (n : ℕ)
      → n + length es < 2 ^ 32
      → persist append es d n
        ≡ (append_lines (commits es) d >>= λ d'. some (d', n + length (commits es)))
  unfolding persist sync_entry commits append_lines
  persist-append_lines [] d n h = let e : n ≡ n + 0 = omega arith in ap (λ m. some (d, m)) e
  persist-append_lines (e ∷ es) d n h = elim (Bool-cases (e.timestamp == 0)) [
    | inl never ↦ elim (Bool-cases (e.type == 5)) [
      | inl right ↦ rw (never, right) (persist-append_lines es d n (omega arith))
      | inr other ↦ rw (never, other) (persist-append_lines es d n (omega arith))
    ]
    | inr written ↦ elim (Bool-cases (e.type == 5)) [
      | inr other ↦ rw (written, other) (persist-append_lines es d n (omega arith))
      | inl right ↦
          let next : u32 (n + 1) ≡ n + 1 = omega arith in
          let count : n + 1 + length (commits es) ≡ n + suc (length (commits es)) = omega arith in
          let text = c_string e.context in
          let put = λ (t : Bytes). append (codes "LEDGER.LOG") t d in
          let end = λ (d1 : Disk × Uart). append (codes "LEDGER.LOG") (codes "\n") d1 in
          rw (written, right, next)
            (three_steps text put end (λ d2. some (d2, n + 1)) (λ r. persist append es r.0 r.1)
              ∙ ap
                  (λ (r : Disk × Uart → Option ((Disk × Uart) × ℕ)).
                    text >>= λ t. put t >>= λ d1. end d1 >>= r)
                  (fun_ext λ d2.
                    persist-append_lines es d2 (n + 1) (omega arith)
                    ∙ ap (λ m. append_lines (commits es) d2 >>= λ d'. some (d', m)) count)
              ∙ sym (
                  three_steps text put end (append_lines (commits es))
                    (λ d'. some (d', n + suc (length (commits es))))))
    ]
  ]

  -- A sync of a well-formed history whose cursor is not at the head: of the pending events, the ledger
  -- commits with a timestamp other than 0, and no others, are appended to LEDGER.LOG in order, each
  -- context as a line; the cursor is then at the head, and the number of the lines is reported. The
  -- appending call is any function; where it, or a context that is no string, faults, the sync does.
  pub watcher_sync_to_disk-append_lines :
      (d : Disk) (u : Uart) {w : Watcher}
      → IsValid w
      → w.sync_cursor ≢ w.head
      → watcher_sync_to_disk append w d u ≡ (
          append_lines (commits (pending w)) (d, flushing u) >>= λ r. some (
            record w { sync_cursor = w.head },
            r.0,
            synced_report (length (commits (pending w))) r.1,
          ))
  watcher_sync_to_disk-append_lines d u {w} v ne =
      let few : 0 + length (pending w) < 2 ^ 32 =
        omega (arith, length-window blank 64 w.events w.sync_cursor (waiting w)) in
      sync-persist append d u v ne
      ∙ ap
          (λ m. m >>= λ (r : (Disk × Uart) × ℕ).
            some (record w { sync_cursor = w.head }, r.0.0, synced_report r.1 r.0.1))
          (persist-append_lines (pending w) (d, flushing u) 0 few)
      ∙ chain (append_lines (commits (pending w)) (d, flushing u)) _ _
      ∙ ap
          (λ n. append_lines (commits (pending w)) (d, flushing u) >>= λ r.
            some (record w { sync_cursor = w.head }, r.0, synced_report n r.1))
          (zero_add (length (commits (pending w))))
