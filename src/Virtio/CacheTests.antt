-- ===== src/Virtio/CacheTests.antt =====
-- Two views of memory, in which an instruction copies the line of its address.
use ai_os_exchange.Prelude.{ℕ, ◌/◌, ◌≡◌, refl, if◌then◌else◌, ◌==◌, arith, ==_of_eq, ==_of_ne}
use ai_os_exchange.Virtio.Cache.{
  Caches, Copies, cache_flush, cache_invalidate, covers, cache_flush-cache_invalidate,
}

abbrev copy_line : ℕ → (ℕ → ℕ) → (ℕ → ℕ) → ℕ → ℕ
copy_line p from to a = if a / 64 == p / 64 then from a else to a

abbrev two_views : Caches
two_views = record {
  State = (ℕ → ℕ) × (ℕ → ℕ);
  clean = λ p s. (s.0, copy_line p s.0 s.1);
  discard = λ p s. (copy_line p s.1 s.0, s.1);
  cached = λ s. s.0;
  ram = λ s. s.1;
}

cleans : Copies two_views.clean two_views.cached two_views.ram
cleans = record {
  moved = λ p a s e. rw (==_of_eq (a / 64) (p / 64) e) refl;
  source = λ p a s. refl;
  others = λ p a s e. rw (==_of_ne (a / 64) (p / 64) e) refl;
}

discards : Copies two_views.discard two_views.ram two_views.cached
discards = record {
  moved = λ p a s e. rw (==_of_eq (a / 64) (p / 64) e) refl;
  source = λ p a s. refl;
  others = λ p a s e. rw (==_of_ne (a / 64) (p / 64) e) refl;
}

abbrev written : (ℕ → ℕ) × (ℕ → ℕ)
written = (λ a. 1, λ a. 0)

-- The byte at 200 is in the last of the three lines from 100 to 220.
cache_flush-cache_invalidate_example :
    (two_views.ram (cache_flush two_views 100 120 written) 200
      ≡ (if covers 100 120 200 then two_views.cached written 200 else two_views.ram written 200))
    × (two_views.cached (cache_invalidate two_views 100 120 written) 200
        ≡ (if covers 100 120 200 then two_views.ram written 200 else two_views.cached written 200))
cache_flush-cache_invalidate_example =
    cache_flush-cache_invalidate two_views 100 120 200 written cleans discards (omega arith)
