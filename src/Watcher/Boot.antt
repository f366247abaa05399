-- ===== src/Watcher/Boot.antt =====
-- `watcher_init`: the history at the start of the kernel.
use ai_os_exchange.Prelude.{
  suc, ◌<◌, ◌≡◌, refl, ap, List, [], ◌∷◌, Bytes, length, set, arith, c_string, some,
}
use ai_os_exchange.Uart.{Uart}
use ai_os_exchange.Window.{window}
use ai_os_exchange.Watcher.{
  Event, Watcher, cleared, clear_all, watcher_init, IsValid, contents, pending,
}
use ai_os_exchange.Watcher.Texts.{AllText}

-- Every context has room for its NUL.
abbrev pub AllRoom : List Event → Type 0
AllRoom [] = Unit
AllRoom (e ∷ es) = (0 < length e.context) × AllRoom es

length-clear_all : (es : List Event) → length (clear_all es) ≡ length es
unfolding clear_all
length-clear_all [] = refl
length-clear_all (e ∷ es) = ap suc (length-clear_all es)

c_string-set_nul : (s : Bytes) → 0 < length s → c_string (set s 0 0) ≡ some []
unfolding c_string
c_string-set_nul [] h = absurd (omega arith)
c_string-set_nul (c ∷ s) h = refl

clear_all-AllText : (es : List Event) → AllRoom es → AllText (clear_all es)
unfolding clear_all cleared
clear_all-AllText [] h = tt
clear_all-AllText (e ∷ es) h = (([], c_string-set_nul e.context h.0), clear_all-AllText es h.1)

-- Whatever the 64 slots held before, with contexts of at least one byte: after `watcher_init` the
-- history is well formed, every context is a string, and nothing is in memory or waits for a sync.
pub watcher_init_lem :
    (w : Watcher) (u : Uart)
    → length w.events ≡ 64
    → AllRoom w.events
    → let w' = (watcher_init w u).0 in
      IsValid w' × AllText w'.events × (contents w' ≡ []) × (pending w' ≡ [])
unfolding watcher_init window
watcher_init_lem w u sized room = (
  record {
    storage = omega (arith, length-clear_all w.events);
    head_in = omega arith;
    tail_in = omega arith;
    cursor_in = omega arith;
    count_in = omega arith;
    ends = refl;
    filling = λ _. (refl, omega arith);
  },
  clear_all-AllText w.events room,
  refl,
  refl,
)
