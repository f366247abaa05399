-- ===== src/Shell/Capture.antt =====
-- The exchange mode: the lines that it reads, and a trade on its way to the disk.
use mathlib.Core.Path.{subst}
use native.Mathlib.Decide.{ℕ_discrete}
use ai_os_exchange.Prelude.{
  ℕ, zero, suc, ◌+◌, ◌≤◌, ◌<◌, ◌≡◌, ◌≢◌, [], ◌∷◌, ◌++◌, length, arith, Bytes, NoNul, NoNul-append,
  u8, length-append, Bool-cases, inl, inr, if_cases, u32, ==_of_eq, ==_of_ne, false, ◌==◌, ◌||◌,
  ltb, ltb→lt,
}
use ai_os_exchange.Ipc.{Message}
use ai_os_exchange.Shell.Calls.{System, done}
use ai_os_exchange.Shell.Trade.{after_char, read_line}
use ai_os_exchange.Shell.Line.{Without}
use ai_os_exchange.Shell.Done.{lift_elim, done_cancel}

-- A line of the serial port: at most 255 bytes, no NUL and no end of line among them.
pub record IsLine (line : Bytes) : Type 0 where
  pub short : length line ≤ 255
  pub no_nul : NoNul line
  pub no_feed : Without 10 line
  pub no_return : Without 13 line

Without-append : (c : ℕ) (s r : Bytes) → Without c s → Without c r → Without c (s ++ r)
Without-append c [] r h k = k
Without-append c (a ∷ s) r h k = (h.0, Without-append c s r h.1 k)

after_char-IsLine :
    (c timeout : ℕ) (line : Bytes)
    → c ≢ 10
    → c ≢ 13
    → length line < 255
    → IsLine line
    → IsLine (after_char c timeout line).1
unfolding after_char
after_char-IsLine c timeout line not_feed not_return room h = elim (ℕ_discrete c 0) [
  | yes nothing ↦ elim (Bool-cases (ltb 5000000 (u32 (timeout + 1)))) [
    | inl late ↦
        rw (==_of_eq c 0 nothing, late)
          (record { short = omega arith; no_nul = tt; no_feed = tt; no_return = tt })
    | inr early ↦ rw (==_of_eq c 0 nothing, early) h
  ]
  | no some_char ↦ rw (==_of_ne c 0 some_char) (record {
    short = omega (arith, length-append line (c ∷ []));
    no_nul = NoNul-append line (c ∷ []) h.no_nul (some_char, tt);
    no_feed = Without-append 10 line (c ∷ []) h.no_feed (not_feed, tt);
    no_return = Without-append 13 line (c ∷ []) h.no_return (not_return, tt);
  })
]

not_end : (c : ℕ) → (c == 10 || c == 13) ≡ false → (c ≢ 10) × (c ≢ 13)
not_end c e = (ground arith, ground arith)

-- A line that the exchange mode reads from the serial port, after any number of characters, waits and
-- timeouts: it has at most 255 bytes, none of them a NUL or an end of line.
pub read_line-IsLine :
    (sys : System) (stack : Message) (fuel timeout : ℕ) (line : Bytes) (s : sys.State)
    {r : Bytes × sys.State}
    → IsLine line
    → read_line sys stack fuel timeout line s ≡ done r
    → IsLine r.0
unfolding read_line
read_line-IsLine sys stack zero timeout line s h e = cc
read_line-IsLine sys stack (suc fuel) timeout line s h e =
    if_cases (ltb (length line) 255) _ _
      (λ room. lift_elim (sys.sys_uart_recv s) _ (λ x _.
        let next = after_char (u8 x.0) timeout line in
        if_cases (u8 x.0 == 10 || u8 x.0 == 13) _ _
          (λ _ q. subst (λ r. IsLine r.0) (done_cancel q) h)
          (λ goes_on.
            let (not_feed, not_return) = not_end (u8 x.0) goes_on in
            read_line-IsLine sys stack fuel next.0 next.1 x.1 (
              after_char-IsLine (u8 x.0) timeout line not_feed not_return
                (ltb→lt (length line) 255 room) h))))
      (λ _ q. subst (λ r. IsLine r.0) (done_cancel q) h) e
