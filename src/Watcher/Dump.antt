-- ===== src/Watcher/Dump.antt =====
-- What `watcher_dump_history` prints: the events in memory, the oldest first.
use ai_os_exchange.Prelude.{
  ℕ, zero, suc, ◌+◌, ◌%◌, ◌<◌, ◌≡◌, refl, sym, ◌∙◌, ap, List, [], ◌∷◌, ◌++◌, if◌then◌else◌, ◌==◌,
  Option, some, ◌>>=◌, Bytes, codes, arith, c_string, get_or, append_assoc, append-nil, some_cancel,
  u32, Bool-cases, inl, inr, >>=-eq-some,
}
use ai_os_exchange.Uart.{Uart, uart_print}
use ai_os_exchange.Uart.Hex.{hex_digits, uart_print_hex}
use ai_os_exchange.Window.{window, window_first}
use ai_os_exchange.Watcher.{
  Event, Watcher, blank, dump_from, watcher_dump_history, IsValid, contents,
}
use ai_os_exchange.Watcher.Texts.{AllText, AllText-window}

abbrev pub hex : ℕ → Bytes
hex v = codes "0x" ++ hex_digits 16 v []

-- The line of an event: its number in the dump, its type, and its context.
abbrev pub event_line : ℕ → ℕ → Bytes → Bytes
event_line i type text =
    codes "Event ["
    ++ (hex i ++ (codes "] Type: " ++ (hex type ++ (codes " | Ctx: " ++ (text ++ codes "\n")))))

-- The lines of a list of events, numbered from `i` on.
pub event_lines : ℕ → List Event → Option Bytes
event_lines i [] = some []
event_lines i (e ∷ es) =
    let rest = event_lines (i + 1) es in
    c_string e.context >>= λ text. rest >>= λ lines. some (event_line i e.type text ++ lines)

-- The texts of a list of events are there.
event_lines_total :
    (i : ℕ) (es : List Event) → AllText es → (lines : Bytes) × (event_lines i es ≡ some lines)
unfolding event_lines
event_lines_total i [] h = ([], refl)
event_lines_total i (e ∷ es) ((text, read), h) =
    let (lines, made) = event_lines_total (i + 1) es h in
    (event_line i e.type text ++ lines, rw (read, made) refl)

-- Strings that are printed one after the other.
append_seven :
    (s a b c d e f g rest : Bytes)
    → (((((((s ++ a) ++ b) ++ c) ++ d) ++ e) ++ f) ++ g) ++ rest
      ≡ s ++ ((a ++ (b ++ (c ++ (d ++ (e ++ (f ++ g)))))) ++ rest)
append_seven s a b c d e f g rest = simp (append_assoc)

dump_from-event_lines :
    (n i current : ℕ) (w : Watcher) (u : Uart) (lines : Bytes)
    → current < 64
    → event_lines i (window blank 64 w.events current n) ≡ some lines
    → dump_from n i current w u ≡ some (uart_print lines u)
unfolding dump_from event_lines uart_print_hex window
dump_from-event_lines zero i current w u lines h e =
    ap (λ s. some (record u { sent = s })) (sym (append-nil u.sent))
    ∙ ap (λ l. some (uart_print l u)) (some_cancel e)
dump_from-event_lines (suc n) i current w u lines h e =
    let event = get_or w.events current blank in
    let first = ap (event_lines i) (sym (window_first blank 64 w.events current n h)) ∙ e in
    let (text, read, more) = >>=-eq-some (c_string event.context) _ first in
    let (rest, made, done) =
      >>=-eq-some (event_lines (i + 1) (window blank 64 w.events ((current + 1) % 64) n)) _ more in
    let next : u32 (current + 1) % 64 ≡ (current + 1) % 64 = omega arith in
    let behind =
      ((((((u.sent ++ codes "Event [") ++ hex i) ++ codes "] Type: ") ++ hex event.type)
          ++ codes " | Ctx: ")
        ++ text)
      ++ codes "\n" in
    rw (read, next)
      (dump_from-event_lines n (i + 1) ((current + 1) % 64) w (record u { sent = behind }) rest
          (omega arith) made
        ∙ ap (λ s. some (record u { sent = s }))
            (append_seven u.sent (codes "Event [") (hex i) (codes "] Type: ") (hex event.type)
              (codes " | Ctx: ") text (codes "\n") rest)
        ∙ ap (λ l. some (uart_print l u)) (some_cancel done))

-- In a well-formed history of strings the dump returns. It prints that nothing was logged, if the
-- history is empty, and otherwise a line for each event in memory, the oldest first.
pub watcher_dump_history_lem :
    (w : Watcher) (u : Uart)
    → IsValid w
    → AllText w.events
    → let start = uart_print (codes "\n=== WATCHER MEMORY DUMP ===\n") u in
      (lines : Bytes) × (event_lines 0 (contents w) ≡ some lines)
      × (watcher_dump_history w u
          ≡ some (
              if w.count == 0
              then uart_print (codes "No events logged.\n") start
              else uart_print (codes "===========================\n") (uart_print lines start)))
unfolding watcher_dump_history
watcher_dump_history_lem w u v texts =
    let start = uart_print (codes "\n=== WATCHER MEMORY DUMP ===\n") u in
    let (lines, made) =
      event_lines_total 0 (contents w) (AllText-window w.events w.tail w.count texts) in
    (
      lines,
      made,
      elim (Bool-cases (w.count == 0)) [
        | inl empty ↦ rw (empty) refl
        | inr some_events ↦
            rw (some_events, dump_from-event_lines w.count 0 w.tail w start lines v.tail_in made)
              refl
      ],
    )
