-- ===== src/Watcher/Ledger.antt =====
-- `watcher_commit_ledger`: the receipt of a transaction in the history, and on the console.
use ai_os_exchange.Prelude.{
  ℕ, ◌^◌, ◌≤◌, ◌<◌, ◌≡◌, refl, [], ◌∷◌, ◌++◌, arith, Option, some, ◌>>=◌, Bytes, codes, NoNul,
  length, c_string, c_string-append_nul, length-append, NoNul-append, take_of_le,
}
use ai_os_exchange.Prelude.Int.{ℤ}
use ai_os_exchange.Uart.{Uart, uart_print}
use ai_os_exchange.Uart.Hex.{u64_to_hex_str, hex_value, u64_to_hex_str_lem}
use ai_os_exchange.Watcher.{
  Watcher, event_type_ledger_commit, watcher_log_event, advance, put, entry,
}
use ai_os_exchange.Watcher.Decimal.{i32_to_dec_str, signed_value, IsNegatable, i32_to_dec_str_lem}
use ai_os_exchange.Watcher.History.{watcher_log_event_total}

-- The string built in `context_buf`, without its NUL: four loops, each up to a NUL.
unfoldable pub receipt : ℕ → ℤ → Option Bytes
receipt tx_hash volume = c_string (u64_to_hex_str tx_hash) >>= λ hash_str.
    i32_to_dec_str volume >>= λ vol_buf. c_string vol_buf >>= λ vol_str.
    some (codes "TX: 0x" ++ (hash_str ++ (codes " | VOL: " ++ vol_str)))

unfoldable pub watcher_commit_ledger : ℕ → ℕ → ℤ → Watcher → Uart → Option (Watcher × Uart)
watcher_commit_ledger now tx_hash volume w u = receipt tx_hash volume >>= λ text.
    watcher_log_event now event_type_ledger_commit 0 (some (text ++ 0 ∷ [])) w >>= λ w'. some (
      w',
      uart_print (codes "\n")
          (uart_print text (uart_print (codes "[LEDGER] Receipt Committed: ") u)),
    )

-- The text of a receipt: both numbers, spelled in full.
pub record IsReceipt (tx_hash : ℕ) (volume : ℤ) (text : Bytes) : Type 0 where
  pub hash_str : Bytes
  pub vol_str : Bytes
  pub layout : text ≡ codes "TX: 0x" ++ (hash_str ++ (codes " | VOL: " ++ vol_str))
  pub hash : hex_value 0 hash_str ≡ tx_hash
  pub hash_digits : length hash_str ≡ 16
  pub volume_value : signed_value vol_str ≡ volume
  pub no_nul : NoNul text
  pub fits : length text ≤ 41

receipt_total :
    (tx_hash : ℕ) (volume : ℤ)
    → tx_hash < 2 ^ 64
    → IsNegatable volume
    → (text : Bytes) × (receipt tx_hash volume ≡ some text) × IsReceipt tx_hash volume text
unfolding receipt
receipt_total tx_hash volume h k =
    let (hs, p, hl, hn, hv) = u64_to_hex_str_lem tx_hash h in
    let (vs, q, vv, vn, vl) = i32_to_dec_str_lem volume k in
    let tail : Bytes = codes " | VOL: " ++ vs in
    (
      codes "TX: 0x" ++ (hs ++ tail),
      rw (p, c_string-append_nul hs [] hn, q, c_string-append_nul vs [] vn),
      record {
        hash_str = hs;
        vol_str = vs;
        layout = refl;
        hash = hv;
        hash_digits = hl;
        volume_value = vv;
        no_nul =
            NoNul-append (codes "TX: 0x") (hs ++ tail) (omega arith)
              (NoNul-append hs tail hn (NoNul-append (codes " | VOL: ") vs (omega arith) vn));
        fits = omega (arith, length-append hs tail);
      },
    )

-- Committing a transaction, with any 64-bit hash and any 32-bit volume but the least, returns:
-- it logs one ledger entry whose context is the whole receipt, with both numbers spelled in
-- full, and prints it.
pub watcher_commit_ledger_lem :
    (now tx_hash : ℕ) (volume : ℤ) (w : Watcher) (u : Uart)
    → tx_hash < 2 ^ 64
    → IsNegatable volume
    → (text : Bytes) × IsReceipt tx_hash volume text
      × (watcher_commit_ledger now tx_hash volume w u
          ≡ some (
            advance (put (entry now event_type_ledger_commit 0 text w) w),
            uart_print
                (codes "\n")
                (uart_print text (uart_print (codes "[LEDGER] Receipt Committed: ") u)),
          ))
unfolding watcher_commit_ledger
watcher_commit_ledger_lem now tx_hash volume w u h k =
    let (text, p, r) = receipt_total tx_hash volume h k in
    (
      text,
      r,
      rw (
        p,
        watcher_log_event_total now 5 0 text [] w r.no_nul,
        take_of_le 63 text (omega (arith, r.fits)),
      ),
    )
