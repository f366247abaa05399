-- ===== src/Shell/Bounds.antt =====
-- The sizes of the pieces that a line is cut into, and the end of the exchange mode: there is none.
use mathlib.Core.Path.{subst}
use ai_os_exchange.Prelude.{
  ℕ, zero, suc, ◌+◌, ◌-◌, ◌≤◌, ◌≡◌, refl, ◌∙◌, ap, [], ◌∷◌, ◌++◌, length, take, drop, arith, Option,
  none, some, ◌>>=◌, Bytes, length-append, length-take, length-drop, some_cancel, >>=-eq-some,
  if◌then◌else◌, get_or, u32, ◌==◌,
}
use ai_os_exchange.Ipc.{Message}
use ai_os_exchange.Terminal.{Terminal}
use ai_os_exchange.Terminal.Strings.{shell_strchr}
use ai_os_exchange.Shell.Calls.{System, done}
use ai_os_exchange.Shell.Request.{Command, cut_at, cut, command, words, parse}
use ai_os_exchange.Shell.Trade.{read_line, capture, trade_loop, trade_listen}
use ai_os_exchange.Shell.Done.{bind_elim, lift_elim}

-- The exchange mode is never left: whatever the fuel, it has no result.
trade_loop_endless :
    (sys : System) (stack : Message) (fuel n count : ℕ) (ctx : Terminal) (s : sys.State)
    {r : Terminal × sys.State}
    → trade_loop sys stack fuel n count ctx s ≡ done r
    → ⊥
unfolding trade_loop
trade_loop_endless sys stack fuel zero count ctx s e = cc
trade_loop_endless sys stack fuel (suc n) count ctx s e =
    bind_elim (read_line sys stack fuel 0 [] s) _
      (λ l _.
        let trade = get_or l.0 0 0 == 123 in
        let count' = if trade then u32 (count + 1) else count in
        bind_elim (if trade then capture sys stack fuel l.0 count' ctx l.1 else done (ctx, l.1)) _
          (λ r _. trade_loop_endless sys stack fuel n count' r.0 r.1))
      e

pub trade_listen_endless :
    (sys : System) (stack : Message) (fuel : ℕ) (ctx : Terminal) (s : sys.State)
    {r : Terminal × sys.State}
    → trade_listen sys stack fuel ctx s ≡ done r
    → ⊥
unfolding trade_listen
trade_listen_endless sys stack fuel ctx s =
    lift_elim (sys.sys_gpu_flush s) _ (λ s1 _. trade_loop_endless sys stack fuel fuel 0 _ s1)

-- A cut keeps the bytes but the one that it replaces.
shell_strchr_length :
    (c : ℕ) (s at : Bytes)
    → shell_strchr s c ≡ some (some at)
    → (1 ≤ length at) × (length at ≤ length s)
unfolding shell_strchr
shell_strchr_length c [] at e = cc
shell_strchr_length c (a ∷ s) at e = ground (arith, shell_strchr_length c s at)

-- The two parts of a string of which the second starts somewhere inside it.
parts_length :
    (s at front behind : Bytes)
    → 1 ≤ length at
    → length at ≤ length s
    → take (length s - length at) s ≡ front
    → drop 1 at ≡ behind
    → length front + 1 + length behind ≡ length s
parts_length s at front behind low high e e' =
    omega (arith, ap length e, ap length e', length-take (length s - length at) s, length-drop 1 at)

cut_at_length :
    (s : Bytes) (p : Option Bytes) {front behind : Bytes}
    → ((at : Bytes) → p ≡ some at → (1 ≤ length at) × (length at ≤ length s))
    → cut_at s p ≡ some (front, behind)
    → length front + 1 + length behind ≡ length s
cut_at_length s none inside e = cc
cut_at_length s (some at) {front} {behind} inside e =
    parts_length s at front behind (inside at refl).0 (inside at refl).1
      (ap (λ r. r.0) (some_cancel e)) (ap (λ r. r.1) (some_cancel e))

pub cut_length :
    (c : ℕ) (s front behind : Bytes)
    → cut c s ≡ some (some (front, behind))
    → length front + 1 + length behind ≡ length s
unfolding cut
cut_length c s front behind e =
    let (p, found, parts) = >>=-eq-some (shell_strchr s c) _ e in
    cut_at_length s p (λ at is. shell_strchr_length c s at (found ∙ ap some is)) (some_cancel parts)

-- A command that a line of 256 bytes has been cut into.
pub record IsCut (cmd : Command) : Type 0 where
  pub buffer_size : length cmd.buffer ≡ 256
  pub args_inside : (args : Bytes) → cmd.args ≡ some args → length args ≤ 256

module _ (name rest : Bytes) (size : length name + 1 + length rest ≡ 256) where
  words_IsCut : (a : Option (Bytes × Bytes)) → cut 32 rest ≡ some a → IsCut (command name rest a)
  words_IsCut none e = record {
    buffer_size = omega (arith, length-append name (0 ∷ rest));
    args_inside = λ args is. cc;
  }
  words_IsCut (some (verb, args)) e = record {
    buffer_size = omega (
      arith,
      length-append name (0 ∷ (verb ++ 0 ∷ args)),
      length-append verb (0 ∷ args),
      cut_length 32 rest verb args e,
    );
    args_inside = λ a is. omega (arith, cut_length 32 rest verb args e, ap length (some_cancel is));
  }

pub parse-IsCut :
    (s : Bytes) (cmd : Command) → length s ≡ 256 → parse s ≡ some (some cmd) → IsCut cmd
unfolding parse
parse-IsCut s cmd size e = go (cut 46 s) refl e
  where
    go :
        (d : Option (Option (Bytes × Bytes)))
        → cut 46 s ≡ d
        → (d >>= words) ≡ some (some cmd)
        → IsCut cmd
    go none is e = cc
    go (some none) is e = cc
    go (some (some (name, rest))) is e =
        let (a, found, made) = >>=-eq-some (cut 32 rest) _ e in
        subst IsCut (some_cancel (some_cancel made))
          (words_IsCut name rest (cut_length 46 s name rest is ∙ size) a found)
