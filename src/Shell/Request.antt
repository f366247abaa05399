-- ===== src/Shell/Request.antt =====
-- How `shell_main` cuts a line into words, and the messages that it makes of them.
use Prim.Native.String.{String}
use ai_os_exchange.Prelude.{
  ℕ, ◌-◌, ◌+◌, [], ◌∷◌, ◌++◌, if◌then◌else◌, ◌==◌, Bool, true, false, Option, none, some, ◌>>=◌,
  Bytes, codes, length, take, drop, overlay, copy_string,
}
use ai_os_exchange.Prelude.Int.{ℤ, pos, negsuc}
use ai_os_exchange.Ipc.{Message, mod_kernel, mod_gui_shell}
use ai_os_exchange.Syscall.{msg_fs_write_req}
use ai_os_exchange.Terminal.Strings.{shell_strcmp, shell_strchr}
use ai_os_exchange.Shell.Calls.{Run, fault}

abbrev pub is_zero : ℤ → Bool
is_zero (pos n) = n == 0
is_zero (negsuc n) = false

-- `shell_strcmp(s, word) == 0`
abbrev pub is_word : Bytes → String → Option Bool
is_word s word = shell_strcmp s (codes word ++ 0 ∷ []) >>= λ v. some (is_zero v)

-- `shell_strcmp(s, word) == 0 || shell_strcmp(s, alias) == 0`
abbrev pub is_either : Bytes → String → String → Option Bool
is_either s word alias = is_word s word >>= λ b. if b then some true else is_word s alias

-- `p = shell_strchr(s, c); if (p) { *p = '\0'; p++; }`: what stands before `p`, and from `p` on.
abbrev pub cut_at : Bytes → Option Bytes → Option (Bytes × Bytes)
cut_at s none = none
cut_at s (some at) = some (take (length s - length at) s, drop 1 at)

unfoldable pub cut : ℕ → Bytes → Option (Option (Bytes × Bytes))
cut c s = shell_strchr s c >>= λ p. some (cut_at s p)

-- A line that has been cut: the memory from `cmd_buffer` on, from `verb` on, and from `args` on,
-- if `args` is no null pointer.
pub record Command : Type 0 where
  pub buffer : Bytes
  pub verb : Bytes
  pub args : Option Bytes

-- `rest` is the memory from `verb` on, which has been cut at a space or has none.
abbrev pub command : Bytes → Bytes → Option (Bytes × Bytes) → Command
command name rest none = record { buffer = name ++ 0 ∷ rest; verb = rest; args = none }
command name rest (some (verb, args)) = record {
  buffer = name ++ 0 ∷ (verb ++ 0 ∷ args);
  verb = verb ++ 0 ∷ args;
  args = some args;
}

abbrev pub words : Option (Bytes × Bytes) → Option (Option Command)
words none = some none
words (some (name, rest)) = cut 32 rest >>= λ a. some (some (command name rest a))

-- `none` if the line has no dot.
unfoldable pub parse : Bytes → Option (Option Command)
parse cmd_buffer = cut 46 cmd_buffer >>= words

-- `shell_strcmp(verb, word) == 0 && args != 0`
abbrev pub args_of : String → Command → Option (Option Bytes)
args_of word cmd = is_word cmd.verb word >>= λ b. some (if b then cmd.args else none)

abbrev pub choose_args {ℓ} : {A : Type ℓ} → Option (Option Bytes) → (Bytes → Run A) → Run A → Run A
choose_args none f y = fault
choose_args (some none) f y = y
choose_args (some (some args)) f y = f args

-- A message to the kernel; `payload` is what the payload holds before.
abbrev pub request : Bytes → ℕ → ℕ → Message
request payload type length = record {
  sender_id = mod_gui_shell;
  target_id = mod_kernel;
  type = type;
  length = length;
  payload = payload;
}

-- A request without arguments.
abbrev pub plain_request : Bytes → ℕ → Message
plain_request payload type = request payload type 0

-- A request with a name. `payload` of more than 256 bytes is a write behind the message.
abbrev pub text_request : Bytes → ℕ → Bytes → Option Message
text_request payload type args = copy_string 255 args >>= λ text.
    some (request (overlay (text ++ 0 ∷ []) payload) type (length text + 1))

-- A request to write: the name, a NUL, the data, and a NUL that the length leaves out.
unfoldable pub write_file_request : Bytes → Bytes → Bytes → Option Message
write_file_request payload filename data_bytes = copy_string 255 filename >>= λ name.
    let data_start = length name + 1 in
    copy_string (254 - data_start) data_bytes >>= λ text. some (
      request (overlay (name ++ 0 ∷ (text ++ 0 ∷ [])) payload) msg_fs_write_req
        (data_start + length text))
