-- ===== src/Shell/Line.antt =====
-- What the shell makes of a typed line: the words of the line, and the request for a file to be
-- written.
use ai_os_exchange.Prelude.{
  ℕ, ◌+◌, ◌-◌, ◌≤◌, ◌<◌, ◌≡◌, ◌≢◌, refl, ◌∙◌, ap, [], ◌∷◌, ◌++◌, length, take, drop, arith, none,
  some, Bytes, codes, NoNul, copy_string-append_nul, take_of_le, take-append_all, append_assoc,
  length-append,
}
use ai_os_exchange.Ipc.{Message}
use ai_os_exchange.Syscall.Requests.{write_message}
use ai_os_exchange.Terminal.{term_print}
use ai_os_exchange.Terminal.Strings.{shell_strcmp, shell_strchr, difference}
use ai_os_exchange.Shell.Calls.{System, done}
use ai_os_exchange.Shell.Request.{Command, cut, parse, write_file_request}
use ai_os_exchange.Shell.{
  Shell, ask, write_command, storage_command, namespace_command, run_command,
}

-- No byte is `c`.
abbrev pub Without : ℕ → Bytes → Type 0
Without c [] = Unit
Without c (a ∷ s) = (a ≢ c) × Without c s

shell_strchr_found :
    (c : ℕ) (s rest : Bytes)
    → 0 < c
    → c < 256
    → NoNul s
    → Without c s
    → shell_strchr (s ++ c ∷ rest) c ≡ some (some (c ∷ rest))
unfolding shell_strchr
shell_strchr_found c [] rest real small clean free = ground arith
shell_strchr_found c (a ∷ s) rest real small clean free =
    ground (arith, shell_strchr_found c s rest real small clean.1 free.1)

shell_strchr_missing :
    (c : ℕ) (s rest : Bytes)
    → 0 < c
    → c < 256
    → NoNul s
    → Without c s
    → shell_strchr (s ++ 0 ∷ rest) c ≡ some none
unfolding shell_strchr
shell_strchr_missing c [] rest real small clean free = refl
shell_strchr_missing c (a ∷ s) rest real small clean free =
    ground (arith, shell_strchr_missing c s rest real small clean.1 free.1)

-- A string is cut at the first `c`.
cut_found :
    (c : ℕ) (s rest : Bytes)
    → 0 < c
    → c < 256
    → NoNul s
    → Without c s
    → cut c (s ++ c ∷ rest) ≡ some (some (s, rest))
unfolding cut
cut_found c s rest real small clean free = rw (shell_strchr_found c s rest real small clean free) (
    ap (λ front. some (some (front, rest)))
      (take-append_all (length (s ++ c ∷ rest) - length (c ∷ rest)) s (c ∷ rest)
        (omega (arith, length-append s (c ∷ rest)))))

cut_missing :
    (c : ℕ) (s rest : Bytes)
    → 0 < c
    → c < 256
    → NoNul s
    → Without c s
    → cut c (s ++ 0 ∷ rest) ≡ some none
unfolding cut
cut_missing c s rest real small clean free =
    rw (shell_strchr_missing c s rest real small clean free) refl

-- The message for a file to be written, of a name and data that end with NULs.
write_file_request_lem :
    (payload name data_bytes rest rest' : Bytes)
    → NoNul name
    → NoNul data_bytes
    → length name + 1 + length data_bytes ≤ 254
    → write_file_request payload (name ++ 0 ∷ rest) (data_bytes ++ 0 ∷ rest')
      ≡ some (
          write_message 3 name data_bytes
            (0 ∷ drop (length (name ++ 0 ∷ (data_bytes ++ 0 ∷ []))) payload))
unfolding write_file_request
write_file_request_lem payload name data_bytes rest rest' clean clean' fits =
    rw
      (
        copy_string-append_nul 255 name rest clean,
        take_of_le 255 name (omega arith),
        copy_string-append_nul (254 - (length name + 1)) data_bytes rest' clean',
        take_of_le (254 - (length name + 1)) data_bytes (omega arith),
        append_assoc,
        append_assoc data_bytes,
      )
      refl

-- A line of a namespace, a verb and arguments.
parse-words :
    (name verb args : Bytes)
    → NoNul name
    → Without 46 name
    → NoNul verb
    → Without 32 verb
    → parse (name ++ 46 ∷ (verb ++ 32 ∷ args))
      ≡ some (
          some (record {
            buffer = name ++ 0 ∷ (verb ++ 0 ∷ args);
            verb = verb ++ 0 ∷ args;
            args = some args;
          }))
unfolding parse
parse-words name verb args clean free clean' free' =
    rw
      (
        cut_found 46 name (verb ++ 32 ∷ args) (omega arith) (omega arith) clean free,
        cut_found 32 verb args (omega arith) (omega arith) clean' free',
      )
      refl

-- The buffer after the words of `s.write` have been cut.
abbrev pub write_words : Bytes → Bytes
write_words args = codes "s" ++ 0 ∷ (codes "write" ++ 0 ∷ args)

abbrev write_line : Bytes → Command
write_line args = record {
  buffer = write_words args;
  verb = codes "write" ++ 0 ∷ args;
  args = some args;
}

module _ (sys : System) (stack : Message) (fuel : ℕ) (sh : Shell sys stack) where
  namespace_command-write :
      (args : Bytes) (sh1 : Shell sys stack)
      → namespace_command sys stack fuel (write_line args) sh1
        ≡ write_command sys stack fuel (write_line args) args sh1
  unfolding namespace_command storage_command shell_strcmp difference
  namespace_command-write args sh1 = refl

  run_command-write :
      (args : Bytes)
      → sh.cmd_buffer ≡ codes "s.write " ++ args
      → run_command sys stack fuel sh
        ≡ write_command sys stack fuel
            (write_line args)
            args
            (record sh { cmd_buffer = write_words args })
  unfolding run_command
  run_command-write args e =
      let parsed : parse sh.cmd_buffer ≡ some (some (write_line args)) =
        ap parse e
        ∙ parse-words (codes "s") (codes "write") args (omega arith) (omega arith) (omega arith)
            (omega arith) in
      rw (parsed) (namespace_command-write args (record sh { cmd_buffer = write_words args }))

  -- The line `s.write NAME DATA`, of a name without a space and at most 254 bytes with the data, asks
  -- the kernel to write the file: the message has the name, a NUL and the data, and the length of
  -- the three. The words of the line are left cut in the buffer.
  pub run_command-write_request :
      (name data_bytes rest : Bytes)
      → NoNul name
      → Without 32 name
      → NoNul data_bytes
      → length name + 1 + length data_bytes ≤ 254
      → sh.cmd_buffer ≡ codes "s.write " ++ (name ++ 32 ∷ (data_bytes ++ 0 ∷ rest))
      → run_command sys stack fuel sh
        ≡ ask sys stack fuel
            (write_message 3 name data_bytes
              (0 ∷ drop (length (name ++ 0 ∷ (data_bytes ++ 0 ∷ []))) stack.payload))
            []
            (record sh { cmd_buffer = write_words (name ++ 0 ∷ (data_bytes ++ 0 ∷ rest)) })
  unfolding write_command
  run_command-write_request name data_bytes rest clean free clean' fits e =
      let args = name ++ 32 ∷ (data_bytes ++ 0 ∷ rest) in
      let kept : take (length (write_words args) - length args) (write_words args)
          ≡ codes "s" ++ 0 ∷ (codes "write" ++ 0 ∷ []) =
        take-append_all (length (write_words args) - length args)
          (codes "s" ++ 0 ∷ (codes "write" ++ 0 ∷ [])) args (omega arith) in
      run_command-write args e
      ∙ rw
          (
            cut_found 32 name (data_bytes ++ 0 ∷ rest) (omega arith) (omega arith) clean free,
            write_file_request_lem stack.payload name data_bytes (data_bytes ++ 0 ∷ rest) rest clean
                clean' fits,
            kept,
          )
          refl

  -- The line `s.write NAME` without data prints how the command is used, and calls nothing: the state
  -- of the system is as it was.
  pub run_command_usage :
      (name rest : Bytes)
      → NoNul name
      → Without 32 name
      → sh.cmd_buffer ≡ codes "s.write " ++ (name ++ 0 ∷ rest)
      → run_command sys stack fuel sh
        ≡ done (record sh {
          cmd_buffer = write_words (name ++ 0 ∷ rest);
          ctx = term_print (codes "Usage: s.write <filename> <data>\n") sh.ctx;
        })
  unfolding write_command
  run_command_usage name rest clean free e =
      run_command-write (name ++ 0 ∷ rest) e
      ∙ rw (cut_missing 32 name rest (omega arith) (omega arith) clean free) refl
