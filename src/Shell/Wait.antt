-- ===== src/Shell/Wait.antt =====
-- The shell's wait for an answer: when it ends, and when it never does.
use ai_os_exchange.Prelude.{
  ℕ, zero, suc, ◌+◌, ◌<◌, ◌≡◌, ◌≢◌, refl, sym, ◌∙◌, ap, List, [], ◌∷◌, ◌++◌, length, arith, some,
  ==_of_eq, ==_of_ne, Bytes, c_string,
}
use ai_os_exchange.Ipc.{Message}
use ai_os_exchange.Ipc.Fifo
use ai_os_exchange.Shell.Calls.{System, done, blocked, await, exchange}

-- No message of the list has the type.
abbrev pub NoneOf : ℕ → List Message → Type 0
NoneOf type [] = Unit
NoneOf type (m ∷ q) = (m.type ≢ type) × NoneOf type q

module _ (sys : System) where
  open sys use {IsGood, waiting, Rest, rest, ipc_receive, receive_lem}

  -- A receive from a state in which a message waits.
  next_message :
      (resp m : Message) (q : List Message) (s : sys.State)
      → IsGood s
      → waiting s ≡ m ∷ q
      → (s' : sys.State) × (ipc_receive resp s ≡ some (m, s'))
        × (waiting s' ≡ q)
        × (rest s' ≡ rest s)
        × IsGood s'
  unfolding Fifo.receive
  next_message resp m q s good e =
      let (s', p, w, same, good') = receive_lem resp s good in
      (
        s',
        p ∙ ap (λ l. some ((Fifo.receive resp l).0, s')) e,
        w ∙ ap (λ l. (Fifo.receive resp l).1) e,
        same,
        good',
      )

  -- If the answer waits behind messages of other types, the wait ends with the answer after as many
  -- rounds as messages stand before it and one more, and takes these messages off the mailbox and
  -- no others; everything but the mailbox stays.
  pub await_answer :
      (fuel type : ℕ) (front behind : List Message) (resp m : Message) (s : sys.State)
      → IsGood s
      → waiting s ≡ front ++ m ∷ behind
      → NoneOf type front
      → m.type ≡ type
      → length front < fuel
      → (s' : sys.State) × (await sys fuel type resp s ≡ done (m, s'))
        × (waiting s' ≡ behind)
        × (rest s' ≡ rest s)
        × IsGood s'
  unfolding await
  await_answer zero type front behind resp m s good e others is enough = absurd (omega arith)
  await_answer (suc fuel) type [] behind resp m s good e others is enough =
      let (s', p, w, same, good') = next_message resp m behind s good e in
      (s', rw (p, ==_of_eq m.type type is), w, same, good')
  await_answer (suc fuel) type (o ∷ front) behind resp m s good e others is enough =
      let (s1, p, w, same, good1) = next_message resp o (front ++ m ∷ behind) s good e in
      let (s', p', w', same', good') =
        await_answer fuel type front behind o m s1 good1 w others.1 is (omega arith) in
      (s', rw (p, ==_of_ne o.type type others.0) p', w', same' ∙ same, good')

  -- If no message of the type waits, then the wait does not end within any number of rounds: nothing
  -- in the loop can bring a message. The type is not that of an empty mailbox's answer.
  pub await-blocked :
      (fuel type : ℕ) (waits : List Message) (resp : Message) (s : sys.State)
      → type ≢ 0
      → IsGood s
      → waiting s ≡ waits
      → NoneOf type waits
      → await sys fuel type resp s ≡ blocked
  unfolding await Fifo.receive
  await-blocked zero type waits resp s real good e others = refl
  await-blocked (suc fuel) type [] resp s real good e others =
      let (s', p, w, same, good') = receive_lem resp s good in
      let none_left = record resp { type = 0; length = 0 } in
      let p' = p ∙ ap (λ l. some ((Fifo.receive resp l).0, s')) e in
      let w' = w ∙ ap (λ l. (Fifo.receive resp l).1) e in
      rw (p', ==_of_ne 0 type (λ z. real (sym z)))
        (await-blocked fuel type [] none_left s' real good' w' tt)
  await-blocked (suc fuel) type (o ∷ waits) resp s real good e others =
      let (s1, p, w, same, good1) = next_message resp o waits s good e in
      rw (p, ==_of_ne o.type type others.0)
        (await-blocked fuel type waits o s1 real good1 w others.1)

  -- What an exchange comes to when each of its parts is known.
  pub exchange-done :
      (fuel : ℕ) (req resp m : Message) (text : Bytes) (s s1 s2 : sys.State)
      → sys.sys_ipc_send req s ≡ some s1
      → await sys fuel (req.type + 1) resp s1 ≡ done (m, s2)
      → c_string m.payload ≡ some text
      → exchange sys fuel req resp s ≡ done (text, s2)
  unfolding exchange
  exchange-done fuel req resp m text s s1 s2 sent waited read = rw (sent, waited, read)

  pub exchange-blocked :
      (fuel : ℕ) (req resp : Message) (s s1 : sys.State)
      → sys.sys_ipc_send req s ≡ some s1
      → await sys fuel (req.type + 1) resp s1 ≡ blocked
      → exchange sys fuel req resp s ≡ blocked
  unfolding exchange
  exchange-blocked fuel req resp s s1 sent waited = rw (sent, waited)
