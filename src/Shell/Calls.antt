-- ===== src/Shell/Calls.antt =====
-- What the shell asks of the kernel, as an interface: its system calls, `sys_ipc_send`,
-- `ipc_receive`, `sys_gpu_flush`, `sys_hw_drain` and `sys_uart_recv` of modules/shell_gui/main.c, with
-- the promise that a mailbox is a bounded queue; and the loop that waits for an answer.
use ai_os_exchange.Prelude.{
  ℕ, zero, suc, ◌+◌, ◌≡◌, List, if◌then◌else◌, ◌==◌, Bool, true, false, Option, none, some, Bytes,
  c_string,
}
use ai_os_exchange.Ipc.{Message}
use ai_os_exchange.Ipc.Fifo

-- `none` is a call that does not return.
pub record System : Type 1 where
  pub State : Type 0
  pub sys_ipc_send : Message → State → Option State
  pub ipc_receive : Message → State → Option (Message × State)
  pub sys_gpu_flush : State → Option State
  pub sys_hw_drain : State → Option State
  pub sys_uart_recv : State → Option (ℕ × State)
  -- The states that can occur, and the messages that wait in one.
  pub IsGood : State → Type 0
  pub waiting : State → List Message
  -- What there is besides the messages.
  pub Rest : Type 0
  pub rest : State → Rest
  -- A receive returns, is that of the queue, and leaves the rest.
  pub receive_lem :
      (m : Message) (s : State)
      → IsGood s
      → (s' : State) × (ipc_receive m s ≡ some ((Fifo.receive m (waiting s)).0, s'))
        × (waiting s' ≡ (Fifo.receive m (waiting s)).1)
        × (rest s' ≡ rest s)
        × IsGood s'

-- How a piece of the shell ends: with a result, not within the fuel of its loops, or never, since a
-- system call does not return or an access leaves its object.
pub data Run {ℓ} (A : Type ℓ) : Type ℓ where
  done : A → Run A
  blocked : Run A
  fault : Run A

infixl 5 ◌>>-◌
abbrev pub ◌>>-◌ {ℓ κ} : {A : Type ℓ} {B : Type κ} → Run A → (A → Run B) → Run B
done a >>- f = f a
blocked >>- f = blocked
fault >>- f = fault

abbrev pub lift {ℓ} : {A : Type ℓ} → Option A → Run A
lift none = fault
lift (some a) = done a

abbrev pub choose {ℓ} : {A : Type ℓ} → Option Bool → Run A → Run A → Run A
choose none x y = fault
choose (some true) x y = x
choose (some false) x y = y

module _ (sys : System) where
  -- `while (waiting)`: messages of any other type are dropped. `resp` is what the buffer holds.
  unfoldable pub await : ℕ → ℕ → Message → sys.State → Run (Message × sys.State)
  await zero type resp s = blocked
  await (suc fuel) type resp s = lift (sys.ipc_receive resp s) >>- λ r.
      let rest = await fuel type r.0 r.1 in if r.0.type == type then done r else rest

  -- A request is sent, and its answer, of the next type, is awaited: the text of the answer.
  unfoldable pub exchange : ℕ → Message → Message → sys.State → Run (Bytes × sys.State)
  exchange fuel req resp s = lift (sys.sys_ipc_send req s) >>- λ s1.
      await fuel (req.type + 1) resp s1 >>- λ r.
      lift (c_string r.0.payload) >>- λ text. done (text, r.1)
