-- ===== src/Shell/Done.antt =====
-- From the result of a piece of the shell back to the results of its parts.
use ai_os_exchange.Prelude.{◌≡◌, refl, Bool, true, false, Option, none, some, Bytes}
use ai_os_exchange.Shell.Calls.{Run, done, blocked, fault, ◌>>-◌, lift, choose}
use ai_os_exchange.Shell.Request.{choose_args}

module _ {ℓ κ} {B : Type κ} {P : Type ℓ} where
  pub bind_elim {ι} :
      {A : Type ι} (r : Run A) (f : A → Run B) {b : B}
      → ((a : A) → r ≡ done a → f a ≡ done b → P)
      → (r >>- f) ≡ done b
      → P
  bind_elim (done a) f p e = p a refl e
  bind_elim blocked f p e = cc
  bind_elim fault f p e = cc

  pub lift_elim {ι} :
      {A : Type ι} (o : Option A) (f : A → Run B) {b : B}
      → ((a : A) → o ≡ some a → f a ≡ done b → P)
      → (lift o >>- f) ≡ done b
      → P
  lift_elim none f p e = cc
  lift_elim (some a) f p e = p a refl e

  pub choose_elim :
      (o : Option Bool) (x y : Run B) {b : B}
      → (x ≡ done b → P)
      → (y ≡ done b → P)
      → choose o x y ≡ done b
      → P
  choose_elim none x y p q e = cc
  choose_elim (some true) x y p q e = p e
  choose_elim (some false) x y p q e = q e

  pub choose_args_elim :
      (o : Option (Option Bytes)) (f : Bytes → Run B) (y : Run B) {b : B}
      → ((args : Bytes) → o ≡ some (some args) → f args ≡ done b → P)
      → (y ≡ done b → P)
      → choose_args o f y ≡ done b
      → P
  choose_args_elim none f y p q e = cc
  choose_args_elim (some none) f y p q e = q e
  choose_args_elim (some (some args)) f y p q e = p args refl e

pub done_cancel {ℓ} : {A : Type ℓ} {a b : A} → done a ≡ done b → a ≡ b
done_cancel e = cc
