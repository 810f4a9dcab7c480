-- ===== src/Prelude/Outcome.antt =====
-- What a call of the kernel comes to: a value, an error code, a panic, or behaviour that C leaves
-- undefined.
use Prim.Native.Nat.{ℕ}

pub data Outcome (A : Type 0) : Type 0 where
  ok : A → Outcome A
  error : (code : ℕ) → Outcome A
  panic undefined : Outcome A

infixl 5 ◌>>=◌
abbrev pub ◌>>=◌ : {A B : Type 0} → Outcome A → (A → Outcome B) → Outcome B
ok a >>= f = f a
error code >>= f = error code
panic >>= f = panic
undefined >>= f = undefined
