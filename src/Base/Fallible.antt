-- ===== src/Base/Fallible.antt =====
-- What a call of the program ends in. The program throws `errno` values as exceptions; a read or
-- write outside a buffer and a division by zero, which C++ leaves undefined, are `fault`.
use mathlib.Core.Bool.{Bool, true, false}
use mathlib.Core.Option.{Option, none, some}

pub data Errno : Type 0 where
  eio einval ebadf enodata enotdir : Errno

pub data Result {ℓ} (A : Type ℓ) : Type ℓ where
  ok : A → Result A
  throw : Errno → Result A
  fault : Result A

infixl 5 ◌>>=◌ ◌>>◌
abbrev pub ◌>>=◌ {ℓ κ} : {A : Type ℓ} {B : Type κ} → Result A → (A → Result B) → Result B
ok a >>= f = f a
throw e >>= f = throw e
fault >>= f = fault

abbrev pub ◌>>◌ {ℓ} : {B : Type ℓ} → Result (Unit {0}) → Result B → Result B
m >> k = m >>= λ _. k

-- `if(test) throw e;`
abbrev pub throw_if : Bool → Errno → Result (Unit {0})
throw_if true e = throw e
throw_if false e = ok tt

-- An element of a vector; out of range is undefined behaviour.
abbrev pub or_fault {ℓ} : {A : Type ℓ} → Option A → Result A
or_fault none = fault
or_fault (some a) = ok a
