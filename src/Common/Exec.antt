-- ===== src/Common/Exec.antt =====
-- Handlers that read and change a state and may fail. What a statement wrote before a failure stays
-- written, unless the statements run inside a transaction.
pub mod Moves
pub mod Inversion
use drone_dispatch.Common.{Bool, true, false, Option, none, some}

pub data Result {ℓ} (E A : Type ℓ) : Type ℓ where
  ok : A → Result E A
  err : E → Result E A

abbrev pub Exec {ℓ} : Type ℓ → Type ℓ → Type ℓ → Type ℓ
Exec E S A = S → Result E A × S

module _ {ℓ} {E S A : Type ℓ} where
  abbrev pub pure : A → Exec E S A
  pure a s = (ok a, s)

  abbrev pub fail : E → Exec E S A
  fail e s = (err e, s)

  abbrev pub lift : Result E A → Exec E S A
  lift r s = (r, s)

  -- `value.ok_or(e)?`
  abbrev pub ok_or : Option A → E → Exec E S A
  ok_or none e = fail e
  ok_or (some a) e = pure a

  -- A read of the state.
  abbrev pub gets : (S → A) → Exec E S A
  gets f s = (ok (f s), s)

  abbrev pub finish : S → Result E (Result E A) × S → Result E A × S
  finish s (ok r, s') = (r, s')
  finish s (err e, s') = (err e, s)

  -- `begin`, the statements of `m`, and `commit`: the value of `m` is what the code returns after the
  -- commit, an error among them; a failure inside `m` drops the transaction, which rolls it back.
  abbrev pub transaction : Exec E S (Result E A) → Exec E S A
  transaction m s = finish s (m s)

module _ {ℓ} {E S : Type ℓ} where
  abbrev pub modify : (S → S) → Exec E S (Unit {ℓ})
  modify f s = (ok tt, f s)

  -- `if bad { return Err(e) }`
  abbrev pub reject_if : Bool → E → Exec E S (Unit {ℓ})
  reject_if true e s = (err e, s)
  reject_if false e s = (ok tt, s)

module _ {ℓ} {E S A B : Type ℓ} where
  abbrev pub continue : (A → Exec E S B) → Result E A × S → Result E B × S
  continue f (ok a, s) = f a s
  continue f (err e, s) = (err e, s)

  infixl 5 ◌>>=◌ ◌>>◌
  abbrev pub ◌>>=◌ : Exec E S A → (A → Exec E S B) → Exec E S B
  ◌>>=◌ m f s = continue f (m s)

  abbrev pub ◌>>◌ : Exec E S A → Exec E S B → Exec E S B
  m >> n = m >>= λ _. n
