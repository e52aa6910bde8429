-- ===== src/Common/Exec/Moves.antt =====
-- How an action moves the state: a relation between the states before and after it that holds
-- whether it returns or fails, with one rule for each way to build an action.
use drone_dispatch.Common.{Bool, true, false, Option, none, some, if◌then◌else◌}
use drone_dispatch.Common.Exec.{
  Result, ok, err, Exec, pure, fail, ok_or, gets, finish, transaction, reject_if, continue, ◌>>=◌,
}

pub record Moves {ℓ} {E S A : Type ℓ} (R : S → S → Type ℓ) (m : Exec E S A) : Type ℓ where
  pub along : (s : S) → R s (m s).1

-- A relation that holds of a state and itself, and of the ends of two moves.
pub record IsPreorder {ℓ} {S : Type ℓ} (R : S → S → Type ℓ) : Type ℓ where
  pub same : (s : S) → R s s
  pub chain : (s t u : S) → R s t → R t u → R s u

finish-moves {ℓ} :
    {E S A : Type ℓ} (R : S → S → Type ℓ) (s s' : S) (r : Result E (Result E A))
    → R s s
    → R s s'
    → R s (finish s (r, s')).1
finish-moves R s s' (ok r) h k = k
finish-moves R s s' (err e) h k = h

module _ {ℓ} {E S A : Type ℓ} {R : S → S → Type ℓ} where
  pub Moves-pure : IsPreorder R → (a : A) → Moves {E = E} R (pure a)
  Moves-pure o a = record { along = λ s. o.same s }

  pub Moves-fail : IsPreorder R → (e : E) → Moves {A = A} R (fail e)
  Moves-fail o e = record { along = λ s. o.same s }

  pub Moves-ok_or : IsPreorder R → (a : Option A) (e : E) → Moves R (ok_or a e)
  Moves-ok_or o none e = record { along = λ s. o.same s }
  Moves-ok_or o (some a) e = record { along = λ s. o.same s }

  pub Moves-gets : IsPreorder R → (f : S → A) → Moves {E = E} R (gets f)
  Moves-gets o f = record { along = λ s. o.same s }

  pub Moves-if :
      (b : Bool) (m n : Exec E S A) → Moves R m → Moves R n → Moves R (if b then m else n)
  Moves-if true m n km kn = km
  Moves-if false m n km kn = kn

  pub Moves-transaction :
      IsPreorder R → (m : Exec E S (Result E A)) → Moves R m → Moves R (transaction m)
  Moves-transaction o m k = record {
    along = λ s. let (r, s') = m s in finish-moves R s s' r (o.same s) (k.along s);
  }

module _ {ℓ} {E S : Type ℓ} {R : S → S → Type ℓ} where
  pub Moves-reject_if : IsPreorder R → (b : Bool) (e : E) → Moves R (reject_if b e)
  Moves-reject_if o true e = record { along = λ s. o.same s }
  Moves-reject_if o false e = record { along = λ s. o.same s }

module _ {ℓ} {E S A B : Type ℓ} {R : S → S → Type ℓ} where
  continue-moves :
      IsPreorder R
      → (f : A → Exec E S B) → ((a : A) → Moves R (f a))
      → (s s' : S) (r : Result E A) → R s s'
      → R s (continue f (r, s')).1
  continue-moves o f k s s' (ok a) h = o.chain s s' (f a s').1 h ((k a).along s')
  continue-moves o f k s s' (err e) h = h

  pub Moves-bind :
      IsPreorder R
      → (m : Exec E S A) (f : A → Exec E S B) → Moves R m
      → ((a : A) → Moves R (f a))
      → Moves R (m >>= f)
  Moves-bind o m f h k = record {
    along = λ s. let (r, s') = m s in continue-moves o f k s s' r (h.along s);
  }

pub ruleset moves_rules = (
  Moves-pure, Moves-fail, Moves-ok_or, Moves-gets, Moves-if, Moves-transaction, Moves-reject_if,
  Moves-bind,
)
