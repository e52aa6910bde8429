-- ===== src/Common/Exec/Inversion.antt =====
-- What a successful action says of its parts.
use drone_dispatch.Common.{◌≡◌, refl}
use drone_dispatch.Common.Exec.{Result, ok, err, Exec, pure, finish, transaction, continue, ◌>>=◌}

continue-eq-ok {ℓ} :
    {E S A B : Type ℓ} (f : A → Exec E S B) (r : Result E A) (s' : S) {b : B} {t : S}
    → continue f (r, s') ≡ (ok b, t)
    → (a : A) × (r ≡ ok a) × (f a s' ≡ (ok b, t))
continue-eq-ok f (ok a) s' e = (a, refl, e)
continue-eq-ok f (err x) s' e = cc

-- A successful sequence has a successful first part.
pub bind-eq-ok {ℓ} :
    {E S A B : Type ℓ} (m : Exec E S A) (f : A → Exec E S B) (s : S) {b : B} {t : S}
    → (m >>= f) s ≡ (ok b, t)
    → (a : A) × ((m s).0 ≡ ok a) × (f a (m s).1 ≡ (ok b, t))
bind-eq-ok m f s e = continue-eq-ok f (m s).0 (m s).1 e

finish-eq-ok {ℓ} :
    {E S A : Type ℓ} (s s' : S) (r : Result E (Result E A)) {a : A} {t : S}
    → finish s (r, s') ≡ (ok a, t)
    → (r ≡ ok (ok a)) × (s' ≡ t)
finish-eq-ok s s' (ok (ok a)) e = (cc, cc)
finish-eq-ok s s' (ok (err x)) e = (cc, cc)
finish-eq-ok s s' (err x) e = (cc, cc)

-- A successful transaction was committed with that value.
pub transaction-eq-ok {ℓ} :
    {E S A : Type ℓ} (m : Exec E S (Result E A)) (s : S) {a : A} {t : S}
    → transaction m s ≡ (ok a, t)
    → ((m s).0 ≡ ok (ok a)) × ((m s).1 ≡ t)
transaction-eq-ok m s e = finish-eq-ok s (m s).1 (m s).0 e

pub pair_eq {ℓ κ} : {A : Type ℓ} {B : Type κ} {p : A × B} {a : A} → p.0 ≡ a → p ≡ (a, p.1)
pair_eq {p} e = λ i. (e i, p.1)

-- Making a reply of a result does not touch the state.
pub continue-pure {ℓ} :
    {E S A B : Type ℓ} (f : A → B) (r : Result E A × S)
    → (continue {E = E} (λ a. pure (f a)) r).1 ≡ r.1
continue-pure f (ok a, s) = refl
continue-pure f (err e, s) = refl
