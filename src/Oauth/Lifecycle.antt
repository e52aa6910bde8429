-- ===== src/Oauth/Lifecycle.antt =====
-- What a committed transaction of the two endpoints keeps: the rules for each way to build one.
use mathlib.Core.Path.{subst}
use drone_dispatch.Clock.{Clock}
use drone_dispatch.Common.{
  ◌≡◌, refl, true, false, Option, none, some, arith, Option-cases, inl, inr, ℕ, ap, if◌then◌else◌,
  Bool, is_some,
}
use drone_dispatch.Common.Exec.{
  Result, ok, err, transaction, finish, ◌>>=◌, ◌>>◌, pure, ok_or, gets, reject_if,
}
use drone_dispatch.Common.Exec.Inversion.{bind-eq-ok, pair_eq}
use drone_dispatch.Common.Table.{find, at, id_of_found}
use drone_dispatch.Db.{Db, Grant}
use drone_dispatch.Oauth.{OauthError, revoke_grant, load_grant, Action}
use drone_dispatch.Oauth.Invariant.{Inv}
use drone_dispatch.Oauth.Preservation.{revoke_grant-Inv}
use drone_dispatch.Oauth.Revocation.{is_revoked}

-- If the action succeeds on this database, it keeps the invariant.
pub record Commits {A : Type 0} (m : Action A) (db : Db) : Type 0 where
  pub along : (db' : Db) (a : A) → m db ≡ (ok a, db') → Inv db → Inv db'

finish-Inv :
    {A : Type 0} (db db' : Db) (r : Result OauthError (Result OauthError A))
    → Inv db
    → ((a : Result OauthError A) → r ≡ ok a → Inv db')
    → Inv (finish db (r, db')).1
finish-Inv db db' (ok a) v k = k a refl
finish-Inv db db' (err e) v k = v

pub transaction-Inv :
    {A : Type 0} (m : Action (Result OauthError A)) (db : Db)
    → Commits m db
    → Inv db
    → Inv (transaction m db).1
transaction-Inv m db c v =
    finish-Inv db (m db).1 (m db).0 v (λ a e. c.along (m db).1 a (pair_eq e) v)

module _ {A : Type 0} where
  pub Commits-pure : (a : A) (db : Db) → Commits (pure a) db
  Commits-pure a db = record { along = λ db' r e v. subst Inv (ap (λ p. p.1) e) v }

  pub Commits-if :
      (b : Bool) (m n : Action A) (db : Db)
      → Commits m db
      → Commits n db
      → Commits (if b then m else n) db
  Commits-if true m n db km kn = km
  Commits-if false m n db km kn = kn

  pub Commits-reject_if :
      (b : Bool) (e : OauthError) (m : Action A) (db : Db)
      → Commits m db
      → Commits (reject_if b e >> m) db
  Commits-reject_if true e m db k = record { along = λ db' r p v. subst Inv (ap (λ q. q.1) p) v }
  Commits-reject_if false e m db k = k

  pub Commits-gets :
      {B : Type 0} (f : Db → B) (k : B → Action A) (db : Db)
      → Commits (k (f db)) db
      → Commits (gets f >>= k) db
  Commits-gets f k db c = record { along = λ db' r e v. c.along db' r e v }

  -- The late second use of a token, and a code presented twice: the grant is revoked, then the error.
  pub Commits-revoke :
      (clock : Clock) (event_id : ℕ) (grant : Grant) (a : A) (db : Db)
      → Commits (revoke_grant clock event_id grant >>= λ _. pure a) db
  Commits-revoke clock event_id grant a db = record {
    along = λ db' r e v.
        let (u, done, rest) = bind-eq-ok (revoke_grant clock event_id grant) _ db e in
        subst Inv (ap (λ p. p.1) rest) (
          revoke_grant-Inv clock event_id grant db (revoke_grant clock event_id grant db).1 u v
            (pair_eq done));
  }

  pub Commits-load_grant :
      (grant_id : ℕ) (k : Grant → Action A) (db : Db)
      → ((g : Grant) → is_revoked db g.id ≡ is_some g.revoked_at → Commits (k g) db)
      → Commits (load_grant grant_id >>= k) db
  unfolding load_grant is_revoked
  Commits-load_grant grant_id k db c =
      elim (Option-cases (find (at (λ g. g.id) grant_id) db.grants)) [
        | inl missing ↦ record { along = λ db' r e v. ground (arith, missing) }
        | inr (g, found) ↦ record {
          along = λ db' r e v.
              let known : is_revoked db g.id ≡ is_some g.revoked_at =
                ground (arith, found, id_of_found (λ (g : Grant). g.id) grant_id db.grants found) in
              (c g known).along db' r (rw found at e) v;
        }
      ]

  pub Commits-ok_or :
      {B : Type 0} (o : Option B) (e : OauthError) (k : B → Action A) (db : Db)
      → ((b : B) → o ≡ some b → Commits (k b) db)
      → Commits (ok_or o e >>= k) db
  Commits-ok_or none e k db c = record { along = λ db' r p v. subst Inv (ap (λ q. q.1) p) v }
  Commits-ok_or (some b) e k db c = c b refl
