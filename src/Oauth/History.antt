-- ===== src/Oauth/History.antt =====
-- The invariant over any history of requests to the token endpoint and `/revoke`.
use mathlib.Core.Path.{subst}
use drone_dispatch.Clock.{Clock}
use drone_dispatch.Common.{
  ◌≡◌, refl, false, Option, none, some, arith, Option-cases, inl, inr, List, [], ◌∷◌, ℕ, ap,
  is_some, sym,
}
use drone_dispatch.Common.Exec.{◌>>=◌, Result, transaction, modify, gets}
use drone_dispatch.Common.Exec.Moves.{IsPreorder, Moves, moves_rules, Moves-bind}
use drone_dispatch.Common.Table.{update, find}
use drone_dispatch.Crypto.{Primitives, hash_token}
use drone_dispatch.Db.{Db, AuthCode, Grant, RefreshToken}
use drone_dispatch.Oauth.{Action, OauthError, Draw, TokenForm}
use drone_dispatch.Oauth.Endpoint.{
  run, revoke_found, token, handle, grant_tokens, revoke, Arrival, Request, authenticate_client,
  asks_token, revokes,
}
use drone_dispatch.Oauth.Exchange.{issue_for_code, exchange_row, exchange_code}
use drone_dispatch.Oauth.Invariant.{Inv}
use drone_dispatch.Oauth.Lifecycle.{
  Commits, transaction-Inv, Commits-pure, Commits-if, Commits-reject_if, Commits-gets,
  Commits-revoke, Commits-load_grant, Commits-ok_or,
}
use drone_dispatch.Oauth.Preservation.{
  KeepsAlive, KeepsAlive-preorder, consume-KeepsAlive, new_refresh_token-KeepsAlive, tokens-Inv,
}
use drone_dispatch.Oauth.Refresh.{
  slide_token, rotate_token, refresh_row, refresh, is_reused, of_token, slide, rotate,
}
use drone_dispatch.Oauth.Revocation.{is_revoked}
use drone_dispatch.Oauth.Success.{authenticate_client-reads}
use drone_dispatch.Registry.{Client}
use drone_dispatch.Text.{Text}

-- The invariant passes from one database to the next.
record KeepsInv (db db' : Db) : Type 0 where
  keep : Inv db → Inv db'

KeepsInv-preorder : IsPreorder KeepsInv
KeepsInv-preorder = record {
  same = λ db. record { keep = λ v. v };
  chain = λ a b c h k. record { keep = λ v. k.keep (h.keep v) };
}

transaction-KeepsInv :
    {A : Type 0} (m : Action (Result OauthError A))
    → ((db : Db) → Commits m db)
    → Moves KeepsInv (transaction m)
transaction-KeepsInv m c = record {
  along = λ db. record { keep = λ v. transaction-Inv m db (c db) v };
}

Commits-alive :
    {A : Type 0} (gid : ℕ) (m : Action A) (db : Db)
    → is_revoked db gid ≡ false
    → Moves (KeepsAlive gid) m
    → Commits m db
Commits-alive gid m db alive k = record {
  along = λ db' a e v.
      subst Inv (ap (λ p. p.1) e) (((k.along db).keep (record { inv = v; alive = alive })).inv);
}

ruleset commits_rules = (
  Commits-pure, Commits-if, Commits-reject_if, Commits-gets, Commits-revoke, Commits-load_grant,
  Commits-ok_or,
)

module _ (crates : Primitives) (issuer : Text) (clock : Clock) (draw : Draw) where
  issue_for_code-KeepsAlive :
      (client : Client) (form : TokenForm) (verifier : Text) (row : AuthCode) (grant : Grant)
      → Moves
          (KeepsAlive grant.id)
          (issue_for_code crates issuer clock draw client form verifier row grant)
  unfolding issue_for_code
  issue_for_code-KeepsAlive client form verifier row grant =
      search (moves_rules, KeepsAlive-preorder, consume-KeepsAlive, new_refresh_token-KeepsAlive)
        depth 12

  issue_for_code-Commits :
      (client : Client) (form : TokenForm) (verifier : Text) (row : AuthCode) (grant : Grant)
      (db : Db)
      → is_revoked db grant.id ≡ is_some grant.revoked_at
      → Commits (issue_for_code crates issuer clock draw client form verifier row grant) db
  unfolding issue_for_code
  issue_for_code-Commits client form verifier row grant db known =
      elim (Option-cases grant.revoked_at) [
        | inl alive ↦
            Commits-alive grant.id
              (issue_for_code crates issuer clock draw client form verifier row grant) db
              (ground (arith, alive)) (issue_for_code-KeepsAlive client form verifier row grant)
        | inr (t, revoked) ↦ record { along = λ db' a e v. subst Inv (ground (arith, revoked)) v }
      ]

  exchange_row-Commits :
      (client : Client) (form : TokenForm) (verifier : Text) (row : AuthCode) (db : Db)
      → Commits (exchange_row crates issuer clock draw client form verifier row) db
  unfolding exchange_row
  exchange_row-Commits client form verifier row db =
      search (commits_rules, issue_for_code-Commits) depth 9

  exchange_code-KeepsInv :
      (client : Client) (form : TokenForm)
      → Moves KeepsInv (exchange_code crates issuer clock draw client form)
  unfolding exchange_code
  exchange_code-KeepsInv client form =
      search
        (moves_rules, KeepsInv-preorder, commits_rules, transaction-KeepsInv, exchange_row-Commits)
        depth 12

  slide_token-Commits :
      (token : Text) (grant : Grant) (row : RefreshToken) (db : Db)
      → Commits (slide_token crates issuer clock token draw grant row) db
  unfolding slide_token
  slide_token-Commits token grant row db = record {
    along = λ db' a e v.
        subst Inv (ap (λ p. p.1) e)
          (tokens-Inv (of_token row.token_hash) (slide clock.db_now) db (λ t. refl) (λ t. refl) v);
  }

  rotate-KeepsAlive :
      (gid : ℕ) (row : RefreshToken)
      → Moves (KeepsAlive gid) (
          modify {E = OauthError} (λ db. record db {
            refresh_tokens =
                update (of_token row.token_hash) (rotate clock.db_now) db.refresh_tokens;
          }))
  unfolding is_revoked
  rotate-KeepsAlive gid row = record {
    along = λ db. record {
      keep = λ h. record {
        inv =
            tokens-Inv (of_token row.token_hash) (rotate clock.db_now) db (λ t. refl) (λ t. refl)
              h.inv;
        alive = h.alive;
      };
    };
  }

  rotate_alive-Commits :
      (client : Client) (grant : Grant) (row : RefreshToken) (db : Db)
      → is_revoked db grant.id ≡ false
      → Commits (rotate_token crates issuer clock draw client grant row) db
  unfolding rotate_token
  rotate_alive-Commits client grant row db alive =
      Commits-if (is_reused clock row) _ _ db (Commits-revoke clock draw.event_id grant _ db) (
        Commits-alive grant.id _ db alive (
          search (moves_rules, KeepsAlive-preorder, rotate-KeepsAlive, new_refresh_token-KeepsAlive)
            depth 12))

  refresh_row-Commits :
      (client : Client) (token : Text) (row : RefreshToken) (db : Db)
      → Commits (refresh_row crates issuer clock draw client token row) db
  unfolding refresh_row
  refresh_row-Commits client token row db = Commits-load_grant row.grant_id _ db (λ grant known.
      elim (Option-cases grant.revoked_at) [
        | inl alive ↦ Commits-reject_if _ _ _ db (
            Commits-if _ _ _ db (slide_token-Commits token grant row db)
              (rotate_alive-Commits client grant row db (ground (arith, alive, known))))
        | inr (t, revoked) ↦ record { along = λ db' a e v. subst Inv (ground (arith, revoked)) v }
      ])

  refresh-KeepsInv :
      (client : Client) (form : TokenForm)
      → Moves KeepsInv (refresh crates issuer clock draw client form)
  unfolding refresh
  refresh-KeepsInv client form =
      search
        (moves_rules, KeepsInv-preorder, commits_rules, transaction-KeepsInv, refresh_row-Commits)
        depth 12

  revoke_found-Commits :
      (found : Option RefreshToken) (db : Db) → Commits (revoke_found clock draw found) db
  unfolding revoke_found
  revoke_found-Commits none db = search commits_rules
  revoke_found-Commits (some row) db = search commits_rules

  token-KeepsInv :
      (basic : Option (Text × Text)) (form : TokenForm)
      → Moves KeepsInv (token crates issuer clock draw basic form)
  unfolding token grant_tokens
  token-KeepsInv basic form =
      Moves-bind KeepsInv-preorder (authenticate_client crates basic form) _
        (record {
          along = λ db. record {
            keep = λ v. subst Inv (sym (authenticate_client-reads crates basic form db)) v;
          };
        })
        (λ client.
          search (moves_rules, KeepsInv-preorder, exchange_code-KeepsInv, refresh-KeepsInv))

  handle-KeepsInv :
      (request : Request) (db : Db) → KeepsInv db (handle crates issuer clock draw request db)
  unfolding handle revoke
  handle-KeepsInv (asks_token basic form) db = (token-KeepsInv basic form).along db
  handle-KeepsInv (revokes token) db =
      (transaction-KeepsInv
          (gets (λ db. find (of_token (hash_token crates token)) db.refresh_tokens)
            >>= revoke_found clock draw)
          (λ db. search (commits_rules, revoke_found-Commits))).along
        db

-- Every sequence of requests to the two endpoints keeps the invariant: grant ids are unique, a
-- revoked grant has no live refresh token, and the outbox holds exactly one revocation event for
-- each revoked grant and none for any other grant.
pub run-Inv :
    (crates : Primitives) (issuer : Text) (arrivals : List Arrival) (db : Db)
    → Inv db
    → Inv (run crates issuer db arrivals)
unfolding run
run-Inv crates issuer [] db v = v
run-Inv crates issuer (a ∷ rest) db v =
    run-Inv crates issuer rest (handle crates issuer a.clock a.draw a.request db)
      ((handle-KeepsInv crates issuer a.clock a.draw a.request db).keep v)
