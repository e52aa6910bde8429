-- ===== src/Oauth/Preservation.antt =====
-- Every request to the token endpoint and to `/revoke` keeps the invariant.
use mathlib.Core.Path.{subst}
use drone_dispatch.Clock.{Clock}
use drone_dispatch.Common.{
  ◌≡◌, refl, false, none, arith, Option-cases, inl, inr, ℕ, Bool, ◌++◌, ◌∷◌, [],
}
use drone_dispatch.Common.Exec.{modify}
use drone_dispatch.Common.Exec.Moves.{IsPreorder, Moves}
use drone_dispatch.Common.Table.{insert, update, find-update_none, find, find-append}
use drone_dispatch.Crypto.{Primitives, hash_token}
use drone_dispatch.Db.{Db, Grant, RefreshToken, OutboxRow, AuthCode}
use drone_dispatch.Oauth.{
  is_live_grant, is_live_token, revoke_grant, new_refresh_token, auth_grant_revoked, revocation, ok,
  OauthError, token_row,
}
use drone_dispatch.Oauth.Invariant.{Inv, queued-Inv}
use drone_dispatch.Oauth.Revocation.{is_revoked}
use drone_dispatch.Registry.{Client}
use drone_dispatch.Text.{Text}
use drone_dispatch.Text.Keyed.{by}

abbrev event : Clock → ℕ → Grant → OutboxRow
event clock event_id grant = record {
  id = event_id;
  subject = auth_grant_revoked;
  payload = revocation clock event_id grant;
  created_at = clock.db_now;
  published_at = none;
}

pub revoke_grant-Inv :
    (clock : Clock) (event_id : ℕ) (grant : Grant) (db db' : Db) (u : Unit {0})
    → Inv db
    → revoke_grant clock event_id grant db ≡ (ok u, db')
    → Inv db'
unfolding revoke_grant insert
revoke_grant-Inv clock event_id grant db db' u v e =
    elim (Option-cases (find (is_live_grant grant.id) db.grants)) [
      | inl dead ↦ subst Inv (ground (arith, dead)) v
      | inr (g, live) ↦
          subst Inv (ground (arith, live))
            (queued-Inv clock.db_now grant.id g (event clock event_id grant) db refl live v)
    ]

added-Inv :
    (t : RefreshToken) (db : Db)
    → is_revoked db t.grant_id ≡ false
    → Inv db
    → Inv (record db { refresh_tokens = db.refresh_tokens ++ t ∷ [] })
unfolding is_revoked
added-Inv t db alive v = record {
  unique = v.unique;
  dead = λ gid r.
      rw (find-append (is_live_token gid) db.refresh_tokens t)
        (ground (arith, v.dead gid r, alive, r));
  events = v.events;
}

-- An update of refresh tokens that changes neither their grant nor their revocation.
pub tokens-Inv :
    (p : RefreshToken → Bool) (f : RefreshToken → RefreshToken) (db : Db)
    → ((t : RefreshToken) → (f t).grant_id ≡ t.grant_id)
    → ((t : RefreshToken) → (f t).revoked_at ≡ t.revoked_at)
    → Inv db
    → Inv (record db { refresh_tokens = update p f db.refresh_tokens })
unfolding is_revoked
tokens-Inv p f db keeps_grant keeps_dead v = record {
  unique = v.unique;
  dead = λ gid r.
      find-update_none (is_live_token gid) p f db.refresh_tokens
        (λ a e. ground (arith, keeps_grant a, keeps_dead a)) (v.dead gid r);
  events = v.events;
}

-- The invariant, and a grant that is not revoked.
pub record Alive (gid : ℕ) (db : Db) : Type 0 where
  pub inv : Inv db
  pub alive : is_revoked db gid ≡ false

pub record KeepsAlive (gid : ℕ) (db db' : Db) : Type 0 where
  pub keep : Alive gid db → Alive gid db'

pub KeepsAlive-preorder : (gid : ℕ) → IsPreorder (KeepsAlive gid)
KeepsAlive-preorder gid = record {
  same = λ db. record { keep = λ h. h };
  chain = λ a b c h k. record { keep = λ x. k.keep (h.keep x) };
}

pub consume-KeepsAlive :
    (gid : ℕ) (p : AuthCode → Bool) (f : AuthCode → AuthCode)
    → Moves
        (KeepsAlive gid)
        (modify {E = OauthError} (λ db. record db { auth_codes = update p f db.auth_codes }))
unfolding is_revoked
consume-KeepsAlive gid p f = record {
  along = λ db. record {
    keep = λ h. record {
      inv = record { unique = h.inv.unique; dead = h.inv.dead; events = h.inv.events };
      alive = h.alive;
    };
  };
}

added-Alive :
    (t : RefreshToken) (db : Db)
    → Alive t.grant_id db
    → Alive t.grant_id (record db { refresh_tokens = db.refresh_tokens ++ t ∷ [] })
unfolding is_revoked
added-Alive t db h = record { inv = added-Inv t db h.alive h.inv; alive = h.alive }

pub new_refresh_token-KeepsAlive :
    (crates : Primitives) (clock : Clock) (token : Text) (gid : ℕ) (client : Client)
    → Moves (KeepsAlive gid) (new_refresh_token crates clock token gid client)
unfolding new_refresh_token insert
new_refresh_token-KeepsAlive crates clock token gid client = record {
  along = λ db.
      elim (Option-cases
        (find (by (λ t. t.token_hash) (hash_token crates token)) db.refresh_tokens)) [
          | inl fresh ↦
              subst (KeepsAlive gid db) (ground (arith, fresh))
                (record { keep = added-Alive (token_row crates clock token gid client) db })
          | inr (t, taken) ↦
              subst (KeepsAlive gid db) (ground (arith, taken)) (record { keep = λ h. h })
        ];
}
