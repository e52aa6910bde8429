-- ===== src/Oauth/Invariant.antt =====
-- An invariant of the token endpoint: grant ids are unique, a revoked grant has no live refresh token,
-- and the outbox holds one revocation event for each revoked grant and none for any other.
use drone_dispatch.Common.{
  ◌≡◌, refl, true, false, none, some, arith, Option-cases, inl, inr, if◌then◌else◌, ℕ, Bool, ◌≤◌,
  ◌==◌, ◌⊎◌, ◌++◌, ◌∷◌, [], sym, ◌∙◌, List,
}
use drone_dispatch.Common.Table.{
  find, count, update, at, find-update, find-update_none, find-update_all, count-update,
  count-append, find_unique, find_sound,
}
use drone_dispatch.Db.{Db, Grant, OutboxRow}
use drone_dispatch.Oauth.{is_live_grant, is_live_token, revoke_row, revoke_token}
use drone_dispatch.Oauth.Revocation.{is_revoked}

abbrev pub is_event_of : ℕ → OutboxRow → Bool
is_event_of gid o = o.payload.grant_id == gid

pub record Inv (db : Db) : Type 0 where
  pub unique : (gid : ℕ) → count (at (λ g. g.id) gid) db.grants ≤ 1
  pub dead :
      (gid : ℕ) → is_revoked db gid ≡ true → find (is_live_token gid) db.refresh_tokens ≡ none
  pub events : (gid : ℕ) → count (is_event_of gid) db.outbox ≡ (if is_revoked db gid then 1 else 0)

abbrev pub id_of : Grant → ℕ
id_of g = g.id

-- With unique ids, the row that the UPDATE of `revoke_grant` meets is the grant of that id.
pub live-unrevoked :
    (db : Db) (gid : ℕ) (g : Grant)
    → Inv db
    → find (is_live_grant gid) db.grants ≡ some g
    → is_revoked db gid ≡ false
unfolding is_revoked
live-unrevoked db gid g v e = ground (
  arith,
  find_unique (is_live_grant gid) (at id_of gid) db.grants g (λ b h. ground arith) (v.unique gid) e,
  find_sound (is_live_grant gid) db.grants e,
)

abbrev pub revoked_db : ℕ → ℕ → Db → Db
revoked_db now gid db = record db {
  grants = update (is_live_grant gid) (revoke_row now) db.grants;
  refresh_tokens = update (is_live_token gid) (revoke_token now) db.refresh_tokens;
}

is_revoked-revoked_db :
    (now gid id : ℕ) (db : Db) (g : Grant)
    → Inv db
    → find (is_live_grant gid) db.grants ≡ some g
    → is_revoked (revoked_db now gid db) id ≡ (if id == gid then true else is_revoked db id)
unfolding is_revoked
is_revoked-revoked_db now gid id db g v e =
    let updated =
      find-update (at id_of id) (is_live_grant gid) (revoke_row now) db.grants (λ r. refl) in
    let only =
      find_unique (is_live_grant gid) (at id_of gid) db.grants g (λ b h. ground arith)
        (v.unique gid) e in
    elim (Option-cases (find (at id_of id) db.grants)) [
      | inl missing ↦ ground (arith, updated, missing, only)
      | inr (r, found) ↦ ground (
        arith,
        updated,
        found,
        only,
        find_sound (at id_of id) db.grants found,
        find_sound (is_live_grant gid) db.grants e,
      )
    ]

revoked_db-dead :
    (now gid id : ℕ) (db : Db)
    → (is_revoked db id ≡ true) ⊎ (id ≡ gid)
    → Inv db
    → find (is_live_token id) (revoked_db now gid db).refresh_tokens ≡ none
revoked_db-dead now gid id db (inl gone) v =
    find-update_none (is_live_token id) (is_live_token gid) (revoke_token now) db.refresh_tokens
      (λ a e. ground arith) (v.dead id gone)
revoked_db-dead now gid id db (inr e) v =
    rw e
      (find-update_all (is_live_token gid) (revoke_token now) db.refresh_tokens (λ a. ground arith))

pub is_revoked-queued :
    (now gid id : ℕ) (db : Db) (g : Grant) (outbox : List OutboxRow)
    → Inv db
    → find (is_live_grant gid) db.grants ≡ some g
    → is_revoked (record (revoked_db now gid db) { outbox = outbox }) id
      ≡ (if id == gid then true else is_revoked db id)
unfolding is_revoked
is_revoked-queued now gid id db g outbox v e = is_revoked-revoked_db now gid id db g v e

revoked_case :
    (gid id : ℕ) (b : Bool) → (if id == gid then true else b) ≡ true → (b ≡ true) ⊎ (id ≡ gid)
revoked_case gid id b e = ground arith

-- A committed revocation keeps the invariant: one grant is revoked, its tokens die, one event is
-- queued.
pub queued-Inv :
    (now gid : ℕ) (g : Grant) (o : OutboxRow) (db : Db)
    → o.payload.grant_id ≡ gid
    → find (is_live_grant gid) db.grants ≡ some g
    → Inv db
    → Inv (record (revoked_db now gid db) { outbox = db.outbox ++ o ∷ [] })
unfolding count
queued-Inv now gid g o db of_gid live v = record {
  unique = λ id.
      rw (count-update (at id_of id) (is_live_grant gid) (revoke_row now) db.grants (λ a. refl))
        (v.unique id);
  dead = λ id r.
      revoked_db-dead now gid id db
        (revoked_case gid id (is_revoked db id)
          (sym (is_revoked-queued now gid id db g _ v live) ∙ r))
        v;
  events = λ id. rw (is_revoked-queued now gid id db g (db.outbox ++ o ∷ []) v live) (
      ground (
        arith,
        count-append (is_event_of id) db.outbox o,
        v.events id,
        of_gid,
        live-unrevoked db gid g v live,
        v.events gid,
      ));
}
