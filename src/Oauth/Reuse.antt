-- ===== src/Oauth/Reuse.antt =====
-- `revoke_grant` on a grant that the database holds.
use drone_dispatch.Clock.{Clock}
use drone_dispatch.Common.{◌≡◌, true, none, some, arith, ℕ, refl, Option-cases, inl, inr, ap, ◌∙◌}
use drone_dispatch.Common.Table.{find, at, insert, find-update, id_of_found, find_narrow}
use drone_dispatch.Db.{Grant, Db}
use drone_dispatch.Oauth.{revoke_grant, ok, is_live_grant, revoke_row}
use drone_dispatch.Oauth.Revocation.{is_revoked}

-- With a fresh event id, the grant is revoked afterwards, whether or not it was before.
pub revoke_grant-revokes :
    (clock : Clock) (event_id gid : ℕ) (grant : Grant) (db : Db)
    → find (at (λ g. g.id) gid) db.grants ≡ some grant
    → find (at (λ o. o.id) event_id) db.outbox ≡ none
    → ((revoke_grant clock event_id grant db).0 ≡ ok tt)
      × (is_revoked (revoke_grant clock event_id grant db).1 grant.id ≡ true)
unfolding revoke_grant is_revoked insert
revoke_grant-revokes clock event_id gid grant db found fresh =
    let updated =
      find-update (at (λ (g : Grant). g.id) grant.id) (is_live_grant grant.id)
        (revoke_row clock.db_now) db.grants (λ g. refl) in
    let same_id = id_of_found (λ (g : Grant). g.id) gid db.grants found in
    let here : find (at (λ (g : Grant). g.id) grant.id) db.grants ≡ some grant =
      ap (λ i. find (at (λ (g : Grant). g.id) i) db.grants) same_id ∙ found in
    elim (Option-cases (find (is_live_grant grant.id) db.grants)) [
      | inl dead ↦ ground (
        arith,
        dead,
        here,
        find_narrow (at (λ (g : Grant). g.id) grant.id) (is_live_grant grant.id) db.grants grant
            (λ b h. ground arith) here,
      )
      | inr (g, live) ↦ ground (arith, live, here, fresh, updated)
    ]
