-- ===== src/Oauth/Refresh/Outcome.antt =====
-- `refresh` as a whole: a confidential client slides its token, a public client rotates it, and a late
-- second use revokes the grant.
use mathlib.Core.Option
use mathlib.Core.Path.{subst}
use drone_dispatch.Clock.{Clock, rounded_seconds, days}
use drone_dispatch.Common.{
  ◌<◌, ◌≡◌, ◌≢◌, ◌⊎◌, unwrap_or, sym, Option-cases, true, false, none, some, arith, ℕ, is_some,
  refl, ◌↔◌, ◌+◌, ◌≤◌, if◌then◌else◌, leb, ◌++◌, ◌||◌, not, ◌∷◌, [], Bool-cases, inl, inr,
}
use drone_dispatch.Common.Exec.{finish}
use drone_dispatch.Common.Table.{find, at, insert, update, find-update, find-append, id_of_found}
use drone_dispatch.Crypto.{Primitives, hash_token}
use drone_dispatch.Db.{RefreshToken, Db, Grant}
use drone_dispatch.Oauth.{
  Draw, TokenForm, Tokens, new_refresh_token, load_grant, ok, token_response, err, invalid_grant,
  token_row,
}
use drone_dispatch.Oauth.Refresh.{
  is_reused, refresh, slide_token, rotate_token, refresh_row, of_token, slide, rotate,
}
use drone_dispatch.Oauth.Reuse.{revoke_grant-revokes}
use drone_dispatch.Oauth.Revocation.{is_revoked}
use drone_dispatch.Registry.{Client}
use drone_dispatch.Text.{Text, same}
use drone_dispatch.Text.Equality.{same_iff, same_self}
use drone_dispatch.Text.Keyed.{by, find-update-by, key_of_found}

-- A refresh token that passes the guards of `refresh`: its row and its grant are stored, neither is
-- revoked, it is not expired, and the grant belongs to this client.
pub record Usable (crates : Primitives) (clock : Clock) (client : Client) (form : TokenForm)
    (db : Db) (token : Text) (row : RefreshToken) (grant : Grant) : Type 0 where
  pub has_token : form.refresh_token ≡ some token
  pub has_row : find (of_token (hash_token crates token)) db.refresh_tokens ≡ some row
  pub has_grant : find (at (λ g. g.id) row.grant_id) db.grants ≡ some grant
  pub unexpired : clock.db_now < row.expires_at
  pub live : row.revoked_at ≡ none
  pub unrevoked : grant.revoked_at ≡ none
  pub own_client : grant.client_id ≡ client.client_id

-- The rounded test of the reuse window: 60.5 seconds or more.
is_reused_iff :
    (clock : Clock) (row : RefreshToken) (first : ℕ)
    → row.rotated_at ≡ some first
    → (is_reused clock row ≡ true) ↔ (first + 60500000000 ≤ clock.db_now)
unfolding is_reused rounded_seconds
is_reused_iff clock row first rotated = rw rotated (elim (Bool-cases (leb first clock.db_now)) [
  | inl past ↦ ground (arith, past)
  | inr future ↦ ground (arith, future)
])

module _ (crates : Primitives) (issuer : Text) (clock : Clock) (draw : Draw) (client : Client)
    (form : TokenForm) where
  Usable-refresh :
      (db : Db) (token : Text) (row : RefreshToken) (grant : Grant)
      → Usable crates clock client form db token row grant
      → refresh crates issuer clock draw client form db
        ≡ finish db (
            (if is_some client.secret_hash
                then slide_token crates issuer clock token draw grant row
                else rotate_token crates issuer clock draw client grant row)
              db)
  unfolding refresh refresh_row load_grant
  Usable-refresh db token row grant p =
      let accepted : (leb row.expires_at clock.db_now
            || is_some row.revoked_at
            || is_some grant.revoked_at
            || not (same grant.client_id client.client_id))
          ≡ false =
        ground (
          arith,
          p.unexpired,
          p.unrevoked,
          p.live,
          p.own_client,
          same_iff grant.client_id client.client_id,
        ) in
      rw (p.has_token, p.has_row, p.has_grant, accepted) refl

  -- A confidential client gets its token back, which now expires 90 days from this request.
  pub refresh-slides :
      (db : Db) (token secret : Text) (row : RefreshToken) (grant : Grant)
      → Usable crates clock client form db token row grant
      → client.secret_hash ≡ some secret
      → refresh crates issuer clock draw client form db ≡ (
        ok (token_response issuer clock draw.jti grant token),
        record db {
          refresh_tokens = update (of_token row.token_hash) (slide clock.db_now) db.refresh_tokens;
        },
      )
  unfolding slide_token
  refresh-slides db token secret row grant p confidential =
      rw (Usable-refresh db token row grant p, confidential) refl

  -- A public client's token that was first exchanged more than 60 rounded seconds ago: the reply is an
  -- error, and the grant is revoked.
  pub late_reuse_revokes :
      (db : Db) (token : Text) (row : RefreshToken) (grant : Grant) (first : ℕ)
      → Usable crates clock client form db token row grant
      → client.secret_hash ≡ none
      → row.rotated_at ≡ some first
      → first + 60500000000 ≤ clock.db_now
      → find (at (λ o. o.id) draw.event_id) db.outbox ≡ none
      → ((refresh crates issuer clock draw client form db).0
          ≡ err (invalid_grant "Refresh token was already used"))
        × (is_revoked (refresh crates issuer clock draw client form db).1 grant.id ≡ true)
  unfolding rotate_token
  late_reuse_revokes db token row grant first p public rotated late fresh =
      let revokes =
        revoke_grant-revokes clock draw.event_id row.grant_id grant db p.has_grant fresh in
      rw (Usable-refresh db token row grant p, public)
        (ground (arith, is_reused_iff clock row first rotated, late, revokes))

  -- A token that is exchanged for the first time, or again within the reuse window.
  abbrev pub InWindow : RefreshToken → Type 0
  InWindow row =
      (row.rotated_at ≡ none)
      ⊎ ((first : ℕ) × (row.rotated_at ≡ some first) × (clock.db_now < first + 60500000000))

  InWindow-is_reused : (row : RefreshToken) → InWindow row → is_reused clock row ≡ false
  unfolding is_reused
  InWindow-is_reused row (inl never) = ground (arith, never)
  InWindow-is_reused row (inr (first, rotated, soon)) = elim (Bool-cases (is_reused clock row)) [
    | inl late ↦ absurd (omega (arith, (is_reused_iff clock row first rotated).0 late, soon))
    | inr fine ↦ fine
  ]

  pub rotate_lem :
      (db : Db) (token : Text) (row : RefreshToken) (grant : Grant)
      → Usable crates clock client form db token row grant
      → client.secret_hash ≡ none
      → InWindow row
      → find (by (λ t. t.token_hash) (hash_token crates draw.token)) db.refresh_tokens ≡ none
      → refresh crates issuer clock draw client form db ≡ (
        ok (token_response issuer clock draw.jti grant draw.token),
        record db {
          refresh_tokens =
              update (of_token row.token_hash) (rotate clock.db_now) db.refresh_tokens
              ++ token_row crates clock draw.token grant.id client ∷ [];
        },
      )
  unfolding rotate_token new_refresh_token insert
  rotate_lem db token row grant p public soon fresh =
      let kept =
        find-update (by (λ (t : RefreshToken). t.token_hash) (hash_token crates draw.token))
          (of_token row.token_hash) (rotate clock.db_now) db.refresh_tokens (λ t. refl) in
      let unused = InWindow-is_reused row soon in
      rw (Usable-refresh db token row grant p, public, unused) (ground (arith, kept, fresh, public))

  -- A public client exchanges a token for the first time, or again less than 60.5 seconds after the first
  -- time, with the hash of the new token unused. The reply has the new token, and an access token of the same
  -- grant. The old token keeps the time of its first exchange, which is now if it had none; the new token is
  -- good for this client and this grant for 30 days, in the sense of `Usable`; every other token stays.
  pub refresh-rotates :
      (db : Db) (token : Text) (row : RefreshToken) (grant : Grant) (clock' : Clock)
      (form' : TokenForm) (other : Text)
      → Usable crates clock client form db token row grant
      → client.secret_hash ≡ none
      → InWindow row
      → find (by (λ t. t.token_hash) (hash_token crates draw.token)) db.refresh_tokens ≡ none
      → form'.refresh_token ≡ some draw.token
      → clock'.db_now < clock.db_now + days 30
      → other ≢ hash_token crates token
      → other ≢ hash_token crates draw.token
      → (tokens : Tokens) × (db' : Db) × (new : RefreshToken) × (refresh crates issuer clock draw
            client form db
          ≡ (ok tokens, db'))
        × (tokens.refresh_token ≡ draw.token)
        × (tokens.access_token.gid ≡ grant.id)
        × (tokens.access_token.sub ≡ grant.user_id)
        × (tokens.access_token.scope ≡ grant.scope)
        × (find (of_token (hash_token crates token)) db'.refresh_tokens
            ≡ some (record row { rotated_at = some (unwrap_or row.rotated_at clock.db_now) }))
        × Usable crates clock' client form' db' draw.token new grant
        × (find (of_token other) db'.refresh_tokens ≡ find (of_token other) db.refresh_tokens)
  unfolding token_response
  refresh-rotates db token row grant clock' form' other p public soon fresh given later differs
        differs' =
      let hash = hash_token crates draw.token in
      let key = λ (t : RefreshToken). t.token_hash in
      let new = token_row crates clock draw.token grant.id client in
      let changed = update (of_token row.token_hash) (rotate clock.db_now) db.refresh_tokens in
      let own : row.token_hash ≡ hash_token crates token =
        key_of_found key (hash_token crates token) db.refresh_tokens p.has_row in
      let looked : (k : Text)
          → find (by key k) changed ≡ (
              if same row.token_hash k
              then Option.map (rotate clock.db_now) (find (by key row.token_hash) db.refresh_tokens)
              else find (by key k) db.refresh_tokens) =
        λ k.
          find-update-by key row.token_hash k (rotate clock.db_now) db.refresh_tokens (λ t. refl) in
      let added = λ (k : Text). find-append (by key k) changed new in
      (
        token_response issuer clock draw.jti grant draw.token,
        record db { refresh_tokens = changed ++ new ∷ [] },
        new,
        rotate_lem db token row grant p public soon fresh,
        refl,
        refl,
        refl,
        refl,
        ground (
          arith,
          looked (hash_token crates token),
          added (hash_token crates token),
          own,
          p.has_row,
          same_self (hash_token crates token),
          Option-cases row.rotated_at,
        ),
        record {
          has_token = given;
          has_row = ground (
            arith,
            looked hash,
            added hash,
            own,
            fresh,
            p.has_row,
            same_iff row.token_hash hash,
            same_self hash,
          );
          has_grant =
              subst (λ k. find (at (λ g. g.id) k) db.grants ≡ some grant)
                (sym (id_of_found (λ (g : Grant). g.id) row.grant_id db.grants p.has_grant))
                p.has_grant;
          unexpired = ground (arith, public, later);
          live = refl;
          unrevoked = p.unrevoked;
          own_client = p.own_client;
        },
        ground (
          arith,
          looked other,
          added other,
          own,
          same_iff row.token_hash other,
          same_iff hash other,
          differs,
          differs',
        ),
      )
