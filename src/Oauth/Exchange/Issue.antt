-- ===== src/Oauth/Exchange/Issue.antt =====
-- When a code is exchanged, and what the exchange changes.
use drone_dispatch.Clock.{Clock}
use drone_dispatch.Common.{◌<◌, ◌≡◌, ap, true, Option, none, some, arith}
use drone_dispatch.Common.Exec.{Result, ok}
use drone_dispatch.Crypto.{Primitives, pkce_s256}
use drone_dispatch.Crypto.Matching.{hashes_match_iff}
use drone_dispatch.Db.{Db, Grant, AuthCode}
use drone_dispatch.Oauth.{OauthError, TokenForm, Tokens, Draw}
use drone_dispatch.Oauth.Exchange.{is_redirect, issue_for_code}
use drone_dispatch.Registry.{Client}
use drone_dispatch.Text.{Text}
use drone_dispatch.Text.Equality.{same_iff}

redirect_of_is :
    (given : Option Text) (uri : Text) → is_redirect given uri ≡ true → given ≡ some uri
redirect_of_is none uri e = ground arith
redirect_of_is (some u) uri e = ap some ((same_iff u uri).0 e)

module _ (crates : Primitives) (issuer : Text) (clock : Clock) (draw : Draw) (client : Client)
    (form : TokenForm) where
  -- What the guards of an exchange have established.
  pub record Guards (verifier : Text) (row : AuthCode) (grant : Grant) : Type 0 where
    pub unexpired : clock.db_now < row.expires_at
    pub unrevoked : grant.revoked_at ≡ none
    pub own_client : grant.client_id ≡ client.client_id
    pub own_redirect : form.redirect_uri ≡ some row.redirect_uri
    pub proof : pkce_s256 crates verifier ≡ row.code_challenge

  pub issue_for_code-Guards :
      (verifier : Text) (row : AuthCode) (grant : Grant) (db db' : Db)
      (r : Result OauthError Tokens)
      → issue_for_code crates issuer clock draw client form verifier row grant db ≡ (ok r, db')
      → Guards verifier row grant
  unfolding issue_for_code
  issue_for_code-Guards verifier row grant db db' r e = record {
    unexpired = ground arith;
    unrevoked = ground arith;
    own_client = ground (arith, same_iff grant.client_id client.client_id);
    own_redirect = redirect_of_is form.redirect_uri row.redirect_uri (ground arith);
    proof = ground (arith, hashes_match_iff (pkce_s256 crates verifier) row.code_challenge);
  }
