-- ===== src/Directory/Tests.antt =====
-- One revoked grant, and its user.
use drone_dispatch.Common.{
  ◌≡◌, ◌≢◌, refl, none, some, [], ◌∷◌, List, if◌then◌else◌, ◌-◌, length, ◌≤◌, arith,
}
use drone_dispatch.Verifier.{run, verify, TokenVerifier}
use drone_dispatch.Verifier.Fixture.{jwt, verifier, claims_of}
use drone_dispatch.Session.Fixture.{world}
use drone_dispatch.Common.Table.{count, find, select, at}
use drone_dispatch.Directory.{
  Crates, list_revoked_grants, get_user, RevokedGrant, err, is_revoked_since, ok, invalid_argument,
}
use drone_dispatch.Db.{Grant, Db}
use drone_dispatch.Directory.Revocations.{told, revoked_in_last_hour_rejected}
use drone_dispatch.Text.{text, is_empty}
use drone_dispatch.Clock.{seconds}
use drone_dispatch.Common.Sorting.{order_by, insert_row}

abbrev crates : Crates
crates = record {
  parse_uuid = λ t. if is_empty t then none else some (length t);
  uuid_text = λ n. n ∷ [];
  from_unix_timestamp = λ t. none;
}

abbrev grant : Grant
grant = record {
  id = 7;
  user_id = 1;
  client_id = [];
  resource = [];
  scope = [];
  acr = [];
  amr = [];
  auth_time = 0;
  revoked_at = some (seconds 5000);
}

abbrev with_grant : Db
with_grant = record world.db { grants = grant ∷ [] }

abbrev listed_grants : List RevokedGrant
listed_grants =
    record { grant_id = 7 ∷ []; sub = 1 ∷ []; revoked_at = record { seconds = 5000; nanos = 0 } }
    ∷ []

reply_lists_it : list_revoked_grants crates (seconds 6000) none with_grant ≡ ok listed_grants
unfolding list_revoked_grants select order_by insert_row
reply_lists_it = refl

unknown_user : get_user crates [] with_grant ≡ err (invalid_argument "sub must be a UUID")
unfolding get_user
unknown_user = refl

few_revoked : count (is_revoked_since (seconds 6000 - seconds 3600)) with_grant.grants ≤ 1000
unfolding count
few_revoked = omega arith

grant_found : find (at (λ (g : Grant). g.id) 7) with_grant.grants ≡ some grant
unfolding find
grant_found = refl

abbrev after_list : TokenVerifier
after_list = run jwt verifier (told crates listed_grants)

abbrev after_check : TokenVerifier
after_check = (verify jwt 5 none (text "h") after_list).1

other_is_accepted :
    verify jwt 5 none (text "h") after_list ≡ (ok (claims_of (text "h")), after_check)
unfolding verify drone_dispatch.Text.Ascii.eq_ignore_ascii_case find run
    drone_dispatch.Verifier.revoke_grant drone_dispatch.Text.contains
other_is_accepted = refl

revoked_in_last_hour_rejected_example : text "h" ≢ 7 ∷ []
revoked_in_last_hour_rejected_example =
    revoked_in_last_hour_rejected crates jwt (seconds 6000) 7 with_grant grant listed_grants
      (text "h") 5 none verifier after_check (claims_of (text "h")) few_revoked reply_lists_it
      grant_found refl other_is_accepted
