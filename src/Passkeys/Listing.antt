-- ===== src/Passkeys/Listing.antt =====
-- services/auth-service/src/passkeys.rs, `list`: the signed-in user's passkeys. Times stay instants.
use drone_dispatch.Api.{Handler}
use drone_dispatch.Clock.{Clock}
use drone_dispatch.Common.{ℕ, List, leb, ◌==◌, false}
use drone_dispatch.Common.Exec.{gets, ◌>>=◌}
use drone_dispatch.Common.Sorting.{order_by}
use drone_dispatch.Common.Table.{select}
use drone_dispatch.Crypto.{Primitives}
use drone_dispatch.Db.{Db, PasskeyRow}
use drone_dispatch.Session.{Jar, require}

-- The columns of the query: id, name, created_at and last_used_at.
unfoldable pub passkeys_of : ℕ → Db → List PasskeyRow
passkeys_of user_id db =
    order_by (λ (a b : PasskeyRow). leb a.created_at b.created_at)
      (select (λ (p : PasskeyRow). p.user_id == user_id) db.passkeys)

unfoldable pub list : Primitives → Clock → Jar → Handler (List PasskeyRow)
unfolding passkeys_of
list crates clock jar = do
  session ← require crates clock jar false
  gets (λ w. passkeys_of session.user_id w.db)
