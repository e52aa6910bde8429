-- ===== src/Lib.antt =====
-- Verification library of Drone Drop: the auth-service, the merchant and user services, and the shared crates.
--
-- The auth-service signs users in and issues OAuth tokens. A browser session (a cookie whose hash is a row of
-- `sessions`) says who is signed in and how; an authorization request is parked until `complete` finds
-- that the user is ready, creates a grant and hands out a code; the token endpoint exchanges the code for
-- an access token and a refresh token, refreshes, and revokes; a revocation queues an event in the outbox
-- in the same transaction, and the relay publishes it. A limiter slows down guessing. The other services
-- verify the access tokens with the crate svc-auth, whose extractor guards their handlers: the merchant API
-- edits menus that belong to businesses, and the customer API asks for a recent passkey where it matters.
--
-- Where each part stands (source files without a folder are in services/auth-service/src):
--   Common       shared notation and lemmas; Common.Exec handlers that change a state and may fail, with
--                transactions; Common.Table the SQL statements on a list of rows (ORDER BY is
--                Common.Sorting); Common.Bits, Common.Int
--   Text         Rust strings as lists of code points, with UTF-8 (Text.Utf8) and ASCII (Text.Ascii)
--   Clock        times in nanoseconds, and the two roundings to seconds that the code uses
--   Db           the tables (migrations/*.sql), restricted to the columns that the code uses
--   Crypto       crypto.rs
--   Limits       limits.rs; Limits.Log is the log of failures that it refines
--   Registry     registry.rs;  Config  config.rs, with `from_env` in Config.Env
--   Api          error.rs and the shared state of lib.rs
--   Oauth        oauth.rs and `enqueue` of crates/svc-common/src/outbox.rs; Oauth.Exchange `exchange_code`,
--                Oauth.Refresh `refresh`, Oauth.Endpoint `token` and `revoke`, Oauth.Metadata `metadata`
--                and `basic_auth`
--   Session      session.rs
--   Flow         flow.rs; Flow.Handlers its handlers;  Oauth.Authorize  `authorize_request` of oauth.rs
--   Account      account.rs;  Signup  signup.rs;  Mailer  mailer.rs
--   Passkeys     passkeys.rs; Passkeys.SignIn signing in and the second factor, Passkeys.Listing `list`
--   Directory    grpc.rs, the registry that other services ask
--   Outbox       crates/svc-common/src/outbox.rs, the relay
--   Verifier     crates/svc-auth/src/verifier.rs, and the claims of its lib.rs; Verifier.Extract extract.rs
--                and the problem responses of crates/svc-common/src/lib.rs; Verifier.Build how the services
--                make their verifier, and their metadata documents
--   Merchant     services/merchant-service/src/api.rs and its tables; Merchant.Menu, Merchant.Rows and
--                Merchant.Edit the handlers, Merchant.Columns what they write, Merchant.Requests all of them behind their guards,
--                Merchant.Live live.rs
--   Customer     services/user-service/src/api.rs and live.rs; Customer.Tools tools.rs
--   Station      crates/station/src;  Subjects  crates/contracts/src/subjects.rs
-- Modules named Fixture hold a small service, and those named Tests run the theorems on it.
--
-- How the code is modelled. A handler is a function from the state to a result and the next state
-- (`Exec`); `transaction` puts the old state back where the code returns early before its commit. One
-- handler's database steps are not interleaved with another's, as the row locks of `FOR UPDATE` have it
-- for one code or token. A statement fails only on a unique key, on a foreign key or a check that the code
-- can meet, or as `fetch_one` without a row; a lost connection is not modelled, save in the relay, whose
-- rounds may fail at each publish and at the commit. Random values, identifiers and clock readings are
-- arguments: two clocks, that of Postgres and that of the service, need not agree. A `Uuid` is a number.
--
-- Parameters stand for the crates and for Postgres: hashing (sha2, base64), argon2, URL parsing,
-- lower-casing, webauthn-rs and jsonwebtoken, whose `decode` also checks a token's expiry, with the leeway of
-- the verifier, by its own clock; in the merchant API the JSON operators and casts of Postgres
-- (Merchant.Outside); in Config.Env the environment, the file system and the crate url. The relay's rounds
-- and the lines of the mail server are given as lists; JetStream keeps every message that it stored, without
-- its deduplication by `Nats-Msg-Id`.
--
-- Bounds. Every loop of the code is a recursion on a list. Only the printing of a `u64` recurses on fuel,
-- twenty digits (Text.Ascii.Decimal): ten to the twentieth exceeds two to the sixty-fourth.
-- The relay takes a hundred rows a round, the registry lists a thousand grants, a position fits an `i32`,
-- and casts between 64-bit integers wrap around.
--
-- Not modelled: the axum layer (routing, JSON and form decoding), cookies' attributes, signing JWTs
-- (keys.rs), HTML pages, where a relative path of the signing key leads (`resolve_key_path`), CORS, logging,
-- sockets and start-up, the fleet snapshot and crates/geo with their floating-point positions, texts with
-- U+0000, which Postgres refuses, and the services that have no operation yet (catalog-read-service,
-- dispatch-service). A field that serde fills in has its value already.
pub mod Common
pub mod Text
pub mod Crypto
pub mod Limits
pub mod Clock
pub mod Db
pub mod Registry
pub mod Merchant
pub mod Oauth
pub mod Api
pub mod Session
pub mod Config
pub mod Flow
pub mod Account
pub mod Signup
pub mod Passkeys
pub mod Verifier
pub mod Station
pub mod Outbox
pub mod Customer
pub mod Directory
pub mod Mailer
pub mod Subjects
