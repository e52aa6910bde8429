-- ===== src/Merchant/Access.antt =====
-- Who gets through to an operation on a business.
use drone_dispatch.Common.{
  ◌≡◌, ◌⊎◌, ℕ, some, true, refl, arith, inl, inr, is_some, Option-cases, Bool-cases, ap, ◌∙◌, sym,
}
use drone_dispatch.Common.Exec.{Result, ok, err, continue, ◌>>=◌, ◌>>◌}
use drone_dispatch.Common.Table.{find}
use drone_dispatch.Merchant.{
  Outside, Service, Api, Head, merchant, answered, scoped, user_id, business_id, member, is_member,
  access_denied, bad_request, invalid_subject,
}
use drone_dispatch.Text.{Text, text}
use drone_dispatch.Verifier.{Jwt, AccessClaims, has_scope, verify}
use drone_dispatch.Verifier.Extract.{
  Problem, AuthRejection, AuthConfig, authenticated, require_scope, bearer_token,
}
use drone_dispatch.Verifier.Extract.Outcome.{authenticated-eq-ok}
use drone_dispatch.Common.Exec.Inversion.{pair_eq}

module _ (jwt : Jwt) (outside : Outside) where
  open outside use {parse_uuid}

  -- The token of the request is accepted, carries the scope `merchant`, and is of a member of the
  -- business that the path names.
  pub record Granted (head : Head) (raw : Text) (business : ℕ) (s : Service) : Type 0 where
    pub claims : AccessClaims
    pub token : Text
    pub user : ℕ
    pub given : bearer_token head.authorization ≡ some token
    pub accepted : (verify jwt head.now head.fetched token s.auth.verifier).0 ≡ ok claims
    pub scope : has_scope claims (text "merchant") ≡ true
    pub subject : parse_uuid claims.sub ≡ some user
    pub path : parse_uuid raw ≡ some business
    pub membership : is_some (find (is_member business user) s.db.members) ≡ true

  -- The state after the check of the token, which may reload the keys.
  abbrev pub entered : Head → Service → Service
  entered head s = (merchant jwt outside head s).1

  answered-db :
      (s : Service) (r : Result AuthRejection AccessClaims × AuthConfig)
      → (answered jwt outside s r).1.db ≡ s.db
  unfolding answered
  answered-db s (ok claims, config) = refl
  answered-db s (err e, config) = refl

  pub entered-db : (head : Head) (s : Service) → (entered head s).db ≡ s.db
  unfolding merchant
  entered-db head s =
      answered-db s (scoped (authenticated jwt head.now head.fetched head.authorization s.auth))

  answered-eq-ok :
      (s s' : Service) (r : Result AuthRejection AccessClaims × AuthConfig) (claims : AccessClaims)
      → answered jwt outside s (scoped r) ≡ (ok claims, s')
      → (r.0 ≡ ok claims) × (has_scope claims (text "merchant") ≡ true)
  unfolding answered scoped require_scope
  answered-eq-ok s s' (ok c, config) claims e = elim (Bool-cases (has_scope c (text "merchant"))) [
    | inl has ↦ ground (arith, has)
    | inr lacks ↦ absurd (ground (arith, lacks))
  ]
  answered-eq-ok s s' (err x, config) claims e = absurd (ground arith)

  -- What stands before every operation on a business, after the check of the token.
  abbrev pub checked_business : {A : Type 0} → Text → (ℕ → Api A) → AccessClaims → Api A
  checked_business raw op claims = do
    business ← business_id jwt outside raw
    member jwt outside claims business
    op business

  abbrev pub guarded : {A : Type 0} → Head → Text → (ℕ → Api A) → Api A
  guarded head raw op = merchant jwt outside head >>= checked_business raw op

  -- The checks of the business either hand over to the operation or refuse, and change nothing.
  abbrev Handed : {A : Type 0} → Text → (ℕ → Api A) → AccessClaims → Service → Type 0
  Handed raw op claims s =
      (business : ℕ) × (user : ℕ) × (parse_uuid raw ≡ some business)
      × (parse_uuid claims.sub ≡ some user)
      × (is_some (find (is_member business user) s.db.members) ≡ true)
      × (checked_business raw op claims s ≡ op business s)

  abbrev Refused : {A : Type 0} → Api A → Service → Service → Type 0
  Refused m s s' = (p : Problem) × (m s ≡ (err p, s'))

  known_business :
      {A : Type 0} (raw : Text) (op : ℕ → Api A) (claims : AccessClaims) (s : Service)
      (business user : ℕ)
      → parse_uuid raw ≡ some business
      → parse_uuid claims.sub ≡ some user
      → Handed raw op claims s ⊎ Refused (checked_business raw op claims) s s
  unfolding business_id member user_id
  known_business raw op claims s business user path subject =
      elim (Bool-cases (is_some (find (is_member business user) s.db.members))) [
        | inl has ↦ inl (business, user, path, subject, has, rw (path, subject, has))
        | inr lacks ↦ inr (access_denied, rw (path, subject, lacks))
      ]

  checked_business_cases :
      {A : Type 0} (raw : Text) (op : ℕ → Api A) (claims : AccessClaims) (s : Service)
      → Handed raw op claims s ⊎ Refused (checked_business raw op claims) s s
  unfolding business_id member user_id
  checked_business_cases raw op claims s = elim (Option-cases (parse_uuid raw)) [
    | inl bad ↦ inr (bad_request "Invalid business id" "INVALID_BUSINESS_ID", rw bad)
    | inr (business, path) ↦ elim (Option-cases (parse_uuid claims.sub)) [
      | inl bad ↦ inr (invalid_subject, rw (path, bad))
      | inr (user, subject) ↦ known_business raw op claims s business user path subject
    ]
  ]

  -- A request either is granted, and its operation runs on the state after the check of the token, or is
  -- refused there.
  abbrev pub Decided : {A : Type 0} → Head → Text → (ℕ → Api A) → Service → Type 0
  Decided head raw op s =
      ((business : ℕ) × Granted head raw business s
        × (guarded head raw op s ≡ op business (entered head s)))
      ⊎ Refused (guarded head raw op) s (entered head s)

  Granted-of :
      (head : Head) (raw : Text) (s : Service) (claims : AccessClaims) (business user : ℕ)
      → merchant jwt outside head s ≡ (ok claims, entered head s)
      → parse_uuid raw ≡ some business
      → parse_uuid claims.sub ≡ some user
      → is_some (find (is_member business user) (entered head s).db.members) ≡ true
      → Granted head raw business s
  unfolding merchant
  Granted-of head raw s claims business user e path subject has =
      let (accepted, scope) =
        answered-eq-ok s (entered head s)
          (authenticated jwt head.now head.fetched head.authorization s.auth) claims e in
      let ((token, given, checked), _) =
        authenticated-eq-ok jwt head.now head.fetched head.authorization s.auth _ claims
          (pair_eq accepted) in
      record {
        claims = claims;
        token = token;
        user = user;
        given = given;
        accepted = ap (λ r. r.0) checked;
        scope = scope;
        subject = subject;
        path = path;
        membership = rw (entered-db head s) at has;
      }

  -- The same, for the result of the check.
  continued :
      {A : Type 0} (head : Head) (raw : Text) (op : ℕ → Api A) (s : Service)
      (r : Result Problem AccessClaims × Service)
      → merchant jwt outside head s ≡ r
      → Decided head raw op s
  continued head raw op s (err p, s') e =
      inr (p, ap (continue (checked_business raw op)) e ∙ ap (λ r. (err p, r.1)) (sym e))
  continued head raw op s (ok claims, s') e = elim (checked_business_cases raw op claims s') [
    | inl (business, user, path, subject, has, runs) ↦ inl (
      business,
      Granted-of head raw s claims business user (pair_eq (ap (λ r. r.0) e)) path subject
          (rw (← ap (λ r. r.1) e) at has),
      ap (continue (checked_business raw op)) e ∙ runs ∙ ap (λ r. op business r.1) (sym e),
    )
    | inr (p, refused) ↦
        inr
          (p, ap (continue (checked_business raw op)) e ∙ refused ∙ ap (λ r. (err p, r.1)) (sym e))
  ]

  pub decided :
      {A : Type 0} (head : Head) (raw : Text) (op : ℕ → Api A) (s : Service) → Decided head raw op s
  decided head raw op s = continued head raw op s (merchant jwt outside head s) refl
