-- ===== src/Verifier/Extract/Bearer.antt =====
-- The header and the token that the extractor takes.
use drone_dispatch.Common.{
  ◌≡◌, ◌≢◌, ◌↔◌, ◌⊎◌, ℕ, Option, none, some, [], ◌∷◌, ◌++◌, true, false, any, ◌==◌, map, arith,
  refl, Option-cases, inl, inr, Bool-cases,
}
use drone_dispatch.Common.Exec.{ok, err, Result}
use drone_dispatch.Text.{Text, text, split_once, trim, is_empty, contains}
use drone_dispatch.Text.Equality.{same_iff}
use drone_dispatch.Text.Ascii.{to_ascii_lowercase, eq_ignore_ascii_case}
use drone_dispatch.Verifier.{AccessClaims, TokenVerifier, Jwt, Fetched, Header, verify, key}
use drone_dispatch.Verifier.Extract.{bearer_token}

abbrev pub lower : Text → Text
lower t = map to_ascii_lowercase t

-- The header is the word `bearer`, in any case, a space, and the token with white space around it.
abbrev pub Bearer : Option Text → Text → Type 0
Bearer authorization token =
    (scheme rest : Text) × (authorization ≡ some (scheme ++ 32 ∷ rest))
    × (any (λ c. c == 32) scheme ≡ false)
    × (lower scheme ≡ text "bearer")
    × (trim rest ≡ token)
    × (token ≢ [])

split_once_sound :
    (c : ℕ) (t a b : Text)
    → split_once c t ≡ some (a, b)
    → (t ≡ a ++ c ∷ b) × (any (λ d. d == c) a ≡ false)
unfolding split_once
split_once_sound c [] a b e = absurd (ground arith)
split_once_sound c (d ∷ t) a b e = elim (Bool-cases (d == c)) [
  | inl here ↦ (ground (arith, here), ground (arith, here))
  | inr later ↦ elim (Option-cases (split_once c t)) [
    | inl never ↦ absurd (ground (arith, later, never))
    | inr ((x, y), found) ↦
        let (whole, before) = split_once_sound c t x y found in
        (ground (arith, later, found, whole), ground (arith, later, found, before))
  ]
]

split_once-append :
    (c : ℕ) (a b : Text) → any (λ d. d == c) a ≡ false → split_once c (a ++ c ∷ b) ≡ some (a, b)
unfolding split_once
split_once-append c [] b h = ground arith
split_once-append c (d ∷ a) b h = ground (arith, split_once-append c a b)

nonempty_iff : (t : Text) → (is_empty t ≡ false) ↔ (t ≢ [])
nonempty_iff [] = (λ e. absurd (ground arith), λ h. absurd (h refl))
nonempty_iff (c ∷ t) = (λ e k. cc, λ h. refl)

bearer_token-Bearer :
    (authorization : Option Text) (token : Text)
    → bearer_token authorization ≡ some token
    → Bearer authorization token
unfolding bearer_token eq_ignore_ascii_case to_ascii_lowercase
bearer_token-Bearer none token e = absurd (ground arith)
bearer_token-Bearer (some value) token e = elim (Option-cases (split_once 32 value)) [
  | inl whole ↦ absurd (ground (arith, whole))
  | inr ((scheme, rest), parts) ↦
      let (value_is, first) = split_once_sound 32 value scheme rest parts in
      (
        scheme,
        rest,
        ground (arith, value_is),
        first,
        ground (arith, parts, same_iff (lower scheme) (text "bearer")),
        ground (arith, parts),
        ground (arith, parts, nonempty_iff token),
      )
]

bearer_token_of_Bearer :
    (authorization : Option Text) (token : Text)
    → Bearer authorization token
    → bearer_token authorization ≡ some token
unfolding bearer_token eq_ignore_ascii_case to_ascii_lowercase
bearer_token_of_Bearer authorization token (scheme, rest, given, first, word, trimmed, filled) =
    ground (
      arith,
      given,
      split_once-append 32 scheme rest first,
      same_iff (lower scheme) (text "bearer"),
      word,
      trimmed,
      nonempty_iff token,
      filled,
    )

pub bearer_token_iff :
    (authorization : Option Text) (token : Text)
    → (bearer_token authorization ≡ some token) ↔ Bearer authorization token
bearer_token_iff authorization token =
    (bearer_token-Bearer authorization token, bearer_token_of_Bearer authorization token)

outcome :
    {E S A : Type 0}
    → (r : Result E A × S)
    → ((a : A) × (s : S) × (r ≡ (ok a, s))) ⊎ ((e : E) × (s : S) × (r ≡ (err e, s)))
outcome (ok a, s) = inl (a, s, refl)
outcome (err e, s) = inr (e, s, refl)

module _ (jwt : Jwt) (now : ℕ) (fetched : Fetched) (token : Text) (v v' : TokenVerifier)
    (claims : AccessClaims) where
  -- An ES256 access token of a known key, that checks out against the key, of a grant that is not revoked.
  abbrev pub Accepts : Type 0
  Accepts =
      (header : Header) × (jwt.decode_header token ≡ some header)
      × (header.is_es256 ≡ true)
      × (typ : Text) × (header.typ ≡ some typ)
      × (lower typ ≡ text "at+jwt")
      × (kid : Text) × (header.kid ≡ some kid)
      × (k : Text) × (key now fetched kid v ≡ (ok k, v'))
      × (jwt.decode v'.issuer v'.audience k token ≡ some claims)
      × (contains v'.revoked_grants claims.gid ≡ false)

  verify-Accepts : verify jwt now fetched token v ≡ (ok claims, v') → Accepts
  unfolding verify eq_ignore_ascii_case to_ascii_lowercase
  verify-Accepts e = elim (Option-cases (jwt.decode_header token)) [
    | inl bad ↦ absurd (ground (arith, bad))
    | inr (header, decoded) ↦ elim (Option-cases header.typ) [
      | inl untyped ↦ absurd (ground (arith, decoded, untyped))
      | inr (typ, has_typ) ↦ elim (Option-cases header.kid) [
        | inl unnamed ↦ absurd (ground (arith, decoded, has_typ, unnamed))
        | inr (kid, has_kid) ↦ elim (outcome (key now fetched kid v)) [
          | inr (error, s, failed) ↦ absurd (ground (arith, decoded, has_typ, has_kid, failed))
          | inl (k, s, found) ↦ elim (Option-cases (jwt.decode s.issuer s.audience k token)) [
            | inl bad ↦ absurd (ground (arith, decoded, has_typ, has_kid, found, bad))
            | inr (c, read) ↦ (
              header,
              decoded,
              ground (arith, decoded, has_typ),
              typ,
              has_typ,
              ground (arith, decoded, has_typ, same_iff (lower typ) (text "at+jwt")),
              kid,
              has_kid,
              k,
              ground (arith, decoded, has_typ, has_kid, found, read),
              ground (arith, decoded, has_typ, has_kid, found, read),
              ground (arith, decoded, has_typ, has_kid, found, read),
            )
          ]
        ]
      ]
    ]
  ]

  verify_of_Accepts : Accepts → verify jwt now fetched token v ≡ (ok claims, v')
  unfolding verify eq_ignore_ascii_case to_ascii_lowercase
  verify_of_Accepts
        (header, decoded, es256, typ, has_typ, is_at, kid, has_kid, k, found, read, unlisted) =
      ground (
        arith,
        decoded,
        es256,
        has_typ,
        same_iff (lower typ) (text "at+jwt"),
        is_at,
        has_kid,
        found,
        read,
        unlisted,
      )

  pub verify_iff : (verify jwt now fetched token v ≡ (ok claims, v')) ↔ Accepts
  verify_iff = (verify-Accepts, verify_of_Accepts)
