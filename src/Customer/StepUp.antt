-- ===== src/Customer/StepUp.antt =====
-- Operations that need a recent passkey.
use drone_dispatch.Common.{
  ◌≡◌, ◌≢◌, ◌⊎◌, inl, inr, ◌++◌, ℕ, refl, Option, none, some, true, any, arith, Bool-cases,
  Option-cases,
}
use drone_dispatch.Common.Int.{ℤ, pos, ◌-ℤ◌, leb_ℤ}
use drone_dispatch.Customer.{
  reply, fresh_or, verify_pickup_location, approve_order, pending, Operation,
}
use drone_dispatch.Verifier.Extract.{
  Problem, require_fresh_mfa, as_i64, into_response, not_implemented, challenge_step_up,
}
use drone_dispatch.Text.{Text, text, same}
use drone_dispatch.Verifier.{AccessClaims, has_fresh_mfa}

-- The token's methods include the passkey, `hwk`, and its sign-in lies at most 300 seconds back.
abbrev pub Fresh : ℕ → AccessClaims → Type 0
Fresh timestamp claims =
    (any (λ m. same m (text "hwk")) claims.amr ≡ true)
    × (time : ℤ) × (claims.auth_time ≡ some time)
    × (leb_ℤ (as_i64 timestamp -ℤ time) (pos 300) ≡ true)

abbrev pub step_up_challenge : Text
step_up_challenge =
    text "Bearer error=\"insufficient_user_authentication\", "
    ++ text "error_description=\"A recent second factor is required\", "
    ++ text "acr_values=\"mfa\", max_age=300"

-- The reply to a customer without a recent second factor.
abbrev pub challenged : (Text → Option Text) → Problem
challenged from_header = record {
  status = 403;
  title = "A recent second factor is required";
  reason = none;
  www_authenticate = from_header step_up_challenge;
}

has_fresh_mfa-Fresh :
    (timestamp : ℕ) (claims : AccessClaims)
    → has_fresh_mfa claims (as_i64 timestamp) (pos 300) ≡ true
    → Fresh timestamp claims
unfolding has_fresh_mfa
has_fresh_mfa-Fresh timestamp claims h = elim (Option-cases claims.auth_time) [
  | inl never ↦ absurd (ground (arith, never))
  | inr (time, known) ↦ (ground arith, time, known, ground (arith, known))
]

has_fresh_mfa_of_Fresh :
    (timestamp : ℕ) (claims : AccessClaims)
    → Fresh timestamp claims
    → has_fresh_mfa claims (as_i64 timestamp) (pos 300) ≡ true
unfolding has_fresh_mfa
has_fresh_mfa_of_Fresh timestamp claims (used, time, known, recent) =
    ground (arith, used, known, recent)

module _ (from_header : Text → Option Text) (timestamp : ℕ) (claims : AccessClaims) where
  abbrev Answered : Problem → Type 0
  Answered r =
      (Fresh timestamp claims × (r.status ≡ 501))
      ⊎ ((¬ (Fresh timestamp claims)) × (r ≡ challenged from_header))

  fresh_or-Answered : Answered (fresh_or from_header timestamp claims)
  unfolding fresh_or require_fresh_mfa not_implemented into_response challenge_step_up
      drone_dispatch.Text.Ascii.decimal_u64
  fresh_or-Answered = elim (Bool-cases (has_fresh_mfa claims (as_i64 timestamp) (pos 300))) [
    | inl fresh ↦ inl (has_fresh_mfa-Fresh timestamp claims fresh, ground (arith, fresh))
    | inr stale ↦ inr (
      λ f. absurd (ground (arith, has_fresh_mfa_of_Fresh timestamp claims f, stale)),
      rw (stale, fresh_or) refl,
    )
  ]

  -- An operation that needs a second factor gets past the check exactly when the token's methods include
  -- the passkey, with a sign-in at most five minutes ago: then the reply is 501, for what is not implemented
  -- yet. Any other token is answered with 403 and the step-up challenge.
  pub reply-Fresh :
      (operation : Operation)
      → operation ≢ pending
      → (Fresh timestamp claims × ((reply from_header timestamp operation claims).status ≡ 501))
        ⊎ ((¬ (Fresh timestamp claims))
            × (reply from_header timestamp operation claims ≡ challenged from_header))
  unfolding reply
  reply-Fresh verify_pickup_location needs = fresh_or-Answered
  reply-Fresh approve_order needs = fresh_or-Answered
  reply-Fresh pending needs = absurd (needs refl)
