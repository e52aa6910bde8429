-- ===== src/Flow/Decision.antt =====
-- What `decide` and the `match` of `complete` let through.
use drone_dispatch.Common.{none, true, ◌≡◌, Bool, ◌⊎◌, ◌↔◌, arith}
use drone_dispatch.Flow.{Situation, decide, needs_mfa}
use drone_dispatch.Flow.Handlers.{refusal}

-- The user is signed in, has used the second factor where there is one, and where the request or the
-- resource wants a second factor has used one, freshly for a step-up.
pub record Ready (s : Situation) : Type 0 where
  pub signed_in : s.signed_in ≡ true
  pub factor_used : s.has_factors ≡ true → s.session_has_second_factor ≡ true
  pub factor_exists : needs_mfa s ≡ true → s.has_factors ≡ true
  pub factor_fresh : s.step_up ≡ true → s.second_factor_fresh ≡ true

let_through :
    (s : Situation) (consented : Bool)
    → refusal (decide s) consented ≡ none
    → Ready s × ((s.first_party ≡ true) ⊎ (consented ≡ true))
unfolding refusal decide
let_through s consented e = (
  record {
    signed_in = ground arith;
    factor_used = λ h. ground (arith, h);
    factor_exists = λ h. ground (arith, h);
    factor_fresh = λ h. ground (arith, h);
  },
  ground arith,
)

Ready-passes :
    (s : Situation) (consented : Bool)
    → Ready s
    → ((s.first_party ≡ true) ⊎ (consented ≡ true))
    → refusal (decide s) consented ≡ none
unfolding refusal decide
Ready-passes s consented r agreed =
    ground (arith, r.signed_in, r.factor_used, r.factor_exists, r.factor_fresh, agreed)

-- `complete` goes on exactly when the situation is ready and the app is first-party or the user
-- approved.
pub refusal-none_iff :
    (s : Situation) (consented : Bool)
    → (refusal (decide s) consented ≡ none)
      ↔ (Ready s × ((s.first_party ≡ true) ⊎ (consented ≡ true)))
refusal-none_iff s consented = (let_through s consented, λ h. Ready-passes s consented h.0 h.1)
