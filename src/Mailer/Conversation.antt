-- ===== src/Mailer/Conversation.antt =====
-- What the mailer writes to the mail server, however the server answers.
use drone_dispatch.Config.{Config}
use drone_dispatch.Common.{
  ◌≡◌, ℕ, refl, ap, List, take, [], ◌∷◌, suc, ◌∙◌, ◌++◌, sym, Bool, true, ◌⊎◌, Bool-cases, inl, inr,
  arith,
}
use drone_dispatch.Mailer.{
  expect_code, took, Wire, Smtp, command, MailError, ehlo, mail_from, read_reply, address_of, put,
  rcpt_to, start_data, body, quit, converse, send_signup_otp, has_line_break, invalid_recipient,
  invalid_sender, no_response,
}
use drone_dispatch.Text.{Text}
use drone_dispatch.Common.Exec.{Result, ok, err, continue, ◌>>◌}

expect_code-written : (expected : ℕ) (w : Wire) → (expect_code expected w).1.written ≡ w.written
unfolding expect_code took
expect_code-written expected w = took-written w (read_reply expected w.incoming)
  where
    took-written : (w : Wire) (r : Result MailError (List Text)) → (took w r).1.written ≡ w.written
    took-written w (ok rest) = refl
    took-written w (err e) = refl

module _ (full : List Text) where
  -- What was written is a beginning of the whole conversation, and all of it after a success.
  abbrev pub Ends : Result MailError (Unit {0}) × Wire → Type 0
  Ends r = (n : ℕ) × (r.1.written ≡ take n full) × (r.0 ≡ ok tt → r.1.written ≡ full)

  continue-Ends :
      (n : ℕ) (m : Smtp (Unit {0})) (r : Result MailError (Unit {0}) × Wire)
      → r.1.written ≡ take n full
      → ((w : Wire) → w.written ≡ take n full → Ends (m w))
      → Ends (continue (λ u. m) r)
  continue-Ends n m (ok u, w) e h = h w e
  continue-Ends n m (err x, w) e h = (n, e, λ k. absurd (cc))

  expect-Ends :
      (n expected : ℕ) (m : Smtp (Unit {0})) (w : Wire)
      → ((v : Wire) → v.written ≡ take n full → Ends (m v))
      → w.written ≡ take n full
      → Ends ((expect_code expected >> m) w)
  expect-Ends n expected m w h e =
      continue-Ends n m (expect_code expected w) (expect_code-written expected w ∙ e) h

  command-Ends :
      (n expected : ℕ) (line : Text) (m : Smtp (Unit {0})) (w : Wire)
      → take (suc n) full ≡ take n full ++ line ∷ []
      → ((v : Wire) → v.written ≡ take (suc n) full → Ends (m v))
      → w.written ≡ take n full
      → Ends ((command line expected >> m) w)
  unfolding command
  command-Ends n expected line m w longer h e =
      expect-Ends (suc n) expected m (put line w) h (ap (λ t. t ++ line ∷ []) e ∙ sym longer)

  refused : (x : MailError) (w : Wire) → w.written ≡ [] → Ends (err x, w)
  refused x w e = (0, e, λ k. absurd (cc))

abbrev pub conversation : Config → Text → Text → List Text
conversation config recipient otp =
    ehlo
    ∷ mail_from (address_of config.smtp_from)
    ∷ rcpt_to recipient
    ∷ start_data
    ∷ body config recipient otp
    ∷ quit
    ∷ []

module _ (config : Config) (recipient otp : Text) where
  abbrev full : List Text
  full = conversation config recipient otp

  converse-Ends : (w : Wire) → w.written ≡ [] → Ends full (converse config recipient otp w)
  unfolding converse
  converse-Ends w e =
      expect-Ends full 0 220 _ w
        (λ a. command-Ends full 0 250 ehlo _ a refl (λ b.
          command-Ends full 1 250 (mail_from (address_of config.smtp_from)) _ b refl (λ c.
            command-Ends full 2 250 (rcpt_to recipient) _ c refl (λ d.
              command-Ends full 3 354 start_data _ d refl (λ f at.
                expect-Ends full 5 250 _ (put (body config recipient otp) f)
                  (λ g at'. (6, ap (λ t. t ++ quit ∷ []) at', λ k. ap (λ t. t ++ quit ∷ []) at'))
                  (ap (λ t. t ++ body config recipient otp ∷ []) at))))))
        e

  -- Whatever the server answers, and wherever its answers end, what is written to it is a beginning of
  -- the conversation EHLO, MAIL FROM, RCPT TO, DATA, the mail and QUIT, and all of it when the function
  -- succeeds; and nothing at all is written for a recipient or a sender address that holds a line break.
  pub send_signup_otp-written :
      (connected : Bool) (w : Wire)
      → w.written ≡ []
      → Ends full (send_signup_otp connected config recipient otp w)
        × ((has_line_break recipient ≡ true) ⊎ (has_line_break (address_of config.smtp_from) ≡ true)
            → (send_signup_otp connected config recipient otp w).1.written ≡ [])
  unfolding send_signup_otp
  send_signup_otp-written connected w e = elim (Bool-cases (has_line_break recipient)) [
    | inl bad ↦ (
      rw (bad, send_signup_otp) (refused full invalid_recipient w e),
      λ h. rw (bad, send_signup_otp) e,
    )
    | inr good ↦ elim (Bool-cases (has_line_break (address_of config.smtp_from))) [
      | inl bad ↦ (
        rw (good, bad, send_signup_otp) (refused full invalid_sender w e),
        λ h. rw (good, bad, send_signup_otp) e,
      )
      | inr fine ↦ (
        elim (Bool-cases connected) [
          | inl up ↦ rw (good, fine, up, send_signup_otp) (converse-Ends w e)
          | inr down ↦ rw (good, fine, down, send_signup_otp) (refused full no_response w e)
        ],
        λ h. absurd (ground (arith, good, fine, h)),
      )
    ]
  ]
