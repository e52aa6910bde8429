-- ===== src/Mailer/Tests.antt =====
-- A server that greets in two lines and takes the mail.
use drone_dispatch.Config.{Config}
use drone_dispatch.Flow.Fixture
use drone_dispatch.Common.{◌≡◌, refl, true, [], ◌∷◌, ◌++◌, ◌⊎◌}
use drone_dispatch.Common.Exec.{ok, err}
use drone_dispatch.Common.Int.{pos}
use drone_dispatch.Text.{Text, text, byte_len, bytes}
use drone_dispatch.Mailer.{
  crlf, Wire, address_of, send_signup_otp, expect_code, has_line_break, unexpected_code, panicked,
}
use drone_dispatch.Mailer.Conversation.{Ends, conversation, send_signup_otp-written}

abbrev config : Config
config = record Fixture.config {
  smtp_from = text "Drone Drop <no-reply@d>";
  otp_ttl_secs = pos 600;
}

abbrev line : Text → Text
line t = t ++ crlf

abbrev server : Wire
server = record {
  written = [];
  incoming =
      line (text "220-hello")
      ∷ line (text "220 ready")
      ∷ line (text "250 ok")
      ∷ line (text "250 ok")
      ∷ line (text "250 ok")
      ∷ line (text "354 go")
      ∷ line (text "250 queued")
      ∷ [];
}

address_runs : address_of config.smtp_from ≡ text "no-reply@d"
unfolding address_of
address_runs = refl

mail_is_sent : (send_signup_otp true config (text "a@b") (text "123456") server).0 ≡ ok tt
unfolding send_signup_otp expect_code address_of byte_len bytes has_line_break
    drone_dispatch.Mailer.command
mail_is_sent = refl

refused_greeting :
    (send_signup_otp true config
      (text "a@b")
      (text "1")
      (record server { incoming = line (text "554 no") ∷ [] })).0
    ≡ err unexpected_code
unfolding send_signup_otp expect_code address_of byte_len bytes has_line_break
refused_greeting = refl

-- A multi-byte character across the third byte makes the slice panic.
cut_character :
    (send_signup_otp true config
      (text "a@b")
      (text "1")
      (record server { incoming = (50 ∷ 50 ∷ 233 ∷ 13 ∷ 10 ∷ []) ∷ [] })).0
    ≡ err panicked
unfolding send_signup_otp expect_code address_of byte_len bytes has_line_break
cut_character = refl

send_signup_otp-written_example :
    Ends
      (conversation config (text "a@b") (text "1"))
      (send_signup_otp true config (text "a@b") (text "1") server)
    × ((has_line_break (text "a@b") ≡ true) ⊎ (has_line_break (address_of config.smtp_from) ≡ true)
        → (send_signup_otp true config (text "a@b") (text "1") server).1.written ≡ [])
send_signup_otp-written_example =
    send_signup_otp-written config (text "a@b") (text "1") true server refl
