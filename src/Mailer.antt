-- ===== src/Mailer.antt =====
-- services/auth-service/src/mailer.rs: the SMTP conversation that sends a one-time code.
pub mod Conversation
mod Tests
use drone_dispatch.Common.{
  ℕ, suc, ◌+◌, ◌-◌, ◌*◌, ◌/◌, Bool, true, false, not, ◌&&◌, ◌||◌, Option, none, some, List, [], ◌∷◌,
  ◌++◌, ltb, leb, ◌==◌, if◌then◌else◌, any, and_then, unwrap_or, is_some_and, length,
}
use drone_dispatch.Common.Exec.{
  Exec, Result, ok, err, pure, fail, lift, modify, reject_if, ◌>>=◌, ◌>>◌,
}
use drone_dispatch.Common.Int.{ℤ, pos, negsuc}
use drone_dispatch.Text.{Text, text, byte_len, encode_char, bytes}
use drone_dispatch.Config.{Config}
use drone_dispatch.Text.Ascii.{digits_value, decimal_u64}

-- Every failure of the function; a slice that cuts a character panics instead.
pub data MailError : Type 0 where
  invalid_recipient invalid_sender invalid_response no_response unexpected_code panicked : MailError

-- The texts written to the socket so far, and the lines that the server will send: where they end, the
-- next read times out. A write that fails is one whose answer does not come.
pub record Wire : Type 0 where
  pub written : List Text
  pub incoming : List Text

abbrev pub Smtp : Type 0 → Type 0
Smtp A = Exec MailError Wire A

abbrev pub is_line_break : ℕ → Bool
is_line_break c = c == 13 || c == 10

unfoldable pub has_line_break : Text → Bool
has_line_break t = any is_line_break t

-- `rsplit_once(c)`
rsplit_once : ℕ → Text → Option (Text × Text)
rsplit_once c [] = none
rsplit_once c (d ∷ t) = elim (rsplit_once c t) [
  | some (a, b) ↦ some (d ∷ a, b)
  | none ↦ if d == c then some ([], t) else none
]

-- `strip_suffix(c)`
strip_last : ℕ → Text → Option Text
strip_last c [] = none
strip_last c (d ∷ []) = if d == c then some [] else none
strip_last c (d ∷ e ∷ t) = and_then (strip_last c (e ∷ t)) (λ r. some (d ∷ r))

-- What stands between the last `<` and a final `>`, or else the whole setting.
unfoldable pub address_of : Text → Text
unfolding rsplit_once strip_last
address_of smtp_from =
    unwrap_or (and_then (rsplit_once b'<' smtp_from) (λ p. strip_last b'>' p.1)) smtp_from

-- The first `n` bytes of a text, unless they end inside a character.
byte_prefix : ℕ → Text → Option Text
unfolding encode_char
byte_prefix n [] = if n == 0 then some [] else none
byte_prefix n (c ∷ t) =
    let size = length (encode_char c) in
    let rest = byte_prefix (n - size) t in
    if n == 0 then some [] else if leb size n then and_then rest (λ r. some (c ∷ r)) else none

-- `parse::<u16>` of three bytes, which cannot overflow.
parse_code : Text → Option ℕ
unfolding digits_value
parse_code [] = none
parse_code (c ∷ []) = digits_value 0 (c ∷ [])
parse_code (c ∷ d ∷ t) = if c == b'+' then digits_value 0 (d ∷ t) else digits_value 0 (c ∷ d ∷ t)

fourth_is_dash : List ℕ → Bool
fourth_is_dash (a ∷ b ∷ c ∷ d ∷ t) = d == b'-'
fourth_is_dash other = false

-- The lines of a reply, up to the last one, whose code counts.
read_reply : ℕ → List Text → Result MailError (List Text)
unfolding byte_prefix parse_code fourth_is_dash
read_reply expected [] = err no_response
read_reply expected (line ∷ rest) =
    let next = read_reply expected rest in
    if ltb (byte_len line) 3 then err invalid_response else elim (byte_prefix 3 line) [
      | none ↦ err panicked
      | some start ↦ elim (parse_code start) [
        | none ↦ err invalid_response
        | some code ↦
            if fourth_is_dash (bytes line)
            then next
            else if code == expected
            then ok rest
            else err unexpected_code
      ]
    ]

took : Wire → Result MailError (List Text) → Result MailError (Unit {0}) × Wire
took w (ok rest) = (ok tt, record w { incoming = rest })
took w (err e) = (err e, record w { incoming = [] })

unfoldable pub expect_code : ℕ → Smtp (Unit {0})
unfolding read_reply took
expect_code expected w = took w (read_reply expected w.incoming)

abbrev pub put : Text → Wire → Wire
put t w = record w { written = w.written ++ t ∷ [] }

unfoldable pub command : Text → ℕ → Smtp (Unit {0})
command line expected = do modify (put line); expect_code expected

-- An `i64` divided by 60, rounded towards zero, and in decimal.
minutes : ℤ → Text
minutes (pos n) = decimal_u64 (n / 60)
minutes (negsuc n) = let m = (n + 1) / 60 in if m == 0 then decimal_u64 0 else b'-' ∷ decimal_u64 m

abbrev pub crlf : Text
crlf = 13 ∷ 10 ∷ []

unfoldable pub body : Config → Text → Text → Text
unfolding minutes
body config recipient otp =
    text "From: "
    ++ config.smtp_from
    ++ crlf
    ++ text "To: "
    ++ recipient
    ++ crlf
    ++ text "Subject: Your Drone Drop verification code"
    ++ crlf
    ++ text "Content-Type: text/plain; charset=utf-8"
    ++ crlf
    ++ crlf
    ++ text "Your Drone Drop verification code is: "
    ++ otp
    ++ crlf
    ++ crlf
    ++ text "It expires in "
    ++ minutes config.otp_ttl_secs
    ++ text " minutes. If you did not request this, you can ignore this email."
    ++ crlf
    ++ (b'.' ∷ crlf)

abbrev pub ehlo : Text
ehlo = text "EHLO localhost" ++ crlf

abbrev pub mail_from : Text → Text
mail_from address = text "MAIL FROM:<" ++ address ++ text ">" ++ crlf

abbrev pub rcpt_to : Text → Text
rcpt_to recipient = text "RCPT TO:<" ++ recipient ++ text ">" ++ crlf

abbrev pub start_data : Text
start_data = text "DATA" ++ crlf

abbrev pub quit : Text
quit = text "QUIT" ++ crlf

-- The conversation over a connection.
unfoldable pub converse : Config → Text → Text → Smtp (Unit {0})
converse config recipient otp = do
  expect_code 220
  command ehlo 250
  command (mail_from (address_of config.smtp_from)) 250
  command (rcpt_to recipient) 250
  command start_data 354
  modify (put (body config recipient otp))
  expect_code 250
  modify (put quit)

-- `connected` says whether the connection is made within five seconds.
unfoldable pub send_signup_otp : (connected : Bool) → Config → Text → Text → Smtp (Unit {0})
unfolding converse
send_signup_otp connected config recipient otp = do
  reject_if (has_line_break recipient) invalid_recipient
  reject_if (has_line_break (address_of config.smtp_from)) invalid_sender
  reject_if (not connected) no_response
  converse config recipient otp
