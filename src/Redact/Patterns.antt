-- ===== src/Redact/Patterns.antt =====
-- The regular expressions of internal/redact/redact.go, with the groups that the code reads.
use centi_log.Base.{Bool, List, String, [], false, ℕ, ◌==◌, ◌||◌, ◌∷◌}
use centi_log.Regex.{byte, seq, alt, star, group, boundary, Re}
use centi_log.Regex.Build.{
  all_of, any_of, is, literal, none_of, one_of, optional, plus, range, repeat, times, word,
}
use centi_log.Text.{Text, codes, contains}

abbrev digit : ℕ → Bool
digit = range b'0' b'9'

abbrev alphanumeric : ℕ → Bool
alphanumeric b = range b'0' b'9' b || range b'A' b'Z' b || range b'a' b'z' b

-- `\s`
abbrev space : ℕ → Bool
space b = b == 9 || b == 10 || b == 12 || b == 13 || b == 32

-- `[[:space:]_-]` is `\s` with the vertical tab, `_` and `-`.
abbrev dash : ℕ → Bool
dash b = b == b'_' || b == b'-'

-- The text of a key and the alternatives in it, under `(?i)`.
abbrev w : String → Re
w s = word (codes s)

abbrev joint : Re
joint = optional (byte dash)

unfoldable pub secret_key_pattern : Re
secret_key_pattern = any_of (w "password") (
    w "passwd"
    ∷ w "pwd"
    ∷ all_of (w "secret" ∷ joint ∷ w "key" ∷ [])
    ∷ w "secret"
    ∷ all_of (w "client" ∷ joint ∷ w "secret" ∷ [])
    ∷ all_of (
        w "api"
        ∷ optional (byte (λ b. space b || b == 11 || dash b))
        ∷ alt (w "key") (w "token")
        ∷ [])
    ∷ all_of (w "access" ∷ joint ∷ w "key" ∷ [])
    ∷ all_of (any_of (w "access") (w "refresh" ∷ w "id" ∷ []) ∷ joint ∷ w "token" ∷ [])
    ∷ w "token"
    ∷ w "authorization"
    ∷ w "auth"
    ∷ w "cookie"
    ∷ w "credential"
    ∷ w "credentials"
    ∷ [])

-- `q(\\.|[^q\\])*q`
abbrev quoted : ℕ → Re
quoted q = all_of (
    byte (is q)
    ∷ star (alt (seq (byte (is 92)) (byte (none_of (10 ∷ [])))) (byte (none_of (q ∷ 92 ∷ []))))
    ∷ byte (is q)
    ∷ [])

abbrev quote : Re
quote = optional (byte (λ b. b == 34 || b == 39))

unfoldable pub secret_assignment_pattern : Re
secret_assignment_pattern =
    seq
      (group 1 (
        all_of (
          quote
          ∷ secret_key_pattern
          ∷ quote
          ∷ star (byte space)
          ∷ byte (λ b. b == b':' || b == b'=')
          ∷ star (byte space)
          ∷ [])))
      (any_of (quoted 34)
        (quoted 39 ∷ plus (byte (none_of (13 ∷ 10 ∷ b',' ∷ b';' ∷ b'&' ∷ b'}' ∷ []))) ∷ []))

-- Under `(?i)` the letters of the class are also the long s and the Kelvin sign.
unfoldable pub bearer_token_pattern : Re
bearer_token_pattern = all_of (
    group 1 (all_of (boundary ∷ w "bearer" ∷ plus (byte space) ∷ []))
    ∷ plus (
        any_of (byte (λ b. alphanumeric b || one_of (codes "._~+/-") b))
          (literal (0xC5 ∷ 0xBF ∷ []) ∷ literal (0xE2 ∷ 0x84 ∷ 0xAA ∷ []) ∷ []))
    ∷ star (byte (is b'='))
    ∷ [])

unfoldable pub aws_access_key_pattern : Re
aws_access_key_pattern = all_of (
    boundary
    ∷ alt (literal (codes "AKIA")) (literal (codes "ASIA"))
    ∷ times 16 (byte (λ b. range b'A' b'Z' b || range b'0' b'9' b))
    ∷ boundary
    ∷ [])

abbrev domain : Re
domain = plus (byte (λ b. alphanumeric b || b == b'-'))

unfoldable pub email_pattern : Re
email_pattern = all_of (
    plus (byte (λ b. alphanumeric b || one_of (codes ".!#$%&'*+/=?^_{}|~-") b))
    ∷ byte (is b'@')
    ∷ domain
    ∷ plus (seq (byte (is b'.')) domain)
    ∷ [])

unfoldable pub card_number_pattern : Re
card_number_pattern =
    seq (byte digit)
      (repeat 12 6 (seq (optional (byte (λ b. b == b' ' || b == b'-'))) (byte digit)))

-- The markers of `sensitiveAttributeKey`.
has_any : Text → List String → Bool
has_any flat [] = false
has_any flat (m ∷ ms) = contains flat (codes m) || has_any flat ms

unfoldable pub has_marker : Text → Bool
unfolding has_any
has_marker flat = has_any flat (
    "apikey" ∷ "accesskey" ∷ "privatekey" ∷ "secretkey" ∷ "signingkey" ∷ "clientsecret"
    ∷ "accesstoken" ∷ "refreshtoken" ∷ "idtoken" ∷ "authtoken" ∷ "sessiontoken" ∷ "sessionid" ∷ [])
