-- ===== src/Redact.antt =====
-- internal/redact/redact.go: masking of secrets in messages and attributes.
pub mod Patterns
pub mod Luhn
pub mod Cards
pub mod Attributes
mod Tests
use mathlib.Core.Option
use mathlib.Core.List.{flatten}
use centi_log.Base.{
  Bool, List, Option, [], any, drop, false, get_or, if◌then◌else◌, leb, length, ltb, map, none, not,
  reverse, some, take, ℕ, ◌%◌, ◌&&◌, ◌*◌, ◌++◌, ◌+◌, ◌-◌, ◌==◌, ◌||◌, ◌∷◌,
}
use centi_log.Dict.{Dict}
use centi_log.Redact.Patterns.{
  card_number_pattern, has_marker, aws_access_key_pattern, bearer_token_pattern, email_pattern,
  secret_assignment_pattern,
}
use centi_log.Regex.{Match, find_all, slice, group_text, replace_all}
use centi_log.Schema.{Log}
use centi_log.Text.{Text, codes, text_eq, Unicode, is_one_of, trim_space}
use centi_log.Text.Utf8.{fields_func, is_digit, is_letter, to_lower}

-- `Mask`
abbrev pub mask : Text
unfolding codes
mask = codes "[REDACTED]"

-- `isASCIIDigit`
abbrev pub is_ascii_digit : ℕ → Bool
is_ascii_digit b = leb b'0' b && leb b b'9'

-- The digits of a candidate; none if it holds another byte than digits, blanks and hyphens.
unfoldable pub luhn_digits : Text → Option (List ℕ)
luhn_digits [] = some []
luhn_digits (b ∷ r) =
    if is_ascii_digit b
    then Option.map (λ ds. (b - b'0') ∷ ds) (luhn_digits r)
    else if b == b' ' || b == b'-'
    then luhn_digits r
    else none

-- One digit of the checksum.
unfoldable pub weight : Bool → ℕ → ℕ
weight double digit =
    if double then (if ltb 9 (digit * 2) then digit * 2 - 9 else digit * 2) else digit

-- The loop over the digits from the last one on.
unfoldable pub luhn_sum : ℕ → Bool → List ℕ → ℕ
luhn_sum sum double [] = sum
luhn_sum sum double (digit ∷ digits) = luhn_sum (sum + weight double digit) (not double) digits

unfoldable pub valid_digits : List ℕ → Bool
valid_digits digits =
    if ltb (length digits) 13 || ltb 19 (length digits)
    then false
    else luhn_sum 0 false (reverse digits) % 10 == 0

-- `passesLuhn`
unfoldable pub passes_luhn : Text → Bool
passes_luhn candidate = elim (luhn_digits candidate) [
  | none ↦ false
  | some digits ↦ valid_digits digits
]

-- Is there a digit just before `start` or at `end`?
unfoldable pub touches_digit : Text → ℕ → ℕ → Bool
touches_digit message start end =
    (ltb 0 start && is_ascii_digit (get_or message (start - 1) 0))
    || (ltb end (length message) && is_ascii_digit (get_or message end 0))

-- One round of the loop of `redactCardNumbers`.
unfoldable pub redact_card : Match → Text → Text
redact_card m message =
    if touches_digit message m.start m.end
    then message
    else if passes_luhn (slice message m.start m.end)
    then take m.start message ++ (mask ++ drop m.end message)
    else message

-- The loop, over the matches from the last one on.
unfoldable pub redact_cards : List Match → Text → Text
redact_cards [] message = message
redact_cards (m ∷ ms) message = redact_cards ms (redact_card m message)

unfoldable pub redact_card_numbers : Text → Text
redact_card_numbers message = redact_cards (reverse (find_all card_number_pattern message)) message

-- `(value[0] == quote && value[len(value)-1] == quote)`
abbrev quoted_by : ℕ → Text → Bool
quoted_by quote value = get_or value 0 0 == quote && get_or value (length value - 1) 0 == quote

mask_value : Text → Text → Text
mask_value prefix value =
    if leb 2 (length value) && (quoted_by b'"' value || quoted_by b'\'' value)
    then prefix ++ (get_or value 0 0 ∷ (mask ++ get_or value (length value - 1) 0 ∷ []))
    else prefix ++ mask

-- `maskAssignment`: the match is matched once more for its first group.
unfoldable pub mask_assignment : Text → Text
unfolding mask_value
mask_assignment found = elim (find_all secret_assignment_pattern found) [
  | [] ↦ found
  | m ∷ _ ↦
      let prefix = group_text found 1 m.groups in
      mask_value prefix (trim_space (drop (length prefix) found))
]

-- `redactMessage`
unfoldable pub redact_message : Text → Text
redact_message message =
    let assigned =
      replace_all secret_assignment_pattern (λ s m. mask_assignment (slice s m.start m.end))
        message in
    let borne =
      replace_all bearer_token_pattern (λ s m. group_text s 1 m.groups ++ mask) assigned in
    let keyless = replace_all aws_access_key_pattern (λ s m. mask) borne in
    let mailless = replace_all email_pattern (λ s m. mask) keyless in redact_card_numbers mailless

-- The `switch` over a part of a key.
unfoldable pub is_secret_part : Text → Bool
is_secret_part part = is_one_of part (
    "password" ∷ "passwd" ∷ "pwd" ∷ "token" ∷ "secret" ∷ "authorization" ∷ "auth" ∷ "cookie"
    ∷ "credential" ∷ "credentials" ∷ "jwt" ∷ "session" ∷ "bearer" ∷ [])

module _ (u : Unicode) where
  -- `sensitiveAttributeKey`
  unfoldable pub sensitive_attribute_key : Text → Bool
  sensitive_attribute_key key =
      let parts =
        map (to_lower u) (fields_func (λ r. not (is_letter u r) && not (is_digit u r)) key) in
      any is_secret_part parts || has_marker (flatten parts)

  -- The value of an attribute after `Redact`.
  unfoldable pub redact_value : Text → Text → Text
  redact_value key value =
      if sensitive_attribute_key key
      then (if not (text_eq value []) && not (text_eq value mask) then mask else value)
      else redact_message value

  -- The loop over the attributes: the new map, and whether a value changed.
  unfoldable pub redact_attributes : Dict Text → Dict Text × Bool
  redact_attributes [] = ([], false)
  redact_attributes ((key, value) ∷ rest) =
      let (attributes, changed) = redact_attributes rest in
      let value' = redact_value key value in
      ((key, value') ∷ attributes, changed || not (text_eq value' value))

  -- `Redact`
  unfoldable pub redact : Log → Log
  redact log =
      let message = redact_message log.message in
      let (attributes, changed) = redact_attributes log.attributes in
      record log {
        message = message;
        attributes = attributes;
        redacted = log.redacted || (changed || not (text_eq message log.message));
      }
