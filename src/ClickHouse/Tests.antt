-- ===== src/ClickHouse/Tests.antt =====
-- Queries over a way of writing URLs that keeps all values, and the theorems at them.
use centi_log.Base.{
  ℕ, zero, suc, ◌≢◌, [], ◌∷◌, ◌++◌, some, none, success, failure, ◌≡◌, refl, true, false, List,
  Option, arith, All, map, ap, ◌∙◌,
}
use centi_log.ClickHouse.{
  no_response, responded, ClickHouseClient, Url, drop_cr, has_long_line, keep_rows, read_rows,
  rows_of_answer, HttpQuery, new_click_house_client, query_request,
}
use centi_log.ClickHouse.Rows.{read_rows-write_rows, write_rows}
use centi_log.ClickHouse.Sent.{IsFaithful, Carries, query_request-Carries}
use centi_log.Dict.{Dict, lookup, insert, erase}
use centi_log.Text.{Text, codes, text_eq}
use centi_log.Text.Split.{split_at, split_at-append}

answer_run :
    (rows_of_answer (responded 200 (codes "{1}\n\n{2}\n{3}") true)
      ≡ success (codes "{1}" ∷ codes "{2}" ∷ codes "{3}" ∷ []))
    × (rows_of_answer (responded 500 (codes "{1}") true)
        ≡ failure (codes "ClickHouse query failed"))
    × (rows_of_answer (responded 200 (codes "{1}") false)
        ≡ failure (codes "read ClickHouse query results"))
    × (rows_of_answer no_response ≡ failure (codes "ClickHouse query unavailable"))
unfolding rows_of_answer read_rows keep_rows drop_cr has_long_line split_at codes text_eq
answer_run = (refl, refl, refl, refl)

abbrev two_rows : List Text
two_rows = codes "{1}" ∷ codes "{2}" ∷ []

read_rows-write_rows_example : read_rows (write_rows two_rows) true ≡ success two_rows
unfolding codes
read_rows-write_rows_example =
    read_rows-write_rows two_rows
      (
        (λ h. cc, ((λ h. cc), ((λ h. cc), ((λ h. cc), tt))), refl, omega arith),
        ((λ h. cc, ((λ h. cc), ((λ h. cc), ((λ h. cc), tt))), refl, omega arith), tt),
      )
      (omega arith)

-- A URL as its fields, each with its bytes one higher and ended by a zero.
abbrev write_fields : List Text → Text
write_fields [] = []
write_fields (f ∷ fs) = map suc f ++ (0 ∷ write_fields fs)

abbrev pred : ℕ → ℕ
pred zero = zero
pred (suc n) = n

abbrev flat : Dict Text → List Text
flat [] = []
flat ((k, v) ∷ query) = k ∷ v ∷ flat query

abbrev pairs : List Text → Dict Text
pairs (k ∷ v ∷ fields) = (k, v) ∷ pairs fields
pairs other = []

abbrev url_of : List Text → Option Url
url_of (scheme ∷ host ∷ fields) =
    some (record { scheme = scheme; host = host; query = pairs fields })
url_of other = none

abbrev toy_parse : Text → Option Url
toy_parse t = url_of (map (map pred) (split_at 0 t))

abbrev toy_format : Url → Text
toy_format u = write_fields (u.scheme ∷ u.host ∷ flat u.query)

map-pred : (f : Text) → map pred (map suc f) ≡ f
map-pred [] = refl
map-pred (b ∷ f) = ap (λ t. b ∷ t) (map-pred f)

suc-no_zero : (f : Text) → All (λ b. b ≢ 0) (map suc f)
suc-no_zero [] = tt
suc-no_zero (b ∷ f) = ((λ h. absurd (omega (arith, h))), suc-no_zero f)

read_fields : (fs : List Text) → map (map pred) (split_at 0 (write_fields fs)) ≡ fs ++ ([] ∷ [])
unfolding split_at
read_fields [] = refl
read_fields (f ∷ fs) =
    ap (map (map pred)) (split_at-append 0 (map suc f) (write_fields fs) (suc-no_zero f))
    ∙ ap (λ t. t ∷ map (map pred) (split_at 0 (write_fields fs))) (map-pred f)
    ∙ ap (λ l. f ∷ l) (read_fields fs)

pairs-flat : (query : Dict Text) → pairs (flat query ++ ([] ∷ [])) ≡ query
pairs-flat [] = refl
pairs-flat ((k, v) ∷ query) = ap (λ l. (k, v) ∷ l) (pairs-flat query)

toy-IsFaithful : IsFaithful toy_parse toy_format
toy-IsFaithful t u query read proper = (
  record { scheme = u.scheme; host = u.host; query = pairs (flat query ++ ([] ∷ [])) },
  ap url_of (read_fields (u.scheme ∷ u.host ∷ flat query)),
  refl,
  refl,
  λ name. ap (lookup name) (pairs-flat query),
)

abbrev server : Text
server = toy_format (record { scheme = codes "http"; host = codes "h"; query = [] })

abbrev client : ClickHouseClient
client = record {
  endpoint = toy_format (record {
    scheme = codes "http";
    host = codes "h";
    query = (codes "database", codes "d") ∷ [];
  });
  user = codes "u";
  password = codes "p";
}

running : Unit {0}
unfolding new_click_house_client insert erase split_at codes text_eq lookup
running = tt

query_request-Carries_example :
    (request : HttpQuery) × (query_request toy_parse toy_format client
        (codes "SELECT")
        ((codes "limit", codes "9") ∷ [])
      ≡ success request)
    × Carries toy_parse toy_format (codes "SELECT") (codes "limit") (codes "9") (codes "d") request
unfolding running
query_request-Carries_example =
    query_request-Carries toy_parse toy_format server (codes "u") (codes "p") (codes "d")
      (codes "SELECT") (codes "limit") (codes "9") client ((codes "limit", codes "9") ∷ [])
      toy-IsFaithful refl (refl, tt) refl
