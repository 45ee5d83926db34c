-- ===== src/Api/Queries.antt =====
-- cmd/api/api.go: the handlers that read logs. Each prepares the parameters of one query, with the
-- names of the services that the caller may see, and answers with the rows.
use centi_log.Base.{
  ℕ, ◌*◌, ◌-◌, Bool, false, not, ◌&&◌, ◌||◌, List, [], ◌∷◌, Option, none, some, Attempt, success,
  failure, need, ensure, or_fail, ◌>>=◌, ◌>>◌, length, leb, if◌then◌else◌, ◌++◌,
}
use centi_log.Api.{
  Instant, rows_body, select_logs, select_trace, select_volume, select_patterns, ApiHandler,
  ApiRequest, ApiResponse, Principal, Statement, answer, deny,
}
use centi_log.Dict.{Dict, lookup}
use centi_log.Processor.{prepared}
use centi_log.Repository.{contains_service, service_names}
use centi_log.Text.{Text, codes, text_eq, trim_space, is_one_of, Unicode}
use centi_log.Text.Decimal.{format_uint}
use centi_log.Text.Integers.{ℤ, pos, negsuc, leb_int, format_int, parse_int}
use centi_log.Text.Utf8.{to_lower}

-- `r.URL.Query().Get(name)`
unfoldable pub first_or_empty : Option (List Text) → Text
first_or_empty none = []
first_or_empty (some []) = []
first_or_empty (some (value ∷ values)) = value

unfoldable pub query_value : ApiRequest → Text → Text
query_value r name = first_or_empty (lookup name r.query)

-- What `strconv.Atoi` returned, from 1 to the largest.
unfoldable pub in_range : ℕ → Option ℤ → Option ℕ
in_range largest none = none
in_range largest (some (negsuc n)) = none
in_range largest (some (pos n)) = if leb 1 n && leb n largest then some n else none

-- The parameter that counts, with its value where it is left out.
unfoldable pub count_param : ApiRequest → Text → ℕ → ℕ → Text → Attempt ApiResponse ℕ
count_param r name default largest message =
    let value = query_value r name in
    if text_eq value []
    then success default
    else need (deny 400 message) (in_range largest (parse_int value))

-- One of the bounds in time of `listLogs`, if it is there.
unfoldable pub single_value : List Text → Option Text
single_value [] = none
single_value (value ∷ []) = some value
single_value (value ∷ other ∷ values) = none

unfoldable pub bound_of : Text → Option (List Text) → Attempt ApiResponse (Option ℤ)
bound_of name none = success none
bound_of name (some values) = do
  value ← need (deny 400 (name ++ codes " must be provided once")) (single_value values)
  parsed ← need (deny 400 (name ++ codes " must be milliseconds")) (parse_int value)
  success (some parsed)

unfoldable pub bound_param : ApiRequest → Text → Attempt ApiResponse (Option ℤ)
bound_param r name = bound_of name (lookup name r.query)

-- The flag and the value of a bound as parameters.
unfoldable pub flag_text : Option ℤ → Text
flag_text none = codes "0"
flag_text (some v) = codes "1"

unfoldable pub bound_text : Option ℤ → Text
bound_text none = codes "0"
bound_text (some v) = format_int v

-- Both bounds are there, and the first is after the second.
unfoldable pub are_crossed : Option ℤ → Option ℤ → Bool
are_crossed none to = false
are_crossed (some from) none = false
are_crossed (some from) (some to) = not (leb_int from to)

-- `validLogLevel`
unfoldable pub valid_log_level : Text → Bool
valid_log_level level =
    is_one_of level ("trace" ∷ "debug" ∷ "info" ∷ "warn" ∷ "error" ∷ "fatal" ∷ [])

-- The level, the text and the trace of `listLogs`.
unfoldable pub log_filters : Unicode → ApiRequest → Attempt ApiResponse (Text × Text × Text)
log_filters u r = do
  let level = to_lower u (trim_space (query_value r (codes "level")))
  ensure (deny 400 (codes "level is not supported")) (text_eq level [] || valid_log_level level)
  let text = query_value r (codes "text")
  let trace_id = query_value r (codes "trace_id")
  ensure (deny 400 (codes "text or trace_id is too long"))
      (leb (length text) 1024 && leb (length trace_id) 512)
  success (level, text, trace_id)

-- The services to search: those that the caller may see, or the one that is asked for.
unfoldable pub narrowed : Text → List Text → Attempt ApiResponse (List Text)
narrowed requested allowed =
    if text_eq requested []
    then success allowed
    else if contains_service allowed requested
    then success (requested ∷ [])
    else failure (deny 403 (codes "service access denied"))

-- `m - n` as an instant, which may lie before 1970.
unfoldable pub minus : ℕ → ℕ → ℤ
minus m n = if leb n m then pos (m - n) else negsuc (n - m - 1)

abbrev pub day_ms : ℕ
day_ms = 86_400_000

abbrev pub hour_ms : ℕ
hour_ms = 3_600_000

-- A query and its parameters.
abbrev pub Query : Type 0
Query = Statement × Dict Text

module _ {S : Type 0} (handler : ApiHandler S) (instant : Instant) (s : S)
    (account : Principal) where
  -- `permittedServices` and `serviceNames`
  unfoldable pub permitted : Attempt ApiResponse (List Text)
  permitted = do
    services ←
        or_fail (deny 500 (codes "could not check service permissions"))
          (handler.repository.services_for_user account.id account.role s)
    success (service_names services)

  -- The parameters of `listLogs`
  unfoldable pub log_params :
      List Text → ℕ → Option ℤ → Option ℤ → Option ℤ → Text × Text × Text → Dict Text
  log_params allowed limit from to before (level, text, trace_id) =
      (codes "allowed_services", handler.platform.encode_names allowed)
      ∷ (codes "has_from", flag_text from)
      ∷ (codes "from_ms", bound_text from)
      ∷ (codes "has_to", flag_text to)
      ∷ (codes "to_ms", bound_text to)
      ∷ (codes "has_before", flag_text before)
      ∷ (codes "before_ms", bound_text before)
      ∷ (codes "level", level)
      ∷ (codes "text", text)
      ∷ (codes "trace_id", trace_id)
      ∷ (codes "limit", format_uint limit)
      ∷ []

  -- `listLogs` up to its query
  unfoldable pub logs_query : ApiRequest → Attempt ApiResponse Query
  logs_query r = do
    names ← permitted
    allowed ← narrowed (query_value r (codes "service")) names
    limit ← count_param r (codes "limit") 100 1000 (codes "limit must be between 1 and 1000")
    from ← bound_param r (codes "from")
    to ← bound_param r (codes "to")
    before ← bound_param r (codes "before")
    ensure (deny 400 (codes "from must not be after to")) (not (are_crossed from to))
    filters ← log_filters handler.platform.unicode r
    success (select_logs, log_params allowed limit from to before filters)

  -- The end of the three handlers that search back from the clock: the parameters of the period.
  unfoldable pub period_params : ℕ → List Text → Dict Text
  period_params back names =
      (codes "allowed_services", handler.platform.encode_names names)
      ∷ (codes "from_ms", format_int (minus instant.now_ms back))
      ∷ (codes "to_ms", format_uint instant.now_ms)
      ∷ []

  -- `trace` up to its query
  unfoldable pub trace_query : Text → Attempt ApiResponse Query
  trace_query trace_id = do
    ensure (deny 400 (codes "invalid trace id"))
        (not (text_eq trace_id []) && leb (length trace_id) 512)
    names ← permitted
    success (select_trace, period_params (7 * day_ms) names ++ ((codes "trace_id", trace_id) ∷ []))

  -- `volumeStats` up to its query
  unfoldable pub volume_query : ApiRequest → Attempt ApiResponse Query
  volume_query r = do
    days ← count_param r (codes "days") 7 365 (codes "days must be between 1 and 365")
    names ← permitted
    success (select_volume, period_params (days * day_ms) names)

  -- `patternStats` up to its query
  unfoldable pub pattern_query : ApiRequest → Attempt ApiResponse Query
  pattern_query r = do
    hours ← count_param r (codes "hours") 24 720 (codes "hours must be between 1 and 720")
    names ← permitted
    success (select_patterns, period_params (hours * hour_ms) names)

-- What a failed query is answered with.
unfoldable pub unavailable : Statement → Text
unavailable select_logs = codes "log query unavailable"
unavailable select_trace = codes "trace query unavailable"
unavailable select_volume = codes "volume query unavailable"
unavailable select_patterns = codes "pattern query unavailable"

-- The end of the four handlers: the query is run, and its rows are the answer.
unfoldable pub run_prepared :
    {S : Type 0} → ApiHandler S → Attempt ApiResponse Query → Attempt ApiResponse ApiResponse
run_prepared handler prepared = do
  query ← prepared
  rows ← need (deny 503 (unavailable query.0)) (handler.run_query query.0 query.1)
  success (answer 200 (rows_body rows))
