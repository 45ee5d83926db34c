-- ===== src/Api/Bounded.antt =====
-- The parameters that `listLogs` lets through.
use mathlib.Core.Path.{subst}
use centi_log.Base.{
  ℕ, ◌≤◌, Bool, true, false, not, ◌&&◌, ◌||◌, List, [], Option, none, some, success, inl, inr, ◌≡◌,
  ◌⊎◌, arith, sym, Bool-cases, need-success, ensure-success, bind-success, success-injective,
  length, leb, Option-cases, ◌++◌,
}
use centi_log.Api.{Instant, select_logs, ApiHandler, ApiRequest, ApiResponse, Principal, deny}
use centi_log.Api.Queries.{
  Query, are_crossed, bound_of, bound_param, count_param, in_range, log_filters, log_params,
  logs_query, narrowed, permitted, query_value, single_value, valid_log_level,
}
use centi_log.Dict.{lookup}
use centi_log.Text.{Text, Unicode, codes, text_eq, trim_space}
use centi_log.Text.Equality.{text_eq_iff}
use centi_log.Text.Integers.{ℤ, pos, negsuc, IsInt64, parse_int, parse_int-IsInt64}
use centi_log.Text.Utf8.{to_lower}

in_range-le : (largest n : ℕ) (o : Option ℤ) → in_range largest o ≡ some n → (1 ≤ n) × (n ≤ largest)
unfolding in_range
in_range-le largest n none h = absurd (ground arith)
in_range-le largest n (some (pos m)) h = (ground arith, ground arith)
in_range-le largest n (some (negsuc m)) h = absurd (ground arith)

count_param-le :
    (r : ApiRequest) (name : Text) (default largest n : ℕ) (message : Text)
    → (1 ≤ default)
    → (default ≤ largest)
    → count_param r name default largest message ≡ success n
    → (1 ≤ n) × (n ≤ largest)
unfolding count_param
count_param-le r name default largest n message low high h =
    elim (Bool-cases (text_eq (query_value r name) [])) [
      | inl missing ↦ (ground arith, ground arith)
      | inr given ↦
          let o = parse_int (query_value r name) in
          elim (Option-cases (in_range largest o)) [
            | inl wrong ↦ absurd (ground arith)
            | inr (m, fine) ↦
                let (least, most) = in_range-le largest m o fine in (ground arith, ground arith)
          ]
    ]

-- A bound that is there is in the range of int64.
abbrev IsBound : Option ℤ → Type 0
IsBound none = Unit
IsBound (some v) = IsInt64 v

bound_of-IsBound :
    (name : Text) (o : Option (List Text)) (b : Option ℤ) → bound_of name o ≡ success b → IsBound b
unfolding bound_of
bound_of-IsBound name none none h = tt
bound_of-IsBound name none (some v) h = absurd (ground arith)
bound_of-IsBound name (some values) b h =
    let (value, single, h1) =
      need-success (deny 400 (name ++ codes " must be provided once")) (single_value values) _ b
        h in
    let (v, parsed, h2) =
      need-success (deny 400 (name ++ codes " must be milliseconds")) (parse_int value) _ b h1 in
    subst IsBound (success-injective {E = ApiResponse} (some v) b h2)
      (parse_int-IsInt64 value v parsed)

-- The level is none or one of the six, and the texts are short.
abbrev IsFilter : Text × Text × Text → Type 0
IsFilter (level, text, trace_id) =
    ((level ≡ []) ⊎ (valid_log_level level ≡ true)) × (length text ≤ 1024) × (length trace_id ≤ 512)

log_filters-IsFilter :
    (u : Unicode) (r : ApiRequest) (f : Text × Text × Text)
    → log_filters u r ≡ success f
    → IsFilter f
unfolding log_filters
log_filters-IsFilter u r f h =
    let level = to_lower u (trim_space (query_value r (codes "level"))) in
    let text = query_value r (codes "text") in
    let trace_id = query_value r (codes "trace_id") in
    let (known, h1) =
      ensure-success (deny 400 (codes "level is not supported"))
        (text_eq level [] || valid_log_level level) _ f h in
    let (short, h2) =
      ensure-success (deny 400 (codes "text or trace_id is too long"))
        (leb (length text) 1024 && leb (length trace_id) 512) _ f h1 in
    subst IsFilter (success-injective {E = ApiResponse} (level, text, trace_id) f h2)
      (ground (arith, text_eq_iff level []), ground arith, ground arith)

module _ {S : Type 0} (handler : ApiHandler S) (instant : Instant) (s : S)
    (account : Principal) where
  -- A query for logs with a limit from 1 to 1000, bounds in the range of int64 of which the first is
  -- not after the second, and filters that are short.
  abbrev pub IsBounded : Query → Type 0
  IsBounded q =
      (allowed : List Text) × (limit : ℕ) × (from : Option ℤ) × (to : Option ℤ) × (before : Option
        ℤ)
      × (filters : Text × Text × Text) × (q ≡ (
        select_logs,
        log_params handler instant s account allowed limit from to before filters,
      ))
      × (1 ≤ limit)
      × (limit ≤ 1000)
      × IsBound from
      × IsBound to
      × IsBound before
      × (are_crossed from to ≡ false)
      × IsFilter filters

  not-true : (b : Bool) → not b ≡ true → b ≡ false
  not-true b h = ground arith

  -- Whatever the parameters of a request for logs, the query that is made of them has a limit from 1
  -- to 1000; each bound in time is in the range of int64, and the upper one is
  -- not below the lower one; the level is none or one of the six; and the text has at most 1024 bytes
  -- and the trace at most 512.
  pub logs_query-IsBounded :
      (r : ApiRequest) (q : Query)
      → logs_query handler instant s account r ≡ success q
      → IsBounded q
  unfolding logs_query
  logs_query-IsBounded r q h =
      let (allowed, asked, h1) = bind-success (permitted handler instant s account) _ q h in
      let (names, within, h2) =
        bind-success (narrowed (query_value r (codes "service")) allowed) _ q h1 in
      let message = codes "limit must be between 1 and 1000" in
      let (limit, counted, h3) =
        bind-success (count_param r (codes "limit") 100 1000 message) _ q h2 in
      let (from, first, h4) = bind-success (bound_param r (codes "from")) _ q h3 in
      let (to, last, h5) = bind-success (bound_param r (codes "to")) _ q h4 in
      let (before, next, h6) = bind-success (bound_param r (codes "before")) _ q h5 in
      let (ordered, h7) = ensure-success _ (not (are_crossed from to)) _ q h6 in
      let (filters, fine, h8) = bind-success (log_filters handler.platform.unicode r) _ q h7 in
      let (low, high) =
        count_param-le r (codes "limit") 100 1000 limit message (omega arith) (omega arith)
          counted in
      (
        names,
        limit,
        from,
        to,
        before,
        filters,
        sym (success-injective _ q h8),
        low,
        high,
        bound_of-IsBound (codes "from") (lookup (codes "from") r.query) from
            (unfold bound_param in first),
        bound_of-IsBound (codes "to") (lookup (codes "to") r.query) to (unfold bound_param in last),
        bound_of-IsBound (codes "before") (lookup (codes "before") r.query) before
            (unfold bound_param in next),
        not-true (are_crossed from to) ordered,
        log_filters-IsFilter handler.platform.unicode r filters fine,
      )
