-- ===== src/Api/Scope.antt =====
-- What the queries of the API are asked for, and whose rows a caller is shown.
use mathlib.Core.Path.{subst}
use centi_log.Base.{
  ℕ, ◌*◌, true, not, List, [], ◌∷◌, some, success, inl, inr, ◌≡◌, arith, sym, ap, ◌∙◌, Bool-cases,
  All, All-map, ensure-success, or_fail-success, bind-success, success-injective,
}
use centi_log.Api.{
  Instant, select_volume, select_patterns, ApiHandler, ApiRequest, Principal, deny, ApiResponse,
  Statement,
}
use centi_log.Api.Queries.{
  Query, logs_query, narrowed, permitted, query_value, are_crossed, bound_param, count_param,
  day_ms, hour_ms, pattern_query, period_params, trace_query, volume_query, log_filters, log_params,
}
use centi_log.Dict.{Dict, lookup}
use centi_log.Repository.{Service, contains_service, service_names}
use centi_log.Repository.Visible.{shows}
use centi_log.Text.{Text, codes, text_eq}
use centi_log.Text.Equality.{text_eq_refl}

contains_service_more :
    (name : Text) (names : List Text) (n : Text)
    → contains_service names n ≡ true
    → contains_service (name ∷ names) n ≡ true
unfolding contains_service
contains_service_more name names n h = ground arith

-- Every name of a list is in it.
contains_service-All : (names : List Text) → All (λ n. contains_service names n ≡ true) names
contains_service-All [] = tt
contains_service-All (name ∷ names) = (
  unfold contains_service in ground (arith, text_eq_refl name),
  All-map (λ n. contains_service names n ≡ true) (λ n. contains_service (name ∷ names) n ≡ true)
      (contains_service_more name names) names (contains_service-All names),
)

narrowed-allowed :
    (requested : Text) (allowed names : List Text)
    → narrowed requested allowed ≡ success names
    → All (λ n. contains_service allowed n ≡ true) names
unfolding narrowed
narrowed-allowed requested allowed names h = elim (Bool-cases (text_eq requested [])) [
  | inl nothing ↦
      subst (All (λ n. contains_service allowed n ≡ true))
        (success-injective {E = ApiResponse} allowed names (ground arith))
        (contains_service-All allowed)
  | inr asked ↦ elim (Bool-cases (contains_service allowed requested)) [
    | inr denied ↦ absurd (ground arith)
    | inl there ↦
        subst (All (λ n. contains_service allowed n ≡ true))
          (success-injective {E = ApiResponse} (requested ∷ []) names (ground arith)) (there, tt)
  ]
]

lookup_head : (k v : Text) (m : Dict Text) → lookup k ((k, v) ∷ m) ≡ some v
unfolding lookup
lookup_head k v m = ground (arith, text_eq_refl k)

module _ {S : Type 0} (handler : ApiHandler S) (instant : Instant) (s : S)
    (account : Principal) where
  -- The query is asked for services by name of which each is shown to the account.
  abbrev pub IsScoped : Query → Type 0
  IsScoped q =
      (services : List Service) × (names : List Text) × (handler.repository.services_for_user
          account.id account.role s
        ≡ success services)
      × (lookup (codes "allowed_services") q.1 ≡ some (handler.platform.encode_names names))
      × All (λ n. shows services n ≡ true) names

  permitted-services :
      (names : List Text)
      → permitted handler instant s account ≡ success names
      → (services : List Service) × (handler.repository.services_for_user account.id account.role s
          ≡ success services)
        × (service_names services ≡ names)
  unfolding permitted
  permitted-services names h =
      let (services, found, made) =
        or_fail-success (deny 500 (codes "could not check service permissions"))
          (handler.repository.services_for_user account.id account.role s) _ names h in
      (services, found, success-injective (service_names services) names made)

  permitted-IsScoped :
      (q : Query) (allowed names : List Text)
      → permitted handler instant s account ≡ success allowed
      → All (λ n. contains_service allowed n ≡ true) names
      → lookup (codes "allowed_services") q.1 ≡ some (handler.platform.encode_names names)
      → IsScoped q
  permitted-IsScoped q allowed names h within given =
      let (services, found, same) = permitted-services allowed h in
      (
        services,
        names,
        found,
        given,
        subst (λ l. All (λ n. contains_service l n ≡ true) names) (sym same) within,
      )

  pub logs_query-IsScoped :
      (r : ApiRequest) (q : Query) → logs_query handler instant s account r ≡ success q → IsScoped q
  unfolding logs_query log_params
  logs_query-IsScoped r q h =
      let (allowed, asked, h1) = bind-success (permitted handler instant s account) _ q h in
      let (names, within, h2) =
        bind-success (narrowed (query_value r (codes "service")) allowed) _ q h1 in
      let all = narrowed-allowed (query_value r (codes "service")) allowed names within in
      let (limit, counted, h3) =
        bind-success
          (count_param r (codes "limit") 100 1000 (codes "limit must be between 1 and 1000")) _ q
          h2 in
      let (from, first, h4) = bind-success (bound_param r (codes "from")) _ q h3 in
      let (to, last, h5) = bind-success (bound_param r (codes "to")) _ q h4 in
      let (before, next, h6) = bind-success (bound_param r (codes "before")) _ q h5 in
      let (ordered, h7) = ensure-success _ (not (are_crossed from to)) _ q h6 in
      let (filters, fine, h8) = bind-success (log_filters handler.platform.unicode r) _ q h7 in
      permitted-IsScoped q allowed names asked all (
        sym (ap (λ (p : Query). lookup (codes "allowed_services") p.1) (success-injective _ q h8))
        ∙ lookup_head (codes "allowed_services") (handler.platform.encode_names names) _)

  pub trace_query-IsScoped :
      (id : Text) (q : Query) → trace_query handler instant s account id ≡ success q → IsScoped q
  unfolding trace_query period_params
  trace_query-IsScoped id q h =
      let (fine, h1) = ensure-success _ _ _ q h in
      let (names, asked, h2) = bind-success (permitted handler instant s account) _ q h1 in
      permitted-IsScoped q names names asked (contains_service-All names) (
        sym (ap (λ (p : Query). lookup (codes "allowed_services") p.1) (success-injective _ q h2))
        ∙ lookup_head (codes "allowed_services") (handler.platform.encode_names names) _)

  period-IsScoped :
      (st : Statement) (q : Query) (back : ℕ) (names : List Text)
      → permitted handler instant s account ≡ success names
      → (st, period_params handler instant s account back names) ≡ q
      → IsScoped q
  unfolding period_params
  period-IsScoped st q back names asked same =
      permitted-IsScoped q names names asked (contains_service-All names) (
        sym (ap (λ (p : Query). lookup (codes "allowed_services") p.1) same)
        ∙ lookup_head (codes "allowed_services") (handler.platform.encode_names names) _)

  pub volume_query-IsScoped :
      (r : ApiRequest) (q : Query)
      → volume_query handler instant s account r ≡ success q
      → IsScoped q
  unfolding volume_query
  volume_query-IsScoped r q h =
      let (days, counted, h1) = bind-success (count_param r (codes "days") 7 365 _) _ q h in
      let (names, asked, h2) = bind-success (permitted handler instant s account) _ q h1 in
      period-IsScoped select_volume q (days * day_ms) names asked (success-injective _ q h2)

  pub pattern_query-IsScoped :
      (r : ApiRequest) (q : Query)
      → pattern_query handler instant s account r ≡ success q
      → IsScoped q
  unfolding pattern_query
  pattern_query-IsScoped r q h =
      let (hours, counted, h1) = bind-success (count_param r (codes "hours") 24 720 _) _ q h in
      let (names, asked, h2) = bind-success (permitted handler instant s account) _ q h1 in
      period-IsScoped select_patterns q (hours * hour_ms) names asked (success-injective _ q h2)
