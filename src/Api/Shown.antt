-- ===== src/Api/Shown.antt =====
-- Whose rows a caller of the API is shown.
use centi_log.Base.{
  true, false, List, some, Attempt, success, failure, ◌>>=◌, inl, inr, ◌≡◌, refl, arith, sym, ap,
  ◌∙◌, All, All-map, Attempt-cases, ◌&&◌,
}
use centi_log.Api.{
  Instant, rows_body, ApiHandler, ApiRequest, ApiResponse, Principal, answer, finish, authenticate,
}
use centi_log.Api.Admin.{create_service, create_user, update_service}
use centi_log.Api.Bodies.{
  is_rows, authenticate-rows, create_service-rows, create_user-rows, find_route-rows, health-rows,
  login-rows, me-rows, services-rows, update_service-rows, writing-rows, serve_found, serve_unfound,
}
use centi_log.Api.Queries.{
  Query, bound_of, bound_param, count_param, log_filters, logs_query, narrowed, pattern_query,
  permitted, run_prepared, trace_query, volume_query,
}
use centi_log.Api.Routes.{
  health_route, login_route, me_route, services_route, create_service_route, create_user_route,
  logs_route, volume_route, patterns_route, update_service_route, trace_route, Route, dispatch,
  find_route, reading, serve,
}
use centi_log.Api.Scope.{
  IsScoped, logs_query-IsScoped, pattern_query-IsScoped, trace_query-IsScoped,
  volume_query-IsScoped,
}
use centi_log.Dict.{lookup}
use centi_log.Processor.{prepared}
use centi_log.Repository.{
  Database, Repository, Tables, has_service, postgres_repository, services_for_user_of,
}
use centi_log.Repository.Visible.{may_see, services_for_user-shows, shows}
use centi_log.Text.{Text, codes}

module _ {S : Type 0} (handler : ApiHandler S) (instant : Instant) (s : S)
    (account : Principal) where
  permitted-failure :
      (response : ApiResponse)
      → permitted handler instant s account ≡ failure response
      → is_rows response.body ≡ false
  unfolding permitted is_rows
  permitted-failure response h = ground arith

  logs_query-failure :
      (r : ApiRequest) (response : ApiResponse)
      → logs_query handler instant s account r ≡ failure response
      → is_rows response.body ≡ false
  unfolding logs_query permitted narrowed count_param bound_param bound_of log_filters is_rows
  logs_query-failure r response h = ground arith

  trace_query-failure :
      (id : Text) (response : ApiResponse)
      → trace_query handler instant s account id ≡ failure response
      → is_rows response.body ≡ false
  unfolding trace_query permitted is_rows
  trace_query-failure id response h = ground arith

  volume_query-failure :
      (r : ApiRequest) (response : ApiResponse)
      → volume_query handler instant s account r ≡ failure response
      → is_rows response.body ≡ false
  unfolding volume_query permitted count_param is_rows
  volume_query-failure r response h = ground arith

  pattern_query-failure :
      (r : ApiRequest) (response : ApiResponse)
      → pattern_query handler instant s account r ≡ failure response
      → is_rows response.body ≡ false
  unfolding pattern_query permitted count_param is_rows
  pattern_query-failure r response h = ground arith

  -- Rows are the answer to the query that was prepared.
  run_prepared-rows :
      (prepared : Attempt ApiResponse Query) (rows : List Text)
      → ((response : ApiResponse) → prepared ≡ failure response → is_rows response.body ≡ false)
      → finish (run_prepared handler prepared) ≡ answer 200 (rows_body rows)
      → (q : Query) × (prepared ≡ success q) × (handler.run_query q.0 q.1 ≡ some rows)
  unfolding run_prepared finish is_rows
  run_prepared-rows (failure response) rows refused h =
      absurd (ground (arith, refused response refl))
  run_prepared-rows (success q) rows refused h = (q, refl, ground arith)

  -- The query that was run for these rows is scoped.
  abbrev pub HasQuery : List Text → Type 0
  HasQuery rows =
      (q : Query) × (handler.run_query q.0 q.1 ≡ some rows) × IsScoped handler instant s account q

  prepared-HasQuery :
      (prepared : Attempt ApiResponse Query) (rows : List Text)
      → ((response : ApiResponse) → prepared ≡ failure response → is_rows response.body ≡ false)
      → ((q : Query) → prepared ≡ success q → IsScoped handler instant s account q)
      → finish (run_prepared handler prepared) ≡ answer 200 (rows_body rows)
      → HasQuery rows
  prepared-HasQuery prepared rows refused scoped h =
      let (q, made, ran) = run_prepared-rows prepared rows refused h in (q, ran, scoped q made)

module _ {S : Type 0} (handler : ApiHandler S) (instant : Instant) (r : ApiRequest) (s : S)
    (rows : List Text) where
  abbrev shown : ApiResponse
  shown = answer 200 (rows_body rows)

  rows_true : (response : ApiResponse) → response ≡ shown → is_rows response.body ≡ true
  unfolding is_rows
  rows_true response h = ap (λ (a : ApiResponse). is_rows a.body) h

  not-shown : (response : ApiResponse) → is_rows response.body ≡ false → response ≡ shown → ⊥
  not-shown response refused h =
      let yes_rows = rows_true response h in ground (arith, refused, yes_rows)

  -- The caller is known, and is shown the rows of a scoped query.
  abbrev pub IsShown : Type 0
  IsShown =
      (account : Principal) × (authenticate handler instant r ≡ success account)
      × HasQuery handler instant s account rows

  reading-IsShown :
      (next : Principal → Attempt ApiResponse ApiResponse)
      → ((account : Principal)
          → finish (next account) ≡ shown
          → HasQuery handler instant s account rows)
      → (reading handler instant r s next).1 ≡ shown
      → IsShown
  unfolding reading finish
  reading-IsShown next scoped h = elim (Attempt-cases (authenticate handler instant r)) [
    | inr (response, refused) ↦ absurd (
        not-shown response (authenticate-rows handler instant r s response refused)
          (sym (ap (λ a. finish (a >>= next)) refused) ∙ h))
    | inl (account, known) ↦
        (account, known, scoped account (sym (ap (λ a. finish (a >>= next)) known) ∙ h))
  ]

  dispatch-IsShown : (route : Route) → (dispatch handler instant r route s).1 ≡ shown → IsShown
  unfolding dispatch
  dispatch-IsShown health_route h = absurd (not-shown _ (health-rows handler instant r s) h)
  dispatch-IsShown login_route h = absurd (not-shown _ (login-rows handler instant r s) h)
  dispatch-IsShown me_route h = absurd (not-shown _ (me-rows handler instant r s) h)
  dispatch-IsShown services_route h = absurd (not-shown _ (services-rows handler instant r s) h)
  dispatch-IsShown create_service_route h = absurd (
      not-shown _
        (writing-rows handler instant r s (create_service handler instant r s)
          (create_service-rows handler instant r s))
        h)
  dispatch-IsShown (update_service_route name) h = absurd (
      not-shown _
        (writing-rows handler instant r s (update_service handler instant r s name)
          (update_service-rows handler instant r s name))
        h)
  dispatch-IsShown create_user_route h = absurd (
      not-shown _
        (writing-rows handler instant r s (create_user handler instant r s)
          (create_user-rows handler instant r s))
        h)
  dispatch-IsShown logs_route h =
      reading-IsShown (λ account. run_prepared handler (logs_query handler instant s account r))
        (λ account.
          prepared-HasQuery handler instant s account _ rows
            (logs_query-failure handler instant s account r)
            (logs_query-IsScoped handler instant s account r))
        h
  dispatch-IsShown (trace_route id) h =
      reading-IsShown (λ account. run_prepared handler (trace_query handler instant s account id))
        (λ account.
          prepared-HasQuery handler instant s account _ rows
            (trace_query-failure handler instant s account id)
            (trace_query-IsScoped handler instant s account id))
        h
  dispatch-IsShown volume_route h =
      reading-IsShown (λ account. run_prepared handler (volume_query handler instant s account r))
        (λ account.
          prepared-HasQuery handler instant s account _ rows
            (volume_query-failure handler instant s account r)
            (volume_query-IsScoped handler instant s account r))
        h
  dispatch-IsShown patterns_route h =
      reading-IsShown (λ account. run_prepared handler (pattern_query handler instant s account r))
        (λ account.
          prepared-HasQuery handler instant s account _ rows
            (pattern_query-failure handler instant s account r)
            (pattern_query-IsScoped handler instant s account r))
        h

  -- Whatever the request, rows are the answer only to a caller with a valid token, and they are those
  -- of a query whose parameter for the services is the encoding of names that the repository shows to
  -- the account of that token.
  pub serve-IsShown : (serve handler instant r s).1 ≡ shown → IsShown
  serve-IsShown h = elim (Attempt-cases (find_route r)) [
    | inr (response, refused) ↦ absurd (
        not-shown response (find_route-rows handler instant r s response refused)
          (sym (ap (λ p. p.1) (serve_unfound handler instant r s response refused)) ∙ h))
    | inl (route, found) ↦
        dispatch-IsShown route
          (sym (ap (λ p. p.1) (serve_found handler instant r s route found)) ∙ h)
  ]

module _ (handler : ApiHandler Tables) (db : Database) (instant : Instant) (r : ApiRequest)
    (t : Tables) (rows : List Text) where
  -- Names of stored services that the account may see by its role or its grants.
  abbrev pub IsGrantedQuery : Principal → Query → Type 0
  IsGrantedQuery account q =
      (names : List Text) × (lookup (codes "allowed_services") q.1
        ≡ some (handler.platform.encode_names names))
      × All (λ n. (has_service n t.services && may_see account.id account.role n t.grants) ≡ true)
          names

  -- Over the tables of Postgres, rows are the answer only to a caller with a valid token, and they are
  -- those of a query that is asked for stored services of which the caller may see each: as an
  -- administrator, or by a grant to the number in the token.
  pub serve-IsGrantedQuery :
      handler.repository ≡ postgres_repository db
      → (serve handler instant r t).1 ≡ answer 200 (rows_body rows)
      → (account : Principal) × (authenticate handler instant r ≡ success account)
        × ((q : Query) × (handler.run_query q.0 q.1 ≡ some rows) × IsGrantedQuery account q)
  serve-IsGrantedQuery stored h =
      let (account, known, query) = serve-IsShown handler instant r t rows h in
      let (q, ran, scoped) = query in
      let (services, names, found, given, seen) = scoped in
      let listed : services_for_user_of db account.id account.role t ≡ success services =
        sym (ap (λ (p : Repository Tables). p.services_for_user account.id account.role t) stored)
        ∙ found in
      (
        account,
        known,
        (
          q,
          ran,
          (
            names,
            given,
            All-map (λ n. shows services n ≡ true)
                (λ n.
                  (has_service n t.services && may_see account.id account.role n t.grants) ≡ true)
                (λ n there.
                  sym (services_for_user-shows db account.id account.role t services n listed)
                  ∙ there)
                names seen,
          ),
        ),
      )
