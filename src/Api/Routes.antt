-- ===== src/Api/Routes.antt =====
-- cmd/api/api.go: the routes of `newAPIHandler`, and the patterns of net/http that they use.
use centi_log.Base.{
  Bool, ◌&&◌, ◌||◌, List, [], ◌∷◌, Option, none, some, Attempt, success, failure, ◌>>=◌, ◌>>◌,
  if◌then◌else◌, ensure, need,
}
use centi_log.Api.{
  Instant, health_body, ApiHandler, ApiRequest, ApiResponse, Principal, answer, authenticate, deny,
  finish, require_admin,
}
use centi_log.Api.Admin.{create_service, create_user, update_service}
use centi_log.Api.Login.{list_services, login, me}
use centi_log.Api.Queries.{logs_query, pattern_query, run_prepared, trace_query, volume_query}
use centi_log.Text.{Text, codes, text_eq}

-- The handlers, with the value of the wildcard of their pattern.
pub data Route : Type 0 where
  health_route login_route me_route services_route create_service_route create_user_route : Route
  logs_route volume_route patterns_route : Route
  update_service_route trace_route : Text → Route

-- The patterns of a path: their methods, and their handlers.
abbrev Patterns : Type 0
Patterns = List (Text × Route)

unfoldable pub api_patterns : Text → List (Text × Route)
api_patterns name =
    if text_eq name (codes "login")
    then (codes "POST", login_route) ∷ []
    else if text_eq name (codes "me")
    then (codes "GET", me_route) ∷ []
    else if text_eq name (codes "services")
    then (codes "GET", services_route) ∷ (codes "POST", create_service_route) ∷ []
    else if text_eq name (codes "users")
    then (codes "POST", create_user_route) ∷ []
    else if text_eq name (codes "logs")
    then (codes "GET", logs_route) ∷ []
    else []

unfoldable pub item_patterns : Text → Text → List (Text × Route)
item_patterns name item =
    if text_eq item []
    then []
    else if text_eq name (codes "services")
    then (codes "PUT", update_service_route item) ∷ []
    else if text_eq name (codes "trace")
    then (codes "GET", trace_route item) ∷ []
    else if text_eq name (codes "stats") && text_eq item (codes "volume")
    then (codes "GET", volume_route) ∷ []
    else if text_eq name (codes "stats") && text_eq item (codes "patterns")
    then (codes "GET", patterns_route) ∷ []
    else []

unfoldable pub path_patterns : List Text → List (Text × Route)
path_patterns (a ∷ []) =
    if text_eq a (codes "healthz") then (codes "GET", health_route) ∷ [] else []
path_patterns (a ∷ b ∷ []) = if text_eq a (codes "api") then api_patterns b else []
path_patterns (a ∷ b ∷ c ∷ []) = if text_eq a (codes "api") then item_patterns b c else []
path_patterns other = []

-- A pattern with GET is one for HEAD too.
unfoldable pub method_fits : Text → Text → Bool
method_fits pattern method =
    text_eq pattern method || (text_eq pattern (codes "GET") && text_eq method (codes "HEAD"))

unfoldable pub pick_route : Text → List (Text × Route) → Option Route
pick_route method [] = none
pick_route method ((pattern, route) ∷ patterns) =
    if method_fits pattern method then some route else pick_route method patterns

-- The handler of a request, or the answer of the multiplexer.
unfoldable pub find_route : ApiRequest → Attempt ApiResponse Route
find_route r = elim (path_patterns r.segments) [
  | [] ↦ failure (deny 404 (codes "404 page not found"))
  | pattern ∷ patterns ↦
      need (deny 405 (codes "Method Not Allowed")) (pick_route r.method (pattern ∷ patterns))
]

-- `health`
unfoldable pub health : ApiRequest → Attempt ApiResponse ApiResponse
health r = do
  ensure (deny 405 (codes "method not allowed")) (text_eq r.method (codes "GET"))
  success (answer 200 health_body)

module _ {S : Type 0} (handler : ApiHandler S) (instant : Instant) (r : ApiRequest) where
  -- A handler that reads, behind `authenticate`.
  unfoldable pub reading : S → (Principal → Attempt ApiResponse ApiResponse) → S × ApiResponse
  reading s next = (s, finish (authenticate handler instant r >>= next))

  -- A handler that writes, behind `requireAdmin`.
  unfoldable pub writing : S → S × ApiResponse → S × ApiResponse
  writing s next = elim (require_admin handler instant r) [
    | failure response ↦ (s, response)
    | success account ↦ next
  ]

  -- `newAPIHandler`: what each route runs.
  unfoldable pub dispatch : Route → S → S × ApiResponse
  dispatch health_route s = (s, finish (health r))
  dispatch login_route s = (s, finish (login handler instant r s))
  dispatch me_route s = reading s (λ account. me handler instant r s account)
  dispatch services_route s = reading s (λ account. list_services handler instant r s account)
  dispatch create_service_route s = writing s (create_service handler instant r s)
  dispatch (update_service_route name) s = writing s (update_service handler instant r s name)
  dispatch create_user_route s = writing s (create_user handler instant r s)
  dispatch logs_route s =
      reading s (λ account. run_prepared handler (logs_query handler instant s account r))
  dispatch (trace_route id) s =
      reading s (λ account. run_prepared handler (trace_query handler instant s account id))
  dispatch volume_route s =
      reading s (λ account. run_prepared handler (volume_query handler instant s account r))
  dispatch patterns_route s =
      reading s (λ account. run_prepared handler (pattern_query handler instant s account r))

  -- A request to the API: the state after it, and the response.
  unfoldable pub serve : S → S × ApiResponse
  serve s = elim (find_route r) [
    | failure response ↦ (s, response)
    | success route ↦ dispatch route s
  ]
