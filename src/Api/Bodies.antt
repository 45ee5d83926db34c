-- ===== src/Api/Bodies.antt =====
-- Which responses of the API have rows: none but those of the four handlers that query.
use centi_log.Base.{ℕ, Bool, true, false, success, failure, ◌≡◌, refl, arith}
use centi_log.Api.{
  Instant, rows_body, ApiHandler, ApiRequest, Body, decode_api_json, deny, finish, ApiResponse,
  authenticate, require_admin,
}
use centi_log.Api.Admin.{
  create_user, new_user, user_response, create_service, created_response, new_retention,
  new_service, update_service, updated_response,
}
use centi_log.Api.Login.{login, list_services, me}
use centi_log.Api.Routes.{find_route, health, reading, writing, Route, dispatch, serve}
use centi_log.Text.{Text}

unfoldable pub is_rows : Body → Bool
is_rows (rows_body rows) = true
is_rows other = false

pub deny-rows : (status : ℕ) (text : Text) → is_rows (deny status text).body ≡ false
unfolding is_rows
deny-rows status text = refl

module _ {S : Type 0} (handler : ApiHandler S) (instant : Instant) (r : ApiRequest) (s : S) where
  pub login-rows : is_rows (finish (login handler instant r s)).body ≡ false
  unfolding login finish decode_api_json is_rows
  login-rows = ground arith

  pub create_user-rows : is_rows (create_user handler instant r s).1.body ≡ false
  unfolding create_user new_user user_response decode_api_json is_rows
  create_user-rows = ground arith

  pub create_service-rows : is_rows (create_service handler instant r s).1.body ≡ false
  unfolding create_service new_service created_response decode_api_json is_rows
  create_service-rows = ground arith

  pub update_service-rows :
      (name : Text) → is_rows (update_service handler instant r s name).1.body ≡ false
  unfolding update_service new_retention updated_response decode_api_json is_rows
  update_service-rows name = ground arith

  pub authenticate-rows :
      (response : ApiResponse)
      → authenticate handler instant r ≡ failure response
      → is_rows response.body ≡ false
  unfolding authenticate is_rows
  authenticate-rows response h = ground arith

  pub require_admin-rows :
      (response : ApiResponse)
      → require_admin handler instant r ≡ failure response
      → is_rows response.body ≡ false
  unfolding require_admin authenticate is_rows
  require_admin-rows response h = ground arith

  pub me-rows :
      is_rows (reading handler instant r s (λ account. me handler instant r s account)).1.body
      ≡ false
  unfolding reading finish me authenticate is_rows
  me-rows = ground arith

  pub services-rows :
      is_rows
        (reading handler instant r s (λ account. list_services handler instant r s account)).1.body
      ≡ false
  unfolding reading finish list_services authenticate is_rows
  services-rows = ground arith

  pub health-rows : is_rows (finish (health r)).body ≡ false
  unfolding finish health is_rows
  health-rows = ground arith

  pub writing-rows :
      (next : S × ApiResponse)
      → is_rows next.1.body ≡ false
      → is_rows (writing handler instant r s next).1.body ≡ false
  unfolding writing require_admin authenticate is_rows
  writing-rows next h = ground arith

  pub find_route-rows :
      (response : ApiResponse) → find_route r ≡ failure response → is_rows response.body ≡ false
  unfolding find_route is_rows
  find_route-rows response h = ground arith

  pub serve_found :
      (route : Route)
      → find_route r ≡ success route
      → serve handler instant r s ≡ dispatch handler instant r route s
  unfolding serve
  serve_found route h = ground arith

  pub serve_unfound :
      (response : ApiResponse)
      → find_route r ≡ failure response
      → serve handler instant r s ≡ (s, response)
  unfolding serve
  serve_unfound response h = ground arith
