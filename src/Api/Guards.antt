-- ===== src/Api/Guards.antt =====
-- Who may change the state of the API.
use centi_log.Base.{
  success, inl, inr, ◌≡◌, ◌⊎◌, refl, arith, ap, ◌∙◌, Attempt-cases, bind-success, ensure-success,
}
use centi_log.Api.{
  Instant, ApiHandler, ApiRequest, ApiResponse, Principal, authenticate, deny, require_admin,
}
use centi_log.Api.Admin.{create_service, create_user, update_service}
use centi_log.Api.Bodies.{serve_found, serve_unfound}
use centi_log.Api.Routes.{
  health_route, login_route, me_route, services_route, create_service_route, create_user_route,
  logs_route, volume_route, patterns_route, update_service_route, trace_route, Route, dispatch,
  find_route, reading, serve, writing,
}
use centi_log.Text.{codes, text_eq}
use centi_log.Text.Equality.{text_eq_iff}

module _ {S : Type 0} (handler : ApiHandler S) (instant : Instant) (r : ApiRequest) where
  -- The request carries a valid token with the role of an administrator.
  abbrev pub IsAdmin : Type 0
  IsAdmin =
      (account : Principal) × (authenticate handler instant r ≡ success account)
      × (account.role ≡ codes "admin")

  require_admin-IsAdmin :
      (account : Principal) → require_admin handler instant r ≡ success account → IsAdmin
  unfolding require_admin
  require_admin-IsAdmin account h =
      let (known, given, h1) = bind-success (authenticate handler instant r) _ account h in
      let (admin, h2) =
        ensure-success (deny 403 (codes "administrator access required"))
          (text_eq known.role (codes "admin")) _ account h1 in
      (known, given, (text_eq_iff known.role (codes "admin")).0 admin)

  module _ (s : S) where
    writing-kept : (next : S × ApiResponse) → ((writing handler instant r s next).0 ≡ s) ⊎ IsAdmin
    unfolding writing
    writing-kept next = elim (Attempt-cases (require_admin handler instant r)) [
      | inl (account, let_in) ↦ inr (require_admin-IsAdmin account let_in)
      | inr (response, refused) ↦ inl (ground arith)
    ]

    dispatch-kept : (route : Route) → ((dispatch handler instant r route s).0 ≡ s) ⊎ IsAdmin
    unfolding dispatch reading
    dispatch-kept health_route = inl refl
    dispatch-kept login_route = inl refl
    dispatch-kept me_route = inl refl
    dispatch-kept services_route = inl refl
    dispatch-kept create_service_route = writing-kept (create_service handler instant r s)
    dispatch-kept (update_service_route name) =
        writing-kept (update_service handler instant r s name)
    dispatch-kept create_user_route = writing-kept (create_user handler instant r s)
    dispatch-kept logs_route = inl refl
    dispatch-kept (trace_route id) = inl refl
    dispatch-kept volume_route = inl refl
    dispatch-kept patterns_route = inl refl

    -- A request leaves the repository as it was, or it carries a valid token with the role of an
    -- administrator.
    pub serve-kept : ((serve handler instant r s).0 ≡ s) ⊎ IsAdmin
    serve-kept = elim (Attempt-cases (find_route r)) [
      | inr (response, refused) ↦
          inl (ap (λ p. p.0) (serve_unfound handler instant r s response refused))
      | inl (route, found) ↦ elim (dispatch-kept route) [
        | inl same ↦ inl (ap (λ p. p.0) (serve_found handler instant r s route found) ∙ same)
        | inr admin ↦ inr admin
      ]
    ]
