-- ===== src/Repository/Visible.antt =====
-- Which services a user is shown.
use centi_log.Base.{
  Bool, ◌&&◌, ◌||◌, List, [], ◌∷◌, Option, success, any, inl, inr, ◌≡◌, refl, arith, sym, ap, ◌∙◌,
  Bool-cases, bind-success, success-injective, ◌>>=◌,
}
use centi_log.Repository.{
  Database, Service, StoredService, Tables, contains_service, has_service, int_eq, is_granted,
  is_selected, joined_grants, keep_selected, or_null, put_by_name, read_services, select_services,
  service_names, services_for_user_of,
}
use centi_log.Text.{Text, codes, text_eq}
use centi_log.Text.Equality.{text_eq_iff}
use centi_log.Text.Integers.{ℤ}

-- The user may see the service: as an administrator, or by a grant.
abbrev pub may_see : ℤ → Text → Text → List (ℤ × Text) → Bool
may_see id role name grants = text_eq role (codes "admin") || is_granted id name grants

abbrev pub shows : List Service → Text → Bool
shows services name = contains_service (service_names services) name

shows_cons :
    (s : Service) (l : List Service) (name : Text)
    → shows (s ∷ l) name ≡ (text_eq s.name name || shows l name)
unfolding contains_service service_names
shows_cons s l name = ground arith

shows-put_by_name :
    (before : Text → Text → Bool) (s : Service) (l : List Service) (name : Text)
    → shows (put_by_name before s l) name ≡ (text_eq s.name name || shows l name)
unfolding put_by_name
shows-put_by_name before s [] name = shows_cons s [] name
shows-put_by_name before s (t ∷ l) name =
    let later = put_by_name before s l in
    elim (Bool-cases (before t.name s.name)) [
      | inl first ↦ rw first (
          ground (
            arith,
            shows_cons t later name,
            shows-put_by_name before s l name,
            shows_cons t l name,
          ))
      | inr last ↦ rw last (shows_cons s (t ∷ l) name)
    ]

shows-keep_selected :
    (before : Text → Text → Bool) (role : Text) (s : Service) (rows : List (Option ℤ))
    (found : List Service) (name : Text)
    → shows (keep_selected before role s rows found) name
      ≡ ((any (is_selected role) rows && text_eq s.name name) || shows found name)
unfolding keep_selected
shows-keep_selected before role s [] found name = refl
shows-keep_selected before role s (row ∷ rows) found name =
    let rest = keep_selected before role s rows found in
    let ih = shows-keep_selected before role s rows found name in
    elim (Bool-cases (is_selected role row)) [
      | inl taken ↦ rw taken (ground (arith, ih, shows-put_by_name before s rest name))
      | inr left ↦ rw left ih
    ]

any_joined :
    (id : ℤ) (role name : Text) (grants : List (ℤ × Text))
    → any (is_selected role) (or_null (joined_grants id name grants)) ≡ may_see id role name grants
unfolding or_null joined_grants is_granted is_selected
any_joined id role name [] = ground arith
any_joined id role name ((i, n) ∷ grants) =
    let ih = any_joined id role name grants in
    elim (Bool-cases (text_eq n name)) [
      | inl here ↦ elim (Bool-cases (int_eq i id)) [
        | inl same ↦ ground (arith, here, same)
        | inr other ↦ ground (arith, here, other, ih)
      ]
      | inr elsewhere ↦ ground (arith, elsewhere, ih)
    ]

shows-select_services :
    (before : Text → Text → Bool) (id : ℤ) (role : Text) (grants : List (ℤ × Text))
    (services : List StoredService) (name : Text)
    → shows (select_services before id role grants services) name
      ≡ (has_service name services && may_see id role name grants)
unfolding select_services has_service
shows-select_services before id role grants [] name = unfold contains_service service_names in refl
shows-select_services before id role grants (s ∷ services) name =
    let rows = or_null (joined_grants id s.service.name grants) in
    let found = select_services before id role grants services in
    let ih = shows-select_services before id role grants services name in
    let step = shows-keep_selected before role s.service rows found name in
    let seen = any_joined id role s.service.name grants in
    elim (Bool-cases (text_eq s.service.name name)) [
      | inl here ↦
          let same : s.service.name ≡ name = (text_eq_iff s.service.name name).0 here in
          let alike : may_see id role s.service.name grants ≡ may_see id role name grants =
            ap (λ n. may_see id role n grants) same in
          step ∙ ground (arith, seen, ih, here, alike)
      | inr other ↦ step ∙ ground (arith, ih, other)
    ]

read_services-rows :
    (db : Database) (rows list : List Service) → read_services db rows ≡ success list → rows ≡ list
unfolding read_services
read_services-rows db [] list h = ground arith
read_services-rows db (item ∷ rows) list h = elim (Bool-cases db.scan_fails) [
  | inl broken ↦ absurd (ground arith)
  | inr fine ↦
      let step : (read_services db rows >>= λ services. success (item ∷ services)) ≡ success list =
        ground arith in
      let (services, read, made) = bind-success (read_services db rows) _ list step in
      ap (λ l. item ∷ l) (read_services-rows db rows services read)
      ∙ success-injective (item ∷ services) list made
]

-- Where the query gives a list, a name is in it exactly if a service of this name is stored and the
-- role is that of an administrator or the user holds a grant for it.
pub services_for_user-shows :
    (db : Database) (id : ℤ) (role : Text) (t : Tables) (list : List Service) (name : Text)
    → services_for_user_of db id role t ≡ success list
    → shows list name ≡ (has_service name t.services && may_see id role name t.grants)
unfolding services_for_user_of
services_for_user-shows db id role t list name h =
    let rows = select_services db.before id role t.grants t.services in
    let read : read_services db rows ≡ success list = ground arith in
    ap (λ l. shows l name) (sym (read_services-rows db rows list read))
    ∙ shows-select_services db.before id role t.grants t.services name
