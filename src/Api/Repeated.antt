-- ===== src/Api/Repeated.antt =====
-- A service that is named twice for a new viewer.
use centi_log.Base.{
  true, false, ◌&&◌, ◌||◌, List, [], ◌∷◌, Attempt, success, failure, inl, inr, ◌≡◌, refl, arith, ap,
  ◌∙◌, Bool-cases, All, Bool,
}
use centi_log.Api.{Instant, ApiHandler, ApiRequest, UserRequest, deny}
use centi_log.Api.Admin.{create_user, is_unique_violation, new_user, user_response}
use centi_log.Repository.{
  StoreError, unique_violation, Database, StoredService, Tables, commit_user, contains_service,
  create_user_of, grant_all, has_email, has_service, insert_user, int_eq, is_granted, Repository,
  postgres_repository,
}
use centi_log.Repository.Transactions.{int_eq_iff}
use centi_log.Text.{Text, codes, text_eq}
use centi_log.Text.Equality.{text_eq_iff, text_eq_refl}
use centi_log.Text.Integers.{ℤ, pos}
use centi_log.Token.{User}

int_eq_refl : (i : ℤ) → int_eq i i ≡ true
int_eq_refl i = (int_eq_iff i i).1 refl

-- A name that is granted already, or named again, is a violation.
grant_all-repeated :
    (id : ℤ) (services : List StoredService) (names : List Text) (grants : List (ℤ × Text))
    (name : Text)
    → All (λ n. has_service n services ≡ true) names
    → is_granted id name grants ≡ true
    → contains_service names name ≡ true
    → grant_all id services names grants ≡ failure unique_violation
unfolding grant_all contains_service
grant_all-repeated id services [] grants name known there again = absurd (ground arith)
grant_all-repeated id services (n ∷ names) grants name (one, known) there again =
    elim (Bool-cases (is_granted id n grants)) [
      | inl twice ↦ ground (arith, twice)
      | inr once ↦ elim (Bool-cases (text_eq n name)) [
        | inl here ↦
            let same : n ≡ name = (text_eq_iff n name).0 here in
            let found : is_granted id n grants ≡ true =
              ap (λ m. is_granted id m grants) same ∙ there in
            absurd (ground arith)
        | inr other ↦
            let step : is_granted id name ((id, n) ∷ grants)
                ≡ ((int_eq id id && text_eq n name) || is_granted id name grants) =
              unfold is_granted in refl in
            let ih =
              grant_all-repeated id services names ((id, n) ∷ grants) name known
                (ground (arith, step, there)) (ground arith) in
            ground (arith, ih, once, one)
      ]
    ]

module _ (db : Database) (email hash : Text) (names : List Text) (t : Tables) where
  insert_user_repeated :
      has_email email t.users ≡ false
      → db.query_fails ≡ false
      → db.scan_fails ≡ false
      → grant_all (pos t.next_id) t.services names t.grants ≡ failure unique_violation
      → insert_user db email hash (codes "viewer") names t ≡ failure unique_violation
  unfolding insert_user
  insert_user_repeated fresh asked read twice =
      ground (arith, text_eq_refl (codes "viewer"), fresh, asked, read, twice)

  create_user_repeated :
      db.begin_fails ≡ false
      → insert_user db email hash (codes "viewer") names t ≡ failure unique_violation
      → (create_user_of db email hash (codes "viewer") names t).1 ≡ failure unique_violation
  unfolding create_user_of commit_user
  create_user_repeated begun h = ground arith

-- A name stands in a list twice.
abbrev pub is_repeated : List Text → Bool
is_repeated [] = false
is_repeated (name ∷ names) = contains_service names name || is_repeated names

grant_all_twice :
    (id : ℤ) (services : List StoredService) (names : List Text) (grants : List (ℤ × Text))
    → All (λ n. has_service n services ≡ true) names
    → is_repeated names ≡ true
    → grant_all id services names grants ≡ failure unique_violation
unfolding grant_all
grant_all_twice id services [] grants known again = absurd (ground arith)
grant_all_twice id services (name ∷ names) grants (one, known) again =
    elim (Bool-cases (is_granted id name grants)) [
      | inl there ↦ ground (arith, there)
      | inr fresh ↦ elim (Bool-cases (contains_service names name)) [
        | inl here ↦
            let now_there : is_granted id name ((id, name) ∷ grants) ≡ true =
              unfold is_granted in ground (arith, text_eq_refl name, int_eq_refl id) in
            let later =
              grant_all-repeated id services names ((id, name) ∷ grants) name known now_there
                here in
            ground (arith, later, one, fresh)
        | inr other ↦
            let later =
              grant_all_twice id services names ((id, name) ∷ grants) known
                (ground (arith, other, again)) in
            ground (arith, later, one, fresh)
      ]
    ]

user_response_repeated :
    (result : Attempt StoreError User)
    → result ≡ failure unique_violation
    → user_response result ≡ deny 409 (codes "user email already exists")
unfolding user_response is_unique_violation
user_response_repeated result h = ground arith

module _ (handler : ApiHandler Tables) (instant : Instant) (r : ApiRequest) (t : Tables) where
  create_user_asked :
      (request : UserRequest) (hash : Text)
      → new_user handler instant r t ≡ success (request, hash)
      → (create_user handler instant r t).1
        ≡ user_response
            (handler.repository.create_user request.email hash request.role request.services t).1
  unfolding create_user
  create_user_asked request hash h = ground arith

  -- A valid request for a new viewer that names any service twice, wherever in its list of services, which
  -- are all stored, is answered with 409 and the text that the address exists, although no account has the address and
  -- no step of the database fails.
  pub create_user-repeated :
      (db : Database) (request : UserRequest) (hash : Text)
      → handler.repository ≡ postgres_repository db
      → new_user handler instant r t ≡ success (request, hash)
      → request.role ≡ codes "viewer"
      → has_email request.email t.users ≡ false
      → db.begin_fails ≡ false
      → db.query_fails ≡ false
      → db.scan_fails ≡ false
      → All (λ n. has_service n t.services ≡ true) request.services
      → is_repeated request.services ≡ true
      → (create_user handler instant r t).1 ≡ deny 409 (codes "user email already exists")
  create_user-repeated db request hash stored asked viewer fresh begun queried read known again =
      let names = request.services in
      let twice = grant_all_twice (pos t.next_id) t.services names t.grants known again in
      let stopped = insert_user_repeated db request.email hash names t fresh queried read twice in
      create_user_asked request hash asked
      ∙ user_response_repeated
          (handler.repository.create_user request.email hash request.role names t).1
          (ap (λ (p : Repository Tables). (p.create_user request.email hash request.role names t).1)
              stored
            ∙ ap (λ role. (create_user_of db request.email hash role names t).1) viewer
            ∙ create_user_repeated db request.email hash names t begun stopped)
