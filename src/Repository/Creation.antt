-- ===== src/Repository/Creation.antt =====
-- What a new account sees, and what the operations of cmd/api/postgres.go keep.
use centi_log.Base.{
  ℕ, true, false, ◌&&◌, ◌||◌, List, [], ◌∷◌, some, success, failure, Attempt, if◌then◌else◌, inl,
  inr, ◌≡◌, ◌⊎◌, refl, arith, sym, ap, ◌∙◌, All,
}
use centi_log.Repository.{
  StoreError, Database, Service, StoredService, Tables, contains_service, create_user_of,
  has_service, int_eq, is_granted, services_for_user_of, find_user,
}
use centi_log.Repository.Transactions.{
  Inserted, IsConsistent, IsOld, created-Inserted, grant_all-is_granted, int_eq_iff, given-cases,
  create_user-ways,
}
use centi_log.Repository.Visible.{may_see, services_for_user-shows, shows}
use centi_log.Text.{Text, codes, text_eq}
use centi_log.Text.Equality.{text_eq_iff}
use centi_log.Text.Integers.{ℤ, pos, negsuc}
use centi_log.Token.{User}

new-not_granted :
    (next : ℕ) (services : List StoredService) (grants : List (ℤ × Text)) (name : Text)
    → All (λ g. IsOld next g.0 × (has_service g.1 services ≡ true)) grants
    → is_granted (pos next) name grants ≡ false
unfolding is_granted int_eq
new-not_granted next services [] name h = refl
new-not_granted next services ((pos i, n) ∷ grants) name ((old, known), h) =
    ground (arith, new-not_granted next services grants name h)
new-not_granted next services ((negsuc i, n) ∷ grants) name ((old, known), h) =
    absurd (ground arith)

int_eq_refl : (i : ℤ) → int_eq i i ≡ true
int_eq_refl i = (int_eq_iff i i).1 refl

admin_viewer :
    (role : Text) → text_eq role (codes "admin") ≡ true → text_eq role (codes "viewer") ≡ false
unfolding codes text_eq
admin_viewer role h =
    let same : role ≡ codes "admin" = (text_eq_iff role (codes "admin")).0 h in
    ap (λ r. text_eq r (codes "viewer")) same

-- The grants of any user after the insertion.
pub Inserted-is_granted :
    (email role : Text) (names : List Text) (t : Tables) (created : User) (grants : List (ℤ × Text))
    (j : ℤ) (name : Text)
    → Inserted email role names t created grants
    → is_granted j name grants ≡ (
        is_granted j name t.grants
        || (text_eq role (codes "viewer")
            && int_eq (pos t.next_id) j
            && contains_service names name))
Inserted-is_granted email role names t created grants j name (made, fresh, known, given) =
    elim (given-cases (text_eq role (codes "viewer")) names t grants given) [
      | inl (viewer, ran) ↦ ground (
        arith,
        viewer,
        grant_all-is_granted (pos t.next_id) t.services names t.grants grants j name ran,
      )
      | inr (other, same) ↦ ap (is_granted j name) (sym same) ∙ ground (arith, other)
    ]

-- In consistent tables an account that `CreateUser` made is shown, by any later `ServicesForUser` with
-- its number and role, all services if it is an administrator, and exactly those that were named for
-- it if it is a viewer.
pub create_user-shows :
    (db later : Database) (email hash role : Text) (names : List Text) (t after : Tables)
    (created : User) (list : List Service) (name : Text)
    → IsConsistent t
    → create_user_of db email hash role names t ≡ (after, success created)
    → services_for_user_of later created.id created.role after ≡ success list
    → shows list name ≡ (
        has_service name t.services
        && (text_eq role (codes "admin") || contains_service names name))
create_user-shows db later email hash role names t after created list name consistent h shown =
    let (grants, inserted, same) = created-Inserted db email hash role names t after created h in
    let (made, fresh, known, given) = inserted in
    let it : User = record { id = pos t.next_id; email = email; role = role } in
    let seen = services_for_user-shows later created.id created.role after list name shown in
    let moved : (has_service name after.services
          && may_see created.id created.role name after.grants)
        ≡ (has_service name t.services && may_see (pos t.next_id) role name grants) =
      ap
        (λ (u : Tables).
          has_service name u.services && may_see created.id created.role name u.grants)
        same
      ∙ ap (λ (u : User). has_service name t.services && may_see u.id u.role name grants) made in
    let granted =
      Inserted-is_granted email role names t created grants (pos t.next_id) name inserted in
    let (numbers, belonging, unique) = consistent in
    let new = new-not_granted t.next_id t.services t.grants name belonging in
    seen
    ∙ moved
    ∙ ground (arith, granted, new, known, int_eq_refl (pos t.next_id), admin_viewer role)

-- No row is changed and there is an error, or the account is stored under its address with the hash of
-- its password, and its grants are added for a viewer; `other`, `name` and `j` are any address, name of
-- a service and number of an account.
abbrev pub IsAllOrNothing :
    Text
    → Text
    → Text
    → List Text
    → Tables
    → Text
    → Text
    → ℤ
    → Tables × Attempt StoreError User
    → Type 0
IsAllOrNothing email hash role names t other name j out =
    ((e : StoreError) × (out.1 ≡ failure e)
      × (out.0.users ≡ t.users)
      × (out.0.services ≡ t.services)
      × (out.0.grants ≡ t.grants))
    ⊎ ((created : User) × (out.1 ≡ success created)
        × (created.email ≡ email)
        × (created.role ≡ role)
        × (out.0.services ≡ t.services)
        × (find_user other out.0.users ≡ (
            if text_eq email other
            then some (record { account = created; password_hash = hash })
            else find_user other t.users))
        × (is_granted j name out.0.grants ≡ (
            is_granted j name t.grants
            || (text_eq role (codes "viewer")
                && int_eq created.id j
                && contains_service names name))))

-- A creation leaves all rows as they were and reports an error, or the account is stored under its
-- address with the hash of its password, and the grants are those before and, for a viewer, one of the
-- number that is returned for each service that was named; no other account is changed.
pub create_user-IsAllOrNothing :
    (db : Database) (email hash role : Text) (names : List Text) (t : Tables) (other name : Text)
    (j : ℤ)
    → IsAllOrNothing email hash role names t other name j
        (create_user_of db email hash role names t)
unfolding find_user
create_user-IsAllOrNothing db email hash role names t other name j =
    elim (create_user-ways db email hash role names t) [
      | inl (u, e, out, inl same) ↦ inl (
        e,
        ap (λ p. p.1) out,
        ap (λ p. p.0.users) out ∙ ap (λ (v : Tables). v.users) same,
        ap (λ p. p.0.services) out ∙ ap (λ (v : Tables). v.services) same,
        ap (λ p. p.0.grants) out ∙ ap (λ (v : Tables). v.grants) same,
      )
      | inl (u, e, out, inr same) ↦ inl (
        e,
        ap (λ p. p.1) out,
        ap (λ p. p.0.users) out ∙ ap (λ (v : Tables). v.users) same,
        ap (λ p. p.0.services) out ∙ ap (λ (v : Tables). v.services) same,
        ap (λ p. p.0.grants) out ∙ ap (λ (v : Tables). v.grants) same,
      )
      | inr (created, grants, inserted, out) ↦
          let (made, fresh, known, given) = inserted in
          let address : created.email ≡ email = ap (λ (u : User). u.email) made in
          let number = ap (λ (u : User). u.id) made in
          inr (
            created,
            ap (λ p. p.1) out,
            address,
            ap (λ (u : User). u.role) made,
            ap (λ p. p.0.services) out,
            ap (λ p. find_user other p.0.users) out
                ∙ ap
                    (λ (e : Text).
                      if text_eq e other
                      then some (record { account = created; password_hash = hash })
                      else find_user other t.users)
                    address,
            ap (λ p. is_granted j name p.0.grants) out
                ∙ Inserted-is_granted email role names t created grants j name inserted
                ∙ ap
                    (λ (i : ℤ).
                      is_granted j name t.grants
                      || (text_eq role (codes "viewer")
                          && int_eq i j
                          && contains_service names name))
                    (sym number),
          )
    ]
