-- ===== src/Repository/Tests.antt =====
-- Tables with an administrator and a viewer, and the theorems at them.
use centi_log.Base.{[], ◌∷◌, success, failure, ◌≡◌, refl, true, false, ◌&&◌, ◌||◌, List, arith}
use centi_log.Repository.{
  no_rows, unique_violation, invalid_credentials, Credentials, Database, Service, StoredService,
  Tables, commit_user, contains_service, create_service_of, create_user_of, credentials_by_email_of,
  find_user, grant_all, has_api_key, has_email, has_service, insert_user, int_eq, is_granted,
  is_retention, is_selected, joined_grants, keep_selected, or_null, put_by_name, read_services,
  select_services, service_names, services_for_user_of, set_retention, update_retention_of,
}
use centi_log.Repository.Creation.{create_user-shows, IsAllOrNothing, create_user-IsAllOrNothing}
use centi_log.Repository.Invariants.{operations-IsConsistent}
use centi_log.Repository.Transactions.{IsConsistent}
use centi_log.Repository.Visible.{shows}
use centi_log.Text.{Text, codes, text_eq}
use centi_log.Text.Integers.{pos}
use centi_log.Token.{User}

abbrev sound : Database
sound = record {
  before = λ a b. true;
  clock = 5;
  query_fails = false;
  scan_fails = false;
  end_fails = false;
  begin_fails = false;
  commit_fails = false;
}

abbrev stored : Text → StoredService
stored name = record {
  service = record { name = name; retention_days = pos 30; created_at = 1 };
  api_key = name;
}

abbrev boss : Credentials
boss = record {
  account = record { id = pos 1; email = codes "boss"; role = codes "admin" };
  password_hash = codes "h";
}

abbrev small : Tables
small = record {
  users = boss ∷ [];
  services = stored (codes "web") ∷ stored (codes "db") ∷ [];
  grants = [];
  next_id = 2;
}

abbrev guest : User
guest = record { id = pos 2; email = codes "guest"; role = codes "viewer" }

abbrev with_guest : Tables
with_guest = record {
  users = record { account = guest; password_hash = codes "g" } ∷ boss ∷ [];
  services = stored (codes "web") ∷ stored (codes "db") ∷ [];
  grants = (pos 2, codes "db") ∷ [];
  next_id = 3;
}

abbrev guest_list : List Service
guest_list = (stored (codes "db")).service ∷ []

running : Unit {0}
unfolding create_user_of commit_user insert_user grant_all is_granted has_service has_email text_eq
    codes int_eq services_for_user_of read_services select_services keep_selected or_null
    joined_grants is_selected put_by_name service_names contains_service find_user
    credentials_by_email_of update_retention_of create_service_of is_retention set_retention
    has_api_key
running = tt

repository_run :
    (create_user_of sound (codes "guest") (codes "g") (codes "viewer") (codes "db" ∷ []) small
      ≡ (with_guest, success guest))
    × (services_for_user_of sound (pos 2) (codes "viewer") with_guest ≡ success guest_list)
    × ((create_user_of sound (codes "boss") [] (codes "admin") [] small).1
        ≡ failure unique_violation)
    × ((create_user_of sound (codes "x") [] (codes "viewer") (codes "db" ∷ codes "db" ∷ []) small).1
        ≡ failure unique_violation)
    × ((update_retention_of sound (codes "none") (pos 7) small).1 ≡ failure no_rows)
    × (credentials_by_email_of sound (codes "guest") small ≡ failure invalid_credentials)
    × ((create_service_of sound (codes "web") (codes "k") (pos 7) small).1
        ≡ failure unique_violation)
unfolding running
repository_run = (refl, refl, refl, refl, refl, refl, refl)

small-IsConsistent : IsConsistent small
small-IsConsistent = ((omega arith, tt), tt, (tt, tt))

create_user-shows_example : shows guest_list (codes "db") ≡ (
    has_service (codes "db") small.services
    && (text_eq (codes "viewer") (codes "admin")
        || contains_service (codes "db" ∷ []) (codes "db")))
unfolding running
create_user-shows_example =
    create_user-shows sound sound (codes "guest") (codes "g") (codes "viewer") (codes "db" ∷ [])
      small with_guest guest guest_list (codes "db") small-IsConsistent refl refl

operations-IsConsistent_example :
    IsConsistent (create_service_of sound (codes "new") (codes "k") (pos 7) small).0
    × IsConsistent (update_retention_of sound (codes "new") (pos 7) small).0
    × IsConsistent
        (create_user_of sound
          (codes "guest")
          (codes "g")
          (codes "viewer")
          (codes "db" ∷ [])
          small).0
operations-IsConsistent_example =
    operations-IsConsistent sound (codes "new") (codes "k") (codes "guest") (codes "g")
      (codes "viewer") (codes "db" ∷ []) (pos 7) small small-IsConsistent

create_user-IsAllOrNothing_example :
    IsAllOrNothing
      (codes "guest")
      (codes "g")
      (codes "viewer")
      (codes "db" ∷ [])
      small
      (codes "boss")
      (codes "db")
      (pos 2)
      (create_user_of sound (codes "guest") (codes "g") (codes "viewer") (codes "db" ∷ []) small)
create_user-IsAllOrNothing_example =
    create_user-IsAllOrNothing sound (codes "guest") (codes "g") (codes "viewer") (codes "db" ∷ [])
      small (codes "boss") (codes "db") (pos 2)
