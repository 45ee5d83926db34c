-- ===== src/Api/Tests.antt =====
-- An API with two services, an administrator and a viewer, and the theorems at requests to it.
use centi_log.Base.{
  ℕ, ◌+◌, ◌%◌, [], ◌∷◌, ◌++◌, some, none, success, failure, inr, ◌≡◌, ◌⊎◌, refl, true, false, List,
  Option, arith, if◌then◌else◌, length, ◌*◌,
}
use centi_log.Api.{
  Instant, rows_body, login_body, select_logs, ApiHandler, ApiRequest, Platform, Principal,
  UserRequest, answer, authenticate, bearer, decode_api_json, deny, finish, int_or_zero,
  is_blank_json, require_admin,
}
use centi_log.Api.Admin.{
  create_service, create_user, created_response, encode_hex, generate_api_key, hex_digit,
  is_address, is_unique_violation, new_service, new_user, user_response,
}
use centi_log.Api.Admitted.{create_admin_command-login}
use centi_log.Api.Bounded.{IsBounded, logs_query-IsBounded}
use centi_log.Api.Environment.{click_house_dsn, click_house_http_url, get_env}
use centi_log.Api.Guards.{IsAdmin, serve-kept}
use centi_log.Api.Login.{login}
use centi_log.Api.Main.{
  Dsn, Postgres, admin_result, click_house_credentials, create_admin_command, drop_slashes,
  jwt_secret, new_admin, start_server, trim_slashes,
}
use centi_log.Api.Queries.{
  Query, are_crossed, bound_of, bound_param, bound_text, count_param, first_or_empty, flag_text,
  in_range, log_filters, log_params, logs_query, narrowed, permitted, query_value, run_prepared,
  single_value, valid_log_level,
}
use centi_log.Api.Repeated.{create_user-repeated}
use centi_log.Api.Routes.{
  api_patterns, dispatch, find_route, item_patterns, method_fits, path_patterns, pick_route,
  reading, serve, writing,
}
use centi_log.Api.Sessions.{login-authenticate, principal_of}
use centi_log.Api.Shown.{IsGrantedQuery, serve-IsGrantedQuery}
use centi_log.ClickHouse.{Url, new_click_house_client}
use centi_log.Dict.{erase, insert, Dict, lookup}
use centi_log.Repository.{
  Database, StoredService, Tables, commit_user, contains_service, create_service_of, create_user_of,
  credentials_by_email_of, find_user, grant_all, has_api_key, has_email, has_service, insert_user,
  int_eq, is_granted, is_retention, is_selected, joined_grants, keep_selected, or_null,
  postgres_repository, put_by_name, read_services, select_services, service_names,
  services_for_user_of,
}
use centi_log.Text.{
  Text, codes, text_eq, ascii, has_prefix, is_one_of, space_width, space_width_back, trim_by,
  trim_space,
}
use centi_log.Text.Base64.{
  char_sextet, decode_base64, encode_base64, join_sextets, sextet_char, sextets,
}
use centi_log.Text.Decimal.{format_uint, parse_digits, parse_uint}
use centi_log.Text.Equality.{text_eq_refl}
use centi_log.Text.Integers.{pos, format_int, leb_int, parse_int, signed}
use centi_log.Text.Split.{split_at}
use centi_log.Text.Utf8.{to_lower}
use centi_log.Token.{
  User, Codec, are_refused, claims_of, is_jwt_header, jwt_header, parse_claims, parse_parts,
  parse_pieces, parse_token, sign_token, jwt_lifetime,
}
use centi_log.Token.Lifetime.{token_of, IsCarried}

abbrev sound : Database
sound = record {
  before = λ a b. true;
  clock = 5;
  query_fails = false;
  scan_fails = false;
  end_fails = false;
  begin_fails = false;
  commit_fails = false;
}

abbrev stored : Text → StoredService
stored name = record {
  service = record { name = name; retention_days = pos 30; created_at = 1 };
  api_key = name;
}

abbrev boss : User
boss = record { id = pos 1; email = codes "boss"; role = codes "admin" }

abbrev guest : User
guest = record { id = pos 2; email = codes "guest"; role = codes "viewer" }

abbrev tables : Tables
tables = record {
  users =
      record { account = boss; password_hash = codes "bosspass" }
      ∷ record { account = guest; password_hash = codes "guestpass" }
      ∷ [];
  services = stored (codes "web") ∷ stored (codes "db") ∷ [];
  grants = (pos 2, codes "db") ∷ [];
  next_id = 3;
}

-- Claims are carried as the address, and a body holds an address with the password after it.
abbrev toy_codec : Codec
toy_codec = record {
  encode_header = λ header. some (codes "{}");
  decode_header = λ bytes. if text_eq bytes (codes "{}") then some jwt_header else none;
  encode_claims = λ claims. some claims.email;
  decode_claims = λ bytes.
      if text_eq bytes (codes "boss")
      then some (claims_of 1000 boss)
      else if text_eq bytes (codes "guest")
      then some (claims_of 1000 guest)
      else none;
  hmac = λ key value. (length value % 256) ∷ key;
}

abbrev joined : List Text → Text
joined [] = []
joined (name ∷ names) = name ++ joined names

abbrev twice_named : UserRequest
twice_named = record {
  email = codes "new";
  password = codes "password";
  role = codes "viewer";
  services = codes "web" ∷ codes "db" ∷ codes "db" ∷ [];
}

abbrev platform : Platform
platform = record {
  codec = toy_codec;
  unicode = ascii;
  matches_hash = λ hash password. text_eq hash password;
  hash_password = λ password. some password;
  parse_address = λ address. some address;
  encode_names = joined;
  decode_login = λ body. some (record { email = body; password = body ++ codes "pass" }, []);
  decode_service = λ body. some (record { name = body; retention_days = pos 7 }, []);
  decode_retention = λ body. some (pos 7, []);
  decode_user = λ body. some (twice_named, []);
}

abbrev row_of : Option Text → List Text
row_of none = []
row_of (some names) = names ∷ []

-- The rows are the names that were asked for.
abbrev handler : ApiHandler Tables
handler = record {
  platform = platform;
  secret = codes "k";
  repository = postgres_repository sound;
  run_query = λ statement params. some (row_of (lookup (codes "allowed_services") params));
}

abbrev at : ℕ → Instant
at seconds = record { now_ms = seconds * 1000; random = some (171 ∷ []) }

abbrev token_for : Text → Text
token_for email = token_of toy_codec (codes "k") (codes "{}") email

abbrev asks : Text → List Text → Text → Text → Dict (List Text) → ApiRequest
asks method segments email body query = record {
  method = method;
  segments = segments;
  authorization = bearer ++ token_for email;
  body = some body;
  query = query;
}

abbrev logs_of : Text → Dict (List Text) → ApiRequest
logs_of email query = asks (codes "GET") (codes "api" ∷ codes "logs" ∷ []) email [] query

running : Unit {0}
unfolding serve find_route path_patterns api_patterns item_patterns pick_route method_fits dispatch
    reading writing finish run_prepared logs_query log_params log_filters permitted narrowed
    count_param in_range bound_param bound_of single_value flag_text bound_text are_crossed
    valid_log_level query_value first_or_empty authenticate require_admin int_or_zero create_user
    new_user user_response is_address is_unique_violation create_service new_service
    created_response generate_api_key encode_hex hex_digit decode_api_json is_blank_json login
    trim_space trim_by space_width space_width_back has_prefix to_lower is_one_of lookup parse_token
    parse_pieces parse_parts parse_claims is_jwt_header are_refused claims_of decode_base64 sextets
    join_sextets char_sextet sextet_char encode_base64 split_at codes text_eq leb_int parse_int
    signed format_int parse_uint parse_digits format_uint sign_token create_user_of commit_user
    insert_user grant_all is_granted has_service has_email int_eq services_for_user_of read_services
    select_services keep_selected or_null joined_grants is_selected put_by_name service_names
    contains_service find_user credentials_by_email_of create_admin_command new_admin admin_result
    create_service_of is_retention has_api_key
running = tt

-- The viewer is shown the rows of one service, the administrator those of both, and another service is
-- refused to the viewer; nor may the viewer create a service.
api_run :
    ((serve handler (at 2000) (logs_of (codes "guest") []) tables).1
      ≡ answer 200 (rows_body (codes "db" ∷ [])))
    × ((serve handler (at 2000) (logs_of (codes "boss") []) tables).1
        ≡ answer 200 (rows_body (codes "dbweb" ∷ [])))
    × ((serve handler
          (at 2000)
          (logs_of (codes "guest") ((codes "service", codes "web" ∷ []) ∷ []))
          tables).1
        ≡ deny 403 (codes "service access denied"))
    × ((serve handler
          (at 2000)
          (logs_of (codes "guest") ((codes "limit", codes "1001" ∷ []) ∷ []))
          tables).1
        ≡ deny 400 (codes "limit must be between 1 and 1000"))
    × ((serve handler
          (at 2000)
          (asks
            (codes "POST")
            (codes "api" ∷ codes "services" ∷ [])
            (codes "guest")
            (codes "new")
            [])
          tables).1
        ≡ deny 403 (codes "administrator access required"))
    × ((serve handler (at 50_000) (logs_of (codes "guest") []) tables).1
        ≡ deny 401 (codes "invalid or expired token"))
unfolding running
api_run = (refl, refl, refl, refl, refl, refl)

serve-IsGrantedQuery_example :
    (account : Principal) × (authenticate handler (at 2000) (logs_of (codes "guest") [])
      ≡ success account)
    × ((q : Query) × (handler.run_query q.0 q.1 ≡ some (codes "db" ∷ []))
        × IsGrantedQuery handler sound
            (at 2000)
            (logs_of (codes "guest") [])
            tables
            (codes "db" ∷ [])
            account
            q)
unfolding running
serve-IsGrantedQuery_example =
    serve-IsGrantedQuery handler sound (at 2000) (logs_of (codes "guest") []) tables
      (codes "db" ∷ []) refl refl

serve-kept_example :
    ((serve handler (at 2000) (logs_of (codes "guest") []) tables).0 ≡ tables)
    ⊎ IsAdmin handler (at 2000) (logs_of (codes "guest") [])
serve-kept_example = serve-kept handler (at 2000) (logs_of (codes "guest") []) tables

guest-IsCarried : IsCarried toy_codec (codes "k") 1000 guest (codes "{}") (codes "guest")
unfolding running
guest-IsCarried = (
  refl,
  refl,
  refl,
  refl,
  (omega arith, (omega arith, tt)),
  (omega arith, (omega arith, (omega arith, (omega arith, (omega arith, tt))))),
  (omega arith, (omega arith, tt)),
)

login-authenticate_example :
    (login handler (at 1000) (asks (codes "POST") [] [] (codes "guest") []) tables
      ≡ success (answer 200 (login_body (token_for (codes "guest")) (1000 + jwt_lifetime))))
    × (authenticate handler (at 2000) (logs_of (codes "guest") []) ≡ success (principal_of guest))
unfolding running
login-authenticate_example =
    login-authenticate handler (at 1000) (at 2000) (asks (codes "POST") [] [] (codes "guest") [])
      (logs_of (codes "guest") []) tables
      (record { email = codes "guest"; password = codes "guestpass" })
      (record { account = guest; password_hash = codes "guestpass" }) (codes "{}") (codes "guest")
      refl (λ h. cc) (λ h. cc) (omega arith) refl refl (λ h. cc) (λ h. cc, inr refl, omega arith)
      guest-IsCarried refl (omega arith)

abbrev guest_query : Query
guest_query = (
  select_logs,
  log_params handler (at 2000) tables (principal_of guest) (codes "db" ∷ []) 20 none none none
      ([], [], []),
)

logs_query-IsBounded_example : IsBounded handler (at 2000) tables (principal_of guest) guest_query
unfolding running
logs_query-IsBounded_example =
    logs_query-IsBounded handler (at 2000) tables (principal_of guest)
      (logs_of (codes "guest") ((codes "limit", codes "20" ∷ []) ∷ [])) guest_query refl

create_user-repeated_example :
    (create_user handler (at 2000) (asks (codes "POST") [] [] [] []) tables).1
    ≡ deny 409 (codes "user email already exists")
unfolding running
create_user-repeated_example =
    create_user-repeated handler (at 2000) (asks (codes "POST") [] [] [] []) tables sound
      twice_named (codes "password") refl refl refl refl refl refl refl (refl, (refl, (refl, tt)))
      refl

abbrev reached : Postgres
reached = record { opens = true; answers = true }

abbrev root : User
root = record { id = pos 3; email = codes "root"; role = codes "admin" }

abbrev with_root : Tables
with_root = record tables {
  users = record { account = root; password_hash = codes "rootpass" } ∷ tables.users;
  next_id = 4;
}

own_hash :
    (password hash : Text)
    → ◌≡◌ {A = Option Text} (some password) (some hash)
    → text_eq hash password ≡ true
own_hash password hash same = ground (arith, same, text_eq_refl password)

create_admin_command-login_example :
    (login handler (at 1000) (asks (codes "POST") [] [] (codes "root") []) with_root
      ≡ success (answer 200 (login_body (token_for (codes "root")) (1000 + jwt_lifetime))))
    × (root.role ≡ codes "admin")
unfolding running
create_admin_command-login_example =
    create_admin_command-login handler sound (at 1000) (asks (codes "POST") [] [] (codes "root") [])
      reached sound (codes "create-admin") tables with_root root
      (record { email = codes "root"; password = codes "rootpass" }) (token_for (codes "root"))
      (1000 + jwt_lifetime) refl (λ h. cc) refl refl refl (own_hash (codes "rootpass")) refl refl

-- The start of a server whose environment names a database and nothing else.
abbrev plain_url : Text → Option Url
plain_url s = some (record { scheme = codes "http"; host = s; query = [] })

abbrev own_database : Text → Option Dsn
own_database s = some (record { user = some (codes "u", []); path = codes "/logs/" })

server_start :
    (start_server own_database plain_url (λ url. url.host) (λ key. none) (some (171 ∷ [])) reached
      ≡ success (record {
        address = codes ":8081";
        client = record {
          endpoint = codes "http://localhost:8123";
          user = codes "u";
          password = [];
        };
        secret = codes "ab";
        is_ephemeral = true;
      }))
    × (start_server own_database plain_url (λ url. url.host) (λ key. none) none reached
        ≡ failure (codes "generate temporary JWT secret"))
unfolding running start_server click_house_credentials trim_slashes drop_slashes jwt_secret get_env
    click_house_dsn click_house_http_url new_click_house_client insert erase
server_start = (refl, refl)
