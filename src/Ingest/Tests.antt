-- ===== src/Ingest/Tests.antt =====
-- Requests to `/v1/logs`, and the theorems at them.
use centi_log.Base.{
  [], ◌∷◌, none, some, ◌≡◌, refl, inl, All, List, Option, false, length, true, ◌++◌,
}
use centi_log.Api.Environment.{get_env}
use centi_log.Dict.{Dict, lookup, erase, insert}
use centi_log.Ingest.{
  ServiceIdentity, Queue, Request, bytes_read, rows, Response, accept_body, enqueue, logs,
  read_request_body, refresh, serialize, serialize_all, stamp, ServiceRow, load_rows, query_failed,
}
use centi_log.Ingest.Answers.{Counted, logs-IsQueued, logs-accepted}
use centi_log.Ingest.Keys.{AllValid}
use centi_log.Ingest.Main.{
  IngestServer, Services, add_batch_of, count_taken, loaded, refresh_api_keys, start_ingest,
}
use centi_log.Ingest.Served.{refresh_api_keys-start_ingest}
use centi_log.Ingest.Stamped.{IsQueued}
use centi_log.Redact.{redact, redact_attributes}
use centi_log.Schema.{
  Log, clone_attributes, fix_timestamp, level_of, normalize_at, normalize_fields_at,
  normalize_level, truncate_message, truncate_millis,
}
use centi_log.Text.{Text, ascii, codes, is_one_of, text_eq, trim_space}
use centi_log.Text.Utf8.{to_lower}

abbrev web : ServiceIdentity
web = record { service = codes "web"; retention_days = 30 }

abbrev api_keys : Dict ServiceIdentity
api_keys = (codes "k1", web) ∷ []

abbrev queue : Queue
queue = record { size = some 3; add_batch = λ texts. (length texts, true) }

abbrev request_of : Text → Request
request_of api_key = record {
  is_post = true;
  api_key = api_key;
  content_encoding = [];
  reading = bytes_read (codes "[a]");
}

-- A raw record is a message; an empty one cannot be decoded.
abbrev decode_message : Text → Option Log
decode_message [] = none
decode_message (b ∷ rest) = some (record {
  timestamp = 5_000_000;
  service = codes "other";
  host = codes "h1";
  env = codes "prod";
  level = codes "WARN";
  message = b ∷ rest;
  trace_id = [];
  attributes = [];
  redacted = false;
  ingested_at = 0;
  retention_days = 0;
})

abbrev encode_level : Log → Option Text
encode_level log = some (log.service ++ log.level)

abbrev decode_two : Text → Option (List Text)
decode_two body = some (body ∷ [] ∷ [])

abbrev handle : Request → Response × List Text
handle r = logs ascii 7_000_000 decode_two decode_message encode_level api_keys queue r

handling : Unit {0}
unfolding logs accept_body enqueue serialize_all serialize stamp read_request_body codes text_eq
    lookup trim_space to_lower is_one_of normalize_at normalize_fields_at fix_timestamp
    clone_attributes truncate_millis truncate_message normalize_level level_of redact
    redact_attributes
handling = tt

handled_run :
    ((handle (request_of (codes " k1 "))).0.status ≡ 202)
    × ((handle (request_of (codes " k1 "))).1 ≡ codes "webwarn" ∷ [])
    × ((handle (request_of (codes "k2"))).0.status ≡ 401)
unfolding handling
handled_run = (refl, refl, refl)

logs-IsQueued_example :
    All
      (IsQueued ascii web 7_000_000 decode_message encode_level)
      (handle (request_of (codes "k1"))).1
unfolding handling
logs-IsQueued_example =
    logs-IsQueued ascii 7_000_000 decode_two decode_message encode_level api_keys queue
      (request_of (codes "k1")) web refl

logs-accepted_example :
    (identity : ServiceIdentity) × (body : Text) × ((request_of (codes "k1")).is_post ≡ true)
    × (lookup (trim_space (codes "k1")) api_keys ≡ some identity)
    × (read_request_body ascii (request_of (codes "k1")) ≡ inl body)
    × Counted ascii 7_000_000 decode_two decode_message encode_level body
        (handle (request_of (codes "k1")))
unfolding handling
logs-accepted_example =
    logs-accepted ascii 7_000_000 decode_two decode_message encode_level api_keys queue
      (request_of (codes "k1")) refl

abbrev service_row : ServiceRow
service_row = record { name = codes "web"; key = codes "k1"; days = 30 }

abbrev all_reached : Services
all_reached = record {
  opens = true;
  answers = true;
  redis_url_is_valid = true;
  redis_answers = true;
}

abbrev started : IngestServer
started = record {
  address = codes ":8080";
  cache = (codes "k1", record { service = codes "web"; retention_days = 30 }) ∷ [];
}

refresh_api_keys-start_ingest_example :
    AllValid (refresh_api_keys (query_failed ∷ rows [] true ∷ []) started.cache).0
unfolding start_ingest loaded refresh load_rows insert erase text_eq codes get_env
refresh_api_keys-start_ingest_example =
    refresh_api_keys-start_ingest (λ key. none) all_reached (rows (some service_row ∷ []) true)
      started (query_failed ∷ rows [] true ∷ []) refl

-- One of two records is not taken by Redis.
taken_in_part :
    add_batch_of (λ texts. (true ∷ false ∷ [], false)) (codes "a" ∷ codes "b" ∷ []) ≡ (1, false)
unfolding add_batch_of count_taken
taken_in_part = refl
