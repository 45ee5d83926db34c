-- ===== src/Ingest.antt =====
-- cmd/ingest/handler.go, the handler of `/v1/logs`, and cmd/ingest/main.go, the cache of API keys.
-- Parameters: encoding/json, for the array, for a record and back. What the transport, gzip, the
-- queue and the clock answer is in the request and in `Queue`; a request reads one instant from its
-- clock, however often it asks.
pub mod Stamped
pub mod Answers
pub mod Keys
pub mod Main
pub mod Served
mod Tests
use centi_log.Base.{
  ℕ, Bool, List, [], ◌∷◌, Option, none, some, ok, err, Result, if◌then◌else◌, inl, inr, length, ltb,
  not, ◌&&◌, ◌*◌, ◌+◌, ◌==◌, ◌||◌, ◌⊎◌,
}
use centi_log.Dict.{Dict, insert, lookup}
use centi_log.Redact.{redact}
use centi_log.Schema.{Log, normalize_at, truncate_millis}
use centi_log.Text.{Text, Unicode, codes, is_one_of, text_eq, trim_space}
use centi_log.Text.Utf8.{to_lower}

abbrev pub max_request_body_bytes : ℕ
max_request_body_bytes = 10 * 1024 * 1024

abbrev pub max_batch_size : ℕ
max_batch_size = 10_000

abbrev pub max_stream_entries : ℕ
max_stream_entries = 1_000_000

abbrev pub retry_after_seconds : Text
retry_after_seconds = codes "5"

-- `serviceIdentity`
pub record ServiceIdentity : Type 0 where
  pub service : Text
  pub retention_days : ℕ

-- `ingestResponse`, with the status and the header `Retry-After`, empty where it is not set.
pub record Response : Type 0 where
  pub status : ℕ
  pub retry_after : Text
  pub accepted : ℕ
  pub rejected : ℕ
  pub error : Text

-- What comes of reading the body: gzip finds no header, the limit on the bytes of the request is
-- passed, reading fails otherwise, or the bytes, of which one more than the limit is asked for.
pub data Reading : Type 0 where
  no_header too_many_bytes read_failed : Reading
  bytes_read : Text → Reading

pub record Request : Type 0 where
  pub is_post : Bool
  pub api_key : Text
  pub content_encoding : Text
  pub reading : Reading

-- What the queue answers: its length, or none on an error; and how many of some records it took, and
-- whether without an error.
pub record Queue : Type 0 where
  pub size : Option ℕ
  pub add_batch : List Text → ℕ × Bool

-- `writeJSON(w, status, ingestResponse{Error: message})`
abbrev pub refuse : ℕ → Text → Response
refuse status message = record {
  status = status;
  retry_after = [];
  accepted = 0;
  rejected = 0;
  error = message;
}

-- `readRequestBody`: the body, or the status.
unfoldable pub read_request_body : Unicode → Request → Text ⊎ ℕ
read_request_body u r =
    let encoding = to_lower u (trim_space r.content_encoding) in
    let all : Text ⊎ ℕ = elim r.reading [
      | no_header ↦ inr 400
      | too_many_bytes ↦ inr 413
      | read_failed ↦ inr 400
      | bytes_read body ↦ if ltb max_request_body_bytes (length body) then inr 413 else inl body
    ] in
    if is_one_of encoding ("" ∷ "identity" ∷ "gzip" ∷ []) then all else inr 415

-- `http.StatusText` of the statuses of `readRequestBody`.
unfoldable pub status_text : ℕ → Text
status_text status =
    if status == 413
    then codes "Request Entity Too Large"
    else if status == 415
    then codes "Unsupported Media Type"
    else codes "Bad Request"

module _ (u : Unicode) (identity : ServiceIdentity) (now : ℕ) where
  -- The record that one raw record becomes.
  unfoldable pub stamp : Log → Result Log
  stamp log =
      elim (normalize_at u
        (record log { service = identity.service; retention_days = identity.retention_days }) now
        now) [
          | err message ↦ err message
          | ok normalized ↦ ok (record (redact u normalized) { ingested_at = truncate_millis now })
        ]

module _ (u : Unicode) (identity : ServiceIdentity) (now : ℕ) {Raw : Type 0}
    (decode : Raw → Option Log) (encode : Log → Option Text) where
  -- One round of the loop over the raw records; none if it is rejected.
  unfoldable pub serialize : Raw → Option Text
  serialize raw = elim (decode raw) [
    | none ↦ none
    | some log ↦ elim (stamp u identity now log) [
      | err message ↦ none
      | ok normalized ↦ encode normalized
    ]
  ]

  -- The loop: what is serialized, and how many are rejected.
  unfoldable pub serialize_all : List Raw → List Text × ℕ
  serialize_all [] = ([], 0)
  serialize_all (raw ∷ raws) =
      let (texts, rejected) = serialize_all raws in
      elim (serialize raw) [ none ↦ (texts, rejected + 1) | some text ↦ (text ∷ texts, rejected) ]

-- The end of `logs`: the response, and what was handed to the queue.
unfoldable pub enqueue : Queue → List Text → ℕ → Response × List Text
enqueue q [] rejected =
    (record { status = 202; retry_after = []; accepted = 0; rejected = rejected; error = [] }, [])
enqueue q (text ∷ texts) rejected =
    let (accepted, fine) = q.add_batch (text ∷ texts) in
    let taken = fine && accepted == length (text ∷ texts) in
    (
      record {
        status = if taken then 202 else 503;
        retry_after = [];
        accepted = accepted;
        rejected = rejected;
        error = if taken then [] else codes "queue write failed";
      },
      text ∷ texts,
    )

module _ (u : Unicode) (now : ℕ) {Raw : Type 0} (decode_array : Text → Option (List Raw))
    (decode : Raw → Option Log) (encode : Log → Option Text) where
  -- `logs`, once the body is read.
  unfoldable pub accept_body : Queue → ServiceIdentity → Text → Response × List Text
  accept_body q identity body = elim (decode_array body) [
    | none ↦ (refuse 400 (codes "request body must be a JSON array of logs"), [])
    | some raws ↦
        let (texts, rejected) = serialize_all u identity now decode encode raws in
        if ltb max_batch_size (length raws)
        then (refuse 413 (codes "batch exceeds 10000 logs"), [])
        else enqueue q texts rejected
  ]

  -- `logs`: the response, and what was handed to the queue.
  unfoldable pub logs : Dict ServiceIdentity → Queue → Request → Response × List Text
  logs api_keys q r =
      if not r.is_post
      then (refuse 405 (codes "method not allowed"), [])
      else elim (lookup (trim_space r.api_key) api_keys) [
        | none ↦ (refuse 401 (codes "invalid API key"), [])
        | some identity ↦ elim q.size [
          | none ↦ (refuse 503 (codes "queue unavailable"), [])
          | some size ↦
              if ltb max_stream_entries size
              then (
                record (refuse 429 (codes "ingest queue is full")) {
                  retry_after = retry_after_seconds;
                },
                [],
              )
              else elim (read_request_body u r) [
                | inr status ↦ (refuse status (status_text status), [])
                | inl body ↦ accept_body q identity body
              ]
        ]
      ]

-- A row of the table of services.
pub record ServiceRow : Type 0 where
  pub name : Text
  pub key : Text
  pub days : ℕ

-- What the database answers: the query fails, or its rows, each read or not, and whether the rows
-- end without an error.
pub data Answer : Type 0 where
  query_failed : Answer
  rows : List (Option ServiceRow) → Bool → Answer

-- The loop of `Refresh`. A number of days that is negative is refused as zero is.
unfoldable pub load_rows :
    List (Option ServiceRow) → Dict ServiceIdentity → Result (Dict ServiceIdentity)
load_rows [] entries = ok entries
load_rows (none ∷ more) entries = err (codes "failed to read API key row")
load_rows (some row ∷ more) entries =
    let later =
      load_rows more
        (insert row.key (record { service = row.name; retention_days = row.days }) entries) in
    if text_eq row.name [] || text_eq row.key [] || ltb row.days 1 || ltb 65_535 row.days
    then err (codes "invalid service API key configuration")
    else later

-- `Refresh`: the cache, and the error.
unfoldable pub refresh : Dict ServiceIdentity → Answer → Dict ServiceIdentity × Option Text
refresh entries query_failed = (entries, some (codes "failed to query API keys"))
refresh entries (rows list fine) = elim (load_rows list []) [
  | err message ↦ (entries, some message)
  | ok loaded ↦
      if fine then (loaded, none) else (entries, some (codes "failed while reading API keys"))
]
