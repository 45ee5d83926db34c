-- ===== src/Ingest/Main.antt =====
-- cmd/ingest/main.go: the queue of Redis, the start of the server, and the refreshing of the cache.
-- Parameters: Redis and its URL, the answers of Postgres, and the environment.
use centi_log.Base.{
  ℕ, ◌+◌, Bool, true, ◌&&◌, List, [], ◌∷◌, Option, none, some, Attempt, success, failure, ensure,
  ◌>>=◌, ◌>>◌, if◌then◌else◌, length, ◌==◌,
}
use centi_log.Api.{answer}
use centi_log.Api.Environment.{get_env}
use centi_log.Dict.{Dict}
use centi_log.Ingest.{ServiceIdentity, Answer, Queue, refresh}
use centi_log.Text.{Text, codes}

-- The commands of a pipeline that went well.
unfoldable pub count_taken : List Bool → ℕ
count_taken [] = 0
count_taken (fine ∷ results) = let taken = count_taken results in if fine then taken + 1 else taken

-- `AddBatch`: how many were taken, and whether there is no error. `exec` answers for each command, and
-- for the pipeline.
unfoldable pub add_batch_of : (List Text → List Bool × Bool) → List Text → ℕ × Bool
add_batch_of exec [] = (0, true)
add_batch_of exec (text ∷ texts) =
    let answer = exec (text ∷ texts) in
    let accepted = count_taken answer.0 in (accepted, answer.1 && accepted == length (text ∷ texts))

-- `redisStream`
abbrev pub redis_stream : Option ℕ → (List Text → List Bool × Bool) → Queue
redis_stream size exec = record { size = size; add_batch = add_batch_of exec }

-- Whether Postgres and Redis can be opened and reached.
pub record Services : Type 0 where
  pub opens : Bool
  pub answers : Bool
  pub redis_url_is_valid : Bool
  pub redis_answers : Bool

pub record IngestServer : Type 0 where
  pub address : Text
  pub cache : Dict ServiceIdentity

-- The error of `Refresh`, as `run` reports it.
unfoldable pub loaded : Dict ServiceIdentity × Option Text → Attempt Text (Dict ServiceIdentity)
loaded (cache, none) = success cache
loaded (cache, some message) = failure (codes "failed to load service API keys")

-- `run` up to `ListenAndServe`.
unfoldable pub start_ingest : (Text → Option Text) → Services → Answer → Attempt Text IngestServer
start_ingest environment services answer = do
  ensure (codes "failed to open PostgreSQL") services.opens
  ensure (codes "PostgreSQL is unavailable") services.answers
  cache ← loaded (refresh [] answer)
  ensure (codes "invalid Redis connection URL") services.redis_url_is_valid
  ensure (codes "Redis is unavailable") services.redis_answers
  success (record {
    address = get_env environment (codes "CENTILOG_INGEST_ADDR") (codes ":8080");
    cache = cache;
  })

-- `refreshAPIKeys`, over the answers at its ticks: the cache, and how many refreshes were logged as failed.
unfoldable pub refresh_api_keys : List Answer → Dict ServiceIdentity → Dict ServiceIdentity × ℕ
refresh_api_keys [] cache = (cache, 0)
refresh_api_keys (answer ∷ answers) cache =
    let step = refresh cache answer in
    let rest = refresh_api_keys answers step.0 in
    elim step.1 [ none ↦ rest | some message ↦ (rest.0, rest.1 + 1) ]
