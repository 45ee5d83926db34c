-- ===== src/Ingest/Served.antt =====
-- The cache of API keys while the server of cmd/ingest/main.go runs.
use mathlib.Core.Path.{subst}
use centi_log.Base.{
  List, [], ◌∷◌, Option, none, some, Attempt, success, ◌≡◌, arith, ap, ◌∙◌, ensure, ensure-success,
  bind-success, success-injective, ◌>>=◌, ◌>>◌, sym,
}
use centi_log.Api.Environment.{get_env}
use centi_log.Dict.{Dict}
use centi_log.Ingest.{ServiceIdentity, Answer, refresh}
use centi_log.Ingest.Keys.{AllValid, refresh-AllValid, nothing-AllValid}
use centi_log.Ingest.Main.{IngestServer, Services, loaded, refresh_api_keys, start_ingest}
use centi_log.Text.{Text, codes}

refresh_api_keys_step :
    (first : Answer) (answers : List Answer) (cache : Dict ServiceIdentity)
    → (refresh_api_keys (first ∷ answers) cache).0
      ≡ (refresh_api_keys answers (refresh cache first).0).0
unfolding refresh_api_keys
refresh_api_keys_step first answers cache = ground arith

refresh_api_keys-AllValid :
    (answers : List Answer) (cache : Dict ServiceIdentity)
    → AllValid cache
    → AllValid (refresh_api_keys answers cache).0
unfolding refresh_api_keys
refresh_api_keys-AllValid [] cache h = h
refresh_api_keys-AllValid (first ∷ answers) cache h =
    let valid = (refresh-AllValid cache first h).0 in
    subst AllValid (sym (refresh_api_keys_step first answers cache))
      (refresh_api_keys-AllValid answers (refresh cache first).0 valid)

loaded-success :
    (out : Dict ServiceIdentity × Option Text) (cache : Dict ServiceIdentity)
    → loaded out ≡ success cache
    → out.0 ≡ cache
unfolding loaded
loaded-success (found, none) cache h = success-injective {E = Text} found cache h
loaded-success (found, some message) cache h = absurd (ground arith)

module _ (environment : Text → Option Text) (services : Services) (loading : Answer) where
  abbrev serving : Dict ServiceIdentity → IngestServer
  serving cache = record {
    address = get_env environment (codes "CENTILOG_INGEST_ADDR") (codes ":8080");
    cache = cache;
  }

  abbrev reached : Dict ServiceIdentity → Attempt Text IngestServer
  reached cache =
      ensure (codes "Redis is unavailable") services.redis_answers >> success (serving cache)

  abbrev connected : Dict ServiceIdentity → Attempt Text IngestServer
  connected cache =
      ensure (codes "invalid Redis connection URL") services.redis_url_is_valid >> reached cache

  abbrev filled : Attempt Text IngestServer
  filled = loaded (refresh [] loading) >>= connected

  start_ingest-cache :
      (server : IngestServer)
      → start_ingest environment services loading ≡ success server
      → (refresh [] loading).0 ≡ server.cache
  unfolding start_ingest
  start_ingest-cache server h =
      let (opens, asking) =
        ensure-success (codes "failed to open PostgreSQL") services.opens
          (ensure (codes "PostgreSQL is unavailable") services.answers >> filled) server h in
      let (answers, filling) =
        ensure-success (codes "PostgreSQL is unavailable") services.answers filled server asking in
      let (cache, read, connecting) =
        bind-success (loaded (refresh [] loading)) connected server filling in
      let (valid, reaching) =
        ensure-success (codes "invalid Redis connection URL") services.redis_url_is_valid
          (reached cache) server connecting in
      let (live, same) =
        ensure-success (codes "Redis is unavailable") services.redis_answers
          (success (serving cache)) server reaching in
      loaded-success (refresh [] loading) cache read
      ∙ ap (λ (s : IngestServer). s.cache)
          (success-injective {E = Text} (serving cache) server same)

  -- Once the server has started, and after any number of refreshes, whatever the database answers at
  -- each of them, every entry of the cache has a key, a service's name and a retention from 1 to 65,535
  -- days: no identity that the handler takes from it stamps a record otherwise.
  pub refresh_api_keys-start_ingest :
      (server : IngestServer) (answers : List Answer)
      → start_ingest environment services loading ≡ success server
      → AllValid (refresh_api_keys answers server.cache).0
  refresh_api_keys-start_ingest server answers h = refresh_api_keys-AllValid answers server.cache (
      subst AllValid (start_ingest-cache server h) (refresh-AllValid [] loading nothing-AllValid).0)
