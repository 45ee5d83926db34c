-- ===== src/Lib.antt =====
-- CentiLog: the agent, which tails log files and ships them to the ingest server, the record and the
-- redaction that both share, and the API through which accounts search the logs of their services.
--
-- A poll reads the complete lines that watched files have gained (Tailer), joins stack traces
-- (Stacks), and for each line that is whole parses, normalizes (Schema), filters and samples
-- (Processor) and redacts it (Redact, over Regex). What is kept gathers in a batch (Agent), which is
-- written to the store of batches (Buffer) before the offsets of its lines are saved (Tailer). The
-- sender (Sender) claims the oldest batch, posts it, and deletes it, quarantines it or puts it back. The
-- ingest server (Ingest) checks the key, stamps each record with its service, normalizes and redacts it
-- again, and hands it to a queue. The API (Api) logs accounts in with signed tokens (Token), and lets them
-- query the logs of the services that the tables of accounts and grants (Repository) show them.
--
--   Base       tests, lists and results that the others share
--   Text       Go's strings as bytes, and what the code calls of strings, unicode and strconv
--   Dict       Go's maps with string keys
--   Schema     internal/schema/schema.go
--   Regex      package regexp, the matching that the patterns need: leftmost match, first alternative
--   Redact     internal/redact/redact.go, its patterns in Redact/Patterns
--   Config     cmd/agent/config.go: SamplingPercentage, and the loading of the settings in Config/Settings
--   Tailer     cmd/agent/tailer.go, Tailer; its saveOffsets in Tailer/Saving
--   Stacks     cmd/agent/tailer.go, StackAssembler
--   Parser     cmd/agent/parser.go, its patterns in Parser/Patterns, JSON in Parser/Json
--   Processor  cmd/agent/processor.go
--   Buffer     cmd/agent/buffer.go
--   Agent      cmd/agent/agent.go, its loops over lines and files in Agent/Loops, and the loop of
--              cmd/agent/main.go in Agent/Main
--   Sender     cmd/agent/sender.go
--   Ingest     cmd/ingest/handler.go, and cmd/ingest/main.go (Ingest/Main, the cache in Ingest)
--   Token      cmd/api/jwt.go, over base64 (Text/Base64)
--   ClickHouse cmd/api/clickhouse.go
--   Repository cmd/api/postgres.go, over the tables of deploy/postgres/init.sql
--   Api        cmd/api/api.go: Api/Login, Api/Admin, Api/Queries, and the routes in Api/Routes;
--              cmd/api/main.go in Api/Main, internal/config/config.go in Api/Environment
--
-- A function or method has its Go name in lower case with underscores; `Agent.Flush` is
-- `flush_agent` and `Agent.commitOffsets` is `commit_batch_offsets`, since the tailer and the
-- assembler have the plain names; the methods of `postgresRepository` end in `_of`. Operations on
-- shared objects take the old state and return the new one beside their result. A loop over a
-- slice or a map is a recursion on its list, so each ends; the decimal digits of n are made with n
-- + 1 units of fuel, of which each digit takes one, and a repetition in a pattern has one unit for
-- each byte that is left, of which each round takes at least one. What the operating system, the
-- network, the clock and chance answer is an argument: `Opened` for a watched file, `Write` and
-- `Disk` for the store, `Tick` for one line of a poll, `Round` for one turn of the sender,
-- `Database` for the tables. Times are nanoseconds since Go's zero time, percentages are counted
-- in steps of 2^-1074, and durations stop at 2^63 - 1 where Go's saturate.
--
-- Parameters: the Unicode tables above U+007F, encoding/json and the epoch (parseEpoch) of a line,
-- time.Parse, http.ParseTime, encoding/json in the servers, HMAC-SHA256, bcrypt and net/mail. The
-- agent is modelled over any parser. A batch file gives back the records that gzip and JSON were
-- given. Not modelled: the YAML format, the loops that start and stop the servers, the evaluation
-- of the SQL queries by ClickHouse, and the web pages.
pub mod Base
pub mod Text
pub mod Dict
pub mod Schema
pub mod Regex
pub mod Redact
pub mod Config
pub mod Tailer
pub mod Stacks
pub mod Parser
pub mod Processor
pub mod Buffer
pub mod Agent
pub mod Sender
pub mod Ingest
pub mod Token
pub mod Repository
pub mod ClickHouse
pub mod Api
