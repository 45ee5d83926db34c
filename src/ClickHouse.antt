-- ===== src/ClickHouse.antt =====
-- cmd/api/clickhouse.go: the queries that the API sends to ClickHouse over HTTP, and the rows that it
-- reads from the answer with bufio's scanner of lines.
-- Parameters: net/url, for the reading and the writing of a URL, and what the server answers.
pub mod Rows
pub mod Sent
mod Tests
use centi_log.Base.{
  ℕ, ◌*◌, ◌++◌, Bool, true, false, not, ◌&&◌, ◌||◌, List, [], ◌∷◌, Option, none, some, Attempt,
  success, failure, need, ensure, ◌>>=◌, ◌>>◌, if◌then◌else◌, take, length, leb, ltb, ◌==◌,
}
use centi_log.Dict.{Dict, insert}
use centi_log.Text.{Text, codes, text_eq}
use centi_log.Text.Split.{split_at}

-- `io.LimitReader(response.Body, 16<<20)`
abbrev pub max_answer_bytes : ℕ
max_answer_bytes = 16_777_216

-- The longest line with its newline, `2<<20`
abbrev pub max_line_bytes : ℕ
max_line_bytes = 2_097_152

-- `url.URL`, as far as it is read here, with its query.
pub record Url : Type 0 where
  pub scheme : Text
  pub host : Text
  pub query : Dict Text

-- `clickHouseHTTPClient`
pub record ClickHouseClient : Type 0 where
  pub endpoint : Text
  pub user : Text
  pub password : Text

-- The request that is sent: a POST with basic authentication.
pub record HttpQuery : Type 0 where
  pub url : Text
  pub content_type : Text
  pub body : Text
  pub user : Text
  pub password : Text

-- What the server answers: nothing, or a status and the bytes that can be read of the body, which are
-- all of it or not.
pub data HttpAnswer : Type 0 where
  no_response : HttpAnswer
  responded : ℕ → Text → Bool → HttpAnswer

-- The carriage return that the scanner drops at the end of a line.
unfoldable pub drop_cr : Text → Text
drop_cr [] = []
drop_cr (a ∷ []) = if a == 13 then [] else a ∷ []
drop_cr (a ∷ b ∷ r) = a ∷ drop_cr (b ∷ r)

-- A line and its newline do not fit in the scanner's buffer.
unfoldable pub has_long_line : List Text → Bool
has_long_line [] = false
has_long_line (line ∷ lines) = leb max_line_bytes (length line) || has_long_line lines

-- The loop over the lines: those that are not empty.
unfoldable pub keep_rows : List Text → List Text
keep_rows [] = []
keep_rows (line ∷ lines) =
    let rows = keep_rows lines in if text_eq (drop_cr line) [] then rows else drop_cr line ∷ rows

-- The end of `Query`: the rows of a body.
unfoldable pub read_rows : Text → Bool → Attempt Text (List Text)
read_rows body whole =
    let lines = split_at 10 (take max_answer_bytes body) in
    if has_long_line lines || (not whole && ltb (length body) max_answer_bytes)
    then failure (codes "read ClickHouse query results")
    else success (keep_rows lines)

unfoldable pub rows_of_answer : HttpAnswer → Attempt Text (List Text)
rows_of_answer no_response = failure (codes "ClickHouse query unavailable")
rows_of_answer (responded status body whole) =
    if ltb status 200 || leb 300 status
    then failure (codes "ClickHouse query failed")
    else read_rows body whole

-- `for name, value := range parameters { queryParameters.Set("param_"+name, value) }`
unfoldable pub set_parameters : Dict Text → Dict Text → Dict Text
set_parameters [] query = query
set_parameters ((name, value) ∷ parameters) query =
    set_parameters parameters (insert (codes "param_" ++ name) value query)

module _ (parse_url : Text → Option Url) (format_url : Url → Text) where
  -- `newClickHouseHTTPClient`
  unfoldable pub new_click_house_client : Text → Text → Text → Text → Attempt Text ClickHouseClient
  new_click_house_client endpoint user password database = do
    url ← need (codes "invalid ClickHouse HTTP URL") (parse_url endpoint)
    ensure (codes "invalid ClickHouse HTTP URL") (
        (text_eq url.scheme (codes "http") || text_eq url.scheme (codes "https"))
        && not (text_eq url.host []))
    success (record {
      endpoint = format_url (record url { query = insert (codes "database") database url.query });
      user = user;
      password = password;
    })

  -- `Query`, up to the sending.
  unfoldable pub query_request : ClickHouseClient → Text → Dict Text → Attempt Text HttpQuery
  query_request client query parameters = do
    url ← need (codes "invalid ClickHouse endpoint") (parse_url client.endpoint)
    let target = format_url (record url { query = set_parameters parameters url.query })
    checked ← need (codes "build ClickHouse query") (parse_url target)
    success (record {
      url = target;
      content_type = codes "text/plain; charset=utf-8";
      body = query;
      user = client.user;
      password = client.password;
    })

  -- `Query`
  unfoldable pub query_click_house :
      (HttpQuery → HttpAnswer) → ClickHouseClient → Text → Dict Text → Attempt Text (List Text)
  query_click_house send client query parameters = do
    request ← query_request client query parameters
    rows_of_answer (send request)
