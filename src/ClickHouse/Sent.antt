-- ===== src/ClickHouse/Sent.antt =====
-- What a query of the API carries to ClickHouse.
use centi_log.Base.{
  true, false, Bool, not, ◌&&◌, ◌||◌, [], ◌∷◌, ◌++◌, Option, none, some, success, ◌≡◌, refl, arith,
  sym, ap, ◌∙◌, inl, inr, Bool-cases, need-success, ensure-success, success-injective,
}
use centi_log.ClickHouse.{
  set_parameters, ClickHouseClient, HttpQuery, Url, new_click_house_client, query_request,
}
use centi_log.Dict.{Dict, lookup, insert, HasUniqueKeys, lookup-insert, lookup-insert_self}
use centi_log.Text.{Text, codes, text_eq, has_prefix}
use centi_log.Text.Equality.{text_eq_iff, has_prefix-append}

text_eq-append : (p s t : Text) → text_eq (p ++ s) (p ++ t) ≡ text_eq s t
unfolding text_eq
text_eq-append [] s t = refl
text_eq-append (b ∷ p) s t = ground (arith, text_eq-append p s t)

abbrev prefixed : Text → Text
prefixed name = codes "param_" ++ name

-- The value of a parameter in the query of the URL.
abbrev or_else : Option Text → Option Text → Option Text
or_else (some v) o = some v
or_else none o = o

lookup-set_parameters :
    (name : Text) (parameters query : Dict Text)
    → HasUniqueKeys parameters
    → lookup (prefixed name) (set_parameters parameters query)
      ≡ or_else (lookup name parameters) (lookup (prefixed name) query)
unfolding set_parameters
lookup-set_parameters name [] query unique = unfold lookup in refl
lookup-set_parameters name ((k, v) ∷ parameters) query (fresh, unique) =
    let ih = lookup-set_parameters name parameters (insert (prefixed k) v query) unique in
    let step = lookup-insert (prefixed name) (prefixed k) v query in
    let same = text_eq-append (codes "param_") name k in
    elim (Bool-cases (text_eq name k)) [
      | inl here ↦
          let it : name ≡ k = (text_eq_iff name k).0 here in
          let gone : lookup name parameters ≡ none = ap (λ n. lookup n parameters) it ∙ fresh in
          ih ∙ unfold lookup in ground (arith, step, same, here, gone)
      | inr other ↦ ih ∙ unfold lookup in ground (arith, step, same, other)
    ]

not-prefixed :
    (name k : Text) → has_prefix name (codes "param_") ≡ false → text_eq name (prefixed k) ≡ false
not-prefixed name k plain = elim (Bool-cases (text_eq name (prefixed k))) [
  | inr other ↦ other
  | inl same ↦
      let it : name ≡ prefixed k = (text_eq_iff name (prefixed k)).0 same in
      let starts : has_prefix name (codes "param_") ≡ true =
        ap (λ n. has_prefix n (codes "param_")) it ∙ has_prefix-append (codes "param_") k in
      absurd (ground (arith, starts, plain))
]

-- Names that are no parameters of the query.
lookup-set_parameters_other :
    (name : Text) (parameters query : Dict Text)
    → has_prefix name (codes "param_") ≡ false
    → lookup name (set_parameters parameters query) ≡ lookup name query
unfolding set_parameters
lookup-set_parameters_other name [] query plain = refl
lookup-set_parameters_other name ((k, v) ∷ parameters) query plain =
    let differs : text_eq name (prefixed k) ≡ false = not-prefixed name k plain in
    lookup-set_parameters_other name parameters (insert (prefixed k) v query) plain
    ∙ lookup-insert name (prefixed k) v query
    ∙ ground (arith, differs)

-- The test of `newClickHouseHTTPClient`.
abbrev pub is_proper : Url → Bool
is_proper url =
    (text_eq url.scheme (codes "http") || text_eq url.scheme (codes "https"))
    && not (text_eq url.host [])

module _ (parse_url : Text → Option Url) (format_url : Url → Text) where
  -- A URL that was read, is one of HTTP and has a host is still read after another query is written
  -- into it: with its scheme, its host and the values of that query.
  abbrev pub IsFaithful : Type 0
  IsFaithful =
      (t : Text) (u : Url) (query : Dict Text)
      → parse_url t ≡ some u
      → is_proper u ≡ true
      → (v : Url) × (parse_url (format_url (record u { query = query })) ≡ some v)
        × (v.scheme ≡ u.scheme)
        × (v.host ≡ u.host)
        × ((name : Text) → lookup name v.query ≡ lookup name query)

  -- The request has the query as its body, and in its URL the value of one parameter, and the database.
  abbrev pub Carries : Text → Text → Text → Text → HttpQuery → Type 0
  Carries query name value database request =
      (request.body ≡ query)
      × ((url : Url) × (parse_url request.url ≡ some url)
          × (lookup (codes "param_" ++ name) url.query ≡ some value)
          × (lookup (codes "database") url.query ≡ some database))

  client-endpoint :
      (endpoint user password database : Text) (client : ClickHouseClient)
      → new_click_house_client parse_url format_url endpoint user password database ≡ success client
      → (url : Url) × (parse_url endpoint ≡ some url)
        × (is_proper url ≡ true)
        × (client.endpoint
            ≡ format_url (record url { query = insert (codes "database") database url.query }))
  unfolding new_click_house_client
  client-endpoint endpoint user password database client h =
      let (url, read, h1) =
        need-success (codes "invalid ClickHouse HTTP URL") (parse_url endpoint) _ client h in
      let (proper, h2) = ensure-success (codes "invalid ClickHouse HTTP URL") _ _ client h1 in
      (
        url,
        read,
        proper,
        sym (ap (λ (c : ClickHouseClient). c.endpoint) (success-injective _ client h2)),
      )

  request_made :
      (client : ClickHouseClient) (query : Text) (parameters : Dict Text) (url checked : Url)
      → parse_url client.endpoint ≡ some url
      → parse_url (format_url (record url { query = set_parameters parameters url.query }))
        ≡ some checked
      → query_request parse_url format_url client query parameters
        ≡ success (record {
          url = format_url (record url { query = set_parameters parameters url.query });
          content_type = codes "text/plain; charset=utf-8";
          body = query;
          user = client.user;
          password = client.password;
        })
  unfolding query_request
  request_made client query parameters url checked read again = ground arith

  -- If net/url still reads a URL of HTTP into which a query was written, a client that was made for a database builds a request for each
  -- query, which has the text of the query as its body and in its URL each parameter under its name
  -- with `param_` before it, and still the database.
  pub query_request-Carries :
      (endpoint user password database query name value : Text) (client : ClickHouseClient)
      (parameters : Dict Text)
      → IsFaithful
      → new_click_house_client parse_url format_url endpoint user password database ≡ success client
      → HasUniqueKeys parameters
      → lookup name parameters ≡ some value
      → (request : HttpQuery) × (query_request parse_url format_url client query parameters
          ≡ success request)
        × Carries query name value database request
  query_request-Carries endpoint user password database query name value client parameters faithful
        made unique given =
      let (base, based, proper, same) =
        client-endpoint endpoint user password database client made in
      let (url, read, scheme, host, kept) =
        faithful endpoint base (insert (codes "database") database base.query) based proper in
      let proper_yet : is_proper url ≡ true =
        ap
          (λ t.
            (text_eq t (codes "http") || text_eq t (codes "https")) && not (text_eq url.host []))
          scheme
        ∙ ap
            (λ t.
              (text_eq base.scheme (codes "http") || text_eq base.scheme (codes "https"))
              && not (text_eq t []))
            host
        ∙ proper in
      let found : parse_url client.endpoint ≡ some url = ap parse_url same ∙ read in
      let (again, reread, scheme_yet, host_yet, still) =
        faithful client.endpoint url (set_parameters parameters url.query) found proper_yet in
      (
        _,
        request_made client query parameters url again found reread,
        (
          refl,
          (
            again,
            reread,
            still (codes "param_" ++ name)
                ∙ lookup-set_parameters name parameters url.query unique
                ∙ ap (λ o. or_else o (lookup (prefixed name) url.query)) given,
            still (codes "database")
                ∙ lookup-set_parameters_other (codes "database") parameters url.query
                    (unfold has_prefix codes in refl)
                ∙ kept (codes "database")
                ∙ lookup-insert_self (codes "database") database base.query,
          ),
        ),
      )
