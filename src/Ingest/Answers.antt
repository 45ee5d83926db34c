-- ===== src/Ingest/Answers.antt =====
-- The answers of the handler of `/v1/logs`, on each of its ways.
use mathlib.Core.Path.{subst}
use centi_log.Base.{
  ℕ, [], ◌∷◌, ◌≡◌, none, some, inl, inr, All, Bool-cases, List, Option, Option-cases, ap, arith,
  length, ltb, refl, sym, true, ◌+◌, ◌∙◌, ◌≢◌, ◌≤◌, false, ◌⊎◌,
}
use centi_log.Dict.{Dict, lookup}
use centi_log.Ingest.{
  ServiceIdentity, Queue, Request, Response, accept_body, enqueue, logs, max_batch_size,
  read_request_body, serialize_all, refuse, max_stream_entries, retry_after_seconds, status_text,
}
use centi_log.Ingest.Stamped.{IsQueued, serialize_all-facts}
use centi_log.Schema.{Log}
use centi_log.Text.{Text, Unicode, trim_space, codes}

enqueue-queued :
    (q : Queue) (texts : List Text) (rejected : ℕ) → (enqueue q texts rejected).1 ≡ texts
unfolding enqueue
enqueue-queued q [] rejected = refl
enqueue-queued q (text ∷ texts) rejected = refl

enqueue-accepted :
    (q : Queue) (texts : List Text) (rejected : ℕ)
    → (enqueue q texts rejected).0.status ≡ 202
    → ((enqueue q texts rejected).0.accepted ≡ length texts)
      × ((enqueue q texts rejected).0.rejected ≡ rejected)
unfolding enqueue
enqueue-accepted q [] rejected h = (refl, refl)
enqueue-accepted q (text ∷ texts) rejected h = ground arith

some-injective : (x y : ServiceIdentity) → some x ≡ some y → x ≡ y
some-injective x y h = cc

module _ (u : Unicode) (now : ℕ) {Raw : Type 0} (decode_array : Text → Option (List Raw))
    (decode : Raw → Option Log) (encode : Log → Option Text) where
  -- What a body that is accepted was.
  abbrev pub Counted : Text → Response × List Text → Type 0
  Counted body out =
      (raws : List Raw) × (decode_array body ≡ some raws)
      × (length raws ≤ max_batch_size)
      × (out.0.accepted + out.0.rejected ≡ length raws)
      × (out.0.accepted ≡ length out.1)

  module _ (q : Queue) (identity : ServiceIdentity) (body : Text) where
    abbrev accepting : Response × List Text
    accepting = accept_body u now decode_array decode encode q identity body

    accept_unread :
        decode_array body ≡ none
        → accepting ≡ (refuse 400 (codes "request body must be a JSON array of logs"), [])
    unfolding accept_body
    accept_unread unread = ground arith

    accept_long :
        (raws : List Raw)
        → decode_array body ≡ some raws
        → ltb max_batch_size (length raws) ≡ true
        → accepting ≡ (refuse 413 (codes "batch exceeds 10000 logs"), [])
    unfolding accept_body
    accept_long raws read long = ground arith

    accept_short :
        (raws : List Raw)
        → decode_array body ≡ some raws
        → ltb max_batch_size (length raws) ≡ false
        → let made = serialize_all u identity now decode encode raws in
          accepting ≡ enqueue q made.0 made.1
    unfolding accept_body
    accept_short raws read short = ground arith

    -- A statement about the answer to a body.
    accept_cases :
        (P : Response × List Text → Type 0)
        → ((status : ℕ) (error : Text) → status ≢ 202 → P (refuse status error, []))
        → ((raws : List Raw)
            → decode_array body ≡ some raws
            → length raws ≤ max_batch_size
            → let made = serialize_all u identity now decode encode raws in
              P (enqueue q made.0 made.1))
        → P accepting
    accept_cases P refused taken = elim (Option-cases (decode_array body)) [
      | inl unread ↦ rw (accept_unread unread) (refused 400 _ (ground arith))
      | inr (raws, read) ↦ elim (Bool-cases (ltb max_batch_size (length raws))) [
        | inl long ↦ rw (accept_long raws read long) (refused 413 _ (ground arith))
        | inr short ↦ rw (accept_short raws read short) (taken raws read (ground arith))
      ]
    ]

    body-IsQueued : All (IsQueued u identity now decode encode) accepting.1
    body-IsQueued =
        accept_cases (λ out. All (IsQueued u identity now decode encode) out.1)
          (λ status error other. tt)
          (λ raws read short.
            let made = serialize_all u identity now decode encode raws in
            let (queued, count) = serialize_all-facts u identity now decode encode raws in
            rw (enqueue-queued q made.0 made.1) queued)

    body-Counted : accepting.0.status ≡ 202 → Counted body accepting
    body-Counted =
        accept_cases (λ out. out.0.status ≡ 202 → Counted body out)
          (λ status error other h. absurd (other h))
          (λ raws read short h.
            let made = serialize_all u identity now decode encode raws in
            let (queued, count) = serialize_all-facts u identity now decode encode raws in
            let (taken, left) = enqueue-accepted q made.0 made.1 h in
            let all = enqueue-queued q made.0 made.1 in
            (raws, read, short, omega arith, taken ∙ ap length (sym all)))

  module _ (api_keys : Dict ServiceIdentity) (q : Queue) (r : Request) where
    abbrev handled : Response × List Text
    handled = logs u now decode_array decode encode api_keys q r

    body_status : (status : ℕ) → read_request_body u r ≡ inr status → status ≢ 202
    unfolding read_request_body
    body_status status h = ground arith

    logs_get : r.is_post ≡ false → handled ≡ (refuse 405 (codes "method not allowed"), [])
    unfolding logs
    logs_get h = ground arith

    logs_unknown :
        r.is_post ≡ true
        → lookup (trim_space r.api_key) api_keys ≡ none
        → handled ≡ (refuse 401 (codes "invalid API key"), [])
    unfolding logs
    logs_unknown post h = ground arith

    logs_down :
        (identity : ServiceIdentity)
        → r.is_post ≡ true
        → lookup (trim_space r.api_key) api_keys ≡ some identity
        → q.size ≡ none
        → handled ≡ (refuse 503 (codes "queue unavailable"), [])
    unfolding logs
    logs_down identity post known h = ground arith

    abbrev full_answer : Response
    full_answer = record (refuse 429 (codes "ingest queue is full")) {
      retry_after = retry_after_seconds;
    }

    logs_full :
        (identity : ServiceIdentity) (size : ℕ)
        → r.is_post ≡ true
        → lookup (trim_space r.api_key) api_keys ≡ some identity
        → q.size ≡ some size
        → ltb max_stream_entries size ≡ true
        → handled ≡ (full_answer, [])
    unfolding logs
    logs_full identity size post known sized full = ground arith

    -- What is decided by the body.
    abbrev with_body : ServiceIdentity → Text ⊎ ℕ → Response × List Text
    with_body identity (inr status) = (refuse status (status_text status), [])
    with_body identity (inl body) = accept_body u now decode_array decode encode q identity body

    logs_read :
        (identity : ServiceIdentity) (size : ℕ)
        → r.is_post ≡ true
        → lookup (trim_space r.api_key) api_keys ≡ some identity
        → q.size ≡ some size
        → ltb max_stream_entries size ≡ false
        → handled ≡ with_body identity (read_request_body u r)
    unfolding logs
    logs_read identity size post known sized room = ground arith

    -- The ways of `logs`: refused before the body is taken, or decided by it.
    abbrev Ways : Type 0
    Ways =
        ((response : Response) × (response.status ≢ 202) × (handled ≡ (response, [])))
        ⊎ ((identity : ServiceIdentity) × (body : Text) × (r.is_post ≡ true)
            × (lookup (trim_space r.api_key) api_keys ≡ some identity)
            × (read_request_body u r ≡ inl body)
            × (handled ≡ accept_body u now decode_array decode encode q identity body))

    read_cases : (e : Text ⊎ ℕ) → ((b : Text) × (e ≡ inl b)) ⊎ ((n : ℕ) × (e ≡ inr n))
    read_cases (inl b) = inl (b, refl)
    read_cases (inr n) = inr (n, refl)

    logs_cases : Ways
    logs_cases = elim (Bool-cases r.is_post) [
      | inr other ↦ inl (refuse 405 (codes "method not allowed"), ground arith, logs_get other)
      | inl post ↦ elim (Option-cases (lookup (trim_space r.api_key) api_keys)) [
        | inl unknown ↦
            inl (refuse 401 (codes "invalid API key"), ground arith, logs_unknown post unknown)
        | inr (identity, known) ↦ elim (Option-cases q.size) [
          | inl down ↦ inl (
            refuse 503 (codes "queue unavailable"),
            ground arith,
            logs_down identity post known down,
          )
          | inr (size, sized) ↦ elim (Bool-cases (ltb max_stream_entries size)) [
            | inl full ↦
                inl (full_answer, ground arith, logs_full identity size post known sized full)
            | inr room ↦
                let step = logs_read identity size post known sized room in
                elim (read_cases (read_request_body u r)) [
                  | inl (body, read) ↦
                      inr (identity, body, post, known, read, step ∙ ap (with_body identity) read)
                  | inr (status, read) ↦ inl (
                    refuse status (status_text status),
                    body_status status read,
                    step ∙ ap (with_body identity) read,
                  )
                ]
          ]
        ]
      ]
    ]

  -- Whatever is handed to the queue for a request with the key of a service is the encoding of a
  -- record of that service with its retention, with one of the six levels, and with nothing but an
  -- empty value or the mask under a sensitive key, whatever the request itself says.
  pub logs-IsQueued :
      (api_keys : Dict ServiceIdentity) (q : Queue) (r : Request) (identity : ServiceIdentity)
      → lookup (trim_space r.api_key) api_keys ≡ some identity
      → All
          (IsQueued u identity now decode encode)
          (logs u now decode_array decode encode api_keys q r).1
  logs-IsQueued api_keys q r identity known = elim (logs_cases api_keys q r) [
    | inl (response, other, same) ↦ rw same tt
    | inr (identity', body, post, known', read, same) ↦
        let one : identity' ≡ identity = some-injective identity' identity (sym known' ∙ known) in
        rw same (
          subst
            (λ i.
              All (IsQueued u identity now decode encode)
                (accept_body u now decode_array decode encode q i body).1)
            (sym one) (body-IsQueued q identity body))
  ]

  -- A request is answered with 202 only if it is a POST with a known key whose body is an array of at
  -- most ten thousand records. Then the counts of accepted and rejected records add up to their
  -- number, and the accepted ones are as many as were handed to the queue.
  pub logs-accepted :
      (api_keys : Dict ServiceIdentity) (q : Queue) (r : Request)
      → (logs u now decode_array decode encode api_keys q r).0.status ≡ 202
      → (identity : ServiceIdentity) × (body : Text) × (r.is_post ≡ true)
        × (lookup (trim_space r.api_key) api_keys ≡ some identity)
        × (read_request_body u r ≡ inl body)
        × Counted body (logs u now decode_array decode encode api_keys q r)
  logs-accepted api_keys q r h = elim (logs_cases api_keys q r) [
    | inl (response, other, same) ↦ absurd (other (sym (ap (λ o. o.0.status) same) ∙ h))
    | inr (identity, body, post, known, read, same) ↦ (
      identity,
      body,
      post,
      known,
      read,
      subst (Counted body) (sym same)
          (body-Counted q identity body (sym (ap (λ o. o.0.status) same) ∙ h)),
    )
  ]
