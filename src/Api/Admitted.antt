-- ===== src/Api/Admitted.antt =====
-- The account that cmd/api/main.go makes, at the log-in of cmd/api/api.go.
use centi_log.Base.{
  ℕ, ◌/◌, ◌≤◌, true, false, ◌&&◌, [], ◌∷◌, Option, some, Attempt, success, failure, inl, inr, ◌≡◌,
  ◌≢◌, arith, ap, ◌∙◌, sym, length, leb, if◌then◌else◌, ensure-success, need-success, Attempt-cases,
  need, Bool, ensure, success-injective, ◌>>=◌, ◌>>◌,
}
use centi_log.Api.{
  Instant, login_body, ApiHandler, ApiRequest, LoginRequest, answer, decode_api_json,
}
use centi_log.Api.Login.{login}
use centi_log.Api.Main.{Postgres, open_postgres, create_admin_command, new_admin, admin_result}
use centi_log.Api.Sessions.{login_signed}
use centi_log.Repository.{
  Database, Repository, StoreError, Tables, create_user_of, credentials_by_email_of, find_user,
  postgres_repository,
}
use centi_log.Repository.Creation.{create_user-IsAllOrNothing}
use centi_log.Text.{Text, codes, text_eq}
use centi_log.Text.Equality.{text_eq_refl}
use centi_log.Text.Integers.{pos}
use centi_log.Token.{User, sign_token}

admin_result-success :
    (r : Attempt StoreError User) (account : User)
    → admin_result r ≡ success account
    → r ≡ success account
unfolding admin_result
admin_result-success (success a) account h = ground arith
admin_result-success (failure e) account h = absurd (ground arith)

module _ (hash_password : Text → Option Text) (postgres : Postgres) (db : Database)
    (command email password : Text) (t after : Tables) (account : User) where
  abbrev answered : Text → Attempt Text (Text × Text)
  answered hash =
      ensure (codes "PostgreSQL is unavailable") postgres.answers >> success (email, hash)

  abbrev opened : Text → Attempt Text (Text × Text)
  opened hash = open_postgres postgres >> answered hash

  new_admin-success :
      (made : Text × Text)
      → new_admin hash_password postgres (command ∷ email ∷ password ∷ []) ≡ success made
      → (made.0 ≡ email)
        × (hash_password password ≡ some made.1)
        × (8 ≤ length password)
        × (length password ≤ 72)
  unfolding new_admin
  new_admin-success made h =
      let sizes : Bool = leb 8 (length password) && leb (length password) 72 in
      let hashed : Attempt Text Text =
        need (codes "hash admin password") (hash_password password) in
      let (sized, hashing) =
        ensure-success (codes "admin password must be between 8 and 72 bytes") sizes
          (hashed >>= opened) made h in
      let (hash, found, opening) =
        need-success (codes "hash admin password") (hash_password password) opened made hashing in
      let (is_open, asking) =
        ensure-success (codes "open PostgreSQL") postgres.opens (answered hash) made opening in
      let (reached, same) =
        ensure-success (codes "PostgreSQL is unavailable") postgres.answers (success (email, hash))
          made asking in
      let it = success-injective {E = Text} (email, hash) made same in
      (ap (λ p. p.0) (sym it), found ∙ ap (λ p. some p.1) it, ground arith, ground arith)

  -- The command stores the account under its address, with a hash of the password.
  create_admin_command-find_user :
      create_admin_command hash_password postgres db (command ∷ email ∷ password ∷ []) t
        ≡ (after, success account)
      → (hash : Text) × (hash_password password ≡ some hash)
        × (8 ≤ length password)
        × (length password ≤ 72)
        × (account.role ≡ codes "admin")
        × (find_user email after.users ≡ some (record { account = account; password_hash = hash }))
  unfolding create_admin_command
  create_admin_command-find_user h =
      elim (Attempt-cases (new_admin hash_password postgres (command ∷ email ∷ password ∷ []))) [
        | inr (e, stopped) ↦ absurd (ground arith)
        | inl ((address, hash), made) ↦
            let (same, hashed, long, short) = new_admin-success (address, hash) made in
            let out : Tables × Attempt StoreError User =
              create_user_of db address hash (codes "admin") [] t in
            let told : ◌≡◌ {A = Tables × Attempt Text User} (out.0, admin_result out.1)
                (after, success account) =
              ground arith in
            let stored =
              admin_result-success out.1 account
                (ap (λ (p : Tables × Attempt Text User). p.1) told) in
            elim (create_user-IsAllOrNothing db address hash (codes "admin") [] t email []
              (pos 0)) [
                | inl (e, failed, users, services, grants) ↦ absurd (ground arith)
                | inr (created, succeeded, email_lem, role_lem, services, found, grants) ↦
                    let one =
                      success-injective {E = StoreError} created account (sym succeeded ∙ stored) in
                    (
                      hash,
                      hashed,
                      long,
                      short,
                      ap (λ (u : User). u.role) (sym one) ∙ role_lem,
                      sym (ap (λ (p : Tables × Attempt Text User). find_user email p.0.users) told)
                          ∙ found
                          ∙ ap
                              (λ a.
                                if text_eq a email
                                then some (record { account = created; password_hash = hash })
                                else find_user email t.users)
                              same
                          ∙ ap
                              (λ b.
                                if b
                                then some (record { account = created; password_hash = hash })
                                else find_user email t.users)
                              (text_eq_refl email)
                          ∙ ap (λ (u : User). some (record { account = u; password_hash = hash }))
                              one,
                    )
              ]
      ]

empty_password : (password : Text) → password ≡ [] → 8 ≤ length password → ⊥
empty_password password e long = let none : length password ≡ 0 = ap length e in omega arith

module _ (handler : ApiHandler Tables) (later : Database) (instant : Instant) (r : ApiRequest)
    (postgres : Postgres) (db : Database) (command : Text) (t after : Tables) (account : User) where
  credentials-found :
      (email hash : Text)
      → handler.repository ≡ postgres_repository later
      → later.query_fails ≡ false
      → later.scan_fails ≡ false
      → find_user email after.users ≡ some (record { account = account; password_hash = hash })
      → handler.repository.credentials_by_email email after
        ≡ success (record { account = account; password_hash = hash })
  unfolding credentials_by_email_of
  credentials-found email hash stored asked read found =
      ap (λ (p : Repository Tables). p.credentials_by_email email after) stored
      ∙ ground (arith, asked, read, found)

  -- Where `create-admin` reports that it made an account, under an address that is not empty, a log-in
  -- with the same address and password, at a server on the same tables, is answered with a token of
  -- this account, and the role in it is that of an administrator; if a password matches its hash, the
  -- query is answered and the token can be signed.
  pub create_admin_command-login :
      (request : LoginRequest) (token : Text) (until : ℕ)
      → create_admin_command handler.platform.hash_password postgres db
          (command ∷ request.email ∷ request.password ∷ [])
          t
        ≡ (after, success account)
      → request.email ≢ []
      → handler.repository ≡ postgres_repository later
      → later.query_fails ≡ false
      → later.scan_fails ≡ false
      → ((hash : Text)
          → handler.platform.hash_password request.password ≡ some hash
          → handler.platform.matches_hash hash request.password ≡ true)
      → decode_api_json handler.platform.decode_login r.body ≡ success request
      → sign_token handler.platform.codec handler.secret (instant.now_ms / 1000) account
        ≡ success (token, until)
      → (login handler instant r after ≡ success (answer 200 (login_body token until)))
        × (account.role ≡ codes "admin")
  create_admin_command-login request token until made address stored asked read matches sent
        signed_token =
      let (hash, hashed, long, short, role, found) =
        create_admin_command-find_user handler.platform.hash_password postgres db command
          request.email request.password t after account made in
      (
        login_signed handler instant instant r r after request
            (record { account = account; password_hash = hash }) token until sent address
            (λ e. empty_password request.password e long) short
            (credentials-found request.email hash stored asked read found) (matches hash hashed)
            signed_token,
        role,
      )
