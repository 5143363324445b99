-- ===== src/Loadgen/Accounts.antt =====
-- `register_user` of loadtest/helpers.py against the backend.
use railbook.Base.{ℕ, ◌+◌, ◌≡◌, refl, ap, ◌∙◌, String, true, Option, none, some}
use railbook.Base.Outcome.{Error, Result, ok, err}
use railbook.Models.{Train, Schedule, Db}
use railbook.Auth
use railbook.Auth.{Bcrypt, Jwt, TokenResponse, tokens_of, email_registered}
use railbook.Auth.Accounts.{register-Registered, register-taken, login-register}
use railbook.Ratelimit
use railbook.Ratelimit.{passes, run_guard}
use railbook.Redis.{Redis, Json}
use railbook.Redis.SortedSets
use railbook.System.{commit_or}
use railbook.Trains.{SeatAvailability, OrderBy}
use railbook.Bookings.Queries.{NewestFirst}
use railbook.Trains.Lists.{Ordering}
use railbook.Api.{
  post_register, post_login, by_client, signed_in, Backend, tokens_in, account_handler, handle,
}
use railbook.Loadgen.{go_on, Service, register_user}
use railbook.Loadgen.Backends.{Moment, Running, backend_service}
use railbook.Loadgen.Booked.{behind-passes}

module _ (bcrypt : Bcrypt) (jwt : Jwt) (no_credentials : Error) (R : Redis)
    (json : Json SeatAvailability) (server : SortedSets.Server) (by_seat : OrderBy)
    (by_name : Ordering Train) (by_departure : Ordering Schedule) (newest : NewestFirst)
    (client : Option String) (moments : ℕ → Moment) where
  abbrev State : Type 0
  State =
      Running bcrypt jwt no_credentials R json server by_seat by_name by_departure newest client
        moments

  abbrev service : Service
  service =
      backend_service bcrypt jwt no_credentials R json server by_seat by_name by_departure newest
        client moments

  -- The rate limit for accounts, at the moment of a request.
  abbrev LetThrough : (n : ℕ) → Option server.State → Type 0
  LetThrough n limiter =
      passes (run_guard server (Ratelimit.auth client) (moments n).now limiter).0 ≡ true

  abbrev limiter_after : (n : ℕ) → Option server.State → Option server.State
  limiter_after n limiter = (run_guard server (Ratelimit.auth client) (moments n).now limiter).1

  -- `register` with the data that the helper sends.
  abbrev pub registered : (email : String) (n : ℕ) → Db → Result (TokenResponse jwt × Db)
  registered email n db =
      Auth.register bcrypt jwt email "loadtest123" "Load Tester" none (moments n).salt
        (moments n).env db

  module _ (email : String) where
    register_handled :
        (n : ℕ) (b : Backend R server) (result : Result (TokenResponse jwt × Db))
        → LetThrough n b.limiter
        → registered email n b.world.db ≡ result
        → handle bcrypt jwt no_credentials R json server
            (by_client client (moments n).now (
              post_register email "loadtest123" "Load Tester" none
                (moments n).salt
                (moments n).env))
            b
          ≡ (
            signed_in (tokens_in bcrypt jwt no_credentials R json server result),
            record b {
              world = record b.world { db = commit_or result b.world.db };
              limiter = limiter_after n b.limiter;
            },
          )
    unfolding handle account_handler
    register_handled n b result through made =
        behind-passes bcrypt jwt no_credentials R json server (Ratelimit.auth client)
          (moments n).now
          (account_handler bcrypt jwt no_credentials R json server
            (post_register email "loadtest123" "Load Tester" none (moments n).salt (moments n).env)
            (moments n).now)
          b through
        ∙ rw made refl

    login_handled :
        (n : ℕ) (b : Backend R server) (tokens : TokenResponse jwt)
        → LetThrough n b.limiter
        → Auth.login bcrypt jwt email "loadtest123" (moments n).env b.world.db ≡ ok tokens
        → handle bcrypt jwt no_credentials R json server
            (by_client client (moments n).now (post_login email "loadtest123" (moments n).env))
            b
          ≡ (signed_in (ok tokens), record b { limiter = limiter_after n b.limiter })
    unfolding handle account_handler
    login_handled n b tokens through known =
        behind-passes bcrypt jwt no_credentials R json server (Ratelimit.auth client)
          (moments n).now
          (account_handler bcrypt jwt no_credentials R json server
            (post_login email "loadtest123" (moments n).env) (moments n).now)
          b through
        ∙ rw known refl

    -- A new email: the registration's token.
    first_call :
        (s : State) (r : TokenResponse jwt × Db)
        → LetThrough s.requests s.backend.limiter
        → registered email s.requests s.backend.world.db ≡ ok r
        → register_user service email s ≡ (
          some (email, r.0.access_token),
          record {
            backend = record s.backend {
              world = record s.backend.world { db = r.1 };
              limiter = limiter_after s.requests s.backend.limiter;
            };
            requests = s.requests + 1;
          },
        )
    unfolding register_user go_on
    first_call s r through made =
        rw (register_handled s.requests s.backend (ok r) through made) refl

    -- An email that is taken: the token of the login.
    later_call :
        (s : State) (tokens : TokenResponse jwt)
        → LetThrough s.requests s.backend.limiter
        → LetThrough (s.requests + 1) (limiter_after s.requests s.backend.limiter)
        → registered email s.requests s.backend.world.db ≡ err email_registered
        → Auth.login bcrypt jwt email "loadtest123"
            (moments (s.requests + 1)).env
            s.backend.world.db
          ≡ ok tokens
        → (register_user service email s).0 ≡ some (email, tokens.access_token)
    unfolding register_user go_on
    later_call s tokens through again taken known =
        rw
          (
            register_handled s.requests s.backend (err email_registered) through taken,
            login_handled (s.requests + 1)
                (record s.backend { limiter = limiter_after s.requests s.backend.limiter }) tokens
                again known,
          )
          refl

    -- Two calls with one email and the password of the load test, the first of which registers, while
    -- the limit lets the three requests through: both return the email and an access token of the
    -- new user, the second by signing in.
    pub register_user_twice :
        (s : State) (r : TokenResponse jwt × Db)
        → let n = s.requests in
          let limiter₁ = limiter_after n s.backend.limiter in
          let limiter₂ = limiter_after (n + 1) limiter₁ in
          registered email n s.backend.world.db ≡ ok r
          → LetThrough n s.backend.limiter
          → LetThrough (n + 1) limiter₁
          → LetThrough (n + 1 + 1) limiter₂
          → let user_id = (moments n).env.uuid 0 in
            let (first, s₁) = register_user service email s in
            let (second, _) = register_user service email s₁ in
            (first ≡ some (email, (tokens_of jwt user_id (moments n).env).access_token))
            × (second
                ≡ some (email, (tokens_of jwt user_id (moments (n + 1 + 1)).env).access_token))
    register_user_twice s r made through₀ through₁ through₂ =
        let m = moments s.requests in
        let later = moments (s.requests + 1 + 1) in
        let c =
          register-Registered bcrypt jwt email "loadtest123" "Load Tester" none m.salt m.env
            s.backend.world.db made in
        rw (first_call s r through₀ made) (
          ap (λ (x : TokenResponse jwt × Db). some (email, x.0.access_token)) c.result,
          later_call _ (tokens_of jwt (m.env.uuid 0) later.env) through₁ through₂
              (register-taken bcrypt jwt email "loadtest123" "Load Tester" none m.salt m.env
                s.backend.world.db "loadtest123" "Load Tester" none (moments (s.requests + 1)).salt
                (moments (s.requests + 1)).env made)
              (login-register bcrypt jwt email "loadtest123" "Load Tester" none m.salt m.env
                s.backend.world.db later.env made),
        )
