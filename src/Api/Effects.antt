-- ===== src/Api/Effects.antt =====
-- What requests to the guarded routes do to the backend.
use railbook.Base.{◌≡◌, refl, ◌∙◌, ap, true, false, Bool, map, none, some, Option, List, [], ◌∷◌, ℕ}
use railbook.Base.Outcome.{Error, Result, ok, err}
use railbook.Models.{User}
use railbook.Auth.{Bcrypt, Jwt}
use railbook.Ratelimit
use railbook.Ratelimit.{Verdict, pass, too_many, passes, Guard, run_guard}
use railbook.Redis.{Redis, Json}
use railbook.Redis.SortedSets.{Server}
use railbook.System
use railbook.System.{World, Request, serve, run}
use railbook.Trains.{SeatAvailability}
use railbook.Api.{
  UserCall, post_booking, post_pay, post_refund, AccountCall, post_register, post_login,
  post_refresh, Call, by_user, by_client, Reply, handled, signed_in, refused, limited, Backend,
  user_of, limit_for, behind, as_user, user_handler, account_handler, handle, run_calls,
}
use railbook.Api.Permits.{user_request, user_handler-request}

module _ (bcrypt : Bcrypt) (jwt : Jwt) (no_credentials : Error) (R : Redis)
    (json : Json SeatAvailability) (server : Server) where
  -- What is asked of the backend by a request: whether it reaches its handler, what the handler is to
  -- change, if anything, and the limiter after it. A request without a user's token does not reach
  -- the limiter.
  pub record Asked : Type 0 where
    pub let_in : Bool
    pub change : Option Request
    pub limiter : Option server.State

  abbrev pub account_request : AccountCall jwt → Option Request
  account_request (post_register email password full_name phone salt env) =
      some (System.register email password full_name phone salt env)
  account_request (post_login email password env) = none
  account_request (post_refresh token env) = none

  abbrev pub asked_within : Verdict × Option server.State → Option Request → Asked
  asked_within (pass _, limiter) q = record { let_in = true; change = q; limiter = limiter }
  asked_within (too_many _ _, limiter) q = record {
    let_in = false;
    change = none;
    limiter = limiter;
  }

  abbrev pub asked_by : Result User → UserCall → (now : ℕ) → Option server.State → Asked
  asked_by (err _) c now limiter = record { let_in = false; change = none; limiter = limiter }
  asked_by (ok user) c now limiter =
      asked_within (run_guard server (limit_for c user.id) now limiter)
        (some (user_request bcrypt jwt no_credentials R json server c user.id))

  abbrev pub ask : Call jwt → World → Option server.State → Asked
  ask (by_user token now c) w limiter =
      asked_by (user_of bcrypt jwt no_credentials token now w.db) c now limiter
  ask (by_client client now c) w limiter =
      asked_within (run_guard server (Ratelimit.auth client) now limiter) (account_request c)

  -- The backend without routes: each change that is asked for is made, and nothing else is.
  abbrev pub serve_asked : Option Request → World → World
  serve_asked none w = w
  serve_asked (some q) w = serve bcrypt jwt q w

  -- Which requests of a sequence reach their handlers, and the changes that these ask for, in order.
  unfoldable pub asked_in : List (Call jwt) → World → Option server.State → List Bool × List Request
  asked_in [] w limiter = ([], [])
  asked_in (c ∷ cs) w limiter =
      let a = ask c w limiter in
      let (reached, qs) = asked_in cs (serve_asked a.change w) a.limiter in
      (a.let_in ∷ reached, elim a.change [ none ↦ qs | some q ↦ q ∷ qs ])

  -- Whether a reply is that of a handler.
  abbrev pub is_handled : Reply jwt → Bool
  is_handled (handled _) = true
  is_handled (signed_in _) = true
  is_handled (refused _) = false
  is_handled (limited _ _) = false

  -- What a request comes to is what is asked.
  abbrev Serves : Asked → Backend R server → Reply jwt × Backend R server → Type 0
  Serves a b (reply, b') =
      (is_handled reply ≡ a.let_in)
      × (b'.world ≡ serve_asked a.change b.world)
      × (b'.limiter ≡ a.limiter)

  behind-Serves :
      (g : Guard) (now : ℕ) (q : Option Request)
      (handler : Backend R server → Reply jwt × Backend R server) (b : Backend R server)
      → ((limiter : Option server.State)
          → let b' : Backend R server = record b { limiter = limiter } in
            (is_handled (handler b').0 ≡ true)
            × ((handler b').1.world ≡ serve_asked q b.world)
            × ((handler b').1.limiter ≡ limiter))
      → Serves
          (asked_within (run_guard server g now b.limiter) q)
          b
          (behind bcrypt jwt no_credentials R json server g now handler b)
  behind-Serves g now q handler b serves =
      go (run_guard server g now b.limiter).0 (run_guard server g now b.limiter).1
    where
      go :
          (v : Verdict) (limiter : Option server.State)
          → Serves (asked_within (v, limiter) q) b (elim v as (λ _. Reply jwt × Backend R server) [
            | pass headers ↦ handler (record b { limiter = limiter })
            | too_many text headers ↦ (limited text headers, record b { limiter = limiter })
          ])
      go (pass headers) limiter = serves limiter
      go (too_many text headers) limiter = (refl, refl, refl)

  user_handler-Serves :
      (c : UserCall) (user_id : ℕ) (b : Backend R server)
      → (is_handled (user_handler bcrypt jwt no_credentials R json server c user_id b).0 ≡ true)
        × ((user_handler bcrypt jwt no_credentials R json server c user_id b).1.limiter ≡ b.limiter)
  unfolding user_handler
  user_handler-Serves (post_booking schedule_id seat_id key env) user_id b = (refl, refl)
  user_handler-Serves (post_pay booking_id key draw hex env) user_id b = (refl, refl)
  user_handler-Serves (post_refund booking_id hex env) user_id b = (refl, refl)

  account_handler-Serves :
      (c : AccountCall jwt) (now : ℕ) (b : Backend R server)
      → let r = account_handler bcrypt jwt no_credentials R json server c now b in
        (is_handled r.0 ≡ true)
        × (r.1.world ≡ serve_asked (account_request c) b.world)
        × (r.1.limiter ≡ b.limiter)
  unfolding account_handler serve
  account_handler-Serves (post_register email password full_name phone salt env) now b =
      (refl, refl, refl)
  account_handler-Serves (post_login email password env) now b = (refl, refl, refl)
  account_handler-Serves (post_refresh token env) now b = (refl, refl, refl)

  handle-Serves :
      (c : Call jwt) (b : Backend R server)
      → Serves (ask c b.world b.limiter) b (handle bcrypt jwt no_credentials R json server c b)
  unfolding handle
  handle-Serves (by_user token now c) b =
      go (user_of bcrypt jwt no_credentials token now b.world.db)
    where
      go :
          (result : Result User)
          → Serves (asked_by result c now b.limiter) b (
              as_user bcrypt jwt no_credentials R json server result
                (λ user.
                  behind bcrypt jwt no_credentials R json server
                    (limit_for c user.id)
                    now
                    (user_handler bcrypt jwt no_credentials R json server c user.id))
                b)
      go (err e) = (refl, refl, refl)
      go (ok user) =
          behind-Serves (limit_for c user.id) now
            (some (user_request bcrypt jwt no_credentials R json server c user.id))
            (user_handler bcrypt jwt no_credentials R json server c user.id) b
            (λ limiter.
              let b' : Backend R server = record b { limiter = limiter } in
              let (is, same) = user_handler-Serves c user.id b' in
              (is, user_handler-request bcrypt jwt no_credentials R json server c user.id b', same))
  handle-Serves (by_client client now c) b =
      behind-Serves (Ratelimit.auth client) now (account_request c)
        (account_handler bcrypt jwt no_credentials R json server c now) b
        (λ limiter. account_handler-Serves c now (record b { limiter = limiter }))

  run_asked :
      (q : Option Request) (qs : List Request) (w : World)
      → run bcrypt jwt qs (serve_asked q w)
        ≡ run bcrypt jwt (elim q [ none ↦ qs | some r ↦ r ∷ qs ]) w
  unfolding run
  run_asked none qs w = refl
  run_asked (some q) qs w = refl

  -- The guarded routes implement the backend as one sequence of requests. Whatever requests come, with
  -- tokens or without and however many: exactly those are handled that have a user's token, where
  -- one is needed, and that the limit lets through, and the database and the gateway end as after
  -- the changes that these ask for, all of them, in their order, each as one of its token's user.
  pub run_calls_refines :
      (cs : List (Call jwt)) (b : Backend R server)
      → let (replies, b') = run_calls bcrypt jwt no_credentials R json server cs b in
        let (reached, qs) = asked_in cs b.world b.limiter in
        (map is_handled replies ≡ reached) × (b'.world ≡ run bcrypt jwt qs b.world)
  unfolding run_calls asked_in run
  run_calls_refines [] b = (refl, refl)
  run_calls_refines (c ∷ cs) b =
      let b₁ = (handle bcrypt jwt no_credentials R json server c b).1 in
      let (is, world, limiter) = handle-Serves c b in
      let (rest, ended) = run_calls_refines cs b₁ in
      let a = ask c b.world b.limiter in
      let qs = (asked_in cs (serve_asked a.change b.world) a.limiter).1 in
      let moved =
        ap (λ w. asked_in cs w b₁.limiter) world
        ∙ ap (asked_in cs (serve_asked a.change b.world)) limiter in
      (
        ap (λ x. x ∷ map is_handled (run_calls bcrypt jwt no_credentials R json server cs b₁).0) is
            ∙ ap (λ xs. a.let_in ∷ xs) (rest ∙ ap (λ x. x.0) moved),
        ended
            ∙ ap (λ x. run bcrypt jwt x.1 b₁.world) moved
            ∙ ap (run bcrypt jwt qs) world
            ∙ run_asked a.change qs b.world,
      )
