-- ===== src/Auth/Accounts.antt =====
-- Accounts: registration, signing in, and what they leave alone.
use railbook.Base.{
  ℕ, ◌+◌, ◌≤◌, ◌≡◌, refl, String, false, Option, none, some, List, [], ◌∷◌, ◌++◌, arith, eq_iff,
  ◌==◌, eq_text, ==_refl,
}
use railbook.Base.Outcome.{ok, err}
use railbook.Base.Rows.{select, any_row}
use railbook.Base.Rows.Selects.{select-append}
use railbook.Models.{User, Db, Env, seconds, minutes}
use railbook.Models.Constraints.{scalar_none}
use railbook.Integrity.{IsValid}
use railbook.Integrity.Growth.{Grows-IsValid}
use railbook.Integrity.Growth.Inserts.{users-Grows}
use railbook.Models.Timetable.{user_clash, insert_user}
use railbook.Auth.{
  Bcrypt, Jwt, TokenResponse, find_email, new_user, register_user, authenticate_user, tokens_of,
  email_registered, get_current_user, me, register, login,
}
use railbook.Auth.Tokens.{access_token_valid}

-- What a registration that is answered has done.
pub record Registered (bcrypt : Bcrypt) (jwt : Jwt) (email password full_name : String)
    (phone : Option String) (salt : ℕ) (env : Env) (db : Db) (r : TokenResponse jwt × Db)
    : Type 0 where
  pub hash : String
  pub hashed : bcrypt.hashpw password salt ≡ some hash
  pub unused : find_email email db ≡ ok none
  pub fresh : any_row (λ x. user_clash x (new_user email hash full_name phone env)) db.users ≡ false
  pub result : r ≡ (
    tokens_of jwt (env.uuid 0) env,
    record db { users = db.users ++ new_user email hash full_name phone env ∷ [] },
  )

module _ (bcrypt : Bcrypt) (jwt : Jwt) (email password full_name : String) (phone : Option String)
    (salt : ℕ) (env : Env) (db : Db) where
  pub register-Registered :
      {r : TokenResponse jwt × Db}
      → register bcrypt jwt email password full_name phone salt env db ≡ ok r
      → Registered bcrypt jwt email password full_name phone salt env db r
  unfolding register register_user insert_user
  register-Registered h = ground arith

  -- A password that the hash function refuses is answered, for an email that nobody has, with
  -- "Email already registered".
  pub refused_password :
      find_email email db ≡ ok none
      → bcrypt.hashpw password salt ≡ none
      → register bcrypt jwt email password full_name phone salt env db ≡ err email_registered
  unfolding register register_user
  refused_password unused refused = ground arith

  -- After a registration that was answered, signing in with the email and the password is answered
  -- with tokens of the new user.
  pub login-register :
      {r : TokenResponse jwt × Db} (env' : Env)
      → register bcrypt jwt email password full_name phone salt env db ≡ ok r
      → login bcrypt jwt email password env' r.1 ≡ ok (tokens_of jwt (env.uuid 0) env')
  unfolding login authenticate_user
  login-register env' h =
      let c = register-Registered h in
      rw c.result (
        ground (
          arith,
          (eq_iff email email).1 refl,
          scalar_none _ c.unused,
          select-append (λ (u : User). eq_text u.email email) db.users
              (new_user email c.hash full_name phone env),
          bcrypt.checkpw-hashpw password salt c.hashed,
        ))

  -- The email of a registration is taken.
  pub register-taken :
      {r : TokenResponse jwt × Db} (password' full_name' : String) (phone' : Option String)
      (salt' : ℕ) (env' : Env)
      → register bcrypt jwt email password full_name phone salt env db ≡ ok r
      → register bcrypt jwt email password' full_name' phone' salt' env' r.1 ≡ err email_registered
  unfolding register register_user
  register-taken password' full_name' phone' salt' env' h =
      let c = register-Registered h in
      rw c.result (
        ground (
          arith,
          (eq_iff email email).1 refl,
          scalar_none _ c.unused,
          select-append (λ (u : User). eq_text u.email email) db.users
              (new_user email c.hash full_name phone env),
        ))

  only_new :
      (hash : String) (xs : List User)
      → any_row (λ x. user_clash x (new_user email hash full_name phone env)) xs ≡ false
      → let u = new_user email hash full_name phone env in
        select (λ x. x.id == u.id) (xs ++ u ∷ []) ≡ u ∷ []
  only_new hash [] fresh = ground (arith, ==_refl (env.uuid 0))
  only_new hash (x ∷ xs) fresh = ground (arith, only_new hash xs)

  -- The access token of a registration signs the new user in, as an ordinary user, for the fifteen
  -- minutes that it is valid.
  pub get_current_user-register :
      {r : TokenResponse jwt × Db} (now : ℕ)
      → register bcrypt jwt email password full_name phone salt env db ≡ ok r
      → env.clock 1 ≤ now
      → now + seconds 1 ≤ env.clock 0 + minutes 15
      → (u : User) × (get_current_user jwt now r.0.access_token r.1 ≡ ok u)
        × (u.email ≡ email)
        × (u.role ≡ "user")
  get_current_user-register now h started running =
      let c = register-Registered h in
      let u = new_user email c.hash full_name phone env in
      rw c.result (
        u,
        access_token_valid jwt (record db { users = db.users ++ u ∷ [] }) u (env.clock 0)
            (env.clock 1) now (only_new c.hash db.users c.fresh) started running,
        refl,
        refl,
      )

  -- With the access token of a registration, `/auth/me` answers for the fifteen minutes that the token
  -- is valid with the data that were registered, a new id, the role of an ordinary user and the time
  -- of the registration.
  pub me-register :
      {r : TokenResponse jwt × Db} (now : ℕ)
      → register bcrypt jwt email password full_name phone salt env db ≡ ok r
      → env.clock 1 ≤ now
      → now + seconds 1 ≤ env.clock 0 + minutes 15
      → me jwt now r.0.access_token r.1
        ≡ ok (record {
          id = env.uuid 0;
          email = email;
          full_name = full_name;
          phone = phone;
          role = "user";
          created_at = env.tx_time;
        })
  unfolding me
  me-register now h started running =
      let c = register-Registered h in
      let u = new_user email c.hash full_name phone env in
      rw
        (
          c.result,
          access_token_valid jwt (record db { users = db.users ++ u ∷ [] }) u (env.clock 0)
              (env.clock 1) now (only_new c.hash db.users c.fresh) started running,
        )
        refl

  -- A registration leaves the tables valid.
  pub register-IsValid :
      {r : TokenResponse jwt × Db}
      → IsValid db
      → register bcrypt jwt email password full_name phone salt env db ≡ ok r
      → IsValid r.1
  register-IsValid v h =
      let c = register-Registered h in
      rw c.result
        (Grows-IsValid db _ (users-Grows db (new_user email c.hash full_name phone env)) v)
