-- ===== src/Auth.antt =====
-- backend/app/auth: service.py, dependencies.py and the routes of router.py. `bcrypt` and `jwt` are
-- parameters, with their documented behaviour as laws.
pub mod Tokens
pub mod Accounts
use railbook.Base.{
  ℕ, ◌+◌, ◌*◌, ◌≤◌, ◌≡◌, ◌⊎◌, String, Bool, true, false, not, ◌||◌, Option, none, some, is_some,
  List, [], ◌∷◌, ◌++◌, ◌==◌, eq_text, if◌then◌else◌,
}
use railbook.Base.Outcome.{
  Error, Result, ok, err, http, integrity_error, value_error, ◌>>=◌, ◌>>◌, raise_if, or_raise,
}
use railbook.Base.Rows.{select, any_row}
use railbook.Models.{User, Db, Env, seconds, minutes, hours}
use railbook.Models.Constraints.{scalar_one_or_none}
use railbook.Models.Timetable.{insert_user}

-- `bcrypt.hashpw` and `bcrypt.checkpw`; `none` is a `ValueError`, as for a password that is too long.
pub record Bcrypt : Type 0 where
  pub hashpw : String → (salt : ℕ) → Option String
  pub checkpw : String → String → Option Bool
  pub checkpw-hashpw :
      (password : String) (salt : ℕ) {hash : String}
      → hashpw password salt ≡ some hash
      → checkpw password hash ≡ some true

-- The claims of a token. A `sub` that is missing or no UUID is `none`.
pub record Payload : Type 0 where
  pub sub : Option ℕ
  pub token_type : Option String

pub record Claims : Type 0 where
  pub payload : Payload
  pub exp : ℕ
  pub iat : ℕ

-- `jwt.encode` and `jwt.decode` with the settings' secret and algorithm; `none` is an
-- `InvalidTokenError` or an `ExpiredSignatureError`. Times are cut to the second in a token.
pub record Jwt : Type 1 where
  pub Token : Type 0
  pub encode : Claims → Token
  pub decode : (now : ℕ) → Token → Option Payload
  pub decode_own :
      (c : Claims) (now : ℕ)
      → (decode now (encode c) ≡ none) ⊎ (decode now (encode c) ≡ some c.payload)
  pub decode_valid :
      (c : Claims) (now : ℕ)
      → c.iat ≤ now
      → now + seconds 1 ≤ c.exp
      → decode now (encode c) ≡ some c.payload
  pub decode_expired : (c : Claims) (now : ℕ) → c.exp ≤ now → decode now (encode c) ≡ none

abbrev pub invalid_token : Error
invalid_token = http 401 "Invalid or expired token"

abbrev pub invalid_refresh_token : Error
invalid_refresh_token = http 401 "Invalid or expired refresh token"

abbrev pub invalid_token_type : Error
invalid_token_type = http 401 "Invalid token type"

abbrev pub user_not_found : Error
user_not_found = http 401 "User not found"

abbrev pub email_registered : Error
email_registered = http 409 "Email already registered"

abbrev pub invalid_credentials : Error
invalid_credentials = http 401 "Invalid credentials"

abbrev pub find_email : String → Db → Result (Option User)
find_email email db = scalar_one_or_none (select (λ u. eq_text u.email email) db.users)

unfoldable pub get_user_by_id : ℕ → Db → Result (Option User)
get_user_by_id user_id db = scalar_one_or_none (select (λ u. u.id == user_id) db.users)

abbrev pub new_user : (email hash full_name : String) (phone : Option String) → Env → User
new_user email hash full_name phone env = record {
  id = env.uuid 0;
  email = email;
  password_hash = hash;
  full_name = full_name;
  phone = phone;
  role = "user";
  created_at = env.tx_time;
}

-- `payload.get("type") != wanted`
abbrev pub has_type : String → Payload → Bool
has_type wanted p = elim p.token_type [ none ↦ false | some t ↦ eq_text t wanted ]

-- `except ValueError` of the register route.
abbrev pub as_registered {ℓ} : {A : Type ℓ} → Result A → Result A
as_registered (err value_error) = err email_registered
as_registered other = other

module _ (bcrypt : Bcrypt) where
  unfoldable pub register_user :
      (email password full_name : String) (phone : Option String) (salt : ℕ)
      → Env
      → Db
      → Result (User × Db)
  unfolding insert_user
  register_user email password full_name phone salt env db = do
    existing ← find_email email db
    raise_if (is_some existing) value_error
    hash ← or_raise (bcrypt.hashpw password salt) value_error
    let user = new_user email hash full_name phone env
    db₁ ← insert_user user db
    ok (user, db₁)

  -- `user and verify_password(password, user.password_hash)`
  abbrev pub verified : String → Option User → Result (Option User)
  verified password none = ok none
  verified password (some user) = do
    matches ← or_raise (bcrypt.checkpw password user.password_hash) value_error
    ok (if matches then some user else none)

  unfoldable pub authenticate_user : (email password : String) → Db → Result (Option User)
  authenticate_user email password db = do user ← find_email email db; verified password user

module _ (jwt : Jwt) where
  abbrev pub access_claims : (user_id now later : ℕ) → Claims
  access_claims user_id now later = record {
    payload = record { sub = some user_id; token_type = some "access" };
    exp = now + minutes 15;
    iat = later;
  }

  abbrev pub refresh_claims : (user_id now later : ℕ) → Claims
  refresh_claims user_id now later = record {
    payload = record { sub = some user_id; token_type = some "refresh" };
    exp = now + hours (7 * 24);
    iat = later;
  }

  -- Each reads the clock twice, for `exp` and for `iat`.
  abbrev pub create_access_token : (user_id now later : ℕ) → jwt.Token
  create_access_token user_id now later = jwt.encode (access_claims user_id now later)

  abbrev pub create_refresh_token : (user_id now later : ℕ) → jwt.Token
  create_refresh_token user_id now later = jwt.encode (refresh_claims user_id now later)

  pub record TokenResponse : Type 0 where
    pub access_token : jwt.Token
    pub refresh_token : jwt.Token

  abbrev pub tokens_of : ℕ → Env → TokenResponse
  tokens_of user_id env = record {
    access_token = create_access_token user_id (env.clock 0) (env.clock 1);
    refresh_token = create_refresh_token user_id (env.clock 2) (env.clock 3);
  }

  -- What `get_current_user` and `refresh` do alike: the user of a token of the wanted type.
  abbrev pub user_of_token :
      (wanted : String) (bad_token : Error) (now : ℕ) → jwt.Token → Db → Result User
  user_of_token wanted bad_token now token db = do
    payload ← or_raise (jwt.decode now token) bad_token
    raise_if (not (has_type wanted payload)) invalid_token_type
    user_id ← or_raise payload.sub bad_token
    user ← get_user_by_id user_id db
    or_raise user user_not_found

  unfoldable pub get_current_user : (now : ℕ) → jwt.Token → Db → Result User
  unfolding get_user_by_id
  get_current_user now token db = user_of_token "access" invalid_token now token db

  unfoldable pub refresh : jwt.Token → (now : ℕ) → Env → Db → Result TokenResponse
  unfolding get_user_by_id
  refresh token now env db = do
    user ← user_of_token "refresh" invalid_refresh_token now token db
    ok (tokens_of user.id env)

-- What the route shows of a user: the hash of the password is left out.
pub record UserResponse : Type 0 where
  pub id : ℕ
  pub email : String
  pub full_name : String
  pub phone : Option String
  pub role : String
  pub created_at : ℕ

abbrev pub user_response : User → UserResponse
user_response user = record {
  id = user.id;
  email = user.email;
  full_name = user.full_name;
  phone = user.phone;
  role = user.role;
  created_at = user.created_at;
}

unfoldable pub me : (jwt : Jwt) (now : ℕ) → jwt.Token → Db → Result UserResponse
unfolding get_current_user
me jwt now token db = do user ← get_current_user jwt now token db; ok (user_response user)

-- `user.role != "admin"`
unfoldable pub require_admin : User → Result User
require_admin user = do
  raise_if (not (eq_text user.role "admin")) (http 403 "Admin access required")
  ok user

module _ (bcrypt : Bcrypt) (jwt : Jwt) where
  unfoldable pub register :
      (email password full_name : String) (phone : Option String) (salt : ℕ)
      → Env
      → Db
      → Result (TokenResponse jwt × Db)
  unfolding register_user
  register email password full_name phone salt env db = do
    (user, db₁) ← as_registered (register_user bcrypt email password full_name phone salt env db)
    ok (tokens_of jwt user.id env, db₁)

  unfoldable pub login : (email password : String) → Env → Db → Result (TokenResponse jwt)
  unfolding authenticate_user
  login email password env db = do
    found ← authenticate_user bcrypt email password db
    user ← or_raise found invalid_credentials
    ok (tokens_of jwt user.id env)
