-- ===== src/Tests/Auth.antt =====
-- The theorems on accounts and tokens at concrete inputs.
use railbook.Base.{◌≡◌, ◌⊎◌, refl, [], ◌∷◌, ◌++◌, none, arith}
use railbook.Base.Outcome.{ok, err}
use railbook.Models.{Db}
use railbook.Models.Timetable.{insert_user}
use railbook.Auth.{
  TokenResponse, new_user, register_user, register, tokens_of, create_access_token,
  create_refresh_token, get_current_user, me, refresh, invalid_token, invalid_refresh_token,
  invalid_token_type,
}
use railbook.Auth.Tokens.{token_types_apart}
use railbook.Auth.Accounts.{me-register}
use railbook.Tests.Crypto.{bcrypt, jwt}
use railbook.Tests.Data.{railway, env_at}

abbrev joined : TokenResponse jwt × Db
joined = (
  tokens_of jwt 3 (env_at 0 3),
  record railway {
    users = railway.users ++ new_user "new@example.com" "secret" "New" none (env_at 0 3) ∷ [];
  },
)

joins : register bcrypt jwt "new@example.com" "secret" "New" none 0 (env_at 0 3) railway ≡ ok joined
unfolding register register_user insert_user
joins = refl

me-register_example :
    me jwt 50 joined.0.access_token joined.1
    ≡ ok (record {
      id = 3;
      email = "new@example.com";
      full_name = "New";
      phone = none;
      role = "user";
      created_at = 0;
    })
me-register_example =
    me-register bcrypt jwt "new@example.com" "secret" "New" none 0 (env_at 0 3) railway {r = joined}
      50 joins (omega arith) (omega arith)

token_types_apart_example :
    ((get_current_user jwt 50 (create_refresh_token jwt 1 0 1) railway ≡ err invalid_token)
      ⊎ (get_current_user jwt 50 (create_refresh_token jwt 1 0 1) railway ≡ err invalid_token_type))
    × ((refresh jwt (create_access_token jwt 1 0 1) 50 (env_at 50 0) railway
          ≡ err invalid_refresh_token)
        ⊎ (refresh jwt (create_access_token jwt 1 0 1) 50 (env_at 50 0) railway
            ≡ err invalid_token_type))
token_types_apart_example = token_types_apart jwt railway 1 1 0 50 (env_at 50 0)
