-- ===== src/Auth/Tokens.antt =====
-- The two kinds of token.
use railbook.Base.{ℕ, ◌+◌, ◌≤◌, ◌≡◌, ◌⊎◌, inl, inr, [], ◌∷◌, arith, Option-cases, ◌==◌}
use railbook.Base.Outcome.{ok, err}
use railbook.Base.Rows.{select}
use railbook.Base.Rows.Selects.{List-cases}
use railbook.Models.{User, Db, Env, seconds, minutes}
use railbook.Auth.{
  Jwt, create_access_token, create_refresh_token, access_claims, refresh_claims, invalid_token,
  invalid_refresh_token, invalid_token_type, get_user_by_id, get_current_user, refresh,
}

module _ (jwt : Jwt) (db : Db) where
  -- Neither kind of token passes for the other, at any time and for any user: a refresh token signs
  -- nobody in, and an access token gives no new tokens; the answer is one of the two 401s.
  pub token_types_apart :
      (user_id iat exp now : ℕ) (env : Env)
      → ((get_current_user jwt now (create_refresh_token jwt user_id exp iat) db
            ≡ err invalid_token)
          ⊎ (get_current_user jwt now (create_refresh_token jwt user_id exp iat) db
              ≡ err invalid_token_type))
        × ((refresh jwt (create_access_token jwt user_id exp iat) now env db
              ≡ err invalid_refresh_token)
            ⊎ (refresh jwt (create_access_token jwt user_id exp iat) now env db
                ≡ err invalid_token_type))
  unfolding get_current_user refresh
  token_types_apart user_id iat exp now env = (
    elim (jwt.decode_own (refresh_claims jwt user_id exp iat) now) [
      | inl bad ↦ inl (ground (arith, bad))
      | inr good ↦ inr (ground (arith, good))
    ],
    elim (jwt.decode_own (access_claims jwt user_id exp iat) now) [
      | inl bad ↦ inl (ground (arith, bad))
      | inr good ↦ inr (ground (arith, good))
    ],
  )

  -- An access token signs its user in while it is valid.
  pub access_token_valid :
      (u : User) (made iat now : ℕ)
      → select (λ x. x.id == u.id) db.users ≡ u ∷ []
      → iat ≤ now
      → now + seconds 1 ≤ made + minutes 15
      → get_current_user jwt now (create_access_token jwt u.id made iat) db ≡ ok u
  unfolding get_current_user get_user_by_id
  access_token_valid u made iat now one started running =
      ground (arith, one, jwt.decode_valid (access_claims jwt u.id made iat) now started running)

  -- An access token is a 401 from fifteen minutes after it was made, whoever it is of.
  pub access_token_expires :
      (user_id made iat now : ℕ)
      → made + minutes 15 ≤ now
      → get_current_user jwt now (create_access_token jwt user_id made iat) db ≡ err invalid_token
  unfolding get_current_user
  access_token_expires user_id made iat now over =
      ground (arith, jwt.decode_expired (access_claims jwt user_id made iat) now over)

  -- The user of a token is the one row with the id in the token.
  pub get_current_user-row :
      (token : jwt.Token) (now : ℕ) (user : User)
      → get_current_user jwt now token db ≡ ok user
      → (k : ℕ) × (select (λ u. u.id == k) db.users ≡ user ∷ [])
  unfolding get_current_user get_user_by_id
  get_current_user-row token now user h = elim (Option-cases (jwt.decode now token)) [
    | inl unread ↦ ground (arith, unread)
    | inr (payload, read) ↦ elim (Option-cases payload.sub) [
      | inl nobody ↦ ground (arith, read, nobody)
      | inr (k, named) ↦ elim (List-cases (select (λ (u : User). u.id == k) db.users)) [
        | inl gone ↦ ground (arith, read, named, gone)
        | inr (x, [], one) ↦ (k, ground (arith, read, named, one))
        | inr (x, y ∷ rest, two) ↦ ground (arith, read, named, two)
      ]
    ]
  ]
