-- ===== src/Tests/Crypto.antt =====
-- A hash function that is the identity and refuses one password, and tokens that are their claims.
use railbook.Base.{
  ℕ, ◌≡◌, ◌⊎◌, refl, true, false, Bool, String, Option, none, some, arith, eq_iff, eq_text, ltb,
  inl, inr, if◌then◌else◌,
}
use railbook.Auth.{Bcrypt, Jwt, Claims}

abbrev plain : String → Option String
plain password = if eq_text password "too long" then none else some password

pub check_plain : (p h : String) → plain p ≡ some h → some (eq_text p h) ≡ some true
check_plain p h e = ground (arith, (eq_iff p p).1 refl)

abbrev pub bcrypt : Bcrypt
bcrypt = record {
  hashpw = λ password salt. plain password;
  checkpw = λ password hash. some (eq_text password hash);
  checkpw-hashpw = λ password salt {hash} e. check_plain password hash e;
}

pub own_token :
    (c : Claims) (now : ℕ) (running : Bool)
    → ((if running then some c.payload else none) ≡ none)
      ⊎ ((if running then some c.payload else none) ≡ some c.payload)
own_token c now true = inr refl
own_token c now false = inl refl

abbrev pub jwt : Jwt
jwt = record {
  Token = Claims;
  encode = λ c. c;
  decode = λ now c. if ltb now c.exp then some c.payload else none;
  decode_own = λ c now. own_token c now (ltb now c.exp);
  decode_valid = λ c now started running. ground arith;
  decode_expired = λ c now over. ground arith;
}
