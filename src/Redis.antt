-- ===== src/Redis.antt =====
-- What the backend relies on of Redis and of the `json` module: parameters, with their documented
-- behaviour as laws. A call that raises is `none`; every call site of the backend catches that.
pub mod SortedSets
use railbook.Base.{
  ℕ, ◌+◌, ◌<◌, ◌≡◌, String, Bool, true, false, Option, none, some, arith, eq_iff, refl, ◌==◌,
  eq_text,
}
use railbook.Models.{seconds}

-- The keys `seats:{schedule_id}` of the seat cache, and `rl:booking:{user.id}`,
-- `rl:payment:{user.id}` and `rl:auth:{ip}` of the rate limits.
pub data Key : Type 0 where
  seats rl_booking rl_payment : ℕ → Key
  rl_auth : String → Key

abbrev pub same_key : Key → Key → Bool
same_key (seats a) (seats b) = a == b
same_key (rl_booking a) (rl_booking b) = a == b
same_key (rl_payment a) (rl_payment b) = a == b
same_key (rl_auth a) (rl_auth b) = eq_text a b
same_key _ _ = false

pub same_key_self : (k : Key) → same_key k k ≡ true
same_key_self (seats a) = ground arith
same_key_self (rl_booking a) = ground arith
same_key_self (rl_payment a) = ground arith
same_key_self (rl_auth a) = (eq_iff a a).1 refl

pub eq_of_same : (j k : Key) → same_key j k ≡ true → j ≡ k
eq_of_same (seats a) (seats b) h = ground arith
eq_of_same (rl_booking a) (rl_booking b) h = ground arith
eq_of_same (rl_payment a) (rl_payment b) h = ground arith
eq_of_same (rl_auth a) (rl_auth b) h = ground (arith, (eq_iff a b).0 h)
eq_of_same _ _ h = cc

-- `GET`, `SET … EX` and `DEL` at a time of the server. A value is there until its time is over.
pub record Redis : Type 1 where
  pub State : Type 0
  pub get : (now : ℕ) → Key → State → Option (Option String)
  pub set : (now : ℕ) → Key → String → (ex : ℕ) → State → Option State
  pub delete : Key → State → Option State
  pub found-set :
      (now later : ℕ) (k : Key) (v : String) (ex : ℕ) (s : State) {s' : State}
      {found : Option String}
      → set now k v ex s ≡ some s'
      → get later k s' ≡ some found
      → later < now + seconds ex
      → found ≡ some v
  pub expired-set :
      (now later : ℕ) (k : Key) (v : String) (ex : ℕ) (s : State) {s' : State}
      {found : Option String}
      → set now k v ex s ≡ some s'
      → get later k s' ≡ some found
      → now + seconds ex < later
      → found ≡ none
  pub found-delete :
      (now : ℕ) (k : Key) (s : State) {s' : State} {found : Option String}
      → delete k s ≡ some s'
      → get now k s' ≡ some found
      → found ≡ none

-- `json.dumps` and `json.loads` on the values of one type: the text is not empty.
pub record Json (A : Type 0) : Type 0 where
  pub dumps : A → String
  pub loads : String → Option A
  pub dumps_nonempty : (a : A) → eq_text (dumps a) "" ≡ false
