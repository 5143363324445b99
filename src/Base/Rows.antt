-- ===== src/Base/Rows.antt =====
-- Tables as lists of rows: the queries that the services make, and predicates of all the rows.
pub mod Selects
pub mod Laws
pub mod Keys
use Prim.Native.Nat.{ℕ, zero, suc, ◌+◌}
use mathlib.Core.Bool.{Bool, true, false, ◌||◌}
use mathlib.Core.Option.{Option, none, some}
use mathlib.Core.List.{List, [], ◌∷◌}
use railbook.Base.Tests.{◌==◌, if◌then◌else◌}

module _ {ℓ} {A : Type ℓ} where
  abbrev pub length : List A → ℕ
  length [] = 0
  length (x ∷ xs) = suc (length xs)

  -- `SELECT … WHERE p`
  abbrev pub select : (A → Bool) → List A → List A
  select p [] = []
  select p (x ∷ xs) = let rest = select p xs in if p x then x ∷ rest else rest

  -- `SELECT COUNT(*) … WHERE p`
  abbrev pub count_rows : (A → Bool) → List A → ℕ
  count_rows p [] = 0
  count_rows p (x ∷ xs) = (if p x then 1 else 0) + count_rows p xs

  abbrev pub any_row : (A → Bool) → List A → Bool
  any_row p [] = false
  any_row p (x ∷ xs) = p x || any_row p xs

  -- The row with a given key, as `session.get` finds it.
  abbrev pub get_row : (A → ℕ) → ℕ → List A → Option A
  get_row key k [] = none
  get_row key k (x ∷ xs) = if key x == k then some x else get_row key k xs

  abbrev pub has_row : (A → ℕ) → ℕ → List A → Bool
  has_row key k [] = false
  has_row key k (x ∷ xs) = (key x == k) || has_row key k xs

  -- `UPDATE … SET f WHERE key = k`
  abbrev pub update_row : (A → ℕ) → ℕ → (A → A) → List A → List A
  update_row key k f [] = []
  update_row key k f (x ∷ xs) = (if key x == k then f x else x) ∷ update_row key k f xs

  abbrev pub All {κ} : (A → Type κ) → List A → Type κ
  All P [] = Unit
  All P (x ∷ xs) = P x × All P xs

  -- A relation between every row and every later one.
  abbrev pub AllPairs {κ} : (A → A → Type κ) → List A → Type κ
  AllPairs R [] = Unit
  AllPairs R (x ∷ xs) = All (R x) xs × AllPairs R xs

  -- `LIMIT n` and `OFFSET n`
  abbrev pub take : ℕ → List A → List A
  take zero xs = []
  take (suc n) [] = []
  take (suc n) (x ∷ xs) = x ∷ take n xs

  abbrev pub drop : ℕ → List A → List A
  drop zero xs = xs
  drop (suc n) [] = []
  drop (suc n) (x ∷ xs) = drop n xs
