-- ===== src/Base/Rows/Laws.antt =====
-- Laws of the table operations: what an INSERT at the end and an UPDATE by key do to each query.
use Prim.Native.Nat.{ℕ}
use mathlib.Core.Path.{◌≡◌, refl, sym, ◌∙◌, subst}
use mathlib.Core.Logic.{◌≢◌, inl, inr}
use mathlib.Core.Bool.{Bool, true, false, ◌||◌}
use mathlib.Core.Option
use mathlib.Core.Option.{Option, none, some}
use mathlib.Core.List.{List, [], ◌∷◌, ◌++◌, map}
use native.Mathlib.Omega.{arith}
use railbook.Base.Tests.{◌==◌, eq_of_test, ne_of_test, Bool-cases, if◌then◌else◌}
use railbook.Base.Rows.{select, get_row, has_row, update_row, All, AllPairs}
use railbook.Base.Rows.Selects.{All_select}

module _ {ℓ κ ι} {A : Type ℓ} (P : A → Type κ) (Q : A → Type ι) where
  pub All-map : ((x : A) → P x → Q x) → (xs : List A) → All P xs → All Q xs
  All-map g [] all = tt
  All-map g (x ∷ xs) all = (g x all.0, All-map g xs all.1)

  pub All-zip : (xs : List A) → All P xs → All Q xs → All (λ x. P x × Q x) xs
  All-zip [] a b = tt
  All-zip (x ∷ xs) a b = ((a.0, b.0), All-zip xs a.1 b.1)

module _ {ℓ κ ι} {A : Type ℓ} (R : A → A → Type κ) (S : A → A → Type ι) where
  pub AllPairs-map : ((x y : A) → R x y → S x y) → (xs : List A) → AllPairs R xs → AllPairs S xs
  AllPairs-map g [] d = tt
  AllPairs-map g (x ∷ xs) d = (All-map (R x) (S x) (g x) xs d.0, AllPairs-map g xs d.1)

module _ {ℓ κ} {A : Type ℓ} where
  pub All-append : (P : A → Type κ) (xs : List A) (y : A) → All P xs → P y → All P (xs ++ y ∷ [])
  All-append P [] y all h = (h, tt)
  All-append P (x ∷ xs) y all h = (all.0, All-append P xs y all.1 h)

  pub AllPairs-append :
      (R : A → A → Type κ) (xs : List A) (y : A)
      → AllPairs R xs
      → All (λ x. R x y) xs
      → AllPairs R (xs ++ y ∷ [])
  AllPairs-append R [] y d h = (tt, tt)
  AllPairs-append R (x ∷ xs) y d h = (All-append (R x) xs y d.0 h.0, AllPairs-append R xs y d.1 h.1)

module _ {ℓ} {A : Type ℓ} where
  pub row_of_has :
      (key : A → ℕ) (k : ℕ) (xs : List A)
      → has_row key k xs ≡ true
      → (x : A) × (get_row key k xs ≡ some x)
  row_of_has key k [] h = cc
  row_of_has key k (x ∷ xs) h = elim (Bool-cases (key x == k)) [
    | inl hit ↦ (x, ground (arith, hit))
    | inr miss ↦ rw miss (row_of_has key k xs (ground (arith, miss)))
  ]

module _ {ℓ} {A : Type ℓ} (key : A → ℕ) (k : ℕ) where
  pub get_row-append_new :
      (xs : List A) (y : A)
      → key y ≡ k
      → has_row key k xs ≡ false
      → get_row key k (xs ++ y ∷ []) ≡ some y
  get_row-append_new [] y e h = ground arith
  get_row-append_new (x ∷ xs) y e h = ground (arith, get_row-append_new xs y e)

  pub get_row-append_ne :
      (xs : List A) (y : A) → key y ≢ k → get_row key k (xs ++ y ∷ []) ≡ get_row key k xs
  get_row-append_ne [] y n = ground arith
  get_row-append_ne (x ∷ xs) y n = ground (arith, get_row-append_ne xs y n)

  pub get_row-append_old :
      (xs : List A) (y : A)
      → has_row key k xs ≡ true
      → get_row key k (xs ++ y ∷ []) ≡ get_row key k xs
  get_row-append_old [] y h = cc
  get_row-append_old (x ∷ xs) y h = ground (arith, get_row-append_old xs y)

  pub has_row-append :
      (xs : List A) (y : A) → has_row key k (xs ++ y ∷ []) ≡ (has_row key k xs || (key y == k))
  has_row-append [] y = ground arith
  has_row-append (x ∷ xs) y = ground (arith, has_row-append xs y)

  pub has_row_of_get : (xs : List A) {x : A} → get_row key k xs ≡ some x → has_row key k xs ≡ true
  has_row_of_get [] h = cc
  has_row_of_get (y ∷ xs) {x} h = ground (arith, has_row_of_get xs {x = x})

  pub get_row_absent : (xs : List A) → has_row key k xs ≡ false → get_row key k xs ≡ none
  get_row_absent [] h = refl
  get_row_absent (y ∷ xs) h = ground (arith, get_row_absent xs)

  pub key_of_get : (xs : List A) {x : A} → get_row key k xs ≡ some x → key x ≡ k
  key_of_get [] h = cc
  key_of_get (y ∷ xs) {x} h = ground (arith, key_of_get xs {x = x})

  pub get_self : (xs : List A) {x : A} → get_row key k xs ≡ some x → get_row key (key x) xs ≡ some x
  get_self xs {x} h = subst (λ j. get_row key j xs ≡ some x) (sym (key_of_get xs h)) h

  pub All-get {κ} :
      (P : A → Type κ) (xs : List A) {x : A} → All P xs → get_row key k xs ≡ some x → P x
  All-get P [] all h = cc
  All-get P (y ∷ xs) {x} all h = elim (Bool-cases (key y == k)) [
    | inl here ↦ subst P (ground arith) all.0
    | inr later ↦ All-get P xs all.1 (ground arith)
  ]

  -- Where the keys are distinct, a row with the key is the row that `get_row` finds.
  pub get_row_unique :
      (xs : List A) {b : A}
      → AllPairs (λ x y. key x ≢ key y) xs
      → get_row key k xs ≡ some b
      → All (λ x. key x ≡ k → x ≡ b) xs
  get_row_unique [] d h = tt
  get_row_unique (y ∷ xs) {b} d h = elim (Bool-cases (key y == k)) [
    | inl here ↦ (
      λ e. ground arith,
      All-map (λ x. key y ≢ key x) (λ x. key x ≡ k → x ≡ b)
          (λ x apart e. absurd (apart (eq_of_test (key y) k here ∙ sym e))) xs d.0,
    )
    | inr later ↦ (λ e. absurd (ne_of_test (key y) k later e), get_row_unique xs d.1 (ground arith))
  ]

  module _ (f : A → A) where
    pub All-update {κ ι} :
        (P : A → Type κ) (Q : A → Type ι)
        → ((x : A) → key x ≢ k → P x → Q x)
        → ((x : A) → key x ≡ k → P x → Q (f x))
        → (xs : List A) → All P xs
        → All Q (update_row key k f xs)
    All-update P Q other target [] all = tt
    All-update P Q other target (y ∷ xs) all = (
      elim (Bool-cases (key y == k)) [
        | inl here ↦ rw here (target y (eq_of_test (key y) k here) all.0)
        | inr away ↦ rw away (other y (ne_of_test (key y) k away) all.0)
      ],
      All-update P Q other target xs all.1,
    )

    -- A symmetric relation survives an UPDATE that keeps it for the updated row, where `P` is what
    -- is known of the rows before.
    pub AllPairs-update {κ ι} :
        (P : A → Type κ) (R : A → A → Type ι)
        → ((x y : A) → key x ≡ k → P x → R x y → R (f x) y)
        → ((x y : A) → key y ≡ k → P y → R x y → R x (f y))
        → (xs : List A) → All P xs
        → AllPairs R xs
        → AllPairs R (update_row key k f xs)
    AllPairs-update P R left right [] all d = tt
    AllPairs-update P R left right (y ∷ xs) all d = (
      rows (if key y == k then f y else y) (elim (Bool-cases (key y == k)) [
        | inl here ↦
            rw here
              (All-map (R y) (R (f y)) (λ x r. left y x (eq_of_test (key y) k here) all.0 r) xs d.0)
        | inr away ↦ rw away d.0
      ]),
      AllPairs-update P R left right xs all.1 d.1,
    )
      where
        rows : (z : A) → All (R z) xs → All (R z) (update_row key k f xs)
        rows z r =
            All-update (λ x. P x × R z x) (R z) (λ x _ h. h.1) (λ x e h. right z x e h.0 h.1) xs
              (All-zip P (R z) xs all.1 r)

    module _ (keeps : (x : A) → key (f x) ≡ key x) where
      pub has_row-update :
          (j : ℕ) (xs : List A) → has_row key j (update_row key k f xs) ≡ has_row key j xs
      has_row-update j [] = refl
      has_row-update j (y ∷ xs) = ground (arith, keeps y, has_row-update j xs)

      pub get_row-update :
          (j : ℕ) (xs : List A)
          → get_row key j (update_row key k f xs)
            ≡ (if j == k then Option.map f (get_row key j xs) else get_row key j xs)
      get_row-update j [] = ground arith
      get_row-update j (y ∷ xs) = ground (arith, keeps y, get_row-update j xs)

module _ {ℓ} {A : Type ℓ} (key : A → ℕ) where
  -- Where the keys are distinct, every row is found by its key.
  pub self_get :
      (xs : List A)
      → AllPairs (λ x y. key x ≢ key y) xs
      → All (λ x. get_row key (key x) xs ≡ some x) xs
  self_get [] d = tt
  self_get (x ∷ xs) d = (
    ground arith,
    All-map (λ y. (key x ≢ key y) × (get_row key (key y) xs ≡ some y)) _ (λ y h. ground arith) xs
        (All-zip _ _ xs d.0 (self_get xs d.1)),
  )

  pub absent_of_ne : (k : ℕ) (xs : List A) → All (λ y. k ≢ key y) xs → has_row key k xs ≡ false
  absent_of_ne k [] h = refl
  absent_of_ne k (x ∷ xs) h = ground (arith, absent_of_ne k xs h.1)

  -- A query takes exactly the rows that pass its test.
  pub has_row-select :
      (p : A → Bool) (xs : List A)
      → AllPairs (λ x y. key x ≢ key y) xs
      → All (λ x. has_row key (key x) (select p xs) ≡ p x) xs
  has_row-select p [] d = tt
  has_row-select p (x ∷ xs) d = (
    ground (arith, absent_of_ne (key x) (select p xs) (All_select p _ xs d.0)),
    All-map (λ y. (key x ≢ key y) × (has_row key (key y) (select p xs) ≡ p y)) _
        (λ y h. ground arith) xs (All-zip _ _ xs d.0 (has_row-select p xs d.1)),
  )

module _ {ℓ} {A : Type ℓ} where
  pub map-All : (f g : A → A) (xs : List A) → All (λ x. f x ≡ g x) xs → map f xs ≡ map g xs
  map-All f g [] h = refl
  map-All f g (x ∷ xs) h = ground (arith, h.0, map-All f g xs h.1)

module _ {ℓ} {A : Type ℓ} (key : A → ℕ) (f : A → A) (keeps : (x : A) → key (f x) ≡ key x) where
  -- The row that an UPDATE was meant for, afterwards.
  pub get_row-update_self :
      (k : ℕ) (xs : List A) (x : A)
      → get_row key k xs ≡ some x
      → get_row key k (update_row key (key x) f xs) ≡ some (f x)
  get_row-update_self k xs x h =
      ground (arith, get_row-update key (key x) f keeps k xs, key_of_get key k xs {x = x} h)
