-- ===== src/Base/Rows/Selects.antt =====
-- Laws of the queries and the counts.
use Prim.Native.Nat.{◌+◌}
use mathlib.Core.Path.{◌≡◌, refl}
use mathlib.Core.Logic.{◌⊎◌, inl, inr}
use mathlib.Core.Bool.{Bool, true, false, ◌||◌, ◌&&◌}
use mathlib.Core.List.{List, [], ◌∷◌, ◌++◌}
use native.Mathlib.Omega.{arith}
use railbook.Base.Tests.{Bool-cases, if◌then◌else◌}
use railbook.Base.Rows.{length, select, count_rows, any_row, All, AllPairs}

module _ {ℓ} {A : Type ℓ} (p : A → Bool) where
  -- No row passes the test where the query finds none.
  pub All_of_none : (xs : List A) → any_row p xs ≡ false → All (λ x. p x ≡ false) xs
  All_of_none [] h = tt
  All_of_none (x ∷ xs) h = (ground arith, All_of_none xs (ground arith))

  pub All_of_select_none : (xs : List A) → select p xs ≡ [] → All (λ x. p x ≡ false) xs
  All_of_select_none [] h = tt
  All_of_select_none (x ∷ xs) h = (ground arith, All_of_select_none xs (ground arith))

  pub All-select {κ} :
      (P : A → Type κ) (xs : List A) → All P xs → All (λ x. (p x ≡ true) × P x) (select p xs)
  All-select P [] all = tt
  All-select P (x ∷ xs) all = elim (Bool-cases (p x)) [
    | inl hit ↦ rw hit ((hit, all.0), All-select P xs all.1)
    | inr miss ↦ rw miss (All-select P xs all.1)
  ]

  pub select-append :
      (xs : List A) (y : A) → select p (xs ++ y ∷ []) ≡ select p xs ++ (if p y then y ∷ [] else [])
  select-append [] y = ground arith
  select-append (x ∷ xs) y = ground (arith, select-append xs y)

  pub count_none : (xs : List A) → any_row p xs ≡ false → count_rows p xs ≡ 0
  count_none [] h = refl
  count_none (x ∷ xs) h = ground (arith, count_none xs)

  -- One row counted is one row selected.
  pub select_none_of_count : (xs : List A) → count_rows p xs ≡ 0 → select p xs ≡ []
  select_none_of_count [] h = refl
  select_none_of_count (x ∷ xs) h = ground (arith, select_none_of_count xs)

  pub select_one_of_count : (xs : List A) → count_rows p xs ≡ 1 → (x : A) × (select p xs ≡ x ∷ [])
  select_one_of_count [] h = absurd (omega arith)
  select_one_of_count (x ∷ xs) h = elim (Bool-cases (p x)) [
    | inl hit ↦ (x, ground (arith, select_none_of_count xs))
    | inr miss ↦ rw miss (select_one_of_count xs (ground arith))
  ]

  pub All_select {κ} : (P : A → Type κ) (xs : List A) → All P xs → All P (select p xs)
  All_select P [] all = tt
  All_select P (x ∷ xs) all = elim (Bool-cases (p x)) [
    | inl hit ↦ rw hit (all.0, All_select P xs all.1)
    | inr miss ↦ rw miss (All_select P xs all.1)
  ]

  pub AllPairs-select {κ} :
      (R : A → A → Type κ) (xs : List A) → AllPairs R xs → AllPairs R (select p xs)
  AllPairs-select R [] d = tt
  AllPairs-select R (x ∷ xs) d = elim (Bool-cases (p x)) [
    | inl hit ↦ rw hit (All_select (R x) xs d.0, AllPairs-select R xs d.1)
    | inr miss ↦ rw miss (AllPairs-select R xs d.1)
  ]

  pub count_rows-append :
      (xs : List A) (y : A) → count_rows p (xs ++ y ∷ []) ≡ count_rows p xs + (if p y then 1 else 0)
  count_rows-append [] y = omega arith
  count_rows-append (x ∷ xs) y = omega (arith, count_rows-append xs y)

module _ {ℓ} {A : Type ℓ} where
  pub count_rows-select :
      (p q : A → Bool) (xs : List A) → count_rows q (select p xs) ≡ count_rows (λ x. q x && p x) xs
  count_rows-select p q [] = refl
  count_rows-select p q (x ∷ xs) = ground (arith, count_rows-select p q xs)

  pub any_row-select :
      (p q : A → Bool) (xs : List A) → any_row q (select p xs) ≡ any_row (λ x. p x && q x) xs
  any_row-select p q [] = refl
  any_row-select p q (x ∷ xs) = ground (arith, any_row-select p q xs)

  pub any_row-append :
      (p : A → Bool) (xs : List A) (y : A) → any_row p (xs ++ y ∷ []) ≡ (any_row p xs || p y)
  any_row-append p [] y = ground arith
  any_row-append p (x ∷ xs) y = ground (arith, any_row-append p xs y)

module _ {ℓ} {A : Type ℓ} where
  pub List-cases : (xs : List A) → (xs ≡ []) ⊎ ((x : A) × (ys : List A) × (xs ≡ x ∷ ys))
  List-cases [] = inl refl
  List-cases (x ∷ xs) = inr (x, xs, refl)

  pub select_any : (p : A → Bool) (xs : List A) → select p xs ≡ [] → any_row p xs ≡ false
  select_any p [] h = refl
  select_any p (x ∷ xs) h = ground (arith, select_any p xs)

  pub any_of_select :
      (p : A → Bool) (xs : List A) {y : A} {ys : List A}
      → select p xs ≡ y ∷ ys
      → any_row p xs ≡ true
  any_of_select p [] h = cc
  any_of_select p (x ∷ xs) {y} {ys} h = ground (arith, any_of_select p xs {y = y} {ys = ys})

  pub All_pass : (p : A → Bool) (xs : List A) → All (λ x. p x ≡ true) (select p xs)
  All_pass p [] = tt
  All_pass p (x ∷ xs) = elim (Bool-cases (p x)) [
    | inl hit ↦ rw hit (hit, All_pass p xs)
    | inr miss ↦ rw miss (All_pass p xs)
  ]

pub length_more {ℓ} : {A : Type ℓ} (xs : List A) (y : A) → length (xs ++ y ∷ []) ≡ length xs + 1
length_more [] y = refl
length_more (x ∷ xs) y = ground (arith, length_more xs y)
