-- ===== src/Base/Rows/Keys.antt =====
-- Rows that are counted by their key.
use Prim.Native.Nat.{ℕ}
use mathlib.Core.Path.{◌≡◌, refl}
use mathlib.Core.Logic.{◌≢◌, inl, inr}
use mathlib.Core.Bool.{Bool, true, false, ◌&&◌}
use mathlib.Core.Option.{some}
use mathlib.Core.List.{List, [], ◌∷◌}
use native.Mathlib.Omega.{arith}
use railbook.Base.Tests.{◌==◌, ==_refl, Bool-cases}
use railbook.Base.Rows.{select, count_rows, any_row, get_row, has_row, All, AllPairs}
use railbook.Base.Rows.Laws.{All-map}

module _ {ℓ} {A : Type ℓ} (key : A → ℕ) (k : ℕ) (p : A → Bool) where
  none_with_key :
      (xs : List A)
      → All (λ x. (key x == k) ≡ false) xs
      → count_rows (λ x. (key x == k) && p x) xs ≡ 0
  none_with_key [] h = refl
  none_with_key (x ∷ xs) h = ground (arith, none_with_key xs h.1)

  -- Where the keys differ, a row that is counted is the one that its key finds.
  pub row_of_count :
      (xs : List A)
      → AllPairs (λ x y. (key x == key y) ≡ false) xs
      → count_rows (λ x. (key x == k) && p x) xs ≢ 0
      → (s : A) × (get_row key k xs ≡ some s) × (p s ≡ true)
  row_of_count [] d h = absurd (h refl)
  row_of_count (x ∷ xs) d h = elim (Bool-cases (key x == k)) [
    | inl hit ↦
        let others = none_with_key xs (
          All-map (λ z. (key x == key z) ≡ false) (λ z. (key z == k) ≡ false) (λ z n. ground arith)
            xs d.0) in
        (x, ground (arith, hit), ground (arith, hit, others))
    | inr miss ↦
        let (s, found, passes) = row_of_count xs d.1 (ground (arith, miss)) in
        (s, ground (arith, miss, found), passes)
  ]

module _ {ℓ} {A : Type ℓ} (key : A → ℕ) (k : ℕ) where
  -- A row that a query by key finds is there under its own key.
  pub has_row_of_select :
      (xs : List A) {y : A} {ys : List A}
      → select (λ x. key x == k) xs ≡ y ∷ ys
      → has_row key (key y) xs ≡ true
  has_row_of_select [] h = cc
  has_row_of_select (x ∷ xs) {y} {ys} h = elim (Bool-cases (key x == k)) [
    | inl hit ↦ ground (arith, hit, ==_refl (key y))
    | inr miss ↦ ground (arith, miss, has_row_of_select xs {y = y} {ys = ys})
  ]

  -- A row that its key finds, and that passes a test, is among those that pass.
  pub selected_of_get :
      (p : A → Bool) (xs : List A) {x : A}
      → get_row key k xs ≡ some x
      → p x ≡ true
      → any_row (λ y. key y == k) (select p xs) ≡ true
  selected_of_get p [] h pass = cc
  selected_of_get p (y ∷ xs) {x} h pass = elim (Bool-cases (key y == k)) [
    | inl hit ↦ ground (arith, hit)
    | inr miss ↦ ground (arith, miss, selected_of_get p xs {x = x})
  ]
