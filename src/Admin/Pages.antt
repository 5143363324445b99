-- ===== src/Admin/Pages.antt =====
-- The pages of the list of all bookings.
use railbook.Base.{
  ℕ, zero, suc, ◌+◌, ◌*◌, ◌≤◌, ◌≡◌, refl, ap, sym, ◌∙◌, String, Option, List, [], ◌∷◌, ◌++◌, map,
  arith,
}
use railbook.Base.Ints.{pos}
use railbook.Base.Outcome.{Result, ok, ◌>>=◌}
use railbook.Base.Rows.{length, select, take, drop}
use railbook.Models.{Booking, Db}
use railbook.Bookings.Queries.{matches, NewestFirst}
use railbook.Admin.{BookingSummary, summary, list_all_bookings}

-- `k` pages of `n` bookings each from an offset on, one request after another.
pub pages :
    NewestFirst → (status : Option String) (n offset k : ℕ) → Db → Result (List BookingSummary)
pages order status n offset zero db = ok []
pages order status n offset (suc k) db = do
  page ← list_all_bookings order status (pos n) (pos offset) db
  rest ← pages order status n (offset + n) k db
  ok (page ++ rest)

module _ {ℓ} {A : Type ℓ} where
  take_nil : (n : ℕ) → take {A = A} n [] ≡ []
  take_nil zero = refl
  take_nil (suc n) = refl

  drop_nil : (n : ℕ) → drop {A = A} n [] ≡ []
  drop_nil zero = refl
  drop_nil (suc n) = refl

  take-++ : (n m : ℕ) (xs : List A) → take n xs ++ take m (drop n xs) ≡ take (n + m) xs
  take-++ zero m xs = let e : m ≡ zero + m = omega arith in ap (λ k. take k xs) e
  take-++ (suc n) m [] = take_nil m ∙ sym (take_nil (suc n + m))
  take-++ (suc n) m (x ∷ xs) =
      let e : suc (n + m) ≡ suc n + m = omega arith in
      ap (λ ys. x ∷ ys) (take-++ n m xs) ∙ ap (λ k. take k (x ∷ xs)) e

  drop-drop : (n m : ℕ) (xs : List A) → drop m (drop n xs) ≡ drop (n + m) xs
  drop-drop zero m xs = let e : m ≡ zero + m = omega arith in ap (λ k. drop k xs) e
  drop-drop (suc n) m [] = drop_nil m ∙ sym (drop_nil (suc n + m))
  drop-drop (suc n) m (x ∷ xs) =
      let e : suc (n + m) ≡ suc n + m = omega arith in
      drop-drop n m xs ∙ ap (λ k. drop k (x ∷ xs)) e

  take_all : (n : ℕ) (xs : List A) → length xs ≤ n → take n xs ≡ xs
  take_all zero [] h = refl
  take_all zero (x ∷ xs) h = absurd (omega (arith, h))
  take_all (suc n) [] h = refl
  take_all (suc n) (x ∷ xs) h = ap (λ ys. x ∷ ys) (take_all n xs (omega (arith, h)))

map-++ {ℓ κ} :
    {A : Type ℓ} {B : Type κ} (f : A → B) (xs ys : List A) → map f (xs ++ ys) ≡ map f xs ++ map f ys
map-++ f [] ys = refl
map-++ f (x ∷ xs) ys = ap (λ zs. f x ∷ zs) (map-++ f xs ys)

module _ (order : NewestFirst) (status : Option String) (db : Db) where
  -- Every booking whose status the filter lets through, in the order of the list.
  abbrev pub all_bookings : List Booking
  all_bookings = order.sort (select (λ b. matches status b.status) db.bookings)

  pages_from :
      (n offset k : ℕ)
      → n ≤ 200
      → pages order status n offset k db
        ≡ ok (map summary (take (k * n) (drop offset all_bookings)))
  unfolding pages list_all_bookings
  pages_from n offset zero fits =
      let e : 0 ≡ 0 * n = omega arith in
      ap (λ j. ok (map summary (take j (drop offset all_bookings)))) e
  pages_from n offset (suc k) fits = ground (arith, fits, pages_from n (offset + n) k fits, joined)
    where
      joined :
          map summary (take n (drop offset all_bookings))
            ++ map summary (take (k * n) (drop (offset + n) all_bookings))
          ≡ map summary (take (suc k * n) (drop offset all_bookings))
      joined =
          sym (
            map-++ summary (take n (drop offset all_bookings))
              (take (k * n) (drop (offset + n) all_bookings)))
          ∙ ap (map summary) (
              ap (λ bs. take n (drop offset all_bookings) ++ take (k * n) bs)
                (sym (drop-drop offset n all_bookings))
              ∙ take-++ n (k * n) (drop offset all_bookings)
              ∙ ap (λ j. take j (drop offset all_bookings)) next)
        where
          next : n + k * n ≡ suc k * n
          next = omega arith

  -- Where the bookings do not change between the requests, and bookings of the same time come in the
  -- same order each time, pages of up to 200 bookings, requested one after another, give every booking
  -- that the filter lets through once, in the order of the list, as soon as there are enough of them.
  pub pages-all_bookings :
      (n k : ℕ)
      → n ≤ 200
      → length all_bookings ≤ k * n
      → pages order status n 0 k db ≡ ok (map summary all_bookings)
  pages-all_bookings n k fits enough =
      pages_from n 0 k fits ∙ ap (λ bs. ok (map summary bs)) (take_all (k * n) all_bookings enough)
