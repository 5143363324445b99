-- ===== src/Guarantees/Queries.antt =====
-- What the reading routes of a passenger answer.
use railbook.Base.{
  ℕ, ◌≡◌, refl, ap, ◌∙◌, String, Bool, true, false, not, ◌&&◌, Option, some, List, [], ◌∷◌, map,
  arith, inl, inr, Bool-cases, ◌==◌,
}
use railbook.Base.Outcome.{ok, err, attribute_error}
use railbook.Base.Rows.{select, count_rows, get_row, has_row, All, AllPairs}
use railbook.Base.Rows.Laws.{row_of_has, All-get, All-map, AllPairs-map}
use railbook.Base.Rows.Selects.{All_select, count_rows-select}
use railbook.Models.{Train, Schedule, Compartment, Seat, Booking, Db}
use railbook.Models.Constraints.{booking_refs}
use railbook.Bookings.Queries.{
  BookingResponse, response, enrich_booking, enrich_all, matches, NewestFirst, list_user_bookings,
  get_booking, list_bookings, get,
}
use railbook.Integrity.{IsValid, TimetableIsValid}

module _ {ℓ} {A : Type ℓ} where
  none_misses :
      (p : A → Bool) (xs : List A) → All (λ x. p x ≡ true) xs → count_rows (λ x. not (p x)) xs ≡ 0
  none_misses p [] h = refl
  none_misses p (x ∷ xs) h = ground (arith, none_misses p xs h.1)

  all_pass :
      (p : A → Bool) (xs : List A) → count_rows (λ x. not (p x)) xs ≡ 0 → All (λ x. p x ≡ true) xs
  all_pass p [] h = tt
  all_pass p (x ∷ xs) h = (ground arith, all_pass p xs (ground arith))

  no_more :
      (key : A → ℕ) (k : ℕ) (xs : List A)
      → All (λ x. (key x == k) ≡ false) xs
      → select (λ x. key x == k) xs ≡ []
  no_more key k [] h = refl
  no_more key k (x ∷ xs) h = ground (arith, no_more key k xs h.1)

  absent-select :
      (key : A → ℕ) (k : ℕ) (xs : List A)
      → has_row key k xs ≡ false
      → select (λ x. key x == k) xs ≡ []
  absent-select key k [] h = refl
  absent-select key k (x ∷ xs) h = ground (arith, absent-select key k xs)

  select_of_get :
      (key : A → ℕ) (k : ℕ) (xs : List A) {x : A}
      → AllPairs (λ y z. (key y == key z) ≡ false) xs
      → get_row key k xs ≡ some x
      → select (λ y. key y == k) xs ≡ x ∷ []
  select_of_get key k [] d h = cc
  select_of_get key k (y ∷ xs) {x} d h = elim (Bool-cases (key y == k)) [
    | inl hit ↦ ground (
      arith,
      hit,
      no_more key k xs (
          All-map (λ z. (key y == key z) ≡ false) (λ z. (key z == k) ≡ false) (λ z n. ground arith)
            xs d.0),
    )
    | inr miss ↦ ground (arith, miss, select_of_get key k xs {x = x} d.1)
  ]

module _ (db : Db) (t : TimetableIsValid db) where
  -- A booking whose schedule and seat exist gets its details.
  pub enrich_answers :
      (b : Booking)
      → booking_refs db b ≡ true
      → (r : BookingResponse) × (enrich_booking db b ≡ ok r) × (r.booking ≡ b)
  unfolding enrich_booking
  enrich_answers b refers =
      let (s, schedule) =
        row_of_has (λ (x : Schedule). x.id) b.schedule_id db.schedules (ground (arith, refers)) in
      let (tr, train) =
        row_of_has (λ (x : Train). x.id) s.train_id db.trains
          (All-get (λ (x : Schedule). x.id) b.schedule_id
            (λ (x : Schedule). has_row (λ (y : Train). y.id) x.train_id db.trains ≡ true)
            db.schedules t.trains schedule) in
      let (seat, held) =
        row_of_has (λ (x : Seat). x.id) b.seat_id db.seats (ground (arith, refers)) in
      let (c, compartment) =
        row_of_has (λ (x : Compartment). x.id) seat.compartment_id db.compartments
          (All-get (λ (x : Seat). x.id) b.seat_id
            (λ (x : Seat).
              has_row (λ (y : Compartment). y.id) x.compartment_id db.compartments ≡ true)
            db.seats t.compartments held) in
      (response b s tr seat c, ground (arith, schedule, train, held, compartment), refl)

  enrich_all_answers :
      (bs : List Booking)
      → All (λ b. booking_refs db b ≡ true) bs
      → (rs : List BookingResponse) × (enrich_all db bs ≡ ok rs)
        × (map (λ (r : BookingResponse). r.booking) rs ≡ bs)
  unfolding enrich_all
  enrich_all_answers [] h = ([], refl, refl)
  enrich_all_answers (b ∷ bs) h =
      let (r, one, its) = enrich_answers b h.0 in
      let (rs, others, theirs) = enrich_all_answers bs h.1 in
      (r ∷ rs, ground (arith, one, others), ground (arith, its, theirs))

  -- In valid tables the list of a user's bookings is always answered, and holds each booking of the
  -- user whose status the filter lets through, and no other, as often as the table does.
  pub list_bookings_answers :
      (order : NewestFirst) (user_id : ℕ) (status : Option String)
      → IsValid db
      → (rs : List BookingResponse) × (list_bookings order user_id status db ≡ ok rs)
        × ((q : Booking → Bool)
            → count_rows q (map (λ (r : BookingResponse). r.booking) rs)
              ≡ count_rows
                  (λ b. q b && ((b.user_id == user_id) && matches status b.status))
                  db.bookings)
  unfolding list_bookings list_user_bookings
  list_bookings_answers order user_id status v =
      let wanted = λ (b : Booking). (b.user_id == user_id) && matches status b.status in
      let found = select wanted db.bookings in
      let refers = all_pass (booking_refs db) (order.sort found) (
        order.count_rows-sort (λ b. not (booking_refs db b)) found
        ∙ none_misses (booking_refs db) found
            (All_select wanted (λ b. booking_refs db b ≡ true) db.bookings v.refer)) in
      let (rs, answered, theirs) = enrich_all_answers (order.sort found) refers in
      (
        rs,
        answered,
        λ q.
            ap (count_rows q) theirs
            ∙ order.count_rows-sort q found
            ∙ count_rows-select wanted q db.bookings,
      )

  -- In valid tables any signed-in user gets any booking with its details, of whoever it is.
  get_answers_anyone :
      (booking_id user_id : ℕ) (b : Booking)
      → IsValid db
      → get_row (λ x. x.id) booking_id db.bookings ≡ some b
      → (r : BookingResponse) × (get booking_id user_id db ≡ ok r) × (r.booking ≡ b)
  unfolding get get_booking
  get_answers_anyone booking_id user_id b v found =
      let (r, answered, its) = enrich_answers b (
        All-get (λ (x : Booking). x.id) booking_id (λ x. booking_refs db x ≡ true) db.bookings
          v.refer found) in
      let one =
        select_of_get (λ (x : Booking). x.id) booking_id db.bookings
          (AllPairs-map _ _ (λ x y h. ground arith) db.bookings v.distinct) found in
      (r, ground (arith, one, answered), its)

-- A booking that does not exist ends the request in an `AttributeError`, no 404.
pub get_missing :
    (db : Db) (booking_id user_id : ℕ)
    → has_row (λ x. x.id) booking_id db.bookings ≡ false
    → get booking_id user_id db ≡ err attribute_error
unfolding get get_booking
get_missing db booking_id user_id absent =
    ground (arith, absent-select (λ (b : Booking). b.id) booking_id db.bookings absent)
