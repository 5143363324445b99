-- ===== src/Trains/Offers.antt =====
-- The seats of the schedules that are listed.
use railbook.Base.{ℕ, ◌≡◌, ◌≢◌, refl, ◌∙◌, Bool, Option, none, some, arith, ◌==◌}
use railbook.Base.Outcome.{ok}
use railbook.Base.Rows.{select, count_rows, get_row}
use railbook.Base.Rows.Laws.{key_of_get}
use railbook.Base.Rows.Keys.{row_of_count}
use railbook.Base.Rows.Selects.{count_rows-select}
use railbook.Models.{Train, Schedule, Db}
use railbook.Redis.{Redis, Json}
use railbook.Integrity.{TimetableIsValid}
use railbook.Trains.{
  SeatAvailability, OrderBy, read_cache, get_seat_availability, query, payload, join_seats,
}
use railbook.Trains.Lists.{Ordering, is_coming, list_schedules, get_seats}

-- The schedules with an id in a list.
abbrev pub with_id : ℕ → Schedule → Bool
with_id k s = s.id == k

-- With a valid timetable, the seats of every schedule that is listed for a train are answered, where
-- the cache has none of them: with the name of the train, and no 404.
pub list_schedules-get_seats :
    (R : Redis) (json : Json SeatAvailability) (order : OrderBy) (by_departure : Ordering Schedule)
    (db : Db) (train_id now k from to : ℕ) (train : Train) (redis : Option R.State)
    → TimetableIsValid db
    → get_row (λ t. t.id) train_id db.trains ≡ some train
    → count_rows (with_id k) (list_schedules by_departure train_id now db) ≢ 0
    → read_cache R json redis from k ≡ none
    → (p : SeatAvailability) × ((get_seats R json order db k redis from to).0 ≡ ok p)
      × (p.schedule_id ≡ k)
      × (p.train_name ≡ train.name)
unfolding list_schedules get_seats get_seat_availability query
list_schedules-get_seats R json order by_departure db train_id now k from to train redis t found
      listed fresh =
    let coming = is_coming train_id now in
    let counted =
      by_departure.count_rows-sort (with_id k) (select coming db.schedules)
      ∙ count_rows-select coming (with_id k) db.schedules in
    let (s, scheduled, passes) =
      row_of_count (λ x. x.id) k coming db.schedules t.schedules
        (λ none_listed. listed (counted ∙ none_listed)) in
    (
      payload s train (order.sort (join_seats db s db.seats)),
      ground (arith, scheduled, passes, found, fresh),
      key_of_get (λ (x : Schedule). x.id) k db.schedules scheduled,
      refl,
    )
