-- ===== src/Models/Timetable.antt =====
-- What backend/app/models.py lets into the tables of the timetable and of the users: primary keys,
-- unique columns and foreign keys, as for the bookings. A text is taken to fit its column: the
-- `DataError` of a `String(n)` that is too short is not modelled.
use railbook.Base.{Bool, not, ◌&&◌, ◌||◌, [], ◌∷◌, ◌++◌, ◌==◌, eq_text, if◌then◌else◌}
use railbook.Base.Outcome.{Result, ok, err, integrity_error}
use railbook.Base.Rows.{any_row, has_row}
use railbook.Models.{User, Train, Schedule, Compartment, Seat, Db}

-- Two rows that a table cannot hold together.
abbrev pub user_clash : User → User → Bool
user_clash a b = (a.id == b.id) || eq_text a.email b.email

abbrev pub train_clash : Train → Train → Bool
train_clash a b = (a.id == b.id) || eq_text a.train_number b.train_number

abbrev pub schedule_clash : Schedule → Schedule → Bool
schedule_clash a b =
    (a.id == b.id) || ((a.train_id == b.train_id) && (a.departure_time == b.departure_time))

abbrev pub seat_clash : Seat → Seat → Bool
seat_clash a b =
    (a.id == b.id) || ((a.compartment_id == b.compartment_id) && (a.seat_number == b.seat_number))

unfoldable pub insert_user : User → Db → Result Db
insert_user u db =
    if any_row (λ x. user_clash x u) db.users
    then err integrity_error
    else ok (record db { users = db.users ++ u ∷ [] })

unfoldable pub insert_train : Train → Db → Result Db
insert_train t db =
    if any_row (λ x. train_clash x t) db.trains
    then err integrity_error
    else ok (record db { trains = db.trains ++ t ∷ [] })

unfoldable pub insert_schedule : Schedule → Db → Result Db
insert_schedule s db =
    if has_row (λ (t : Train). t.id) s.train_id db.trains
      && not (any_row (λ x. schedule_clash x s) db.schedules)
    then ok (record db { schedules = db.schedules ++ s ∷ [] })
    else err integrity_error

unfoldable pub insert_compartment : Compartment → Db → Result Db
insert_compartment c db =
    if has_row (λ (t : Train). t.id) c.train_id db.trains
      && not (any_row (λ (x : Compartment). x.id == c.id) db.compartments)
    then ok (record db { compartments = db.compartments ++ c ∷ [] })
    else err integrity_error

unfoldable pub insert_seat : Seat → Db → Result Db
insert_seat s db =
    if has_row (λ (c : Compartment). c.id) s.compartment_id db.compartments
      && not (any_row (λ x. seat_clash x s) db.seats)
    then ok (record db { seats = db.seats ++ s ∷ [] })
    else err integrity_error
