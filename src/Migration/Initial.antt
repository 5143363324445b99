-- ===== src/Migration/Initial.antt =====
-- `upgrade` and `downgrade` of the initial schema.
use railbook.Base.{List, [], ◌∷◌}
use railbook.Migration.{Statement, create_table, create_index, drop_table, drop_index}
use railbook.Migration.Tables.{
  trains, users, compartments, schedules, seats, bookings, audit_trail, payments,
}

abbrev pub upgrade : List Statement
upgrade =
    create_table trains
    ∷ create_table users
    ∷ create_table compartments
    ∷ create_table schedules
    ∷ create_table seats
    ∷ create_table bookings
    ∷ create_index (record {
      name = "ix_bookings_schedule_seat";
      table = "bookings";
      columns = "schedule_id" ∷ "seat_id" ∷ [];
    })
    ∷ create_index
        (record { name = "ix_bookings_status"; table = "bookings"; columns = "status" ∷ [] })
    ∷ create_index
        (record { name = "ix_bookings_user_id"; table = "bookings"; columns = "user_id" ∷ [] })
    ∷ create_table audit_trail
    ∷ create_index (record {
      name = "ix_audit_booking_created";
      table = "audit_trail";
      columns = "booking_id" ∷ "created_at" ∷ [];
    })
    ∷ create_table payments
    ∷ []

abbrev pub downgrade : List Statement
downgrade =
    drop_table "payments"
    ∷ drop_index "ix_audit_booking_created"
    ∷ drop_table "audit_trail"
    ∷ drop_index "ix_bookings_user_id"
    ∷ drop_index "ix_bookings_status"
    ∷ drop_index "ix_bookings_schedule_seat"
    ∷ drop_table "bookings"
    ∷ drop_table "seats"
    ∷ drop_table "schedules"
    ∷ drop_table "compartments"
    ∷ drop_table "users"
    ∷ drop_table "trains"
    ∷ []
