-- ===== src/Bookings/Cleanup.antt =====
-- backend/app/bookings/cleanup.py. A pass is one transaction; `locked` says which bookings another
-- transaction holds, which the query skips. The endless loop with its pauses is a list of passes.
use railbook.Base.{ℕ, Bool, not, ◌&&◌, none, some, List, [], ◌∷◌}
use railbook.Base.Outcome.{Result, ok, err, ◌>>=◌}
use railbook.Base.Rows.{select}
use railbook.Models.{Action, Status, same_status, Booking, Db, expired}
use railbook.Models.Constraints.{update_booking}
use railbook.Audit.{log_audit}
use railbook.Bookings.Pay.{is_past, mark_cancelled}

-- `SYSTEM_USER_ID` of backend/app/seed.py, the UUID of zeros.
abbrev pub system_user_id : ℕ
system_user_id = 0

-- `Booking.status == "reserved", Booking.expires_at < func.now()`
abbrev pub is_expired : ℕ → Booking → Bool
is_expired now b = same_status b.status Status.reserved && is_past b.expires_at now

-- The body of the `for` over the expired bookings.
unfoldable pub release : (now : ℕ) → Booking → Db → Result Db
release now booking db =
    log_audit booking.id system_user_id Action.expired_cleanup (some Status.reserved)
      Status.cancelled (some (expired booking.expires_at 300)) none now
      (update_booking booking.id (mark_cancelled now) db)

unfoldable pub release_all : (now : ℕ) → List Booking → Db → Result Db
release_all now [] db = ok db
release_all now (booking ∷ rest) db = release now booking db >>= λ db₁. release_all now rest db₁

abbrev pub expired_rows : (now : ℕ) (locked : ℕ → Bool) → Db → List Booking
expired_rows now locked db = select (λ b. is_expired now b && not (locked b.id)) db.bookings

-- `except Exception: logger.exception(…)`: the transaction is rolled back, and the loop goes on.
abbrev pub committed : Result Db → Db → Db
committed (ok db') db = db'
committed (err e) db = db

unfoldable pub cleanup_pass : (now : ℕ) (locked : ℕ → Bool) → Db → Db
unfolding release_all
cleanup_pass now locked db = committed (release_all now (expired_rows now locked db) db) db

-- The passes so far, each with its time and its locks.
unfoldable pub cleanup_expired_reservations : List (ℕ × (ℕ → Bool)) → Db → Db
unfolding cleanup_pass
cleanup_expired_reservations [] db = db
cleanup_expired_reservations ((now, locked) ∷ passes) db =
    cleanup_expired_reservations passes (cleanup_pass now locked db)
