-- ===== src/Integrity/Growth/Inserts.antt =====
-- Each INSERT of the users and of the timetable lets the tables grow, and keeps the foreign keys.
use railbook.Base.{ℕ, ◌+◌, ◌≡◌, refl, true, false, List, [], ◌∷◌, ◌++◌, ◌==◌, arith}
use railbook.Base.Outcome.{ok}
use railbook.Base.Rows.{length, has_row, any_row, All}
use railbook.Base.Rows.Laws.{All-map, All-append, AllPairs-append, has_row-append}
use railbook.Base.Rows.Selects.{length_more}
use railbook.Models.{User, Train, Schedule, Compartment, Seat, Db}
use railbook.Models.Timetable.{
  insert_user, insert_train, insert_schedule, insert_compartment, insert_seat, schedule_clash,
}
use railbook.Integrity.{TimetableIsValid}
use railbook.Integrity.Growth.{Grows, Grows-refl, Grows-trans, get_row_first}

-- What statements that add rows have done: the tables have grown by so many users, trains,
-- compartments, seats and schedules, they refer as they did, and the schedules are still such as `P`.
pub record Adds (P : Schedule → Type 0) (u t c s d : ℕ) (db db' : Db) : Type 0 where
  pub grows : Grows db db'
  pub refers : TimetableIsValid db → TimetableIsValid db'
  pub schedules : All P db.schedules → All P db'.schedules
  pub n_users : length db'.users ≡ length db.users + u
  pub n_trains : length db'.trains ≡ length db.trains + t
  pub n_compartments : length db'.compartments ≡ length db.compartments + c
  pub n_seats : length db'.seats ≡ length db.seats + s
  pub n_schedules : length db'.schedules ≡ length db.schedules + d

pub Adds-refl : (P : Schedule → Type 0) (db : Db) → Adds P 0 0 0 0 0 db db
Adds-refl P db = record {
  grows = Grows-refl db;
  refers = λ f. f;
  schedules = λ f. f;
  n_users = omega arith;
  n_trains = omega arith;
  n_compartments = omega arith;
  n_seats = omega arith;
  n_schedules = omega arith;
}

pub Adds-resize :
    {P : Schedule → Type 0} {u t c s d u' t' c' s' d' : ℕ} {db db' : Db}
    → u ≡ u'
    → t ≡ t'
    → c ≡ c'
    → s ≡ s'
    → d ≡ d'
    → Adds P u t c s d db db'
    → Adds P u' t' c' s' d' db db'
Adds-resize eu et ec es ed a = rw⁻¹ (eu, et, ec, es, ed) a

module _ {P : Schedule → Type 0} {u t c s d u' t' c' s' d' : ℕ} {db₀ db₁ db₂ : Db} where
  pub Adds-trans :
      Adds P u t c s d db₀ db₁
      → Adds P u' t' c' s' d' db₁ db₂
      → Adds P (u + u') (t + t') (c + c') (s + s') (d + d') db₀ db₂
  Adds-trans a b = record {
    grows = Grows-trans db₀ db₁ db₂ a.grows b.grows;
    refers = λ f. b.refers (a.refers f);
    schedules = λ f. b.schedules (a.schedules f);
    n_users = omega (arith, a.n_users, b.n_users);
    n_trains = omega (arith, a.n_trains, b.n_trains);
    n_compartments = omega (arith, a.n_compartments, b.n_compartments);
    n_seats = omega (arith, a.n_seats, b.n_seats);
    n_schedules = omega (arith, a.n_schedules, b.n_schedules);
  }

pub users-Grows : (db : Db) (u : User) → Grows db (record db { users = db.users ++ u ∷ [] })
users-Grows db u = record {
  users = λ k h. ground (arith, h, has_row-append (λ (x : User). x.id) k db.users u);
  schedules = λ k h. h;
  compartments = λ k h. h;
  seats = λ k h. h;
  bookings = refl;
  payments = refl;
  audit_trail = refl;
}

none_clashes :
    (s : Schedule) (xs : List Schedule)
    → any_row (λ x. schedule_clash x s) xs ≡ false
    → All (λ x. (x.id == s.id) ≡ false) xs
none_clashes s [] h = tt
none_clashes s (x ∷ xs) h = (ground arith, none_clashes s xs (ground arith))

module _ (P : Schedule → Type 0) (db : Db) where
  pub insert_user-Adds : (u : User) {db' : Db} → insert_user u db ≡ ok db' → Adds P 1 0 0 0 0 db db'
  unfolding insert_user
  insert_user-Adds u {db'} h = rw result (record {
    grows = users-Grows db u;
    refers =
        λ t. record { trains = t.trains; compartments = t.compartments; schedules = t.schedules };
    schedules = λ f. f;
    n_users = length_more db.users u;
    n_trains = omega arith;
    n_compartments = omega arith;
    n_seats = omega arith;
    n_schedules = omega arith;
  })
    where
      result : db' ≡ record db { users = db.users ++ u ∷ [] }
      result = ground arith

  pub insert_train-Adds :
      (t : Train) {db' : Db} → insert_train t db ≡ ok db' → Adds P 0 1 0 0 0 db db'
  unfolding insert_train
  insert_train-Adds t {db'} h = rw result (record {
    grows = record {
      users = λ k f. f;
      schedules = λ k f. f;
      compartments = λ k f. f;
      seats = λ k f. f;
      bookings = refl;
      payments = refl;
      audit_trail = refl;
    };
    refers = λ f. record {
      trains =
          All-map (λ (x : Schedule). has_row (λ (y : Train). y.id) x.train_id db.trains ≡ true)
            (λ (x : Schedule).
              has_row (λ (y : Train). y.id) x.train_id (db.trains ++ t ∷ []) ≡ true)
            (λ x old.
              ground (arith, old, has_row-append (λ (y : Train). y.id) x.train_id db.trains t))
            db.schedules f.trains;
      compartments = f.compartments;
      schedules = f.schedules;
    };
    schedules = λ f. f;
    n_users = omega arith;
    n_trains = length_more db.trains t;
    n_compartments = omega arith;
    n_seats = omega arith;
    n_schedules = omega arith;
  })
    where
      result : db' ≡ record db { trains = db.trains ++ t ∷ [] }
      result = ground arith

  pub insert_schedule-Adds :
      (s : Schedule) {db' : Db} → P s → insert_schedule s db ≡ ok db' → Adds P 0 0 0 0 1 db db'
  unfolding insert_schedule
  insert_schedule-Adds s {db'} ps h = rw result (record {
    grows = record {
      users = λ k f. f;
      schedules = λ k f. get_row_first (λ (x : Schedule). x.id) k db.schedules s f;
      compartments = λ k f. f;
      seats = λ k f. f;
      bookings = refl;
      payments = refl;
      audit_trail = refl;
    };
    refers = λ f. record {
      trains =
          All-append (λ (x : Schedule). has_row (λ (y : Train). y.id) x.train_id db.trains ≡ true)
            db.schedules s f.trains (ground arith);
      compartments = f.compartments;
      schedules =
          AllPairs-append _ db.schedules s f.schedules (none_clashes s db.schedules (ground arith));
    };
    schedules = λ f. All-append P db.schedules s f ps;
    n_users = omega arith;
    n_trains = omega arith;
    n_compartments = omega arith;
    n_seats = omega arith;
    n_schedules = length_more db.schedules s;
  })
    where
      result : db' ≡ record db { schedules = db.schedules ++ s ∷ [] }
      result = ground arith

  pub insert_compartment-Adds :
      (c : Compartment) {db' : Db} → insert_compartment c db ≡ ok db' → Adds P 0 0 1 0 0 db db'
  unfolding insert_compartment
  insert_compartment-Adds c {db'} h = rw result (record {
    grows = record {
      users = λ k f. f;
      schedules = λ k f. f;
      compartments = λ k f. get_row_first (λ (x : Compartment). x.id) k db.compartments c f;
      seats = λ k f. f;
      bookings = refl;
      payments = refl;
      audit_trail = refl;
    };
    refers = λ f. record {
      trains = f.trains;
      schedules = f.schedules;
      compartments =
          All-map
            (λ (x : Seat).
              has_row (λ (y : Compartment). y.id) x.compartment_id db.compartments ≡ true)
            (λ (x : Seat).
              has_row (λ (y : Compartment). y.id) x.compartment_id (db.compartments ++ c ∷ [])
              ≡ true)
            (λ x old. ground (
              arith,
              old,
              has_row-append (λ (y : Compartment). y.id) x.compartment_id db.compartments c,
            ))
            db.seats f.compartments;
    };
    schedules = λ f. f;
    n_users = omega arith;
    n_trains = omega arith;
    n_compartments = length_more db.compartments c;
    n_seats = omega arith;
    n_schedules = omega arith;
  })
    where
      result : db' ≡ record db { compartments = db.compartments ++ c ∷ [] }
      result = ground arith

  pub insert_seat-Adds : (s : Seat) {db' : Db} → insert_seat s db ≡ ok db' → Adds P 0 0 0 1 0 db db'
  unfolding insert_seat
  insert_seat-Adds s {db'} h = rw result (record {
    grows = record {
      users = λ k f. f;
      schedules = λ k f. f;
      compartments = λ k f. f;
      seats = λ k f. get_row_first (λ (x : Seat). x.id) k db.seats s f;
      bookings = refl;
      payments = refl;
      audit_trail = refl;
    };
    refers = λ f. record {
      trains = f.trains;
      schedules = f.schedules;
      compartments =
          All-append
            (λ (x : Seat).
              has_row (λ (y : Compartment). y.id) x.compartment_id db.compartments ≡ true)
            db.seats s f.compartments (ground arith);
    };
    schedules = λ f. f;
    n_users = omega arith;
    n_trains = omega arith;
    n_compartments = omega arith;
    n_seats = length_more db.seats s;
    n_schedules = omega arith;
  })
    where
      result : db' ≡ record db { seats = db.seats ++ s ∷ [] }
      result = ground arith
