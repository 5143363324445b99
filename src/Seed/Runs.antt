-- ===== src/Seed/Runs.antt =====
-- What a seeding that is answered has done.
use railbook.Base.{
  ℕ, zero, suc, ◌+◌, ◌≡◌, ◌<◌, ◌*◌, refl, subst, String, some, List, [], ◌∷◌, arith, true,
}
use railbook.Base.Outcome.{ok, value_error, key_error, await-eq-ok, or_raise}
use railbook.Base.Rows.{length, has_row, All}
use railbook.Models.{Train, Schedule, Db}
use railbook.Auth.{Bcrypt}
use railbook.Integrity.{IsValid, TimetableIsValid}
use railbook.Integrity.Growth.{Grows, Grows-refl, Grows-IsValid}
use railbook.Integrity.Growth.Inserts.{
  Adds, Adds-refl, Adds-trans, Adds-resize, insert_user-Adds, insert_train-Adds,
  insert_schedule-Adds, insert_compartment-Adds, insert_seat-Adds,
}
use railbook.Seed.{
  TrainSpec, UserSpec, at_hour, trains_to_seed, compartments_to_seed, users_to_seed,
  departure_hours, journey_hours, add_users, add_seats, add_compartments, add_schedules, add_trains,
  seed_rows, seed_database,
}

-- A journey after `now`.
abbrev pub Upcoming : ℕ → Schedule → Type 0
Upcoming now s = (now < s.departure_time) × (s.departure_time < s.arrival_time)

nothing_added :
    (P : Schedule → Type 0) (db : Db) {db' : Db} → ok db ≡ ok db' → Adds P 0 0 0 0 0 db db'
nothing_added P db {db'} h = subst (Adds P 0 0 0 0 0 db) (ground arith) (Adds-refl P db)

module _ (bcrypt : Bcrypt) (ids salts : ℕ → ℕ) (now tx_time : ℕ) where
  add_seats-Adds :
      (P : Schedule → Type 0) (compartment_id i n left : ℕ) (db : Db) {db' : Db}
      → add_seats bcrypt ids salts now tx_time compartment_id i n left db ≡ ok db'
      → Adds P 0 0 0 left 0 db db'
  unfolding add_seats
  add_seats-Adds P c i n zero db h = nothing_added P db h
  add_seats-Adds P c i n (suc left) db {db'} h =
      let (db₁, rest, first) = await-eq-ok _ _ h in
      Adds-resize (omega arith) (omega arith) (omega arith) (omega arith) (omega arith) (
        Adds-trans (insert_seat-Adds P db _ first)
          (add_seats-Adds P c (i + 1) (n + 1) left db₁ rest))

  add_compartments-Adds :
      (P : Schedule → Type 0) (train_id i : ℕ) (cs : List (String × String)) (db : Db) {db' : Db}
      → add_compartments bcrypt ids salts now tx_time train_id i cs db ≡ ok db'
      → Adds P 0 0 (length cs) (25 * length cs) 0 db db'
  unfolding add_compartments
  add_compartments-Adds P t i [] db {db'} h = nothing_added P db h
  add_compartments-Adds P t i ((name, comp_type) ∷ cs) db {db'} h =
      let (db₁, rest₁, first) = await-eq-ok _ _ h in
      let (db₂, rest₂, second) = await-eq-ok _ _ rest₁ in
      Adds-resize (omega arith) (omega arith) (omega arith) (omega arith) (omega arith) (
        Adds-trans (insert_compartment-Adds P db _ first) (
          Adds-trans (add_seats-Adds P (ids i) (i + 1) 1 25 db₁ second)
            (add_compartments-Adds P t (i + 26) cs db₂ rest₂)))

  departs_later : (d h m : ℕ) → now < at_hour now (d + 1) h m
  departs_later d h m = omega arith

  add_schedules-Adds :
      (train_id i h m duration d left : ℕ) (db : Db) {db' : Db}
      → 0 < duration
      → add_schedules bcrypt ids salts now tx_time train_id i h m duration d left db ≡ ok db'
      → Adds (Upcoming now) 0 0 0 0 left db db'
  unfolding add_schedules
  add_schedules-Adds t i h m duration d zero db {db'} lasts e = nothing_added (Upcoming now) db e
  add_schedules-Adds t i h m duration d (suc left) db {db'} lasts e =
      let (db₁, rest, first) = await-eq-ok _ _ e in
      Adds-resize (omega arith) (omega arith) (omega arith) (omega arith) (omega arith) (
        Adds-trans
          (insert_schedule-Adds (Upcoming now) db _ (departs_later d h m, omega (arith, lasts))
            first)
          (add_schedules-Adds t (i + 1) h m duration (d + 1) left db₁ lasts rest))

  journey_lasts : (number : String) (n : ℕ) → journey_hours number ≡ some n → 0 < n
  journey_lasts number n h = ground arith

  add_trains-Adds :
      (i : ℕ) (ts : List TrainSpec) (db : Db) {db' : Db}
      → add_trains bcrypt ids salts now tx_time i ts db ≡ ok db'
      → let n = length ts in Adds (Upcoming now) 0 n (2 * n) (50 * n) (7 * n) db db'
  unfolding add_trains
  add_trains-Adds i [] db h = nothing_added (Upcoming now) db h
  add_trains-Adds i (t ∷ ts) db {db'} h =
      let (db₁, rest₁, first) = await-eq-ok _ _ h in
      let (db₂, rest₂, second) = await-eq-ok _ _ rest₁ in
      let (hm, rest₃, third) =
        await-eq-ok _ (or_raise (departure_hours t.train_number) key_error) rest₂ in
      let (duration, rest₄, fourth) =
        await-eq-ok _ (or_raise (journey_hours t.train_number) key_error) rest₃ in
      let (db₃, rest₅, fifth) = await-eq-ok _ _ rest₄ in
      Adds-resize (omega arith) (omega arith) (omega arith) (omega arith) (omega arith) (
        Adds-trans (insert_train-Adds (Upcoming now) db _ first) (
          Adds-trans
            (add_compartments-Adds (Upcoming now) (ids i) (i + 1) compartments_to_seed db₁ second)
            (Adds-trans
              (add_schedules-Adds (ids i) (i + 53) hm.0 hm.1 duration 0 7 db₂
                (journey_lasts t.train_number duration (ground (arith, fourth))) fifth)
              (add_trains-Adds (i + 60) ts db₃ rest₅))))

  add_users-Adds :
      (P : Schedule → Type 0) (i : ℕ) (us : List UserSpec) (db : Db) {db' : Db}
      → add_users bcrypt ids salts now tx_time i us db ≡ ok db'
      → Adds P (length us) 0 0 0 0 db db'
  unfolding add_users
  add_users-Adds P i [] db h = nothing_added P db h
  add_users-Adds P i (u ∷ us) db {db'} h =
      let (hash, rest₁, first) =
        await-eq-ok _ (or_raise (bcrypt.hashpw u.password (salts i)) value_error) h in
      let (db₁, rest₂, second) = await-eq-ok _ _ rest₁ in
      Adds-resize (omega arith) (omega arith) (omega arith) (omega arith) (omega arith)
        (Adds-trans (insert_user-Adds P db _ second) (add_users-Adds P (i + 1) us db₁ rest₂))

  no_schedules : (db : Db) → TimetableIsValid db → db.trains ≡ [] → All (Upcoming now) db.schedules
  no_schedules db t none_yet = go db.schedules (
      subst
        (λ ts.
          All (λ (s : Schedule). has_row (λ (x : Train). x.id) s.train_id ts ≡ true) db.schedules)
        none_yet t.trains)
    where
      go :
          (ss : List Schedule)
          → All (λ s. has_row (λ (x : Train). x.id) s.train_id [] ≡ true) ss
          → All (Upcoming now) ss
      go [] h = tt
      go (s ∷ ss) h = cc

  seed_rows-Adds :
      (db : Db) {db' : Db}
      → seed_rows bcrypt ids salts now tx_time db ≡ ok db'
      → Adds (Upcoming now) 4 3 6 150 21 db db'
  unfolding seed_rows
  seed_rows-Adds db {db'} h =
      let (db₁, rest₁, first) = await-eq-ok _ _ h in
      let (db₂, rest₂, second) = await-eq-ok _ _ rest₁ in
      Adds-trans (add_users-Adds (Upcoming now) 0 users_to_seed db first) (
        Adds-trans (insert_user-Adds (Upcoming now) db₁ _ second)
          (add_trains-Adds 3 trains_to_seed db₂ rest₂))

  pub seed_database-Grows :
      (db : Db) {db' : Db} → seed_database bcrypt ids salts now tx_time db ≡ ok db' → Grows db db'
  unfolding seed_database
  seed_database-Grows db {db'} h = go db.trains refl
    where
      go : (ts : List Train) → db.trains ≡ ts → Grows db db'
      go [] e = (seed_rows-Adds db (ground (arith, e, h))).grows
      go (t ∷ ts) e = subst (Grows db) (ground (arith, e, h)) (Grows-refl db)

  pub seed_database_keeps :
      (db : Db) {db' : Db}
      → IsValid db
      → seed_database bcrypt ids salts now tx_time db ≡ ok db'
      → IsValid db'
  seed_database_keeps db {db'} v h = Grows-IsValid db db' (seed_database-Grows db h) v

  pub seed_database-refers :
      (db : Db) {db' : Db}
      → TimetableIsValid db
      → seed_database bcrypt ids salts now tx_time db ≡ ok db'
      → TimetableIsValid db'
  unfolding seed_database
  seed_database-refers db {db'} t h = go db.trains refl
    where
      go : (ts : List Train) → db.trains ≡ ts → TimetableIsValid db'
      go [] e = (seed_rows-Adds db (ground (arith, e, h))).refers t
      go (x ∷ ts) e = subst TimetableIsValid (ground (arith, e, h)) t

  -- From valid tables without trains, a seeding that is answered ends in valid tables whose seats and
  -- schedules have their compartments and trains; it has added three trains with 6 compartments, 150
  -- seats and 21 schedules, every one of them a journey after the seeding, and four users. Another
  -- seeding, at any time, changes nothing.
  pub seed_database-IsValid :
      (db : Db) {db' : Db} (ids' salts' : ℕ → ℕ) (later tx_time' : ℕ)
      → IsValid db
      → TimetableIsValid db
      → db.trains ≡ []
      → seed_database bcrypt ids salts now tx_time db ≡ ok db'
      → IsValid db'
        × TimetableIsValid db'
        × (length db'.trains ≡ 3)
        × (length db'.compartments ≡ length db.compartments + 6)
        × (length db'.seats ≡ length db.seats + 150)
        × (length db'.schedules ≡ length db.schedules + 21)
        × (length db'.users ≡ length db.users + 4)
        × All (Upcoming now) db'.schedules
        × (seed_database bcrypt ids' salts' later tx_time' db' ≡ ok db')
  unfolding seed_database
  seed_database-IsValid db {db'} ids' salts' later tx_time' v t none_yet h =
      let a : Adds (Upcoming now) 4 3 6 150 21 db db' =
        seed_rows-Adds db (ground (arith, none_yet, h)) in
      (
        Grows-IsValid db db' a.grows v,
        a.refers t,
        ground (arith, a.n_trains, none_yet),
        a.n_compartments,
        a.n_seats,
        a.n_schedules,
        a.n_users,
        a.schedules (no_schedules db t none_yet),
        ground (arith, a.n_trains, none_yet),
      )
