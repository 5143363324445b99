-- ===== src/Migration/RoundTrip.antt =====
-- The upgrade of the initial schema, and its downgrade.
use railbook.Base.{◌≡◌, refl, String, false, List, [], ◌∷◌}
use railbook.Base.Outcome.{ok}
use railbook.Base.Rows.{All}
use railbook.Migration.{
  Index, Schema, Statement, create_table, create_index, has_table, has_index, apply, apply_all,
}
use railbook.Migration.Tables.{
  trains, users, compartments, schedules, seats, bookings, audit_trail, payments,
}
use railbook.Migration.Initial.{upgrade, downgrade}
use railbook.Migration.Undo.{IsClosed, undo_all_lem}

-- The names of the relations that a statement creates.
abbrev pub created_names : List Statement → List String
created_names [] = []
created_names (create_table t ∷ cs) = t.name ∷ created_names cs
created_names (create_index i ∷ cs) = i.name ∷ created_names cs
created_names (_ ∷ cs) = created_names cs

abbrev pub created_indexes : List Statement → List Index → List Index
created_indexes [] is = is
created_indexes (create_index i ∷ cs) is = created_indexes cs (i ∷ is)
created_indexes (_ ∷ cs) is = created_indexes cs is

-- The schema after `upgrade`.
abbrev pub upgraded : Schema → Schema
upgraded s = record {
  tables =
      payments ∷ audit_trail ∷ bookings ∷ seats ∷ schedules ∷ compartments ∷ users ∷ trains
      ∷ s.tables;
  indexes = created_indexes upgrade s.indexes;
}

abbrev pub IsFree : Schema → String → Type 0
IsFree s n = (has_table n s.tables ≡ false) × (has_index n s.indexes ≡ false)

upgrades :
    (s : Schema) → All (IsFree s) (created_names upgrade) → apply_all upgrade s ≡ ok (upgraded s)
unfolding apply_all apply
upgrades s f =
    rw
      (
        f.0.0, f.0.1, f.1.0.0, f.1.0.1, f.1.1.0.0, f.1.1.0.1, f.1.1.1.0.0, f.1.1.1.0.1,
        f.1.1.1.1.0.0, f.1.1.1.1.0.1, f.1.1.1.1.1.0.0, f.1.1.1.1.1.0.1, f.1.1.1.1.1.1.0.0,
        f.1.1.1.1.1.1.0.1, f.1.1.1.1.1.1.1.0.0, f.1.1.1.1.1.1.1.0.1, f.1.1.1.1.1.1.1.1.0.0,
        f.1.1.1.1.1.1.1.1.0.1, f.1.1.1.1.1.1.1.1.1.0.0, f.1.1.1.1.1.1.1.1.1.0.1,
        f.1.1.1.1.1.1.1.1.1.1.0.0, f.1.1.1.1.1.1.1.1.1.1.0.1, f.1.1.1.1.1.1.1.1.1.1.1.0.0,
        f.1.1.1.1.1.1.1.1.1.1.1.0.1,
      )
      refl

-- In a database whose foreign keys and indexes are of tables that are there, and where the names of
-- the migration are free, the upgrade goes through whatever else the database holds; and the
-- downgrade after it goes through, and gives back the schema from before.
pub downgrade-upgrade :
    (s : Schema)
    → IsClosed s
    → All (IsFree s) (created_names upgrade)
    → (apply_all upgrade s ≡ ok (upgraded s)) × (apply_all downgrade (upgraded s) ≡ ok s)
downgrade-upgrade s z f = (
  upgrades s f,
  undo_all_lem upgrade s
      (
        refl,
        (refl, (refl, (refl, (refl, (refl, (refl, (refl, (refl, (refl, (refl, (refl, tt))))))))))),
      )
      z (upgrades s f),
)
