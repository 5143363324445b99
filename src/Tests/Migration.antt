-- ===== src/Tests/Migration.antt =====
-- The theorem on the migration at a concrete input: a database with the table of the migration tool.
use railbook.Base.{◌≡◌, refl, [], ◌∷◌}
use railbook.Base.Outcome.{ok}
use railbook.Migration.{Schema, string, required, apply_all}
use railbook.Migration.Initial.{upgrade, downgrade}
use railbook.Migration.RoundTrip.{upgraded, downgrade-upgrade}

abbrev before : Schema
before = record {
  tables =
      record {
        name = "alembic_version";
        columns = required "version_num" (string 32) ∷ [];
        foreign_keys = [];
        primary_key = "version_num";
        unique = [];
      }
      ∷ [];
  indexes = [];
}

downgrade-upgrade_example :
    (apply_all upgrade before ≡ ok (upgraded before))
    × (apply_all downgrade (upgraded before) ≡ ok before)
downgrade-upgrade_example =
    downgrade-upgrade before (record { keys = (refl, tt); indexed = tt })
      (
        (refl, refl),
        (
          (refl, refl),
          (
            (refl, refl),
            (
              (refl, refl),
              (
                (refl, refl),
                (
                  (refl, refl),
                  (
                    (refl, refl),
                    (
                      (refl, refl),
                      ((refl, refl), ((refl, refl), ((refl, refl), ((refl, refl), tt)))),
                    ),
                  ),
                ),
              ),
            ),
          ),
        ),
      )
