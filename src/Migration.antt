-- ===== src/Migration.antt =====
-- backend/migrations/versions/596377e27b70_initial_schema.py: the statements of `upgrade` and
-- `downgrade`, and what a database does with them. The names of the constraints, and the indexes that
-- the constraints make, are left out, and the autoincrement of the audit entries.
pub mod Tables
pub mod Initial
pub mod Undo
pub mod RoundTrip
use railbook.Base.{
  ℕ, String, Bool, true, false, not, ◌&&◌, ◌||◌, List, [], ◌∷◌, eq_text, if◌then◌else◌,
}
use railbook.Base.Outcome.{Result, ok, err, database_error, ◌>>=◌}
use railbook.Base.Rows.{select, any_row}

-- `now_default` has `server_default=sa.text('now()')`.
pub data ColumnType : Type 0 where
  uuid integer big_integer json date_time : ColumnType
  string : (length : ℕ) → ColumnType
  numeric : (precision scale : ℕ) → ColumnType
  now_default : ColumnType → ColumnType

pub data Column : Type 0 where
  required nullable : String → ColumnType → Column

-- A foreign key is a column, and the table whose `id` it refers to.
pub record Table : Type 0 where
  pub name : String
  pub columns : List Column
  pub foreign_keys : List (String × String)
  pub primary_key : String
  pub unique : List (List String)

pub record Index : Type 0 where
  pub name : String
  pub table : String
  pub columns : List String

pub data Statement : Type 0 where
  create_table : Table → Statement
  create_index : Index → Statement
  drop_table drop_index : String → Statement

-- The tables and the indexes, the latest first.
pub record Schema : Type 0 where
  pub tables : List Table
  pub indexes : List Index

abbrev pub has_table : String → List Table → Bool
has_table n ts = any_row (λ (t : Table). eq_text t.name n) ts

abbrev pub has_index : String → List Index → Bool
has_index n is = any_row (λ (i : Index). eq_text i.name n) is

abbrev pub refers_to : String → Table → Bool
refers_to n t = any_row (λ (k : String × String). eq_text k.1 n) t.foreign_keys

-- Every foreign key of a table refers to one of the tables.
abbrev pub keys_exist : List (String × String) → List Table → Bool
keys_exist [] ts = true
keys_exist (k ∷ ks) ts = has_table k.1 ts && keys_exist ks ts

-- A relation's name is taken by a table or by an index. A table is not dropped while another one
-- refers to it, and takes its indexes with it.
unfoldable pub apply : Statement → Schema → Result Schema
apply (create_table t) s =
    if (not (has_table t.name s.tables) && not (has_index t.name s.indexes))
      && keys_exist t.foreign_keys s.tables
    then ok (record s { tables = t ∷ s.tables })
    else err database_error
apply (create_index i) s =
    if (not (has_table i.name s.tables) && not (has_index i.name s.indexes))
      && has_table i.table s.tables
    then ok (record s { indexes = i ∷ s.indexes })
    else err database_error
apply (drop_table n) s =
    if has_table n s.tables && not (any_row (refers_to n) s.tables)
    then ok (record {
      tables = select (λ (t : Table). not (eq_text t.name n)) s.tables;
      indexes = select (λ (i : Index). not (eq_text i.table n)) s.indexes;
    })
    else err database_error
apply (drop_index n) s =
    if has_index n s.indexes
    then ok (record s { indexes = select (λ (i : Index). not (eq_text i.name n)) s.indexes })
    else err database_error

unfoldable pub apply_all : List Statement → Schema → Result Schema
unfolding apply
apply_all [] s = ok s
apply_all (c ∷ cs) s = do s' ← apply c s; apply_all cs s'
