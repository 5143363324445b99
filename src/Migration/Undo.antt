-- ===== src/Migration/Undo.antt =====
-- Taking back the statements of a migration, the last one first.
use railbook.Base.{
  ◌≡◌, refl, subst, String, Bool, true, false, not, List, [], ◌∷◌, ◌++◌, arith, inl, inr,
  Bool-cases, eq_text, eq_iff, sym,
}
use railbook.Base.Outcome.{ok, await-eq-ok}
use railbook.Base.Rows.{select, any_row, All}
use railbook.Base.Rows.Laws.{All-map}
use railbook.Base.Rows.Selects.{All_of_none}
use railbook.Migration.{
  Table, Index, Schema, Statement, create_table, create_index, drop_table, drop_index, has_table,
  has_index, refers_to, keys_exist, apply, apply_all,
}

-- The statement that takes a creation back.
abbrev pub undo : Statement → Statement
undo (create_table t) = drop_table t.name
undo (create_index i) = drop_index i.name
undo other = other

abbrev pub undo_all : List Statement → List Statement
undo_all [] = []
undo_all (c ∷ cs) = undo_all cs ++ undo c ∷ []

abbrev pub creates : Statement → Bool
creates (create_table _) = true
creates (create_index _) = true
creates _ = false

-- Foreign keys and indexes are of tables that are there.
pub record IsClosed (s : Schema) : Type 0 where
  pub keys : All (λ (t : Table). keys_exist t.foreign_keys s.tables ≡ true) s.tables
  pub indexed : All (λ (i : Index). has_table i.table s.tables ≡ true) s.indexes

keep_all {ℓ} :
    {A : Type ℓ} (p : A → Bool) (xs : List A) → All (λ x. p x ≡ true) xs → select p xs ≡ xs
keep_all p [] h = refl
keep_all p (x ∷ xs) h = ground (arith, h.0, keep_all p xs h.1)

same_text : (n : String) → eq_text n n ≡ true
same_text n = (eq_iff n n).1 refl

module _ (n : String) (ts : List Table) (new : has_table n ts ≡ false) where
  other_name : (m : String) → has_table m ts ≡ true → eq_text m n ≡ false
  other_name m old = elim (Bool-cases (eq_text m n)) [
    | inl same ↦
        let e : m ≡ n = (eq_iff m n).0 same in
        absurd (cc (new, subst (λ x. has_table x ts ≡ true) e old))
    | inr differs ↦ differs
  ]

  no_keys :
      (ks : List (String × String))
      → keys_exist ks ts ≡ true
      → any_row (λ (k : String × String). eq_text k.1 n) ks ≡ false
  no_keys [] h = refl
  no_keys (k ∷ ks) h = ground (arith, h, other_name k.1, no_keys ks)

  no_referrers :
      (xs : List Table)
      → All (λ (t : Table). keys_exist t.foreign_keys ts ≡ true) xs
      → any_row (refers_to n) xs ≡ false
  no_referrers [] h = refl
  no_referrers (x ∷ xs) h = ground (arith, no_keys x.foreign_keys h.0, no_referrers xs h.1)

  others_named : select (λ (t : Table). not (eq_text t.name n)) ts ≡ ts
  others_named =
      keep_all (λ (t : Table). not (eq_text t.name n)) ts
        (All-map (λ t. eq_text t.name n ≡ false) (λ t. not (eq_text t.name n) ≡ true)
          (λ t h. ground arith) ts (All_of_none (λ t. eq_text t.name n) ts new))

  others_indexed :
      (is : List Index)
      → All (λ (i : Index). has_table i.table ts ≡ true) is
      → select (λ (i : Index). not (eq_text i.table n)) is ≡ is
  others_indexed is h =
      keep_all (λ (i : Index). not (eq_text i.table n)) is
        (All-map (λ i. has_table i.table ts ≡ true) (λ i. not (eq_text i.table n) ≡ true)
          (λ i old. ground (arith, other_name i.table old)) is h)

keys_stay :
    (t : Table) (ts : List Table) (ks : List (String × String))
    → keys_exist ks ts ≡ true
    → keys_exist ks (t ∷ ts) ≡ true
keys_stay t ts [] h = refl
keys_stay t ts (k ∷ ks) h = ground (arith, h, keys_stay t ts ks)

table_created :
    (t : Table) (s : Schema) {s' : Schema}
    → apply (create_table t) s ≡ ok s'
    → (s' ≡ record s { tables = t ∷ s.tables })
      × (has_table t.name s.tables ≡ false)
      × (keys_exist t.foreign_keys s.tables ≡ true)
unfolding apply
table_created t s h = ground arith

index_created :
    (i : Index) (s : Schema) {s' : Schema}
    → apply (create_index i) s ≡ ok s'
    → (s' ≡ record s { indexes = i ∷ s.indexes })
      × (has_index i.name s.indexes ≡ false)
      × (has_table i.table s.tables ≡ true)
unfolding apply
index_created i s h = ground arith

-- A creation that went through is taken back by its opposite, and keeps the schema closed.
undo_one :
    (c : Statement) (s : Schema) {s' : Schema}
    → creates c ≡ true
    → IsClosed s
    → apply c s ≡ ok s'
    → (apply (undo c) s' ≡ ok s) × IsClosed s'
unfolding apply
undo_one (create_table t) s k z h =
    let (result, new, exist) = table_created t s h in
    rw
      (
        result,
        same_text t.name,
        no_keys t.name s.tables new t.foreign_keys exist,
        no_referrers t.name s.tables new s.tables z.keys,
        others_named t.name s.tables new,
        others_indexed t.name s.tables new s.indexes z.indexed,
      )
      (
        refl,
        record {
          keys = (
            keys_stay t s.tables t.foreign_keys exist,
            All-map _ _ (λ x old. keys_stay t s.tables x.foreign_keys old) s.tables z.keys,
          );
          indexed = All-map _ _ (λ i old. ground arith) s.indexes z.indexed;
        },
      )
undo_one (create_index i) s k z h =
    let (result, new, on) = index_created i s h in
    let others =
      keep_all (λ (x : Index). not (eq_text x.name i.name)) s.indexes
        (All-map (λ x. eq_text x.name i.name ≡ false) (λ x. not (eq_text x.name i.name) ≡ true)
          (λ x e. ground arith) s.indexes
          (All_of_none (λ x. eq_text x.name i.name) s.indexes new)) in
    rw (result, same_text i.name, others)
      (refl, record { keys = z.keys; indexed = (on, z.indexed) })
undo_one (drop_table n) s k z h = cc
undo_one (drop_index n) s k z h = cc

apply_last :
    (cs : List Statement) (c : Statement) (s : Schema) {s' s'' : Schema}
    → apply_all cs s ≡ ok s'
    → apply c s' ≡ ok s''
    → apply_all (cs ++ c ∷ []) s ≡ ok s''
unfolding apply_all
apply_last [] c s h e = ground (arith, h, e)
apply_last (d ∷ cs) c s h e =
    let (s₁, rest, first) = await-eq-ok (apply_all cs) (apply d s) h in
    ground (arith, first, apply_last cs c s₁ rest e)

pub undo_all_lem :
    (cs : List Statement) (s : Schema) {s' : Schema}
    → All (λ c. creates c ≡ true) cs
    → IsClosed s
    → apply_all cs s ≡ ok s'
    → apply_all (undo_all cs) s' ≡ ok s
unfolding apply_all
undo_all_lem [] s k z h = sym h
undo_all_lem (c ∷ cs) s k z h =
    let (s₁, rest, first) = await-eq-ok (apply_all cs) (apply c s) h in
    let (back, closed) = undo_one c s k.0 z first in
    apply_last (undo_all cs) (undo c) _ (undo_all_lem cs s₁ k.1 closed rest) back
