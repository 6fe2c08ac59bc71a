-- ===== src/Repository.antt =====
-- The database as the program sees it. TypeORM and Postgres are not part of the repository, so one
-- table is a parameter: a record of the calls that the program makes, with what is documented of
-- each. `rows` is the table's content in the order in which a scan returns it.
pub mod Abstract
pub mod Effects
pub mod InMemory
use kab23_motorsport_telemet.Prelude.{
  ℕ, String, ◌≡◌, ◌⊎◌, Bool, Option, List, ◌∷◌, [], ◌++◌, select, find, any, count, reject, rewrite,
  ◌==◌, if◌then◌else◌,
}

-- What `save` of a new entity comes to: the row with its generated id, the error that a unique
-- index raises, or any other error.
pub data Saved (Row Table : Type 0) : Type 0 where
  saved : Row → Table → Saved Row Table
  unique_violation : Saved Row Table
  query_failed : Saved Row Table

abbrev pub map_table : {Row S T : Type 0} → (S → T) → Saved Row S → Saved Row T
map_table f (saved r s) = saved r (f s)
map_table f unique_violation = unique_violation
map_table f query_failed = query_failed

-- `id` is the primary key, and `clash` holds of two rows that a unique index keeps apart.
pub record Repository (Row : Type 0) (id : Row → String) (clash : Row → Row → Bool) : Type 1 where
  pub Table : Type 0
  pub rows : Table → List Row
  -- `find` and `findBy`
  pub find_by : (Row → Bool) → Table → List Row
  pub find_one : (Row → Bool) → Table → Option Row
  pub count_by : (Row → Bool) → Table → ℕ
  -- The generated id that the next new row gets.
  pub fresh : Table → String
  -- A new entity is a row that waits for its id.
  pub save : (String → Row) → Table → Saved Row Table
  -- The number of affected rows and the new table.
  pub update : (Row → Bool) → (Row → Row) → Table → ℕ × Table
  pub delete : (Row → Bool) → Table → ℕ × Table
  pub find_by_lem : (p : Row → Bool) (t : Table) → find_by p t ≡ select p (rows t)
  pub find_one_lem : (p : Row → Bool) (t : Table) → find_one p t ≡ find p (rows t)
  pub count_by_lem : (p : Row → Bool) (t : Table) → count_by p t ≡ count p (rows t)
  pub fresh_lem : (t : Table) → count (λ r. id r == fresh t) (rows t) ≡ 0
  pub save_lem :
      (e : String → Row) (t : Table)
      → (save e t ≡ query_failed)
        ⊎ (map_table rows (save e t) ≡ (
            if any (clash (e (fresh t))) (rows t)
            then unique_violation
            else saved (e (fresh t)) (rows t ++ e (fresh t) ∷ [])))
  pub update_count :
      (p : Row → Bool) (f : Row → Row) (t : Table) → (update p f t).0 ≡ count p (rows t)
  pub update_rows :
      (p : Row → Bool) (f : Row → Row) (t : Table) → rows (update p f t).1 ≡ rewrite p f (rows t)
  pub delete_count : (p : Row → Bool) (t : Table) → (delete p t).0 ≡ count p (rows t)
  pub delete_rows : (p : Row → Bool) (t : Table) → rows (delete p t).1 ≡ reject p (rows t)
