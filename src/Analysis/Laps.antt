-- ===== src/Analysis/Laps.antt =====
-- lap.entity.ts and laps.repository.ts: the stored laps. The table is a parameter, with what Postgres
-- documents of the statements: an insert that fails, or a transaction, leaves the table as it was.
-- `id` is left out: nothing reads it.
use kab23_motorsport_telemet.Prelude.{
  ℕ, String, Bool, ◌&&◌, ◌≡◌, List, [], ◌∷◌, ◌++◌, Option, some, any, count, find, reject, ◌==◌,
  ◌=ⁿ◌, if◌then◌else◌,
}
use kab23_motorsport_telemet.Analysis.Points.{BrakingPoint}

pub record Lap (F : Type 0) : Type 0 where
  pub session_id : String
  pub lap_number : ℕ
  pub started_at : F
  pub ended_at : F
  pub lap_ms : F
  pub distance_m : F
  pub max_speed_kmh : Option F
  pub min_speed_kmh : Option F
  pub sector_ms : List F
  pub braking_points : List (BrakingPoint F)
  pub is_best : Bool

module _ {F : Type 0} where
  abbrev pub of_session : String → Lap F → Bool
  of_session session_id l = l.session_id == session_id

  -- What the unique index keeps apart.
  abbrev pub same_lap : Lap F → Lap F → Bool
  same_lap a b = a.session_id == b.session_id && a.lap_number =ⁿ b.lap_number

  abbrev pub is_numbered : String → ℕ → Lap F → Bool
  is_numbered session_id number l = l.session_id == session_id && l.lap_number =ⁿ number

  -- `INSERT … ON CONFLICT DO NOTHING`
  unfoldable pub insert_new : List (Lap F) → List (Lap F) → List (Lap F)
  insert_new [] rows = rows
  insert_new (l ∷ ls) rows = insert_new ls (if any (same_lap l) rows then rows else rows ++ l ∷ [])

pub record LapsTable (F : Type 0) : Type 1 where
  pub Table : Type 0
  pub rows : Table → List (Lap F)
  -- The laps of a session, by their numbers.
  pub find_by_session : String → Table → List (Lap F)
  pub find_one_by_number : String → ℕ → Table → Option (Lap F)
  pub insert_or_ignore : List (Lap F) → Table → Option Table
  pub delete : String → Table → Table
  pub find_by_session_lem :
      (session_id : String) (p : Lap F → Bool) (t : Table)
      → count p (find_by_session session_id t)
        ≡ count (λ l. of_session session_id l && p l) (rows t)
  pub find_one_by_number_lem :
      (session_id : String) (number : ℕ) (t : Table)
      → find_one_by_number session_id number t ≡ find (is_numbered session_id number) (rows t)
  pub insert_or_ignore_lem :
      (ls : List (Lap F)) (t t' : Table)
      → insert_or_ignore ls t ≡ some t'
      → rows t' ≡ insert_new ls (rows t)
  pub delete_lem :
      (session_id : String) (t : Table)
      → rows (delete session_id t) ≡ reject (of_session session_id) (rows t)

module _ {F : Type 0} (table : LapsTable F) where
  unfoldable pub insert_ignoring_duplicates : List (Lap F) → table.Table → Option table.Table
  insert_ignoring_duplicates [] t = some t
  insert_ignoring_duplicates (l ∷ ls) t = table.insert_or_ignore (l ∷ ls) t

  -- One transaction.
  unfoldable pub replace_session : String → List (Lap F) → table.Table → Option table.Table
  replace_session session_id [] t = some (table.delete session_id t)
  replace_session session_id (l ∷ ls) t =
      table.insert_or_ignore (l ∷ ls) (table.delete session_id t)
