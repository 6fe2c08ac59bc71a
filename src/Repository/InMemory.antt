-- ===== src/Repository/InMemory.antt =====
-- A table that meets the laws of `Repository`: a list of rows, whose fresh id is longer than the
-- ids that are in use. The examples of the other modules run on it.
use kab23_motorsport_telemet.Prelude.{
  ℕ, zero, suc, ◌+◌, ◌<◌, String, ◌≡◌, refl, ap, inr, Bool, List, [], ◌∷◌, ◌++◌, arith, select,
  find, any, count, reject, rewrite, ◌==◌, eq_iff, if◌then◌else◌,
}
use kab23_motorsport_telemet.Repository.{Repository, Saved, saved, unique_violation, map_table}

size : String → ℕ
size String.[] = 0
size (String.◌∷◌ c s) = suc (size s)

pad : ℕ → String
pad zero = String.[]
pad (suc n) = String.◌∷◌ "n" (pad n)

size-pad : (n : ℕ) → size (pad n) ≡ n
unfolding size pad
size-pad zero = refl
size-pad (suc n) = ap suc (size-pad n)

module _ {Row : Type 0} (id : Row → String) where
  widths : List Row → ℕ
  widths [] = 0
  widths (x ∷ xs) = size (id x) + widths xs

  unused : (n : ℕ) (xs : List Row) → widths xs < n → count (λ r. id r == pad n) xs ≡ 0
  unfolding widths
  unused n [] h = refl
  unused n (x ∷ xs) h = ground (arith, unused n xs, eq_iff (id x) (pad n), size-pad n)

  unfoldable pub fresh_id : List Row → String
  unfolding widths size pad
  fresh_id xs = pad (suc (widths xs))

module _ {Row : Type 0} (id : Row → String) (clash : Row → Row → Bool) where
  unfoldable pub insert : (String → Row) → List Row → Saved Row (List Row)
  unfolding fresh_id
  insert e xs =
      let row = e (fresh_id id xs) in
      if any (clash row) xs then unique_violation else saved row (xs ++ row ∷ [])

  pub insert_lem :
      (e : String → Row) (t : List Row)
      → map_table (λ xs. xs) (insert e t) ≡ (
          if any (clash (e (fresh_id id t))) t
          then unique_violation
          else saved (e (fresh_id id t)) (t ++ e (fresh_id id t) ∷ []))
  unfolding insert
  insert_lem e t = ground arith

  pub fresh_id_lem : (t : List Row) → count (λ r. id r == fresh_id id t) t ≡ 0
  unfolding fresh_id
  fresh_id_lem t = unused id (suc (widths id t)) t (omega arith)

  abbrev pub in_memory : Repository Row id clash
  in_memory = record {
    Table = List Row;
    rows = λ t. t;
    find_by = select;
    find_one = find;
    count_by = count;
    fresh = fresh_id id;
    save = insert;
    update = λ p f t. (count p t, rewrite p f t);
    delete = λ p t. (count p t, reject p t);
    find_by_lem = λ p t. refl;
    find_one_lem = λ p t. refl;
    count_by_lem = λ p t. refl;
    fresh_lem = fresh_id_lem;
    save_lem = λ e t. inr (insert_lem e t);
    update_count = λ p f t. refl;
    update_rows = λ p f t. refl;
    delete_count = λ p t. refl;
    delete_rows = λ p t. refl;
  }
