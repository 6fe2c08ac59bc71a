-- ===== src/Repository/Effects.antt =====
-- What the calls of `AbstractRepository` answer, and what they leave in the table.
use kab23_motorsport_telemet.Prelude.{
  String, ◌≡◌, refl, Bool, false, [], ◌∷◌, ◌++◌, Result, ok, err, ◌⊎◌, inl, inr, arith, any, count,
  find, some, ◌≤◌, find-count, find-holds, find-rewrite, reject, rewrite, ◌=ⁿ◌, if◌then◌else◌,
}
use kab23_motorsport_telemet.Repository.{
  Repository, Saved, saved, unique_violation, query_failed, map_table,
}
use kab23_motorsport_telemet.Repository.Abstract.{
  HttpError, not_found, unique_index, failed_query, after_save, rethrow, create, create_or_conflict,
  find_one, find_one_and_update, find_one_and_delete,
}

module _ {Row : Type 0} {id : Row → String} {clash : Row → Row → Bool} (r : Repository Row id clash)
    (t : r.Table) where
  -- A deletion takes exactly the rows that meet the condition away, and a miss is a 404.
  pub rows-delete : (p : Row → Bool) → r.rows (find_one_and_delete r p t).1 ≡ reject p (r.rows t)
  unfolding find_one_and_delete
  rows-delete p = ground (arith, r.delete_rows p t)

  pub result-delete :
      (p : Row → Bool)
      → (find_one_and_delete r p t).0
        ≡ (if count p (r.rows t) =ⁿ 0 then err (not_found "Entity not found") else ok tt)
  unfolding find_one_and_delete
  result-delete p = ground (arith, r.delete_count p t)

  pub rows-update :
      (p : Row → Bool) (f : Row → Row)
      → r.rows (find_one_and_update r p f t).1 ≡ rewrite p f (r.rows t)
  unfolding find_one_and_update
  rows-update p f = ground (arith, r.update_rows p f t)

  -- A new row is written at the end of the table under its fresh id, or nothing is.
  abbrev pub Created : (String → Row) → Result HttpError Row × r.Table → Type 0
  Created e (res, t') =
      ((res ≡ ok (e (r.fresh t)))
        × (r.rows t' ≡ r.rows t ++ e (r.fresh t) ∷ [])
        × (any (clash (e (r.fresh t))) (r.rows t) ≡ false))
      ⊎ ((x : HttpError) × (res ≡ err x) × (t' ≡ t))

  saved-Created :
      (e : String → Row) (s : Saved Row r.Table)
      → (s ≡ query_failed)
        ⊎ (map_table r.rows s ≡ (
            if any (clash (e (r.fresh t))) (r.rows t)
            then unique_violation
            else saved (e (r.fresh t)) (r.rows t ++ e (r.fresh t) ∷ [])))
      → Created e (after_save r s t)
  unfolding after_save
  saved-Created e (saved row t') h = inl (ground arith, ground arith, ground arith)
  saved-Created e unique_violation h = inr (unique_index, refl, refl)
  saved-Created e query_failed h = inr (failed_query, refl, refl)

  pub create-Created : (e : String → Row) → Created e (create r e t)
  unfolding create
  create-Created e = saved-Created e (r.save e t) (r.save_lem e t)

  rethrow-Created :
      (e : String → Row) (message : String) (res : Result HttpError Row) (t' : r.Table)
      → Created e (res, t')
      → Created e (rethrow r message (res, t'))
  unfolding rethrow
  rethrow-Created e message (ok row) t' (inl h) = inl h
  rethrow-Created e message (ok row) t' (inr (x, h, k)) = inr (x, h, k)
  rethrow-Created e message (err x) t' (inl (h, k, l)) = cc
  rethrow-Created e message (err x) t' (inr (y, h, k)) = inr (_, refl, k)

  pub create_or_conflict-Created :
      (e : String → Row) (message : String) → Created e (create_or_conflict r e message t)
  unfolding create_or_conflict
  create_or_conflict-Created e message =
      rethrow-Created e message (create r e t).0 (create r e t).1 (create-Created e)

  -- What is known of the table when an insert succeeds.
  pub save-saved :
      (e : String → Row) (row : Row) (t' : r.Table)
      → r.save e t ≡ saved row t'
      → (any (clash (e (r.fresh t))) (r.rows t) ≡ false)
        × (row ≡ e (r.fresh t))
        × (r.rows t' ≡ r.rows t ++ e (r.fresh t) ∷ [])
  save-saved e row t' done = (
    ground (arith, r.save_lem e t),
    ground (arith, r.save_lem e t),
    ground (arith, r.save_lem e t),
  )

  counted : (p : Row → Bool) (row : Row) → find p (r.rows t) ≡ some row → 1 ≤ count p (r.rows t)
  counted p row found = find-count p p (r.rows t) row found (find-holds p (r.rows t) row found)

  -- An update of the row that is found under a condition which it leaves alone answers with the row
  -- as it is then.
  pub result-update :
      (p : Row → Bool) (f : Row → Row) (row : Row)
      → find p (r.rows t) ≡ some row
      → ((x : Row) → p (f x) ≡ p x)
      → (find_one_and_update r p f t).0 ≡ ok (f row)
  unfolding find_one_and_update find_one
  result-update p f row found kept = ground (
    arith,
    counted p row found,
    r.update_count p f t,
    r.find_one_lem p (r.update p f t).1,
    r.update_rows p f t,
    find-rewrite p p f (r.rows t) row found (find-holds p (r.rows t) row found) kept,
  )
