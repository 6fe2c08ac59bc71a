-- ===== src/Repository/Abstract.antt =====
-- libs/common/src/database/abstract.repository.ts: the calls on one table, with the exceptions that
-- they throw. A log line is no part of the result.
use kab23_motorsport_telemet.Prelude.{
  ℕ, zero, suc, String, Bool, Option, none, some, List, Result, ok, err, Exec, pure, throw, gets,
  ◌>>=◌, ◌>>◌,
}
use kab23_motorsport_telemet.Repository.{Repository, Saved, saved, unique_violation, query_failed}

-- The exceptions of the platform: Nest's HTTP exceptions with their messages, and the error of a
-- query that is passed on untouched.
pub data HttpError : Type 0 where
  not_found forbidden conflict unauthorized bad_request : String → HttpError
  unique_index failed_query : HttpError

module _ {Row : Type 0} {id : Row → String} {clash : Row → Row → Bool}
    (r : Repository Row id clash) where
  abbrev pub Query : Type 0 → Type 0
  Query A = Exec HttpError r.Table A

  unfoldable pub after_save : Saved Row r.Table → Query Row
  after_save (saved row t') t = (ok row, t')
  after_save unique_violation t = (err unique_index, t)
  after_save query_failed t = (err failed_query, t)

  unfoldable pub create : (String → Row) → Query Row
  unfolding after_save
  create entity t = after_save (r.save entity t) t

  or_not_found : Option Row → Query Row
  or_not_found none = throw (not_found "Entity not found")
  or_not_found (some row) = pure row

  unfoldable pub find_one : (Row → Bool) → Query Row
  unfolding or_not_found
  find_one p = do found ← gets (r.find_one p); or_not_found found

  -- `if (!result.affected)`
  affected : ℕ → Query (Unit {0})
  affected zero = throw (not_found "Entity not found")
  affected (suc n) = pure tt

  unfoldable pub find_one_and_update : (Row → Bool) → (Row → Row) → Query Row
  unfolding affected find_one
  find_one_and_update p f = do
    n ← (λ t. (ok (r.update p f t).0, (r.update p f t).1))
    affected n
    find_one p

  unfoldable pub find_all_by : (Row → Bool) → Query (List Row)
  find_all_by p = gets (r.find_by p)

  unfoldable pub find_all : Query (List Row)
  find_all = gets (r.find_by (λ _. Bool.true))

  unfoldable pub find_one_and_delete : (Row → Bool) → Query (Unit {0})
  unfolding affected
  find_one_and_delete p = do n ← (λ t. (ok (r.delete p t).0, (r.delete p t).1)); affected n

  as_conflict : String → HttpError → HttpError
  as_conflict message unique_index = conflict message
  as_conflict message e = e

  unfoldable pub rethrow {ℓ} :
      {A : Type ℓ} → String → Result HttpError Row × A → Result HttpError Row × A
  unfolding as_conflict
  rethrow message (ok row, t) = (ok row, t)
  rethrow message (err e, t) = (err (as_conflict message e), t)

  unfoldable pub create_or_conflict : (String → Row) → String → Query Row
  unfolding rethrow create
  create_or_conflict entity message t = rethrow message (create entity t)
