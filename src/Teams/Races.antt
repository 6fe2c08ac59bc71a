-- ===== src/Teams/Races.antt =====
-- `removeMember` counts the owners in one query and deletes in another, outside a transaction, so
-- another request may run between the two. Here it does.
use kab23_motorsport_telemet.Prelude.{
  String, ◌≡◌, ◌≢◌, refl, true, false, List, [], ◌∷◌, some, ok, arith, ◌>>=◌, ◌>>◌, find, count,
  reject, ◌==◌, eq_iff, eq_refl, if◌then◌else◌, count-reject_unique, count-reject-le, find-reject,
  find-holds,
}
use kab23_motorsport_telemet.Repository.Abstract.{find_one_and_delete}
use kab23_motorsport_telemet.Repository.Effects.{rows-delete}
use kab23_motorsport_telemet.Teams.{
  owner, same_role, is_admin, User, TeamMember, Platform, Db, member_rows,
}
use kab23_motorsport_telemet.Teams.Service.{
  Action, on_members, when, require_team_role, resolve_member, assert_not_last_owner, remove_member,
}
use kab23_motorsport_telemet.Teams.Authorization.{
  seat, owns, require_team_role_lem, resolve_member_lem, assert_not_last_owner_lem,
}
use kab23_motorsport_telemet.Teams.Roster.{remove_member_lem}
use kab23_motorsport_telemet.Teams.Ownership.{Governed}

module _ (env : Platform) where
  -- `removeMember`, with what other requests do to the tables before the deletion.
  unfoldable pub remove_member_across :
      (Db env → Db env) → User → String → String → Action env (Unit {0})
  remove_member_across meanwhile user team_id target_user_id = do
    caller_membership ←
        (if target_user_id == user.id
          then require_team_role env user team_id []
          else require_team_role env user team_id (owner ∷ []))
    membership ← resolve_member env team_id target_user_id user.id caller_membership
    when env (same_role membership.role owner) (assert_not_last_owner env team_id)
    (λ db. (ok tt, meanwhile db))
    on_members env (find_one_and_delete env.members (λ m. m.id == membership.id))

  -- Alone it is `removeMember`.
  across-alone :
      (db : Db env) (user : User) (team_id target : String)
      → remove_member_across (λ d. d) user team_id target db
        ≡ remove_member env user team_id target db
  unfolding remove_member_across remove_member
  across-alone db user team_id target = refl

  module _ (db : Db env) (g : Governed env db) (team_id : String) (u v : User) (a b : TeamMember)
      (found_a : find (seat u.id team_id) (member_rows env db) ≡ some a)
      (found_b : find (seat v.id team_id) (member_rows env db) ≡ some b) where
    leaving :
        is_admin v.role ≡ false
        → same_role b.role owner ≡ true
        → count (owns team_id) (member_rows env db) ≡ 2
        → remove_member env v team_id v.id db
          ≡ on_members env (find_one_and_delete env.members (λ m. m.id == b.id)) db
    leaving plain leads two = ground (arith, remove_member_lem env db v team_id v.id, eq_refl v.id)

    across :
        (meanwhile : Db env → Db env)
        → is_admin u.role ≡ false
        → count (owns team_id) (member_rows env db) ≡ 2
        → remove_member_across meanwhile u team_id u.id db
          ≡ on_members env (find_one_and_delete env.members (λ m. m.id == a.id)) (meanwhile db)
    unfolding remove_member_across
    across meanwhile plain two = ground (
      arith,
      eq_refl u.id,
      require_team_role_lem env db u team_id [],
      resolve_member_lem env db team_id u.id u.id,
      assert_not_last_owner_lem env db team_id,
    )

    abbrev left_by_b : List TeamMember
    left_by_b = reject (λ m. m.id == b.id) (member_rows env db)

    both_gone :
        same_role a.role owner ≡ true
        → same_role b.role owner ≡ true
        → a.id ≢ b.id
        → count (owns team_id) (member_rows env db) ≡ 2
        → count (owns team_id) (reject (λ m. m.id == a.id) left_by_b) ≡ 0
    both_gone leads_a leads_b differ two = ground (
      arith,
      count-reject_unique (seat v.id team_id) (owns team_id) (λ m. m.id == b.id)
          (member_rows env db) b found_b (eq_refl b.id) (g.member_ids b.id),
      count-reject_unique (seat u.id team_id) (owns team_id) (λ m. m.id == a.id) left_by_b a
          (find-reject (seat u.id team_id) (λ m. m.id == b.id) (member_rows env db) a found_a
            (ground (arith, eq_iff a.id b.id)))
          (eq_refl a.id)
          (ground (
            arith,
            g.member_ids a.id,
            count-reject-le (λ m. m.id == b.id) (λ m. m.id == a.id) (member_rows env db),
          )),
      find-holds (seat u.id team_id) (member_rows env db) a found_a,
      find-holds (seat v.id team_id) (member_rows env db) b found_b,
    )

    -- Two users who are no administrators and the only owners of a governed team: if the second
    -- one's removal of himself runs between the check and the deletion of the first one's, the
    -- team is left without an owner.
    pub owners_leave_at_once :
        is_admin u.role ≡ false
        → is_admin v.role ≡ false
        → same_role a.role owner ≡ true
        → same_role b.role owner ≡ true
        → a.id ≢ b.id
        → count (owns team_id) (member_rows env db) ≡ 2
        → count (owns team_id) (
            member_rows env
              (remove_member_across
                (λ d. (remove_member env v team_id v.id d).1)
                u
                team_id
                u.id
                db).1)
          ≡ 0
    owners_leave_at_once plain_u plain_v leads_a leads_b differ two =
        rw (across _ plain_u two, leaving plain_v leads_b two)
          (rw
            (
              rows-delete env.members _ (λ m. m.id == a.id),
              rows-delete env.members db.members (λ m. m.id == b.id),
            )
            (both_gone leads_a leads_b differ two))
