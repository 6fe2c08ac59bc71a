-- ===== src/Teams/Authorization.antt =====
-- Who may act on a team: `requireTeamRole` and the two helpers that the roster operations share.
use kab23_motorsport_telemet.Prelude.{
  Bool-cases, inl, inr, String, ◌≡◌, Bool, true, false, ◌&&◌, List, Option, none, some, Result, ok,
  err, arith, find, count, leb, ◌==◌, eq_iff, if◌then◌else◌, is_some, Bool-cases, inl, inr,
}
use kab23_motorsport_telemet.Repository.Abstract.{HttpError, not_found, forbidden}
use kab23_motorsport_telemet.Teams.{
  TeamRole, owner, same_role, is_admin, User, TeamMember, Platform, Db, team_rows, member_rows,
}
use kab23_motorsport_telemet.Teams.Service.{
  includes, is_empty, require_team_role, resolve_member, assert_not_last_owner,
}

abbrev pub seat : String → String → TeamMember → Bool
seat user_id team_id m = m.user_id == user_id && m.team_id == team_id

abbrev pub owns : String → TeamMember → Bool
owns team_id m = m.team_id == team_id && same_role m.role owner

-- The answer of the role check as the rows decide it: an administrator needs the team to exist, any
-- one else a seat in it with one of the roles.
abbrev pub verdict :
    Bool → List TeamRole → Option TeamMember → Bool → Result HttpError (Option TeamMember)
verdict true roles seated true = ok seated
verdict true roles seated false = err (not_found "Entity not found")
verdict false roles none exists = err (not_found "Team not found")
verdict false roles (some m) exists =
    if is_empty roles
    then ok (some m)
    else if includes roles m.role
    then ok (some m)
    else err (forbidden "Insufficient team role")

module _ (env : Platform) (db : Db env) where
  -- The role check writes nothing and answers by one verdict on the rows: an administrator
  -- passes exactly if the team exists, an outsider gets a 404, and a member passes exactly if no
  -- role is asked for or his is among them.
  pub require_team_role_lem :
      (user : User) (team_id : String) (roles : List TeamRole)
      → require_team_role env user team_id roles db ≡ (
        verdict
            (is_admin user.role)
            roles
            (find (seat user.id team_id) (member_rows env db))
            (is_some (find (λ t. t.id == team_id) (team_rows env db))),
        db,
      )
  unfolding require_team_role
  require_team_role_lem user team_id roles = ground (
    arith,
    env.members.find_one_lem (seat user.id team_id) db.members,
    env.teams.find_one_lem (λ t. t.id == team_id) db.teams,
  )

  abbrev pub or_missing : Option TeamMember → Result HttpError TeamMember
  or_missing none = err (not_found "Member not found")
  or_missing (some m) = ok m

  -- Handing the caller's own row on never changes which member is meant.
  pub resolve_member_lem :
      (team_id target caller : String)
      → resolve_member env team_id target caller
          (find (seat caller team_id) (member_rows env db))
          db
        ≡ (or_missing (find (seat target team_id) (member_rows env db)), db)
  unfolding resolve_member
  resolve_member_lem team_id target caller = elim (Bool-cases (target == caller)) [
    | inl same ↦ rw ((eq_iff target caller).0 same) (own caller)
    | inr other ↦
        ground
          (arith, env.members.find_one_lem (seat target team_id) db.members, eq_iff target caller)
  ]
    where
      own :
          (u : String)
          → resolve_member env team_id u u (find (seat u team_id) (member_rows env db)) db
            ≡ (or_missing (find (seat u team_id) (member_rows env db)), db)
      own u = ground (arith, env.members.find_one_lem (seat u team_id) db.members, eq_iff u u)

  pub assert_not_last_owner_lem :
      (team_id : String)
      → assert_not_last_owner env team_id db ≡ (
        if leb (count (owns team_id) (member_rows env db)) 1
            then err (forbidden "A team must keep at least one owner")
            else ok tt,
        db,
      )
  unfolding assert_not_last_owner
  assert_not_last_owner_lem team_id =
      ground (arith, env.members.count_by_lem (owns team_id) db.members)
