-- ===== src/Teams/Privilege.antt =====
-- What a user without the role can bring about in the roster of a team.
use kab23_motorsport_telemet.Prelude.{
  String, ◌≡◌, ◌≢◌, refl, Bool, false, Option, none, some, err, arith, find, eq_iff, [], ◌∷◌,
}
use kab23_motorsport_telemet.Repository.Abstract.{HttpError, not_found, forbidden}
use kab23_motorsport_telemet.Teams.{
  TeamRole, owner, is_admin, User, TeamMember, Platform, Db, member_rows,
}
use kab23_motorsport_telemet.Teams.Service.{remove_member, update_member_role, has_role}
use kab23_motorsport_telemet.Teams.Authorization.{seat, verdict}
use kab23_motorsport_telemet.Teams.Roster.{checked, remove_member_lem, update_member_role_lem}

-- The refusal tells an outsider nothing: it says that there is no such team, and only a member is
-- told that his role is too low.
abbrev pub refusal : Option TeamMember → HttpError
refusal none = not_found "Team not found"
refusal (some m) = forbidden "Insufficient team role"

verdict-refusal :
    (seated : Option TeamMember) (exists : Bool)
    → has_role owner seated ≡ false
    → verdict false (owner ∷ []) seated exists ≡ err (refusal seated)
verdict-refusal none exists low = refl
verdict-refusal (some m) exists low = ground arith

module _ (env : Platform) (db : Db env) (user : User) (team_id target : String) where
  -- A user who is neither an administrator nor an owner of a team can neither take another
  -- member out of it nor change a role in it: both are refused in the way that tells an outsider
  -- nothing, and the tables stay as they were.
  pub no_owner_no_change :
      (role : TeamRole)
      → is_admin user.role ≡ false
      → has_role owner (find (seat user.id team_id) (member_rows env db)) ≡ false
      → target ≢ user.id
      → (remove_member env user team_id target db
          ≡ (err (refusal (find (seat user.id team_id) (member_rows env db))), db))
        × (update_member_role env user team_id target role db
            ≡ (err (refusal (find (seat user.id team_id) (member_rows env db))), db))
  no_owner_no_change role plain low other = (
    ground (arith, remove_member_lem env db user team_id target, eq_iff target user.id, refused),
    ground (arith, update_member_role_lem env db user team_id target role, refused),
  )
    where
      refused :
          checked env db user team_id (owner ∷ [])
          ≡ err (refusal (find (seat user.id team_id) (member_rows env db)))
      refused = rw plain (verdict-refusal _ _ low)
