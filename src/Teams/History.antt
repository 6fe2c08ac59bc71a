-- ===== src/Teams/History.antt =====
-- Any sequence of requests to the teams module, and what it keeps of the rows.
use kab23_motorsport_telemet.Prelude.{
  String, ◌≡◌, List, [], ◌∷◌, Option, Result, ok, err, arith, find, ◌==◌, Option-cases, inl, inr,
}
use kab23_motorsport_telemet.Repository.Abstract.{HttpError}
use kab23_motorsport_telemet.Teams.{
  TeamRole, managing_team_roles, User, TeamMember, TeamInvite, Platform, Db, team_rows, member_rows,
  invite_rows,
}
use kab23_motorsport_telemet.Teams.Service.{
  create_team, update_team, remove_team, accept_invite, invite_member, remove_member,
  update_member_role, decline_invite, revoke_invite, record_invite, find_pending,
}
use kab23_motorsport_telemet.Teams.Authorization.{require_team_role_lem}
use kab23_motorsport_telemet.Teams.Accepting.{
  Accepts, accept_invite-Accepts, accept_invite_missing, require_own_invite_lem,
}
use kab23_motorsport_telemet.Teams.Ownership.{
  Governed, update_member_role-Governed, remove_member-Governed,
}
use kab23_motorsport_telemet.Teams.Lifecycle.{
  append-IsGoverned, create_team-Governed, update_team-Governed, remove_team-Governed,
}

module _ (env : Platform) (db : Db env) where
  accepted-Governed :
      (user : User) (i : TeamInvite) (r : Result HttpError TeamMember × Db env)
      → Accepts env db user i r
      → Governed env db
      → Governed env r.1
  accepted-Governed user i (err e, after) same g = rw same g
  accepted-Governed user i (ok m, after) (mine, used, teams, inl (there, members)) g =
      rw (teams, members) g
  accepted-Governed user i (ok m, after) (mine, used, teams, inr (vacant, new, members)) g =
      rw (teams, members)
        (append-IsGoverned (team_rows env db) (member_rows env db) m g
          (rw new (env.members.fresh_lem db.members)))

  accept_invite-Governed :
      (user : User) (invite_id : String)
      → Governed env db
      → Governed env (accept_invite env user invite_id db).1
  accept_invite-Governed user invite_id g =
      elim (Option-cases (find (λ r. r.id == invite_id) (invite_rows env db))) [
        | inl missing ↦ rw (accept_invite_missing env db user invite_id missing) g
        | inr (i, found) ↦
            accepted-Governed user i _ (accept_invite-Accepts env db user invite_id i found) g
      ]

-- A request to the service, with the user who makes it.
pub data Request : Type 0 where
  create : String → Request
  update : String → Option String → Request
  remove : String → Request
  change_role : String → String → TeamRole → Request
  expel : String → String → Request
  invite : String → String → Option TeamRole → Request
  accept decline : String → Request
  revoke : String → String → Request

-- The tables after a request, whether it succeeded or threw.
pub handle : (env : Platform) → Db env → User × Request → Db env
handle env db (user, create name) = (create_team env user name db).1
handle env db (user, update team_id name) = (update_team env user team_id name db).1
handle env db (user, remove team_id) = (remove_team env user team_id db).1
handle env db (user, change_role team_id target role) =
    (update_member_role env user team_id target role db).1
handle env db (user, expel team_id target) = (remove_member env user team_id target db).1
handle env db (user, invite team_id email role) = (invite_member env user team_id email role db).1
handle env db (user, accept invite_id) = (accept_invite env user invite_id db).1
handle env db (user, decline invite_id) = (decline_invite env user invite_id db).1
handle env db (user, revoke team_id invite_id) = (revoke_invite env user team_id invite_id db).1

pub serve : (env : Platform) → Db env → List (User × Request) → Db env
serve env db [] = db
serve env db (r ∷ rs) = serve env (handle env db r) rs

-- The requests about invites write neither teams nor members.
module _ (env : Platform) (db : Db env) (user : User) where
  invite_member_apart :
      (team_id email : String) (role : Option TeamRole)
      → ((invite_member env user team_id email role db).1.teams ≡ db.teams)
        × ((invite_member env user team_id email role db).1.members ≡ db.members)
  unfolding invite_member record_invite find_pending
  invite_member_apart team_id email role =
      ground (arith, require_team_role_lem env db user team_id managing_team_roles)

  decline_invite_apart :
      (invite_id : String)
      → ((decline_invite env user invite_id db).1.teams ≡ db.teams)
        × ((decline_invite env user invite_id db).1.members ≡ db.members)
  unfolding decline_invite
  decline_invite_apart invite_id = ground (arith, require_own_invite_lem env db user invite_id)

  revoke_invite_apart :
      (team_id invite_id : String)
      → ((revoke_invite env user team_id invite_id db).1.teams ≡ db.teams)
        × ((revoke_invite env user team_id invite_id db).1.members ≡ db.members)
  unfolding revoke_invite
  revoke_invite_apart team_id invite_id =
      ground (arith, require_team_role_lem env db user team_id managing_team_roles)

same_tables :
    (env : Platform) (db after : Db env)
    → (after.teams ≡ db.teams) × (after.members ≡ db.members)
    → Governed env db
    → Governed env after
same_tables env db after (teams, members) g = rw (teams, members) g

handle-Governed :
    (env : Platform) (db : Db env) (r : User × Request)
    → Governed env db
    → Governed env (handle env db r)
unfolding handle
handle-Governed env db (user, create name) g = create_team-Governed env db user name g
handle-Governed env db (user, update team_id name) g =
    update_team-Governed env db user team_id name g
handle-Governed env db (user, remove team_id) g = remove_team-Governed env db user team_id g
handle-Governed env db (user, change_role team_id target role) g =
    update_member_role-Governed env db user team_id target role g
handle-Governed env db (user, expel team_id target) g =
    remove_member-Governed env db user team_id target g
handle-Governed env db (user, invite team_id email role) g =
    same_tables env db (invite_member env user team_id email role db).1
      (invite_member_apart env db user team_id email role) g
handle-Governed env db (user, accept invite_id) g = accept_invite-Governed env db user invite_id g
handle-Governed env db (user, decline invite_id) g =
    same_tables env db (decline_invite env user invite_id db).1
      (decline_invite_apart env db user invite_id) g
handle-Governed env db (user, revoke team_id invite_id) g =
    same_tables env db (revoke_invite env user team_id invite_id db).1
      (revoke_invite_apart env db user team_id invite_id) g

-- From tables in which member ids are unique and each team that is there has an owner, any
-- sequence of requests by any users, refused ones included, leaves such tables.
pub serve-Governed :
    (env : Platform) (db : Db env) (requests : List (User × Request))
    → Governed env db
    → Governed env (serve env db requests)
unfolding serve
serve-Governed env db [] g = g
serve-Governed env db (r ∷ rs) g =
    serve-Governed env (handle env db r) rs (handle-Governed env db r g)
