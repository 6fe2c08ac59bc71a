-- ===== src/Teams.antt =====
-- The teams module of the API (apps/api/src/teams): entities, the tables that hold them, and the
-- schema that the entities declare. The operations are in Teams/Service.antt.
pub mod Service
pub mod Authorization
pub mod Roster
pub mod Ownership
pub mod Privilege
pub mod Inviting
pub mod Joining
pub mod Races
pub mod Accepting
pub mod Lifecycle
pub mod History
mod Examples
use kab23_motorsport_telemet.Prelude.{String, Bool, true, false, ◌&&◌, List, [], ◌∷◌, Option, ◌==◌}
use kab23_motorsport_telemet.Repository.{Repository}

-- libs/common/src/enums/team-role.enum.ts
pub data TeamRole : Type 0 where
  owner manager driver : TeamRole

abbrev pub same_role : TeamRole → TeamRole → Bool
same_role owner owner = true
same_role manager manager = true
same_role driver driver = true
same_role _ _ = false

abbrev pub managing_team_roles : List TeamRole
managing_team_roles = owner ∷ manager ∷ []

-- libs/common/src/enums/user-role.enum.ts
pub data UserRole : Type 0 where
  driver' manager' admin : UserRole

abbrev pub is_admin : UserRole → Bool
is_admin admin = true
is_admin _ = false

pub record User : Type 0 where
  pub id : String
  pub email : String
  pub role : UserRole

pub record Team : Type 0 where
  pub id : String
  pub name : String

pub record TeamMember : Type 0 where
  pub id : String
  pub team_id : String
  pub user_id : String
  pub role : TeamRole

pub record TeamInvite : Type 0 where
  pub id : String
  pub team_id : String
  pub email : String
  pub role : TeamRole

abbrev pub team_key : Team → String
team_key t = t.id

abbrev pub member_key : TeamMember → String
member_key m = m.id

abbrev pub invite_key : TeamInvite → String
invite_key i = i.id

-- `teams` has no unique index but its primary key.
abbrev pub no_clash : Team → Team → Bool
no_clash a b = false

-- `@Index(['teamId', 'userId'], { unique: true })`
abbrev pub same_seat : TeamMember → TeamMember → Bool
same_seat a b = a.team_id == b.team_id && a.user_id == b.user_id

-- `@Index(['teamId', 'email'], { unique: true })`
abbrev pub same_address : TeamInvite → TeamInvite → Bool
same_address a b = a.team_id == b.team_id && a.email == b.email

-- What the module rests on: its three tables, and the runtime's `toLowerCase`.
pub record Platform : Type 1 where
  pub teams : Repository Team team_key no_clash
  pub members : Repository TeamMember member_key same_seat
  pub invites : Repository TeamInvite invite_key same_address
  pub to_lower : String → String

-- The rows of the three tables.
pub record Db (env : Platform) : Type 0 where
  pub teams : env.teams.Table
  pub members : env.members.Table
  pub invites : env.invites.Table

module _ (env : Platform) (db : Db env) where
  abbrev pub team_rows : List Team
  team_rows = env.teams.rows db.teams

  abbrev pub member_rows : List TeamMember
  member_rows = env.members.rows db.members

  abbrev pub invite_rows : List TeamInvite
  invite_rows = env.invites.rows db.invites
