-- ===== src/Teams/Ownership.antt =====
-- What removing a member and changing a role leave of a team's owners.
use kab23_motorsport_telemet.Prelude.{
  ◌≤◌, String, ◌≡◌, refl, false, not, ◌&&◌, List, Option, none, some, Result, ok, err, arith, find,
  count, leb, reject, rewrite, ◌==◌, eq_iff, eq_refl, Bool-cases, inl, inr, find-holds,
  count-reject_unique, count-rewrite_unique, count-rewrite_same, count-reject-le,
}
use kab23_motorsport_telemet.Repository.Abstract.{HttpError}
use kab23_motorsport_telemet.Repository.Effects.{rows-delete, rows-update}
use kab23_motorsport_telemet.Teams.{
  TeamRole, owner, same_role, User, Team, TeamMember, Platform, Db, team_rows, member_rows,
}
use kab23_motorsport_telemet.Teams.Service.{remove_member, update_member_role}
use kab23_motorsport_telemet.Teams.Authorization.{seat, owns}
use kab23_motorsport_telemet.Teams.Roster.{
  removal, role_change, remove_member_lem, update_member_role_lem,
}

-- On the rows: ids are unique, and each team that is there has an owner.
pub record IsGoverned (teams : List Team) (members : List TeamMember) : Type 0 where
  pub member_ids : (x : String) → count (λ m. m.id == x) members ≤ 1
  pub owned : (x : String) → 1 ≤ count (λ t. t.id == x) teams → 1 ≤ count (owns x) members

module _ (teams : List Team) (members : List TeamMember) (g : IsGoverned teams members) where
  module _ (target team_id : String) (m : TeamMember)
      (found : find (seat target team_id) members ≡ some m) where
    -- Taking out one member who is no owner, or one of two owners.
    pub reject-IsGoverned :
        (same_role m.role owner && leb (count (owns team_id) members) 1) ≡ false
        → IsGoverned teams (reject (λ r. r.id == m.id) members)
    reject-IsGoverned room = record {
      member_ids = λ x. ground (
        arith,
        g.member_ids x,
        count-reject-le (λ (r : TeamMember). r.id == m.id) (λ r. r.id == x) members,
      );
      owned = λ x there. ground (
        arith,
        g.owned x,
        count-reject_unique (seat target team_id) (owns x) (λ r. r.id == m.id) members m found
            (eq_refl m.id) (g.member_ids m.id),
        find-holds (seat target team_id) members m found,
        eq_iff m.team_id team_id,
        eq_iff m.team_id x,
      );
    }

    -- Giving one member another role, if an owner is left.
    pub rewrite-IsGoverned :
        (role : TeamRole)
        → (same_role m.role owner
            && not (same_role role owner)
            && leb (count (owns team_id) members) 1)
          ≡ false
        → IsGoverned teams (rewrite (λ r. r.id == m.id) (λ r. record r { role = role }) members)
    rewrite-IsGoverned role room = record {
      member_ids = λ x. ground (
        arith,
        g.member_ids x,
        count-rewrite_same (λ r. r.id == m.id) (λ r. r.id == x) (λ r. record r { role = role })
            members (λ r. refl),
      );
      owned = λ x there. ground (
        arith,
        g.owned x,
        count-rewrite_unique (seat target team_id) (owns x) (λ r. r.id == m.id)
            (λ r. record r { role = role }) members m found (eq_refl m.id) (g.member_ids m.id),
        find-holds (seat target team_id) members m found,
        eq_iff m.team_id team_id,
        eq_iff m.team_id x,
      );
    }

module _ (env : Platform) where
  abbrev pub Governed : Db env → Type 0
  Governed db = IsGoverned (team_rows env db) (member_rows env db)

  removal-Governed :
      (db : Db env) (team_id target : String) (c : Result HttpError (Option TeamMember))
      (o : Option TeamMember)
      → find (seat target team_id) (member_rows env db) ≡ o
      → Governed db
      → Governed (removal env team_id c o db).1
  removal-Governed db team_id target (err e) o found g = g
  removal-Governed db team_id target (ok c) none found g = g
  removal-Governed db team_id target (ok c) (some m) found g =
      elim (Bool-cases
        (same_role m.role owner && leb (count (owns team_id) (member_rows env db)) 1)) [
          | inl last ↦ rw last g
          | inr room ↦
              rw (room, rows-delete env.members db.members (λ r. r.id == m.id))
                (reject-IsGoverned (team_rows env db) (member_rows env db) g target team_id m found
                  room)
        ]

  -- `removeMember` leaves every team with an owner, whoever calls it and whomever it takes out.
  pub remove_member-Governed :
      (db : Db env) (user : User) (team_id target : String)
      → Governed db
      → Governed (remove_member env user team_id target db).1
  remove_member-Governed db user team_id target g =
      rw (remove_member_lem env db user team_id target)
        (removal-Governed db team_id target _ _ refl g)

  role_change-Governed :
      (db : Db env) (team_id target : String) (role : TeamRole)
      (c : Result HttpError (Option TeamMember)) (o : Option TeamMember)
      → find (seat target team_id) (member_rows env db) ≡ o
      → Governed db
      → Governed (role_change env team_id role c o db).1
  role_change-Governed db team_id target role (err e) o found g = g
  role_change-Governed db team_id target role (ok c) none found g = g
  role_change-Governed db team_id target role (ok c) (some m) found g =
      elim (Bool-cases (
        (same_role m.role owner && not (same_role role owner))
        && leb (count (owns team_id) (member_rows env db)) 1)) [
          | inl last ↦ rw last g
          | inr room ↦
              rw
                (
                  room,
                  rows-update env.members db.members (λ r. r.id == m.id)
                      (λ r. record r { role = role }),
                )
                (rewrite-IsGoverned (team_rows env db) (member_rows env db) g target team_id m found
                  role (ground arith))
        ]

  -- So does `updateMemberRole`, whatever the new role.
  pub update_member_role-Governed :
      (db : Db env) (user : User) (team_id target : String) (role : TeamRole)
      → Governed db
      → Governed (update_member_role env user team_id target role db).1
  update_member_role-Governed db user team_id target role g =
      rw (update_member_role_lem env db user team_id target role)
        (role_change-Governed db team_id target role _ _ refl g)
