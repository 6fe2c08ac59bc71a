-- ===== src/Teams/Roster.antt =====
-- `updateMemberRole` and `removeMember`: what each of them answers and writes, as one function of
-- the rows that it reads.
use kab23_motorsport_telemet.Prelude.{
  String, ◌≡◌, refl, sym, ◌∙◌, Bool, not, ◌&&◌, List, [], ◌∷◌, Option, none, some, Result, ok, err,
  arith, ◌>>=◌, ◌>>◌, find, count, leb, ◌==◌, if◌then◌else◌, is_some, continue,
}
use kab23_motorsport_telemet.Repository.Abstract.{
  HttpError, not_found, forbidden, find_one_and_update, find_one_and_delete,
}
use kab23_motorsport_telemet.Teams.{
  TeamRole, owner, same_role, is_admin, User, TeamMember, Platform, Db, team_rows, member_rows,
}
use kab23_motorsport_telemet.Teams.Service.{
  Action, on_members, resolve_member, assert_not_last_owner, update_member_role, remove_member,
  when,
}
use kab23_motorsport_telemet.Teams.Authorization.{
  seat, owns, verdict, require_team_role_lem, resolve_member_lem, assert_not_last_owner_lem,
}

-- A check that lets the caller through hands on the caller's own row.
pub verdict-seat :
    (admin : Bool) (roles : List TeamRole) (seated : Option TeamMember) (exists : Bool)
    (c : Option TeamMember)
    → verdict admin roles seated exists ≡ ok c
    → c ≡ seated
verdict-seat admin roles seated exists c e = ground arith

module _ (env : Platform) where
  -- The last owner stays, whatever is to become of the row; else `write` is done to it.
  abbrev guarded : {A : Type 0} → String → Bool → Action env A → Action env A
  guarded team_id leaves write db =
      if leaves && leb (count (owns team_id) (member_rows env db)) 1
      then (err (forbidden "A team must keep at least one owner"), db)
      else write db

  abbrev pub removal :
      String → Result HttpError (Option TeamMember) → Option TeamMember → Action env (Unit {0})
  removal team_id (err e) target db = (err e, db)
  removal team_id (ok c) none db = (err (not_found "Member not found"), db)
  removal team_id (ok c) (some m) db =
      guarded team_id (same_role m.role owner)
        (on_members env (find_one_and_delete env.members (λ r. r.id == m.id))) db

  -- What the role check answers to this user.
  abbrev pub checked : Db env → User → String → List TeamRole → Result HttpError (Option TeamMember)
  checked db user team_id roles =
      verdict (is_admin user.role) roles (find (seat user.id team_id) (member_rows env db))
        (is_some (find (λ t. t.id == team_id) (team_rows env db)))

  -- The role that the check wants: none to leave a team, OWNER to take somebody else out.
  abbrev pub removal_roles : User → String → List TeamRole
  removal_roles user target = if target == user.id then [] else owner ∷ []

  module _ (db : Db env) (user : User) (team_id target : String) where
    remove_rest : Option TeamMember → Action env (Unit {0})
    remove_rest caller_membership = do
      membership ← resolve_member env team_id target user.id caller_membership
      when env (same_role membership.role owner) (assert_not_last_owner env team_id)
      on_members env (find_one_and_delete env.members (λ m. m.id == membership.id))

    remove_rest_lem :
        (c : Option TeamMember)
        → remove_rest (find (seat user.id team_id) (member_rows env db)) db
          ≡ removal team_id (ok c) (find (seat target team_id) (member_rows env db)) db
    unfolding remove_rest
    remove_rest_lem = ground (
      arith,
      resolve_member_lem env db team_id target user.id,
      assert_not_last_owner_lem env db team_id,
    )

    -- What `remove_rest` does behind the role check, whatever the check answered.
    behind_check :
        (c : Result HttpError (Option TeamMember)) (roles : List TeamRole)
        → c ≡ checked db user team_id roles
        → continue c remove_rest db
          ≡ removal team_id c (find (seat target team_id) (member_rows env db)) db
    behind_check (err e) roles h = refl
    behind_check (ok c) roles h =
        rw (verdict-seat _ roles _ _ c (sym h))
          (remove_rest_lem (find (seat user.id team_id) (member_rows env db)))

    remove_member-checked :
        remove_member env user team_id target db
        ≡ continue (checked db user team_id (removal_roles user target)) remove_rest db
    unfolding remove_member remove_rest
    remove_member-checked = ground (
      arith,
      require_team_role_lem env db user team_id [],
      require_team_role_lem env db user team_id (owner ∷ []),
    )

    -- `removeMember` on every branch: the check, the miss, the last owner, and the deletion.
    pub remove_member_lem :
        remove_member env user team_id target db
        ≡ removal team_id
            (checked db user team_id (removal_roles user target))
            (find (seat target team_id) (member_rows env db))
            db
    remove_member_lem =
        remove_member-checked
        ∙ behind_check (checked db user team_id (removal_roles user target))
            (removal_roles user target) refl

  abbrev pub role_change :
      String
      → TeamRole
      → Result HttpError (Option TeamMember)
      → Option TeamMember
      → Action env TeamMember
  role_change team_id role (err e) target db = (err e, db)
  role_change team_id role (ok c) none db = (err (not_found "Member not found"), db)
  role_change team_id role (ok c) (some m) db =
      guarded team_id (same_role m.role owner && not (same_role role owner))
        (on_members env
          (find_one_and_update env.members (λ r. r.id == m.id) (λ r. record r { role = role })))
        db

  module _ (db : Db env) (user : User) (team_id target : String) (role : TeamRole) where
    change_rest : Option TeamMember → Action env TeamMember
    change_rest caller_membership = do
      membership ← resolve_member env team_id target user.id caller_membership
      when env (same_role membership.role owner && not (same_role role owner))
          (assert_not_last_owner env team_id)
      on_members env (
          find_one_and_update env.members (λ m. m.id == membership.id)
            (λ m. record m { role = role }))

    change_rest_lem :
        (c : Option TeamMember)
        → change_rest (find (seat user.id team_id) (member_rows env db)) db
          ≡ role_change team_id role (ok c) (find (seat target team_id) (member_rows env db)) db
    unfolding change_rest
    change_rest_lem c = ground (
      arith,
      resolve_member_lem env db team_id target user.id,
      assert_not_last_owner_lem env db team_id,
    )

    change-behind_check :
        (c : Result HttpError (Option TeamMember))
        → c ≡ checked db user team_id (owner ∷ [])
        → continue c change_rest db
          ≡ role_change team_id role c (find (seat target team_id) (member_rows env db)) db
    change-behind_check (err e) h = refl
    change-behind_check (ok c) h =
        rw (verdict-seat _ (owner ∷ []) _ _ c (sym h))
          (change_rest_lem (find (seat user.id team_id) (member_rows env db)))

    update_member_role-checked :
        update_member_role env user team_id target role db
        ≡ continue (checked db user team_id (owner ∷ [])) change_rest db
    unfolding update_member_role change_rest
    update_member_role-checked =
        ground (arith, require_team_role_lem env db user team_id (owner ∷ []))

    -- `updateMemberRole` on every branch.
    pub update_member_role_lem :
        update_member_role env user team_id target role db
        ≡ role_change team_id role
            (checked db user team_id (owner ∷ []))
            (find (seat target team_id) (member_rows env db))
            db
    update_member_role_lem =
        update_member_role-checked ∙ change-behind_check (checked db user team_id (owner ∷ [])) refl
