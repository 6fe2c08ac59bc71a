-- ===== src/Teams/Service.antt =====
-- apps/api/src/teams/teams.service.ts with the repositories that it calls. Each operation runs from
-- its first await to its end with no other request between; Teams/Races.antt lifts that.
use mathlib.Core.List.{head?}
use kab23_motorsport_telemet.Prelude.{
  ℕ, String, Bool, true, false, not, ◌&&◌, List, [], ◌∷◌, Option, none, some, Result, ok, err, Exec,
  pure, throw, gets, ◌>>=◌, ◌>>◌, any, is_some, get_or, leb, ◌==◌, if◌then◌else◌,
}
use kab23_motorsport_telemet.Repository.Abstract.{
  HttpError, not_found, forbidden, create, create_or_conflict, find_one, find_all_by,
  find_one_and_update, find_one_and_delete,
}
use kab23_motorsport_telemet.Teams.{
  TeamRole, owner, driver, same_role, managing_team_roles, is_admin, User, Team, TeamMember,
  TeamInvite, Platform, Db,
}

abbrev pub includes : List TeamRole → TeamRole → Bool
includes roles role = any (λ r. same_role r role) roles

abbrev pub is_empty : List TeamRole → Bool
is_empty [] = true
is_empty (r ∷ rs) = false

-- `membership?.role === role`
abbrev pub has_role : TeamRole → Option TeamMember → Bool
has_role role none = false
has_role role (some m) = same_role m.role role

module _ (env : Platform) where
  abbrev pub Action : Type 0 → Type 0
  Action A = Exec HttpError (Db env) A

  abbrev pub on_teams : {A : Type 0} → Exec HttpError env.teams.Table A → Action A
  on_teams q db = ((q db.teams).0, record db { teams = (q db.teams).1 })

  abbrev pub on_members : {A : Type 0} → Exec HttpError env.members.Table A → Action A
  on_members q db = ((q db.members).0, record db { members = (q db.members).1 })

  abbrev pub on_invites : {A : Type 0} → Exec HttpError env.invites.Table A → Action A
  on_invites q db = ((q db.invites).0, record db { invites = (q db.invites).1 })

  -- `if (test) { await body; }`
  abbrev pub when : Bool → Action (Unit {0}) → Action (Unit {0})
  when test body = if test then body else pure tt

  -- `null` when there is no such row, where `find_one` throws.
  unfoldable pub find_membership : String → String → Action (Option TeamMember)
  find_membership user_id team_id =
      gets
        (λ db. env.members.find_one (λ m. m.user_id == user_id && m.team_id == team_id) db.members)

  unfoldable pub count_by_role : String → TeamRole → Action ℕ
  count_by_role team_id role =
      gets
        (λ db. env.members.count_by (λ m. m.team_id == team_id && same_role m.role role) db.members)

  admit : List TeamRole → Option TeamMember → Action (Option TeamMember)
  admit roles none = throw (not_found "Team not found")
  admit roles (some m) =
      if not (is_empty roles) && not (includes roles m.role)
      then throw (forbidden "Insufficient team role")
      else pure (some m)

  unfoldable pub require_team_role : User → String → List TeamRole → Action (Option TeamMember)
  unfolding admit find_membership find_one
  require_team_role user team_id roles = do
    membership ← find_membership user.id team_id
    if is_admin user.role
        then (do on_teams (find_one env.teams (λ t. t.id == team_id)); pure membership)
        else admit roles membership

  -- Both rows are written, or neither: a transaction that throws leaves the tables as they were.
  settle : {A : Type 0} → Db env → Result HttpError A × Db env → Result HttpError A × Db env
  settle before (ok a, after) = (ok a, after)
  settle before (err e, after) = (err e, before)

  unfoldable pub transaction : {A : Type 0} → Action A → Action A
  unfolding settle
  transaction body db = settle db (body db)

  unfoldable pub create_with_owner : String → String → Action Team
  unfolding transaction create
  create_with_owner name owner_id = transaction (do
    team ← on_teams (create env.teams (λ i. record { id = i; name = name }))
    on_members (
        create env.members
          (λ i. record { id = i; team_id = team.id; user_id = owner_id; role = owner }))
    pure team)

  unfoldable pub create_team : User → String → Action Team
  create_team user name = create_with_owner name user.id

  unfoldable pub find_team : User → String → Action Team
  find_team user team_id = do
    require_team_role user team_id []
    on_teams (find_one env.teams (λ t. t.id == team_id))

  unfoldable pub update_team : User → String → Option String → Action Team
  update_team user team_id name = do
    require_team_role user team_id (owner ∷ [])
    on_teams (
        find_one_and_update env.teams (λ t. t.id == team_id)
          (λ t. record t { name = get_or name t.name }))

  -- `onDelete: 'CASCADE'` of the members and of the invites
  unfoldable pub cascade : String → Action (Unit {0})
  cascade team_id db = (
    ok tt,
    record db {
      members = (env.members.delete (λ m. m.team_id == team_id) db.members).1;
      invites = (env.invites.delete (λ i. i.team_id == team_id) db.invites).1;
    },
  )

  unfoldable pub remove_team : User → String → Action (Unit {0})
  remove_team user team_id = do
    require_team_role user team_id (owner ∷ [])
    on_teams (find_one_and_delete env.teams (λ t. t.id == team_id))
    cascade team_id

  or_no_member : Option TeamMember → Action TeamMember
  or_no_member none = throw (not_found "Member not found")
  or_no_member (some m) = pure m

  unfoldable pub resolve_member : String → String → String → Option TeamMember → Action TeamMember
  unfolding or_no_member find_membership
  resolve_member team_id target_user_id caller_id caller_membership = do
    membership ←
        (if target_user_id == caller_id && is_some caller_membership
          then pure caller_membership
          else find_membership target_user_id team_id)
    or_no_member membership

  unfoldable pub assert_not_last_owner : String → Action (Unit {0})
  unfolding count_by_role
  assert_not_last_owner team_id = do
    owners ← count_by_role team_id owner
    if leb owners 1 then throw (forbidden "A team must keep at least one owner") else pure tt

  unfoldable pub update_member_role : User → String → String → TeamRole → Action TeamMember
  update_member_role user team_id target_user_id role = do
    caller_membership ← require_team_role user team_id (owner ∷ [])
    membership ← resolve_member team_id target_user_id user.id caller_membership
    when (same_role membership.role owner && not (same_role role owner))
        (assert_not_last_owner team_id)
    on_members (
        find_one_and_update env.members (λ m. m.id == membership.id)
          (λ m. record m { role = role }))

  unfoldable pub remove_member : User → String → String → Action (Unit {0})
  remove_member user team_id target_user_id = do
    caller_membership ←
        (if target_user_id == user.id
          then require_team_role user team_id []
          else require_team_role user team_id (owner ∷ []))
    membership ← resolve_member team_id target_user_id user.id caller_membership
    when (same_role membership.role owner) (assert_not_last_owner team_id)
    on_members (find_one_and_delete env.members (λ m. m.id == membership.id))

  unfoldable pub find_pending : String → String → Action (Option TeamInvite)
  find_pending team_id email =
      gets (λ db.
        head? (env.invites.find_by (λ i. i.team_id == team_id && i.email == email) db.invites))

  -- The end of `inviteMember`, after the probe for an invite that is already there.
  unfoldable pub record_invite : String → String → TeamRole → Option TeamInvite → Action (Unit {0})
  record_invite team_id email role (some already) = do
    on_invites
        (find_one_and_update env.invites (λ i. i.id == already.id) (λ i. record i { role = role }))
    pure tt
  record_invite team_id email role none = do
    on_invites (
        create_or_conflict env.invites
          (λ i. record { id = i; team_id = team_id; email = email; role = role })
          "Invite already exists")
    pure tt

  unfoldable pub invite_member : User → String → String → Option TeamRole → Action (Unit {0})
  invite_member user team_id email role = do
    membership ← require_team_role user team_id managing_team_roles
    let team_role = get_or role driver
    if same_role team_role owner && not (is_admin user.role) && not (has_role owner membership)
        then throw (forbidden "Only an owner may invite an owner")
        else do
          let normalized_email = env.to_lower email
          already_invited ← find_pending team_id normalized_email
          record_invite team_id normalized_email team_role already_invited

  unfoldable pub list_my_invites : User → Action (List TeamInvite)
  unfolding find_all_by
  list_my_invites user =
      on_invites (find_all_by env.invites (λ i. i.email == env.to_lower user.email))

  unfoldable pub require_own_invite : User → String → Action TeamInvite
  unfolding find_one
  require_own_invite user invite_id = do
    invite ← on_invites (find_one env.invites (λ i. i.id == invite_id))
    if not (invite.email == env.to_lower user.email)
        then throw (not_found "Invite not found")
        else pure invite

  -- `existing ?? (await this.membersRepository.create(…))`
  unfoldable pub join : User → TeamInvite → Option TeamMember → Action TeamMember
  unfolding create
  join user invite (some existing) = pure existing
  join user invite none = on_members (
      create env.members
        (λ i. record { id = i; team_id = invite.team_id; user_id = user.id; role = invite.role }))

  unfoldable pub accept_invite : User → String → Action TeamMember
  accept_invite user invite_id = do
    invite ← require_own_invite user invite_id
    existing ← find_membership user.id invite.team_id
    member ← join user invite existing
    on_invites (find_one_and_delete env.invites (λ i. i.id == invite.id))
    pure member

  unfoldable pub decline_invite : User → String → Action (Unit {0})
  decline_invite user invite_id = do
    invite ← require_own_invite user invite_id
    on_invites (find_one_and_delete env.invites (λ i. i.id == invite.id))

  unfoldable pub list_invites : User → String → Action (List TeamInvite)
  list_invites user team_id = do
    require_team_role user team_id managing_team_roles
    on_invites (find_all_by env.invites (λ i. i.team_id == team_id))

  unfoldable pub revoke_invite : User → String → String → Action (Unit {0})
  revoke_invite user team_id invite_id = do
    require_team_role user team_id managing_team_roles
    on_invites (find_one_and_delete env.invites (λ i. i.id == invite_id && i.team_id == team_id))
