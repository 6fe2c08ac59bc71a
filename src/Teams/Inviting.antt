-- ===== src/Teams/Inviting.antt =====
-- What `inviteMember` writes.
use kab23_motorsport_telemet.Prelude.{
  ◌≤◌, String, ◌≡◌, refl, sym, Bool-cases, Bool, false, not, ◌&&◌, Option, none, some, Result, err,
  ok, arith, find, count, List, [], ◌∷◌, ◌==◌, eq_refl, inl, inr, get_or, select, if◌then◌else◌,
  count-append, count-rewrite-le, find-rewrite, find-append,
}
use mathlib.Core.List.{head?}
use kab23_motorsport_telemet.Repository.Abstract.{HttpError, forbidden, create_or_conflict}
use kab23_motorsport_telemet.Repository.Effects.{rows-update, Created, create_or_conflict-Created}
use kab23_motorsport_telemet.Teams.{
  TeamRole, owner, driver, same_role, is_admin, User, TeamMember, TeamInvite, Platform, Db,
  member_rows, invite_rows, managing_team_roles,
}
use kab23_motorsport_telemet.Teams.Service.{
  Action, invite_member, record_invite, find_pending, has_role, require_team_role,
}
use kab23_motorsport_telemet.Teams.Authorization.{seat, require_team_role_lem}
use kab23_motorsport_telemet.Teams.Roster.{checked, verdict-seat}

-- `find({ teamId, email })`
abbrev pub pending : String → String → TeamInvite → Bool
pending team_id email i = i.team_id == team_id && i.email == email

abbrev entry : String → String → TeamRole → String → TeamInvite
entry team_id email role id = record { id = id; team_id = team_id; email = email; role = role }

head-select {ℓ} : {A : Type ℓ} (p : A → Bool) (xs : List A) → head? (select p xs) ≡ find p xs
head-select p [] = refl
head-select p (x ∷ xs) = ground (arith, head-select p xs)

module _ (env : Platform) (db : Db env) where
  find_pending_lem :
      (team_id email : String)
      → find_pending env team_id email db
        ≡ (ok (find (pending team_id email) (invite_rows env db)), db)
  unfolding find_pending
  find_pending_lem team_id email = ground (
    arith,
    env.invites.find_by_lem (pending team_id email) db.invites,
    head-select (pending team_id email) (invite_rows env db),
  )

module _ (env : Platform) where
  -- The service behind the role check: only an owner or an administrator offers ownership.
  abbrev pub invitation :
      User
      → String
      → String
      → TeamRole
      → Result HttpError (Option TeamMember)
      → Action env (Unit {0})
  invitation user team_id email role (err e) db = (err e, db)
  invitation user team_id email role (ok m) db =
      if same_role role owner && not (is_admin user.role) && not (has_role owner m)
      then (err (forbidden "Only an owner may invite an owner"), db)
      else record_invite env team_id email role (find (pending team_id email) (invite_rows env db))
          db

  module _ (db : Db env) (user : User) (team_id email : String) (role : Option TeamRole) where
    after_check :
        (c : Result HttpError (Option TeamMember))
        → require_team_role env user team_id managing_team_roles db ≡ (c, db)
        → invite_member env user team_id email role db
          ≡ invitation user team_id (env.to_lower email) (get_or role driver) c db
    unfolding invite_member
    after_check (err e) same = ground arith
    after_check (ok m) same = ground (arith, find_pending_lem env db team_id (env.to_lower email))

    -- `inviteMember` on every branch.
    pub invite_member_lem :
        invite_member env user team_id email role db
        ≡ invitation user team_id
            (env.to_lower email)
            (get_or role driver)
            (checked env db user team_id managing_team_roles)
            db
    invite_member_lem =
        after_check (checked env db user team_id managing_team_roles)
          (require_team_role_lem env db user team_id managing_team_roles)

  abbrev pub is_offer : TeamInvite → Bool
  is_offer i = same_role i.role owner

  module _ (db : Db env) (team_id email : String) (role : TeamRole) where
    -- What recording an invite leaves: for the address, an invite with this role.
    abbrev Recorded : Result HttpError (Unit {0}) × Db env → Type 0
    Recorded r =
        r.0 ≡ ok tt
        → (i : TeamInvite) × (find (pending team_id email) (invite_rows env r.1) ≡ some i)
          × (i.role ≡ role)

    new-Recorded :
        (res : Result HttpError TeamInvite) (t' : env.invites.Table)
        → create_or_conflict env.invites
            (entry team_id email role)
            "Invite already exists"
            db.invites
          ≡ (res, t')
        → Created env.invites db.invites (entry team_id email role) (res, t')
        → find (pending team_id email) (invite_rows env db) ≡ none
        → Recorded (record_invite env team_id email role none db)
    unfolding record_invite
    new-Recorded (ok m) t' made (inl (same, added, free)) new done = (
      entry team_id email role (env.invites.fresh db.invites),
      ground (
        arith,
        find-append (pending team_id email) (invite_rows env db)
            (entry team_id email role (env.invites.fresh db.invites)) new
            (ground (arith, eq_refl team_id, eq_refl email)),
      ),
      refl,
    )
    new-Recorded (ok m) t' made (inr (e, failed, same)) new done = cc
    new-Recorded (err x) t' made created new done = absurd (ground arith)

    record_invite-Recorded :
        (o : Option TeamInvite)
        → find (pending team_id email) (invite_rows env db) ≡ o
        → Recorded (record_invite env team_id email role o db)
    unfolding record_invite
    record_invite-Recorded (some a) there done = (
      record a { role = role },
      ground (
        arith,
        rows-update env.invites db.invites (λ i. i.id == a.id) (λ i. record i { role = role }),
        find-rewrite (pending team_id email) (λ i. i.id == a.id) (λ i. record i { role = role })
            (invite_rows env db) a there (eq_refl a.id) (λ i. refl),
      ),
      refl,
    )
    record_invite-Recorded none there done =
        new-Recorded _ _ refl
          (create_or_conflict-Created env.invites db.invites (entry team_id email role)
            "Invite already exists")
          there done

    -- Recording a role that is not OWNER offers ownership to nobody.
    record_invite-offers :
        (o : Option TeamInvite)
        → same_role role owner ≡ false
        → count is_offer (invite_rows env (record_invite env team_id email role o db).1)
          ≤ count is_offer (invite_rows env db)
    unfolding record_invite
    record_invite-offers (some a) low = ground (
      arith,
      rows-update env.invites db.invites (λ i. i.id == a.id) (λ i. record i { role = role }),
      count-rewrite-le (λ i. i.id == a.id) is_offer (λ i. record i { role = role })
          (invite_rows env db) (λ i. low),
    )
    record_invite-offers none low = ground (
      arith,
      create_or_conflict-Created env.invites db.invites (entry team_id email role)
          "Invite already exists",
      count-append is_offer (invite_rows env db)
          (entry team_id email role (env.invites.fresh db.invites) ∷ []),
    )

  -- The service, seen from the tables.
  module _ (db : Db env) (user : User) (team_id email : String) (role : Option TeamRole) where
    pending_behind :
        (c : Result HttpError (Option TeamMember))
        → (invitation user team_id (env.to_lower email) (get_or role driver) c db).0 ≡ ok tt
        → (i : TeamInvite) × (find (pending team_id (env.to_lower email)) (
              invite_rows env
                (invitation user team_id (env.to_lower email) (get_or role driver) c db).1)
            ≡ some i)
          × (i.role ≡ get_or role driver)
    pending_behind (err e) done = absurd (ground arith)
    pending_behind (ok m) done =
        elim (Bool-cases (
          same_role (get_or role driver) owner
          && not (is_admin user.role)
          && not (has_role owner m))) [
            | inl refused ↦ absurd (ground arith)
            | inr allowed ↦ rw allowed (
                record_invite-Recorded db team_id (env.to_lower email) (get_or role driver) _ refl
                  (ground arith))
          ]

    allowed_offers :
        (email : String) (c : Result HttpError (Option TeamMember))
        → c ≡ checked env db user team_id managing_team_roles
        → is_admin user.role ≡ false
        → has_role owner (find (seat user.id team_id) (member_rows env db)) ≡ false
        → count is_offer
            (invite_rows env (invitation user team_id email (get_or role driver) c db).1)
          ≤ count is_offer (invite_rows env db)
    allowed_offers email (err e) check plain low = ground arith
    allowed_offers email (ok m) check plain low = ground (
      arith,
      verdict-seat _ managing_team_roles _ _ m (sym check),
      record_invite-offers db team_id email (get_or role driver)
          (find (pending team_id email) (invite_rows env db)),
    )

    -- A request to invite by a user who is neither an administrator nor an owner of the team
    -- leaves no more invites that offer ownership than there were.
    pub invite_member-offers :
        is_admin user.role ≡ false
        → has_role owner (find (seat user.id team_id) (member_rows env db)) ≡ false
        → count is_offer (invite_rows env (invite_member env user team_id email role db).1)
          ≤ count is_offer (invite_rows env db)
    invite_member-offers plain low =
        rw (invite_member_lem db user team_id email role)
          (allowed_offers (env.to_lower email) _ refl plain low)

    -- After an invite that succeeds, the address has a pending invite to the team under its
    -- lower-case form, with the role that was asked for, or DRIVER.
    pub invite_member-pending :
        (invite_member env user team_id email role db).0 ≡ ok tt
        → (i : TeamInvite) × (find
              (pending team_id (env.to_lower email))
              (invite_rows env (invite_member env user team_id email role db).1)
            ≡ some i)
          × (i.role ≡ get_or role driver)
    invite_member-pending =
        rw (invite_member_lem db user team_id email role)
          (pending_behind (checked env db user team_id managing_team_roles))
