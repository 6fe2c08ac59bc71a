-- ===== src/Teams/Accepting.antt =====
-- `acceptInvite`: who can turn an invite into a seat, and what that writes.
use kab23_motorsport_telemet.Prelude.{
  String, ◌≡◌, refl, true, false, [], ◌∷◌, ◌++◌, Option, none, some, Result, ok, err, arith, ◌⊎◌,
  inl, inr, find, reject, ◌==◌, eq_iff, eq_refl, if◌then◌else◌, Bool-cases, Option-cases,
  find-count,
}
use kab23_motorsport_telemet.Repository.Abstract.{HttpError, not_found, find_one_and_delete, create}
use kab23_motorsport_telemet.Repository.Effects.{
  rows-delete, create-Created, Created, result-delete,
}
use kab23_motorsport_telemet.Teams.{
  User, TeamMember, TeamInvite, Platform, Db, team_rows, member_rows, invite_rows,
}
use kab23_motorsport_telemet.Teams.Service.{
  accept_invite, require_own_invite, join, find_membership,
}
use kab23_motorsport_telemet.Teams.Authorization.{seat}

module _ (env : Platform) where
  -- The invite with this id, if it is addressed to the caller.
  abbrev pub own_invite : User → Option TeamInvite → Result HttpError TeamInvite
  own_invite user none = err (not_found "Entity not found")
  own_invite user (some i) =
      if i.email == env.to_lower user.email then ok i else err (not_found "Invite not found")

  module _ (db : Db env) (user : User) where
    pub require_own_invite_lem :
        (invite_id : String)
        → require_own_invite env user invite_id db
          ≡ (own_invite user (find (λ i. i.id == invite_id) (invite_rows env db)), db)
    unfolding require_own_invite
    require_own_invite_lem invite_id =
        ground (arith, env.invites.find_one_lem (λ i. i.id == invite_id) db.invites)

    -- The row that accepting this invite would add.
    abbrev pub joining : TeamInvite → String → TeamMember
    joining i id = record { id = id; team_id = i.team_id; user_id = user.id; role = i.role }

    -- What accepting leaves: nothing changes on an error; else the caller sits in the invite's team,
    -- in the seat that was there or in a new one with the invite's role, and the invite is gone.
    abbrev pub Accepts : TeamInvite → Result HttpError TeamMember × Db env → Type 0
    Accepts i (err e, after) = after ≡ db
    Accepts i (ok m, after) =
        (i.email ≡ env.to_lower user.email)
        × (invite_rows env after ≡ reject (λ r. r.id == i.id) (invite_rows env db))
        × (team_rows env after ≡ team_rows env db)
        × (((find (seat user.id i.team_id) (member_rows env db) ≡ some m)
              × (member_rows env after ≡ member_rows env db))
            ⊎ ((find (seat user.id i.team_id) (member_rows env db) ≡ none)
                × (m ≡ joining i (env.members.fresh db.members))
                × (member_rows env after ≡ member_rows env db ++ m ∷ [])))

    module _ (invite_id : String) (i : TeamInvite)
        (found : find (λ r. r.id == invite_id) (invite_rows env db) ≡ some i) where
      abbrev entity : String → TeamMember
      entity = joining i

      abbrev spent : Db env → Db env
      spent after = record after {
        invites = (find_one_and_delete env.invites (λ r. r.id == i.id) after.invites).1;
      }

      -- The invite that was found is there to be deleted.
      deleted : (find_one_and_delete env.invites (λ r. r.id == i.id) db.invites).0 ≡ ok tt
      deleted = ground (
        arith,
        result-delete env.invites db.invites (λ r. r.id == i.id),
        find-count (λ r. r.id == invite_id) (λ r. r.id == i.id) (invite_rows env db) i found
            (eq_refl i.id),
      )

      mismatch_lem :
          (i.email == env.to_lower user.email) ≡ false
          → accept_invite env user invite_id db ≡ (err (not_found "Invite not found"), db)
      unfolding accept_invite
      mismatch_lem other = ground (arith, require_own_invite_lem invite_id)

      module _ (mine : (i.email == env.to_lower user.email) ≡ true) where
        seated_lem :
            (m : TeamMember)
            → find (seat user.id i.team_id) (member_rows env db) ≡ some m
            → accept_invite env user invite_id db ≡ (ok m, spent db)
        unfolding accept_invite find_membership join
        seated_lem m there = ground (
          arith,
          require_own_invite_lem invite_id,
          deleted,
          env.members.find_one_lem (seat user.id i.team_id) db.members,
        )

        joined_lem :
            (res : Result HttpError TeamMember) (t' : env.members.Table)
            → create env.members entity db.members ≡ (res, t')
            → find (seat user.id i.team_id) (member_rows env db) ≡ none
            → accept_invite env user invite_id db ≡ (
              res,
              elim res [
                | ok m ↦ spent (record db { members = t' })
                | err e ↦ record db { members = t' }
              ],
            )
        unfolding accept_invite find_membership join
        joined_lem (ok m) t' made none_there = ground (
          arith,
          require_own_invite_lem invite_id,
          deleted,
          env.members.find_one_lem (seat user.id i.team_id) db.members,
        )
        joined_lem (err e) t' made none_there = ground (
          arith,
          require_own_invite_lem invite_id,
          deleted,
          env.members.find_one_lem (seat user.id i.team_id) db.members,
        )

        emptied : invite_rows env (spent db) ≡ reject (λ r. r.id == i.id) (invite_rows env db)
        emptied = rows-delete env.invites db.invites (λ r. r.id == i.id)

        addressed : i.email ≡ env.to_lower user.email
        addressed = (eq_iff i.email (env.to_lower user.email)).0 mine

        -- The seat is new: `res` and `t'` are what inserting the row came to.
        joined-Accepts :
            (res : Result HttpError TeamMember) (t' : env.members.Table)
            → create env.members entity db.members ≡ (res, t')
            → Created env.members db.members entity (res, t')
            → find (seat user.id i.team_id) (member_rows env db) ≡ none
            → Accepts i (accept_invite env user invite_id db)
        joined-Accepts (ok m) t' made (inl (same, added, free)) vacant =
            rw (joined_lem (ok m) t' made vacant)
              (addressed, emptied, refl, inr (vacant, ground arith, ground arith))
        joined-Accepts (ok m) t' made (inr (e, wrong, same)) vacant = cc
        joined-Accepts (err x) t' made (inl (same, added, free)) vacant = cc
        joined-Accepts (err x) t' made (inr (e, failed, same)) vacant =
            rw (joined_lem (err x) t' made vacant, same) refl

        mine-Accepts : Accepts i (accept_invite env user invite_id db)
        mine-Accepts = elim (Option-cases (find (seat user.id i.team_id) (member_rows env db))) [
          | inl vacant ↦
              joined-Accepts (create env.members entity db.members).0
                (create env.members entity db.members).1 refl
                (create-Created env.members db.members entity) vacant
          | inr (m, there) ↦ rw (seated_lem m there) (addressed, emptied, refl, inl (there, refl))
        ]

      -- Accepting an invite that exists, where nothing runs between its queries and the deletion
      -- does not fail: an error changes nothing, and a success means that the invite was addressed to
      -- the caller and is used up, and that the caller has the seat that was there or a new one.
      pub accept_invite-Accepts : Accepts i (accept_invite env user invite_id db)
      accept_invite-Accepts = elim (Bool-cases (i.email == env.to_lower user.email)) [
        | inl mine ↦ mine-Accepts mine
        | inr other ↦ rw (mismatch_lem other) refl
      ]

    -- An invite that does not exist is a 404, and nothing changes.
    pub accept_invite_missing :
        (invite_id : String)
        → find (λ r. r.id == invite_id) (invite_rows env db) ≡ none
        → accept_invite env user invite_id db ≡ (err (not_found "Entity not found"), db)
    unfolding accept_invite
    accept_invite_missing invite_id missing = ground (arith, require_own_invite_lem invite_id)
