-- ===== src/Teams/Joining.antt =====
-- `acceptInvite` saves the seat and then deletes the invite, outside a transaction. Here the query
-- that deletes may fail, and other requests may run before it.
use kab23_motorsport_telemet.Prelude.{
  String, ◌≡◌, refl, sym, ap, ◌∙◌, true, false, [], ◌∷◌, ◌++◌, Option, none, some, Result, ok, err,
  ◌>>=◌, ◌>>◌, pure, arith, ◌⊎◌, inl, inr, find, count, reject, ◌==◌, ◌=ⁿ◌, eq_iff, if◌then◌else◌,
  Bool-cases, Option-cases,
}
use kab23_motorsport_telemet.Repository.Abstract.{
  HttpError, not_found, failed_query, find_one_and_delete, create,
}
use kab23_motorsport_telemet.Repository.Effects.{
  rows-delete, create-Created, Created, result-delete,
}
use kab23_motorsport_telemet.Teams.{
  User, TeamMember, TeamInvite, Platform, Db, team_rows, member_rows, invite_rows,
}
use kab23_motorsport_telemet.Teams.Service.{
  Action, on_invites, accept_invite, require_own_invite, join, find_membership,
}
use kab23_motorsport_telemet.Teams.Authorization.{seat}
use kab23_motorsport_telemet.Teams.Accepting.{require_own_invite_lem, joining}

module _ (env : Platform) where
  -- The query that deletes an invite: it fails, or runs on the tables as others left them.
  unfoldable pub delete_invite : String → Option (Db env) → Action env (Unit {0})
  delete_invite invite_id none db = (err failed_query, db)
  delete_invite invite_id (some d) db =
      on_invites env (find_one_and_delete env.invites (λ i. i.id == invite_id)) d

  -- `acceptInvite`, with what happens between the seat and the deletion.
  unfoldable pub accept_invite_across :
      (Db env → Option (Db env)) → User → String → Action env TeamMember
  unfolding delete_invite
  accept_invite_across between user invite_id = do
    invite ← require_own_invite env user invite_id
    existing ← find_membership env user.id invite.team_id
    member ← join env user invite existing
    (λ db. delete_invite invite.id (between db) db)
    pure member

  -- Alone it is `acceptInvite`.
  accept_alone :
      (db : Db env) (user : User) (invite_id : String)
      → accept_invite_across (λ d. some d) user invite_id db ≡ accept_invite env user invite_id db
  unfolding accept_invite_across delete_invite accept_invite
  accept_alone db user invite_id = refl

  -- What the deletion comes to, from `mid` on, where the caller has the seat `m`.
  abbrev pub Ends :
      TeamInvite
      → TeamMember
      → Db env
      → Result HttpError TeamMember × Db env
      → Option (Db env)
      → Type 0
  Ends i m mid (res, after) none = (res ≡ err failed_query) × (after ≡ mid)
  Ends i m mid (res, after) (some d) =
      (res ≡ (
        if count (λ r. r.id == i.id) (invite_rows env d) =ⁿ 0
        then err (not_found "Entity not found")
        else ok m))
      × (invite_rows env after ≡ reject (λ r. r.id == i.id) (invite_rows env d))
      × (member_rows env after ≡ member_rows env d)
      × (team_rows env after ≡ team_rows env d)

  module _ (db : Db env) (user : User) where
    -- In `mid` the caller has the seat `m` of the invite's team, which was there in `db` or is new
    -- with the invite's role, and nothing else has changed.
    abbrev pub Seats : TeamInvite → TeamMember → Db env → Type 0
    Seats i m mid =
        (invite_rows env mid ≡ invite_rows env db)
        × (team_rows env mid ≡ team_rows env db)
        × (((find (seat user.id i.team_id) (member_rows env db) ≡ some m)
              × (member_rows env mid ≡ member_rows env db))
            ⊎ ((find (seat user.id i.team_id) (member_rows env db) ≡ none)
                × (m ≡ joining env db user i (env.members.fresh db.members))
                × (member_rows env mid ≡ member_rows env db ++ m ∷ [])))

    -- The three ways of accepting an invite that exists.
    abbrev pub Joins :
        TeamInvite → (Db env → Option (Db env)) → Result HttpError TeamMember × Db env → Type 0
    Joins i between r =
        (((i.email == env.to_lower user.email) ≡ false)
          × (r ≡ (err (not_found "Invite not found"), db)))
        ⊎ ((i.email ≡ env.to_lower user.email)
            × (((find (seat user.id i.team_id) (member_rows env db) ≡ none)
                  × ((e : HttpError) × ((create env.members (joining env db user i) db.members).0
                        ≡ err e)
                      × (r ≡ (err e, db))))
                ⊎ ((m : TeamMember) × (mid : Db env) × Seats i m mid
                    × Ends i m mid r (between mid))))

    module _ (between : Db env → Option (Db env)) (invite_id : String) (i : TeamInvite)
        (found : find (λ r. r.id == invite_id) (invite_rows env db) ≡ some i) where
      abbrev outcome : Result HttpError TeamMember × Db env
      outcome = accept_invite_across between user invite_id db

      delete_invite-Ends :
          (m : TeamMember) (mid : Db env) (o : Option (Db env))
          → Ends i m mid (((λ d. delete_invite i.id o d) >> pure m) mid) o
      unfolding delete_invite
      delete_invite-Ends m mid none = (refl, refl)
      delete_invite-Ends m mid (some d) =
          let emptied = rows-delete env.invites d.invites (λ r. r.id == i.id) in
          let answer = result-delete env.invites d.invites (λ r. r.id == i.id) in
          elim (Bool-cases (count (λ r. r.id == i.id) (invite_rows env d) =ⁿ 0)) [
            | inl gone ↦ rw (answer, gone) (refl, emptied, refl, refl)
            | inr there ↦ rw (answer, there) (refl, emptied, refl, refl)
          ]

      other_address :
          (i.email == env.to_lower user.email) ≡ false
          → outcome ≡ (err (not_found "Invite not found"), db)
      unfolding accept_invite_across
      other_address other = ground (arith, require_own_invite_lem env db user invite_id)

      module _ (mine : (i.email == env.to_lower user.email) ≡ true) where
        seated :
            (m : TeamMember)
            → find (seat user.id i.team_id) (member_rows env db) ≡ some m
            → outcome ≡ ((λ d. delete_invite i.id (between d) d) >> pure m) db
        unfolding accept_invite_across find_membership join
        seated m there =
            rw
              (
                require_own_invite_lem env db user invite_id,
                found,
                mine,
                env.members.find_one_lem (seat user.id i.team_id) db.members,
                there,
              )
              refl

        abbrev new_seat : String → TeamMember
        new_seat = joining env db user i

        vacant_lem :
            (res : Result HttpError TeamMember) (t' : env.members.Table)
            → create env.members new_seat db.members ≡ (res, t')
            → find (seat user.id i.team_id) (member_rows env db) ≡ none
            → outcome
              ≡ ((λ d. (res, record d { members = t' }))
                    >>= (λ m. (λ d. delete_invite i.id (between d) d) >> pure m))
                  db
        unfolding accept_invite_across find_membership join
        vacant_lem res t' made vacant =
            rw
              (
                require_own_invite_lem env db user invite_id,
                found,
                mine,
                env.members.find_one_lem (seat user.id i.team_id) db.members,
                vacant,
                made,
              )
              refl

        addressed : i.email ≡ env.to_lower user.email
        addressed = (eq_iff i.email (env.to_lower user.email)).0 mine

        vacant-Joins :
            (res : Result HttpError TeamMember) (t' : env.members.Table)
            → create env.members new_seat db.members ≡ (res, t')
            → Created env.members db.members new_seat (res, t')
            → find (seat user.id i.team_id) (member_rows env db) ≡ none
            → Joins i between outcome
        vacant-Joins (ok m) t' made (inl (same, added, free)) vacant =
            let mid = record db { members = t' } in
            let m_new : m ≡ new_seat (env.members.fresh db.members) = ground arith in
            rw (vacant_lem (ok m) t' made vacant) (
              inr (
                addressed,
                inr (
                  m,
                  mid,
                  (
                    refl,
                    refl,
                    inr (vacant, m_new, added ∙ ap (λ x. member_rows env db ++ x ∷ []) (sym m_new)),
                  ),
                  delete_invite-Ends m mid (between mid),
                ),
              ))
        vacant-Joins (ok m) t' made (inr (e, wrong, same)) vacant = cc
        vacant-Joins (err x) t' made (inl (same, added, free)) vacant = cc
        vacant-Joins (err x) t' made (inr (e, failed, same)) vacant =
            rw (vacant_lem (err x) t' made vacant, same)
              (inr (
                addressed,
                inl (
                  vacant,
                  (x, ap (λ (q : Result HttpError TeamMember × env.members.Table). q.0) made, refl),
                ),
              ))

        mine-Joins : Joins i between outcome
        mine-Joins = elim (Option-cases (find (seat user.id i.team_id) (member_rows env db))) [
          | inl vacant ↦
              vacant-Joins (create env.members new_seat db.members).0
                (create env.members new_seat db.members).1 refl
                (create-Created env.members db.members new_seat) vacant
          | inr (m, there) ↦ rw (seated m there) (
              inr (
                addressed,
                inr (m, db, (refl, refl, inl (there, refl)), delete_invite-Ends m db (between db)),
              ))
        ]

      -- Accepting an invite that exists, whatever happens between the seat and the deletion. A
      -- caller whom it is not addressed to gets a 404, and one whose new seat cannot be saved
      -- the error of that; both change nothing. Any other caller has the seat that was there or
      -- a new one with the role of the invite; then a deletion that fails is an error which
      -- leaves the seat and the invite, one that finds the invite gone is a 404, and one that
      -- succeeds takes the invite away and answers with the seat.
      pub accept_invite_across-Joins : Joins i between outcome
      accept_invite_across-Joins = elim (Bool-cases (i.email == env.to_lower user.email)) [
        | inl mine ↦ mine-Joins mine
        | inr other ↦ rw (other_address other) (inl (other, refl))
      ]
