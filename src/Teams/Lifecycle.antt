-- ===== src/Teams/Lifecycle.antt =====
-- What creating, renaming and deleting a team leave of the owners.
use kab23_motorsport_telemet.Prelude.{
  ◌≤◌, String, ◌≡◌, refl, Bool, List, [], ◌∷◌, ◌++◌, Option, Result, ok, err, arith, count, reject,
  rewrite, ◌==◌, eq_iff, Bool-cases, inl, inr, count-append, count-rewrite_same, count-reject-le,
  count-reject_apart, count-reject_self, get_or, continue, ◌>>◌,
}
use kab23_motorsport_telemet.Repository.Abstract.{
  HttpError, find_one_and_update, find_one_and_delete,
}
use kab23_motorsport_telemet.Repository.Effects.{rows-delete, rows-update, create-Created}
use kab23_motorsport_telemet.Teams.{
  owner, User, Team, TeamMember, Platform, Db, team_rows, member_rows,
}
use kab23_motorsport_telemet.Teams.Service.{
  create_team, create_with_owner, update_team, remove_team, cascade, Action, on_teams,
}
use kab23_motorsport_telemet.Teams.Authorization.{owns, require_team_role_lem}
use kab23_motorsport_telemet.Teams.Roster.{checked}
use kab23_motorsport_telemet.Teams.Ownership.{IsGoverned, Governed}

-- A member whose id is new can only add owners.
pub append-IsGoverned :
    (teams : List Team) (members : List TeamMember) (m : TeamMember)
    → IsGoverned teams members
    → count (λ r. r.id == m.id) members ≡ 0
    → IsGoverned teams (members ++ m ∷ [])
append-IsGoverned teams members m g new = record {
  member_ids = λ x.
      ground (arith, g.member_ids x, count-append (λ r. r.id == x) members (m ∷ []), eq_iff m.id x);
  owned = λ x there. ground (arith, g.owned x, count-append (owns x) members (m ∷ []));
}

module _ (env : Platform) (db : Db env) where
  abbrev founder : User → String → TeamMember
  founder user id = record {
    id = id;
    team_id = env.teams.fresh db.teams;
    user_id = user.id;
    role = owner;
  }

  abbrev named : String → String → Team
  named name id = record { id = id; name = name }

  pub create_team-Governed :
      (user : User) (name : String)
      → Governed env db
      → Governed env (create_team env user name db).1
  unfolding create_team create_with_owner
  create_team-Governed user name g = record {
    member_ids = λ x. ground (
      arith,
      g.member_ids x,
      env.members.fresh_lem db.members,
      create-Created env.teams db.teams (named name),
      create-Created env.members db.members (founder user),
      count-append (λ r. r.id == x) (member_rows env db)
          (founder user (env.members.fresh db.members) ∷ []),
      eq_iff (env.members.fresh db.members) x,
    );
    owned = λ x there. ground (
      arith,
      g.owned x,
      create-Created env.teams db.teams (named name),
      create-Created env.members db.members (founder user),
      count-append (owns x) (member_rows env db) (founder user (env.members.fresh db.members) ∷ []),
      count-append (λ t. t.id == x) (team_rows env db) (named name (env.teams.fresh db.teams) ∷ []),
    );
  }

  -- A rename keeps the ids, so each team has the owners that it had.
  renamed-IsGoverned :
      (p : Team → Bool) (name : Option String)
      → Governed env db
      → IsGoverned
          (rewrite p (λ t. record t { name = get_or name t.name }) (team_rows env db))
          (member_rows env db)
  renamed-IsGoverned p name g = record {
    member_ids = g.member_ids;
    owned = λ x there. ground (
      arith,
      g.owned x,
      count-rewrite_same p (λ t. t.id == x) (λ t. record t { name = get_or name t.name })
          (team_rows env db) (λ t. refl),
    );
  }

  behind_check-Governed :
      {A : Type 0} (c : Result HttpError (Option TeamMember)) (rest : Action env A)
      → Governed env db
      → Governed env (rest db).1
      → Governed env (continue c (λ _. rest) db).1
  behind_check-Governed (ok m) rest g after = after
  behind_check-Governed (err e) rest g after = g

  pub update_team-Governed :
      (user : User) (team_id : String) (name : Option String)
      → Governed env db
      → Governed env (update_team env user team_id name db).1
  unfolding update_team
  update_team-Governed user team_id name g =
      rw (require_team_role_lem env db user team_id (owner ∷ [])) (
        behind_check-Governed (checked env db user team_id (owner ∷ []))
          (on_teams env (
            find_one_and_update env.teams (λ t. t.id == team_id)
              (λ t. record t { name = get_or name t.name })))
          g
          (rw (rows-update env.teams db.teams (λ t. t.id == team_id))
            (renamed-IsGoverned (λ t. t.id == team_id) name g)))

  -- A deletion takes the rows of the team's members with it, and no others.
  removed-IsGoverned :
      (team_id : String)
      → Governed env db
      → IsGoverned
          (reject (λ t. t.id == team_id) (team_rows env db))
          (reject (λ m. m.team_id == team_id) (member_rows env db))
  removed-IsGoverned team_id g = record {
    member_ids = λ x. ground (
      arith,
      g.member_ids x,
      count-reject-le (λ m. m.team_id == team_id) (λ m. m.id == x) (member_rows env db),
    );
    owned = λ x there. elim (Bool-cases (x == team_id)) [
      | inl same ↦ absurd (gone x there ((eq_iff x team_id).0 same))
      | inr other ↦ ground (
        arith,
        g.owned x,
        count-reject-le (λ t. t.id == team_id) (λ t. t.id == x) (team_rows env db),
        count-reject_apart (λ m. m.team_id == team_id) (owns x) (member_rows env db)
            (λ m h. ground (arith, eq_iff m.team_id team_id, eq_iff m.team_id x, eq_iff x team_id)),
      )
    ];
  }
    where
      gone :
          (x : String)
          → 1 ≤ count (λ t. t.id == x) (reject (λ t. t.id == team_id) (team_rows env db))
          → x ≡ team_id
          → ⊥
      gone x there same = ground (arith, count-reject_self (λ t. t.id == x) (team_rows env db))

  deletion : String → Action env (Unit {0})
  deletion team_id = do
    on_teams env (find_one_and_delete env.teams (λ t. t.id == team_id))
    cascade env team_id

  -- Behind the deletion of the team's row: the cascade, or nothing where there was no such row.
  cascade-Governed :
      (team_id : String) (res : Result HttpError (Unit {0})) (left : env.teams.Table)
      → env.teams.rows left ≡ reject (λ t. t.id == team_id) (team_rows env db)
      → Governed env db
      → Governed env (continue res (λ _. cascade env team_id) (record db { teams = left })).1
  unfolding cascade
  cascade-Governed team_id (ok u) left gone g =
      rw (gone, env.members.delete_rows (λ m. m.team_id == team_id)) (removed-IsGoverned team_id g)
  cascade-Governed team_id (err e) left gone g = record {
    member_ids = g.member_ids;
    owned = λ x there. ground (
      arith,
      gone,
      g.owned x,
      count-reject-le (λ t. t.id == team_id) (λ t. t.id == x) (team_rows env db),
    );
  }

  deletion-Governed : (team_id : String) → Governed env db → Governed env (deletion team_id db).1
  unfolding deletion
  deletion-Governed team_id g =
      cascade-Governed team_id _ _ (rows-delete env.teams db.teams (λ t. t.id == team_id)) g

  pub remove_team-Governed :
      (user : User) (team_id : String)
      → Governed env db
      → Governed env (remove_team env user team_id db).1
  unfolding remove_team deletion
  remove_team-Governed user team_id g =
      rw (require_team_role_lem env db user team_id (owner ∷ [])) (
        behind_check-Governed (checked env db user team_id (owner ∷ [])) (deletion team_id) g
          (deletion-Governed team_id g))
