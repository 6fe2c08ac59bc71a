-- ===== src/Cars/Service/Visible.antt =====
-- Which cars a user is shown.
use kab23_motorsport_telemet.Prelude.{
  String, ◌≡◌, refl, ap, ◌∙◌, Bool, true, false, List, [], ◌∷◌, map, Option, none, some, ok, select,
  any, find, is_some, ◌==◌, Bool-cases, inl, inr, arith,
}
use kab23_motorsport_telemet.Teams.{is_admin, User, TeamMember, member_rows}
use kab23_motorsport_telemet.Teams.Authorization.{seat}
use kab23_motorsport_telemet.Cars.{Car, Garage, Fleet}
use kab23_motorsport_telemet.Cars.Service.{
  in_scope, find_all_ids, find_visible_ids, get_user_team_ids, get_visible_car_ids,
}
use kab23_motorsport_telemet.Cars.Service.Access.{can_read, car_rows, seated_in}

-- Being seated in a team is having it among one's teams.
any-seat :
    (user_id team : String) (ms : List TeamMember)
    → any (λ t. t == team) (map (λ m. m.team_id) (select (λ m. m.user_id == user_id) ms))
      ≡ is_some (find (seat user_id team) ms)
any-seat user_id team [] = refl
any-seat user_id team (m ∷ ms) = ground (arith, any-seat user_id team ms)

select-same :
    (p q : Car → Bool) (cs : List Car) → ((c : Car) → p c ≡ q c) → select p cs ≡ select q cs
select-same p q [] same = refl
select-same p q (c ∷ cs) same = ground (arith, same c, select-same p q cs same)

module _ (env : Garage) (s : Fleet env) where
  abbrev pub teams_of : User → List String
  teams_of user =
      map (λ m. m.team_id) (select (λ m. m.user_id == user.id) (member_rows env.platform s.db))

  in_scope-can_read :
      (user : User) (c : Car) (team : Option String)
      → is_admin user.role ≡ false
      → c.team_id ≡ team
      → in_scope (some user.id) (teams_of user) c ≡ can_read user c (seated_in env s user team)
  in_scope-can_read user c none plain alone = rw (alone, plain) refl
  in_scope-can_read user c (some team) plain runs =
      rw (runs, plain, any-seat user.id team (member_rows env.platform s.db)) refl

  scoped_ids :
      (user : User)
      → is_admin user.role ≡ false
      → get_visible_car_ids env user none s ≡ (
        ok (map (λ c. c.id) (select (in_scope (some user.id) (teams_of user)) (car_rows env s))),
        s,
      )
  unfolding get_visible_car_ids find_visible_ids get_user_team_ids
  scoped_ids user plain =
      rw
        (
          plain,
          env.platform.members.find_by_lem (λ m. m.user_id == user.id) s.db.members,
          env.cars.find_by_lem (in_scope (some user.id) (teams_of user)) s.cars,
        )
        refl

  -- Without a team in the query, the ids of the cars that a user is shown are those of exactly
  -- the cars that he may read: all for an administrator, otherwise his own and those of the
  -- teams in which he has a seat.
  pub get_visible_car_ids_lem :
      (user : User)
      → get_visible_car_ids env user none s ≡ (
        ok (
            map
              (λ c. c.id)
              (select (λ c. can_read user c (seated_in env s user c.team_id)) (car_rows env s))),
        s,
      )
  unfolding get_visible_car_ids find_all_ids find_visible_ids get_user_team_ids
  get_visible_car_ids_lem user = elim (Bool-cases (is_admin user.role)) [
    | inl admin ↦ rw (admin, env.cars.find_by_lem (λ _. true) s.cars) refl
    | inr plain ↦
        scoped_ids user plain
        ∙ ap (λ (cs : List Car). (ok (map (λ c. c.id) cs), s))
            (select-same (in_scope (some user.id) (teams_of user))
              (λ c. can_read user c (seated_in env s user c.team_id)) (car_rows env s)
              (λ c. in_scope-can_read user c c.team_id plain refl))
  ]
