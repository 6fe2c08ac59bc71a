-- ===== src/Teams/Examples.antt =====
-- The theorems on teams at one team: Alice and Bob own it, Carol drives, and Dora is invited.
use kab23_motorsport_telemet.Prelude.{
  ◌≡◌, ◌≤◌, refl, false, [], ◌∷◌, some, ok, err, arith, find, count, ◌==◌, eq_iff, is_some,
}
use kab23_motorsport_telemet.Repository.Abstract.{find_one_and_update}
use kab23_motorsport_telemet.Repository.InMemory.{in_memory}
use kab23_motorsport_telemet.Teams.{
  owner, manager, driver, driver', User, TeamMember, TeamInvite, Platform, Db, team_key, member_key,
  invite_key, no_clash, same_seat, same_address, team_rows, member_rows, invite_rows,
}
use kab23_motorsport_telemet.Teams.Service.{
  require_team_role, remove_member, update_member_role, invite_member, find_membership,
  find_pending, record_invite,
}
use kab23_motorsport_telemet.Teams.Authorization.{seat, owns, verdict, require_team_role_lem}
use kab23_motorsport_telemet.Teams.Ownership.{Governed}
use kab23_motorsport_telemet.Teams.Privilege.{no_owner_no_change, refusal}
use kab23_motorsport_telemet.Teams.Inviting.{
  is_offer, invite_member-offers, invite_member-pending, pending,
}
use kab23_motorsport_telemet.Teams.Joining.{accept_invite_across, Joins, accept_invite_across-Joins}
use kab23_motorsport_telemet.Teams.History.{remove, expel, accept, serve, serve-Governed}
use kab23_motorsport_telemet.Teams.Races.{remove_member_across, owners_leave_at_once}

abbrev env : Platform
env = record {
  teams = in_memory team_key no_clash;
  members = in_memory member_key same_seat;
  invites = in_memory invite_key same_address;
  to_lower = λ s. s;
}

abbrev alice : User
alice = record { id = "alice"; email = "alice@team"; role = driver' }

abbrev bob : User
bob = record { id = "bob"; email = "bob@team"; role = driver' }

abbrev carol : User
carol = record { id = "carol"; email = "carol@team"; role = driver' }

abbrev dora : User
dora = record { id = "dora"; email = "dora@team"; role = driver' }

abbrev alice_seat : TeamMember
alice_seat = record { id = "m1"; team_id = "t"; user_id = "alice"; role = owner }

abbrev bob_seat : TeamMember
bob_seat = record { id = "m2"; team_id = "t"; user_id = "bob"; role = owner }

abbrev carol_seat : TeamMember
carol_seat = record { id = "m3"; team_id = "t"; user_id = "carol"; role = driver }

abbrev dora_invite : TeamInvite
dora_invite = record { id = "i1"; team_id = "t"; email = "dora@team"; role = manager }

abbrev db : Db env
db = record {
  teams = record { id = "t"; name = "Kab" } ∷ [];
  members = alice_seat ∷ bob_seat ∷ carol_seat ∷ [];
  invites = dora_invite ∷ [];
}

db-Governed : Governed env db
db-Governed = record {
  member_ids = λ x. ground (
    arith,
    eq_iff "m1" x,
    eq_iff "m2" x,
    eq_iff "m3" x,
    eq_iff "m1" "m2",
    eq_iff "m1" "m3",
    eq_iff "m2" "m3",
  );
  owned = λ x there. ground (arith, eq_iff "t" x);
}

serve-Governed_example : Governed env (
    serve env db (
      (alice, expel "t" "alice")
      ∷ (bob, expel "t" "bob")
      ∷ (dora, accept "i1")
      ∷ (carol, remove "t")
      ∷ []))
serve-Governed_example = serve-Governed env db _ db-Governed

require_team_role_example : require_team_role env carol "t" (owner ∷ []) db ≡ (
  verdict false
      (owner ∷ [])
      (find (seat "carol" "t") (member_rows env db))
      (is_some (find (λ t. t.id == "t") (team_rows env db))),
  db,
)
require_team_role_example = require_team_role_lem env db carol "t" (owner ∷ [])

no_owner_no_change_example :
    (remove_member env carol "t" "bob" db
      ≡ (err (refusal (find (seat "carol" "t") (member_rows env db))), db))
    × (update_member_role env carol "t" "bob" driver db
        ≡ (err (refusal (find (seat "carol" "t") (member_rows env db))), db))
no_owner_no_change_example =
    no_owner_no_change env db carol "t" "bob" driver refl refl
      (ground (arith, eq_iff "bob" "carol"))

-- The invite is revoked between the seat and the deletion.
accept_invite_across_example :
    let revoked = λ (d : Db env). some (record d { invites = [] }) in
    Joins env db dora dora_invite revoked (accept_invite_across env revoked dora "i1" db)
accept_invite_across_example =
    accept_invite_across-Joins env db dora (λ d. some (record d { invites = [] })) "i1" dora_invite
      refl

invite_member-offers_example :
    count
      (is_offer env)
      (invite_rows env (invite_member env carol "t" "eve@team" (some owner) db).1)
    ≤ count (is_offer env) (invite_rows env db)
invite_member-offers_example =
    invite_member-offers env db carol "t" "eve@team" (some owner) refl refl

invited : (invite_member env alice "t" "dora@team" (some driver) db).0 ≡ ok tt
unfolding invite_member record_invite find_pending require_team_role find_membership
    find_one_and_update
invited = refl

invite_member-pending_example :
    (i : TeamInvite) × (find
        (pending "t" "dora@team")
        (invite_rows env (invite_member env alice "t" "dora@team" (some driver) db).1)
      ≡ some i)
    × (i.role ≡ driver)
invite_member-pending_example =
    invite_member-pending env db alice "t" "dora@team" (some driver) invited

owners_leave_at_once_example :
    count (owns "t") (
      member_rows env
        (remove_member_across env
          (λ d. (remove_member env bob "t" "bob" d).1)
          alice
          "t"
          "alice"
          db).1)
    ≡ 0
owners_leave_at_once_example =
    owners_leave_at_once env db db-Governed "t" alice bob alice_seat bob_seat refl refl refl refl
      refl refl (ground (arith, eq_iff "m1" "m2")) refl
