-- ===== src/Live/Viewers.antt =====
-- The viewers of a car over any number of joins and leaves, and after a subscribe that failed.
use kab23_motorsport_telemet.Prelude.{
  ℕ, zero, suc, ◌+◌, ◌-◌, String, ◌≡◌, refl, ap, ◌∙◌, false, [], ◌∷◌, ◌++◌, Option, none, some,
  arith, leb, ◌=ⁿ◌, eq_refl, if◌then◌else◌,
}
use kab23_motorsport_telemet.Prelude.Assoc.{lookup, lookup-insert, lookup-erase}
use kab23_motorsport_telemet.Live.{
  Viewed, Bus, add_viewer, view, subscribe_failed, discard, remove_viewer, release_from,
  unsubscribed, subscribe_to, unsubscribe_from,
}

-- The car has this many viewers, who wait for or have this subscribe.
abbrev pub Has : String → ℕ → ℕ → Bus → Type 0
Has car_id n number b = lookup car_id b.cars ≡ some (record { count = n; subscribing = number })

-- `n` more viewers join, and `n` leave.
unfoldable pub join_all : ℕ → String → Bus → Bus
join_all zero car_id b = b
join_all (suc n) car_id b = join_all n car_id (add_viewer car_id b).1

unfoldable pub leave_all : ℕ → String → Bus → Bus
leave_all zero car_id b = b
leave_all (suc n) car_id b = leave_all n car_id (remove_viewer car_id b)

recount :
    (number n m : ℕ)
    → n ≡ m
    → ◌≡◌ {A = Option Viewed}
        (some (record { count = n; subscribing = number }))
        (some (record { count = m; subscribing = number }))
recount number n m same = ap (λ k. some (record { count = k; subscribing = number })) same

module _ (car_id : String) where
  pub add_viewer-first :
      (b : Bus)
      → lookup car_id b.cars ≡ none
      → Has car_id 1 b.subscribes (add_viewer car_id b).1
        × ((add_viewer car_id b).1.sent ≡ b.sent ++ subscribe_to car_id ∷ [])
  unfolding add_viewer view
  add_viewer-first b vacant = rw (vacant, lookup-insert, eq_refl) (refl, refl)

  pub add_viewer-next :
      (n number : ℕ) (b : Bus)
      → Has car_id n number b
      → Has car_id (suc n) number (add_viewer car_id b).1 × ((add_viewer car_id b).1.sent ≡ b.sent)
  unfolding add_viewer view
  add_viewer-next n number b seen = rw (seen, lookup-insert, eq_refl) (refl, refl)

  pub remove_viewer-next :
      (n number : ℕ) (b : Bus)
      → Has car_id (suc (suc n)) number b
      → Has car_id (suc n) number (remove_viewer car_id b)
        × ((remove_viewer car_id b).sent ≡ b.sent)
  unfolding remove_viewer release_from unsubscribed
  remove_viewer-next n number b seen =
      let more : leb (suc (suc n)) 1 ≡ false = ground arith in
      rw (seen, more, lookup-insert, eq_refl)
        (recount number (suc (suc n) - 1) (suc n) (omega arith), refl)

  pub remove_viewer-last :
      (number : ℕ) (b : Bus)
      → Has car_id 1 number b
      → (lookup car_id (remove_viewer car_id b).cars ≡ none)
        × ((remove_viewer car_id b).sent ≡ b.sent ++ unsubscribe_from car_id ∷ [])
  unfolding remove_viewer release_from unsubscribed
  remove_viewer-last number b seen = rw (seen, lookup-erase, eq_refl) (refl, refl)

  join_all-Has :
      (k n number : ℕ) (b : Bus)
      → Has car_id n number b
      → Has car_id (k + n) number (join_all k car_id b) × ((join_all k car_id b).sent ≡ b.sent)
  unfolding join_all
  join_all-Has zero n number b seen = (seen ∙ recount number n (0 + n) (omega arith), refl)
  join_all-Has (suc k) n number b seen =
      let (seen', same) = add_viewer-next n number b seen in
      let (seen'', same') = join_all-Has k (suc n) number (add_viewer car_id b).1 seen' in
      (seen'' ∙ recount number (k + suc n) (suc k + n) (omega arith), same' ∙ same)

  leave_all-last :
      (n number : ℕ) (b : Bus)
      → Has car_id (suc n) number b
      → (lookup car_id (leave_all (suc n) car_id b).cars ≡ none)
        × ((leave_all (suc n) car_id b).sent ≡ b.sent ++ unsubscribe_from car_id ∷ [])
  unfolding leave_all
  leave_all-last zero number b seen = remove_viewer-last number b seen
  leave_all-last (suc n) number b seen =
      let (seen', same) = remove_viewer-next n number b seen in
      let (gone, last) = leave_all-last n number (remove_viewer car_id b) seen' in
      (gone, last ∙ ap (λ l. l ++ unsubscribe_from car_id ∷ []) same)

  -- From no entry of a car, any positive number of viewers join and as many leave: the car is
  -- subscribed once and then unsubscribed once, and it has no entry again.
  pub leave_all-join_all :
      (n : ℕ) (b : Bus)
      → lookup car_id b.cars ≡ none
      → let after = leave_all (suc n) car_id (join_all (suc n) car_id b) in
        (lookup car_id after.cars ≡ none)
        × (after.sent ≡ (b.sent ++ subscribe_to car_id ∷ []) ++ unsubscribe_from car_id ∷ [])
  unfolding join_all
  leave_all-join_all n b vacant =
      let (seen, first) = add_viewer-first b vacant in
      let (seen', same) = join_all-Has n 1 b.subscribes (add_viewer car_id b).1 seen in
      let (gone, last) =
        leave_all-last n b.subscribes (join_all n car_id (add_viewer car_id b).1)
          (seen' ∙ recount b.subscribes (n + 1) (suc n) (omega arith)) in
      (gone, last ∙ ap (λ l. l ++ unsubscribe_from car_id ∷ []) (same ∙ first))

  -- After a failed subscribe, the car's entry is gone if it stood on that subscribe, and kept if
  -- a later one established it.
  pub subscribe_failed_lem :
      (n : ℕ) (b : Bus) (e : Viewed)
      → lookup car_id b.cars ≡ some e
      → lookup car_id (subscribe_failed car_id n b).cars
        ≡ (if e.subscribing =ⁿ n then none else some e)
  unfolding subscribe_failed discard
  subscribe_failed_lem n b e seen =
      rw seen (ground (arith, lookup-erase car_id car_id b.cars, eq_refl car_id))
