-- ===== src/Live/Gateway/Leaving.antt =====
-- What a socket leaves behind at the bus.
use kab23_motorsport_telemet.Prelude.{
  ℕ, suc, String, ◌≡◌, refl, sym, ap, ◌∙◌, inl, inr, ◌⊎◌, true, false, [], Option, none, some, ◌==◌,
}
use kab23_motorsport_telemet.Prelude.Assoc.{lookup}
use kab23_motorsport_telemet.Live.{Bus, add_viewer, remove_viewer, release_from, unsubscribed}
use kab23_motorsport_telemet.Live.Viewers.{
  Has, add_viewer-first, add_viewer-next, remove_viewer-next, remove_viewer-last,
}
use kab23_motorsport_telemet.Live.Gateway.{
  Viewer, subscribe, resume, proceed, authorize, joined, release_all, handle_disconnect,
}

restored :
    (car_id : String) (b : Bus)
    → (lookup car_id b.cars ≡ none) ⊎ ((n : ℕ) × (number : ℕ) × Has car_id (suc n) number b)
    → lookup car_id (remove_viewer car_id (add_viewer car_id b).1).cars ≡ lookup car_id b.cars
restored car_id b (inl vacant) =
    (remove_viewer-last car_id b.subscribes (add_viewer car_id b).1
      (add_viewer-first car_id b vacant).0).0
    ∙ sym vacant
restored car_id b (inr (n, number, seen)) =
    (remove_viewer-next car_id n number (add_viewer car_id b).1
      (add_viewer-next car_id (suc n) number b seen).0).0
    ∙ sym seen

nobody_left : (car_id : String) (b : Bus) → lookup car_id b.cars ≡ none → remove_viewer car_id b ≡ b
unfolding remove_viewer release_from unsubscribed
nobody_left car_id b vacant = rw vacant refl

module _ {A : Type 0} where
  -- A socket that has just connected.
  abbrev pub connected : Bus → Viewer A
  connected b = record {
    logged_in = true;
    cars = [];
    rooms = [];
    tasks = [];
    next_task = 0;
    emitted = [];
    bus = b;
  }

  -- A `subscribe` from its begin to its end.
  unfoldable pub watch : String → Option A → Viewer A → Viewer A
  unfolding subscribe resume
  watch car_id frame s =
      let n = s.next_task in resume n true frame (resume n true none (subscribe (some car_id) s))

  -- The bus when a socket leaves that watched one car.
  left_bus :
      (car_id : String) (frame : Option A) (b : Bus)
      → (car_id == "") ≡ false
      → (handle_disconnect (watch car_id frame (connected b))).bus
        ≡ remove_viewer car_id (add_viewer car_id b).1
  unfolding watch subscribe resume proceed authorize joined handle_disconnect release_all
  left_bus car_id none b named = rw named refl
  left_bus car_id (some frame) b named = rw named refl

  -- A socket that watches one car and leaves again gives back the entry of the car at the bus as it
  -- was, if this had a viewer or was not there.
  pub watch-handle_disconnect :
      (car_id : String) (frame : Option A) (b : Bus)
      → (car_id == "") ≡ false
      → (lookup car_id b.cars ≡ none) ⊎ ((n : ℕ) × (number : ℕ) × Has car_id (suc n) number b)
      → lookup car_id (handle_disconnect (watch car_id frame (connected b))).bus.cars
        ≡ lookup car_id b.cars
  watch-handle_disconnect car_id frame b named entry =
      ap (λ (c : Bus). lookup car_id c.cars) (left_bus car_id frame b named)
      ∙ restored car_id b entry

  -- The bus when the socket leaves before its access is checked.
  late_bus :
      (car_id : String) (frame : Option A) (b : Bus)
      → (car_id == "") ≡ false
      → let s = handle_disconnect (subscribe (some car_id) (connected b)) in
        let s' = resume 0 true frame (resume 0 true none s) in
        (s'.cars ≡ []) × (s'.bus ≡ (add_viewer car_id (remove_viewer car_id b)).1)
  unfolding subscribe resume proceed authorize joined handle_disconnect release_all
  late_bus car_id none b named = rw named (refl, refl)
  late_bus car_id (some frame) b named = rw named (refl, refl)

  -- A socket that disconnects while its subscribe to a car that nobody watches is being checked:
  -- when the check and the subscribe of the bus then succeed, the socket has no claim, and the
  -- bus has one viewer of the car.
  pub disconnect_while_authorizing :
      (car_id : String) (frame : Option A) (b : Bus)
      → (car_id == "") ≡ false
      → lookup car_id b.cars ≡ none
      → let s = handle_disconnect (subscribe (some car_id) (connected b)) in
        let s' = resume 0 true frame (resume 0 true none s) in
        (s'.cars ≡ []) × Has car_id 1 b.subscribes s'.bus
  disconnect_while_authorizing car_id frame b named vacant =
      let (released, same) = late_bus car_id frame b named in
      (
        released,
        ap (λ (c : Bus). lookup car_id c.cars)
              (same ∙ ap (λ (c : Bus). (add_viewer car_id c).1) (nobody_left car_id b vacant))
            ∙ (add_viewer-first car_id b vacant).0,
      )
