-- ===== src/Live/Gateway/Boundary.antt =====
-- Which rooms a socket is in.
use kab23_motorsport_telemet.Prelude.{
  ℕ, String, ◌≡◌, refl, Bool, true, false, not, ◌&&◌, ◌||◌, List, [], ◌∷◌, ◌++◌, Option, none, some,
  reject, find, ◌=ⁿ◌, ◌==◌, if◌then◌else◌, arith, All,
}
use kab23_motorsport_telemet.Live.{Bus}
use kab23_motorsport_telemet.Live.Gateway.{
  Task, Phase, authorizing, joining, Viewer, subscribe, proceed, authorize, joined, unsubscribe,
  handle_disconnect, holds,
}
use kab23_motorsport_telemet.Live.Gateway.Leaving.{connected}

-- What happens to a socket. A handler that waits goes on well or not.
pub data Event (A : Type 0) : Type 0 where
  subscribing unsubscribing : Option String → Event A
  resuming : ℕ → Bool → Option A → Event A
  disconnecting : Event A

-- `requireReadableCar` may fail, but lets nobody pass who may not read the car.
abbrev pub verdict : (String → Bool) → Bool → Task → Bool
verdict readable good t = elim t.phase [
  | authorizing ↦ readable t.car_id && good
  | joining n ↦ good
]

-- A task that is past the check.
abbrev pub Cleared : (String → Bool) → Task → Type 0
Cleared readable t = elim t.phase [ authorizing ↦ Unit {0} | joining n ↦ readable t.car_id ≡ true ]

either : {X : Type 0} (P : X → Type 0) (b : Bool) (x y : X) → P x → P y → P (if b then x else y)
either P true x y here other = here
either P false x y here other = other

All-reject :
    {B : Type 0} (P : B → Type 0) (p : B → Bool) (xs : List B) → All P xs → All P (reject p xs)
All-reject P p [] all = tt
All-reject P p (x ∷ xs) (here, all) =
    let rest = All-reject P p xs all in either (All P) (p x) _ _ rest (here, rest)

All-snoc :
    {B : Type 0} (P : B → Type 0) (xs : List B) (x : B) → All P xs → P x → All P (xs ++ x ∷ [])
All-snoc P [] x all here = (here, tt)
All-snoc P (y ∷ ys) x (first, all) here = (first, All-snoc P ys x all here)

-- What holds of each holds of the one that is found.
abbrev Holds : {B : Type 0} → (B → Type 0) → Option B → Type 0
Holds P none = Unit {0}
Holds P (some x) = P x

All-find :
    {B : Type 0} (P : B → Type 0) (p : B → Bool) (xs : List B) → All P xs → Holds P (find p xs)
All-find P p [] all = tt
All-find P p (x ∷ xs) (here, all) = either (Holds P) (p x) _ _ here (All-find P p xs all)

module _ {A : Type 0} (readable : String → Bool) where
  abbrev pub resume_at : ℕ → Bool → Option A → Option Task → Viewer A → Viewer A
  resume_at n good frame none s = s
  resume_at n good frame (some t) s = proceed (verdict readable good t) frame (some t) s

  unfoldable pub step : Event A → Viewer A → Viewer A
  step (subscribing car_id) s = subscribe car_id s
  step (unsubscribing car_id) s = unsubscribe car_id s
  step (resuming n good frame) s = resume_at n good frame (find (λ t. t.number =ⁿ n) s.tasks) s
  step disconnecting s = handle_disconnect s

  unfoldable pub run : List (Event A) → Viewer A → Viewer A
  run [] s = s
  run (e ∷ es) s = run es (step e s)

  abbrev pub IsAdmitted : Viewer A → Type 0
  IsAdmitted s = All (λ c. readable c ≡ true) s.rooms × All (Cleared readable) s.tasks

  subscribe-IsAdmitted :
      (car_id : Option String) (s : Viewer A) → IsAdmitted s → IsAdmitted (subscribe car_id s)
  unfolding subscribe
  subscribe-IsAdmitted none s admitted = admitted
  subscribe-IsAdmitted (some car_id) s (rooms, tasks) =
      either IsAdmitted (not s.logged_in || car_id == "") _ _ (rooms, tasks)
        (either IsAdmitted (holds car_id s.cars) _ _ (rooms, tasks)
          (rooms, All-snoc (Cleared readable) s.tasks _ tasks tt))

  unsubscribe-IsAdmitted :
      (car_id : Option String) (s : Viewer A) → IsAdmitted s → IsAdmitted (unsubscribe car_id s)
  unfolding unsubscribe
  unsubscribe-IsAdmitted none s admitted = admitted
  unsubscribe-IsAdmitted (some car_id) s (rooms, tasks) =
      either IsAdmitted (car_id == "" || not (holds car_id s.cars)) _ _ (rooms, tasks)
        (All-reject (λ c. readable c ≡ true) _ s.rooms rooms, tasks)

  authorize-IsAdmitted :
      (n : ℕ) (good : Bool) (car_id : String) (s : Viewer A)
      → (good ≡ true → readable car_id ≡ true)
      → IsAdmitted s
      → IsAdmitted (authorize n good car_id s)
  unfolding authorize
  authorize-IsAdmitted n false car_id s reads (rooms, tasks) =
      (rooms, All-reject (Cleared readable) _ s.tasks tasks)
  authorize-IsAdmitted n true car_id s reads (rooms, tasks) = (
    rooms,
    All-snoc (Cleared readable) _ _ (All-reject (Cleared readable) _ s.tasks tasks) (reads refl),
  )

  joined-IsAdmitted :
      (n : ℕ) (good : Bool) (number : ℕ) (car_id : String) (frame : Option A) (s : Viewer A)
      → readable car_id ≡ true
      → IsAdmitted s
      → IsAdmitted (joined n good number car_id frame s)
  unfolding joined
  joined-IsAdmitted n false number car_id frame s reads (rooms, tasks) =
      (rooms, All-reject (Cleared readable) _ s.tasks tasks)
  joined-IsAdmitted n true number car_id none s reads (rooms, tasks) = (
    (reads, All-reject (λ c. readable c ≡ true) _ s.rooms rooms),
    All-reject (Cleared readable) _ s.tasks tasks,
  )
  joined-IsAdmitted n true number car_id (some f) s reads (rooms, tasks) = (
    (reads, All-reject (λ c. readable c ≡ true) _ s.rooms rooms),
    All-reject (Cleared readable) _ s.tasks tasks,
  )

  proceed-IsAdmitted :
      (good : Bool) (frame : Option A) (n : ℕ) (car_id : String) (phase : Phase) (s : Viewer A)
      → let t : Task = record { number = n; car_id = car_id; phase = phase } in
        Cleared readable t
        → IsAdmitted s
        → IsAdmitted (proceed (verdict readable good t) frame (some t) s)
  unfolding proceed
  proceed-IsAdmitted good frame n car_id authorizing s cleared admitted =
      authorize-IsAdmitted n (readable car_id && good) car_id s (λ e. ground arith) admitted
  proceed-IsAdmitted good frame n car_id (joining number) s cleared admitted =
      joined-IsAdmitted n good number car_id frame s cleared admitted

  resume_at-IsAdmitted :
      (n : ℕ) (good : Bool) (frame : Option A) (o : Option Task) (s : Viewer A)
      → Holds (Cleared readable) o
      → IsAdmitted s
      → IsAdmitted (resume_at n good frame o s)
  resume_at-IsAdmitted n good frame none s cleared admitted = admitted
  resume_at-IsAdmitted n good frame (some t) s cleared admitted =
      proceed-IsAdmitted good frame t.number t.car_id t.phase s cleared admitted

  step-IsAdmitted : (e : Event A) (s : Viewer A) → IsAdmitted s → IsAdmitted (step e s)
  unfolding step handle_disconnect
  step-IsAdmitted (subscribing car_id) s admitted = subscribe-IsAdmitted car_id s admitted
  step-IsAdmitted (unsubscribing car_id) s admitted = unsubscribe-IsAdmitted car_id s admitted
  step-IsAdmitted (resuming n good frame) s (rooms, tasks) =
      resume_at-IsAdmitted n good frame _ s
        (All-find (Cleared readable) (λ t. t.number =ⁿ n) s.tasks tasks) (rooms, tasks)
  step-IsAdmitted disconnecting s (rooms, tasks) = (tt, tasks)

  run-IsAdmitted : (es : List (Event A)) (s : Viewer A) → IsAdmitted s → IsAdmitted (run es s)
  unfolding run
  run-IsAdmitted [] s admitted = admitted
  run-IsAdmitted (e ∷ es) s admitted = run-IsAdmitted es (step e s) (step-IsAdmitted e s admitted)

  -- If the check of the access lets nobody pass who may not read the car, then after any events
  -- a socket that connected is only in the rooms of cars that its user may read, and only its
  -- tasks for such cars are past the check.
  pub run-connected-IsAdmitted : (es : List (Event A)) (b : Bus) → IsAdmitted (run es (connected b))
  run-connected-IsAdmitted es b = run-IsAdmitted es (connected b) (tt, tt)
