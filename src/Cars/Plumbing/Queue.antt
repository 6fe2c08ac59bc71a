-- ===== src/Cars/Plumbing/Queue.antt =====
-- Every request is settled once, in the order in which they were made, and the queue never stalls.
use mathlib.Core.Path.{subst}
use mathlib.Core.List.{append_assoc}
use kab23_motorsport_telemet.Prelude.{
  ℕ, zero, suc, String, ◌≡◌, refl, sym, ap, ◌∙◌, Bool, true, false, List, [], ◌∷◌, ◌++◌, map,
  Option, none, some, ◌==◌, ◌=ⁿ◌, if◌then◌else◌, arith,
}
use kab23_motorsport_telemet.Cars.Plumbing.{
  Command, name_of, DynsecResponse, service_unavailable, Outcome, rejected, InFlight, Plumbing,
  finish, send_now, drain, run_queue, request, go_on, complete, promise_of, called_back, settle,
  settle_at, answer, on_timeout, on_publish_error, outcome_of, on_response, Event, connect_changed,
  asked, timed_out, publish_failed, responded, step, run, start,
}

abbrev pub tickets_of {ℓ} : {A : Type ℓ} → List (ℕ × A) → List ℕ
tickets_of xs = map (λ x. x.0) xs

abbrev pub flying : Option InFlight → List ℕ
flying none = []
flying (some f) = f.ticket ∷ []

-- The numbers below `n`.
unfoldable pub up_to : ℕ → List ℕ
up_to zero = []
up_to (suc n) = up_to n ++ n ∷ []

-- The requests that are settled, in flight and waiting, in this order.
abbrev pub all_tickets : Plumbing → List ℕ
all_tickets s = tickets_of s.settled ++ (flying s.in_flight ++ tickets_of s.waiting)

-- Nothing waits unless a command is in flight, for whose promise the chain waits; that is the last
-- attempt, and its callbacks hold that promise.
abbrev pub Ready : Option InFlight → Plumbing → Type 0
Ready none s = (s.waiting ≡ []) × (s.running ≡ none)
Ready (some f) s =
    (s.running ≡ some f.ticket)
    × (f.token ≡ s.next_token)
    × ((ps : List (ℕ × ℕ)) × (s.promises ≡ (f.token, f.ticket) ∷ ps))

abbrev pub IsSerial : Plumbing → Type 0
IsSerial s = (all_tickets s ≡ up_to s.next_ticket) × Ready s.in_flight s

tickets_of-snoc :
    {A : Type 0} (xs : List (ℕ × A)) (x : ℕ × A)
    → tickets_of (xs ++ x ∷ []) ≡ tickets_of xs ++ x.0 ∷ []
tickets_of-snoc [] x = refl
tickets_of-snoc (y ∷ ys) x = ap (◌∷◌ y.0) (tickets_of-snoc ys x)

finish-tickets :
    (xs : List (ℕ × Outcome)) (ticket : ℕ) (o : Outcome) (rest : List ℕ)
    → tickets_of (xs ++ (ticket, o) ∷ []) ++ rest ≡ tickets_of xs ++ ticket ∷ rest
finish-tickets xs ticket o rest =
    ap (λ (l : List ℕ). l ++ rest) (tickets_of-snoc xs (ticket, o))
    ∙ append_assoc (tickets_of xs) (ticket ∷ []) rest

abbrev pub Drained : List (ℕ × Command) → Plumbing → Plumbing → Type 0
Drained ws s s' =
    (all_tickets s' ≡ tickets_of s.settled ++ tickets_of ws)
    × (s'.next_ticket ≡ s.next_ticket)
    × Ready s'.in_flight s'

Ready-none :
    (s : Plumbing)
    → s.in_flight ≡ none
    → s.running ≡ none
    → Ready s.in_flight (record s { waiting = [] })
Ready-none s idle free = rw idle (refl, free)

if-Drained :
    (ws : List (ℕ × Command)) (s : Plumbing) (b : Bool) (x y : Plumbing)
    → Drained ws s x
    → Drained ws s y
    → Drained ws s (if b then x else y)
if-Drained ws s true x y here other = here
if-Drained ws s false x y other here = here

pub drain-Drained :
    (ws : List (ℕ × Command)) (s : Plumbing)
    → s.in_flight ≡ none
    → s.running ≡ none
    → Drained ws s (drain ws s)
unfolding drain
drain-Drained [] s idle free =
    (ap (λ f. tickets_of s.settled ++ (flying f ++ [])) idle, refl, Ready-none s idle free)
drain-Drained ((ticket, c) ∷ ws) s idle free =
    let o = rejected (service_unavailable "MQTT broker unavailable") in
    let (same, number, ready) = drain-Drained ws (finish ticket o s) idle free in
    if-Drained ((ticket, c) ∷ ws) s s.connected _ _
      (unfold send_now in (refl, refl, (refl, refl, (s.promises, refl))))
      (same ∙ finish-tickets s.settled ticket o (tickets_of ws), number, ready)

-- A request is made: `s` already has it among those that wait.
run_queue-IsSerial :
    (f : Option InFlight) (r : Option ℕ) (s : Plumbing)
    → s.in_flight ≡ f
    → s.running ≡ r
    → all_tickets s ≡ up_to s.next_ticket
    → (f ≡ none → r ≡ none)
    → ((g : InFlight) → f ≡ some g → Ready (some g) s)
    → IsSerial (run_queue r s)
run_queue-IsSerial none none s idle empty all free ready =
    let (same, number, last) = drain-Drained s.waiting s idle empty in
    (
      same
          ∙ ap (λ f. tickets_of s.settled ++ (flying f ++ tickets_of s.waiting)) (sym idle)
          ∙ all
          ∙ ap up_to (sym number),
      last,
    )
run_queue-IsSerial none (some t) s idle empty all free ready = let e = free refl in absurd cc
run_queue-IsSerial (some g) none s flies empty all free ready =
    let awaits = (ready g refl).0 in absurd cc
run_queue-IsSerial (some g) (some t) s flies empty all free ready =
    (all, subst (λ h. Ready h s) (sym flies) (ready g refl))

request-IsSerial : (c : Command) (s : Plumbing) → IsSerial s → IsSerial (request c s)
unfolding request up_to
request-IsSerial c s (all, ready) =
    run_queue-IsSerial s.in_flight s.running _ refl refl
      (ap (λ l. tickets_of s.settled ++ (flying s.in_flight ++ l))
          (tickets_of-snoc s.waiting (s.next_ticket, c))
        ∙ ap (λ l. tickets_of s.settled ++ l)
            (sym (append_assoc (flying s.in_flight) (tickets_of s.waiting) (s.next_ticket ∷ [])))
        ∙ sym (append_assoc (tickets_of s.settled) _ (s.next_ticket ∷ []))
        ∙ ap (λ l. l ++ s.next_ticket ∷ []) all)
      (free_of s.in_flight ready) (ready_of s.in_flight ready)
  where
    free_of : (f : Option InFlight) → Ready f s → f ≡ none → s.running ≡ none
    free_of none waits e = waits.1
    free_of (some f) last e = cc

    ready_of : (f : Option InFlight) → Ready f s → (g : InFlight) → f ≡ some g → Ready (some g) s
    ready_of none waits g e = cc
    ready_of (some f) last g e =
        let same : f ≡ g = ground arith in subst (λ h. Ready (some h) s) same last

go_on-own :
    (ticket : ℕ) (s : Plumbing)
    → go_on ticket (some ticket) s ≡ drain s.waiting (record s { running = none })
go_on-own ticket s = ground arith

-- The promise that a command in flight holds is the one that the chain waits for.
pub complete-own :
    (f : InFlight) (o : Outcome) (s : Plumbing)
    → s.running ≡ some f.ticket
    → complete f.ticket o s
      ≡ drain s.waiting (finish f.ticket o (record s { in_flight = none; running = none }))
complete-own f o s awaits = rw awaits (go_on-own f.ticket _)

complete-IsSerial :
    (f : InFlight) (o : Outcome) (s : Plumbing)
    → s.in_flight ≡ some f
    → s.running ≡ some f.ticket
    → all_tickets s ≡ up_to s.next_ticket
    → IsSerial (complete f.ticket o s)
complete-IsSerial f o s flies awaits all =
    let (same, number, last) =
      drain-Drained s.waiting (finish f.ticket o (record s { in_flight = none; running = none }))
        refl refl in
    rw (complete-own f o s awaits) (
      same
          ∙ finish-tickets s.settled f.ticket o (tickets_of s.waiting)
          ∙ ap (λ g. tickets_of s.settled ++ (flying g ++ tickets_of s.waiting)) (sym flies)
          ∙ all
          ∙ ap up_to (sym number),
      last,
    )

pub promise_of-own :
    (f : InFlight) (s : Plumbing) → Ready (some f) s → promise_of f.token s.promises ≡ some f.ticket
unfolding promise_of
promise_of-own f s (awaits, last, (ps, held)) = rw held (ground arith)

pub called_back-IsSerial :
    (token : ℕ) (o : Outcome) (s : Plumbing)
    → IsSerial s
    → IsSerial (called_back token o (promise_of token s.promises) s)
unfolding settle settle_at
called_back-IsSerial token o s (all, ready) = at s.in_flight refl ready
  where
    pick :
        (f : InFlight) (b : Bool) (ticket : ℕ)
        → s.in_flight ≡ some f
        → (b ≡ true → ticket ≡ f.ticket)
        → s.running ≡ some f.ticket
        → IsSerial (if b then complete ticket o s else s)
    pick f true ticket flies own awaits = rw (own refl) (complete-IsSerial f o s flies awaits all)
    pick f false ticket flies own awaits = (all, ready)

    at :
        (f : Option InFlight)
        → s.in_flight ≡ f
        → Ready f s
        → IsSerial (called_back token o (promise_of token s.promises) s)
    at none idle waits = of_none (promise_of token s.promises)
      where
        of_none : (m : Option ℕ) → IsSerial (called_back token o m s)
        of_none none = (all, ready)
        of_none (some ticket) =
            subst (λ g. IsSerial (settle_at token ticket o g s)) (sym idle) (all, ready)
    at (some f) flies last = of_some (promise_of token s.promises) refl
      where
        of_some :
            (m : Option ℕ) → promise_of token s.promises ≡ m → IsSerial (called_back token o m s)
        of_some none found = (all, ready)
        of_some (some ticket) found =
            let own = promise_of-own f s last in
            subst (λ g. IsSerial (settle_at token ticket o g s)) (sym flies)
              (pick f (f.token =ⁿ token) ticket flies
                (λ same.
                  let t : f.token ≡ token = ground arith in
                  let e : some ticket ≡ some f.ticket =
                    sym found ∙ ap (λ n. promise_of n s.promises) (sym t) ∙ own in
                  ground arith)
                last.0)

answer-IsSerial :
    (r : Option DynsecResponse) (f : Option InFlight) (s : Plumbing)
    → s.in_flight ≡ f
    → IsSerial s
    → IsSerial (answer r f s)
unfolding answer settle settle_at
answer-IsSerial r none s idle serial = serial
answer-IsSerial none (some f) s flies serial = serial
answer-IsSerial (some r) (some f) s flies (all, ready) = pick (r.command == name_of f.command)
  where
    done : (b : Bool) → IsSerial (if b then complete f.ticket (outcome_of r r.error) s else s)
    done true =
        complete-IsSerial f (outcome_of r r.error) s flies (subst (λ h. Ready h s) flies ready).0
          all
    done false = (all, ready)

    pick : (b : Bool) → IsSerial (if b then settle f.token f.ticket (outcome_of r r.error) s else s)
    pick true =
        subst (λ g. IsSerial (settle_at f.token f.ticket (outcome_of r r.error) g s)) (sym flies)
          (done (f.token =ⁿ f.token))
    pick false = (all, ready)

Ready-connected :
    (b : Bool) (s : Plumbing) (f : Option InFlight)
    → Ready f s
    → Ready f (record s { connected = b })
Ready-connected b s none ready = ready
Ready-connected b s (some f) ready = ready

pub step-IsSerial :
    (parse : String → Option DynsecResponse) (e : Event) (s : Plumbing)
    → IsSerial s
    → IsSerial (step parse e s)
unfolding step on_timeout on_publish_error on_response
step-IsSerial parse (connect_changed b) s (all, ready) =
    (all, Ready-connected b s s.in_flight ready)
step-IsSerial parse (asked c) s serial = request-IsSerial c s serial
step-IsSerial parse (timed_out token) s serial = called_back-IsSerial token _ s serial
step-IsSerial parse (publish_failed token) s serial = called_back-IsSerial token _ s serial
step-IsSerial parse (responded payload) s serial =
    answer-IsSerial (parse payload) s.in_flight s refl serial

pub run-IsSerial :
    (parse : String → Option DynsecResponse) (es : List Event) (s : Plumbing)
    → IsSerial s
    → IsSerial (run parse es s)
unfolding run
run-IsSerial parse [] s serial = serial
run-IsSerial parse (e ∷ es) s serial =
    run-IsSerial parse es (step parse e s) (step-IsSerial parse e s serial)

-- From the start, after any events, the requests that are settled, the one in flight and those
-- that wait are all the requests that were made, each once and in their order; one waits only
-- while another is in flight, for whose promise the queue waits, and that is the last attempt,
-- whose callbacks hold this promise.
pub run-start-IsSerial :
    (parse : String → Option DynsecResponse) (es : List Event) → IsSerial (run parse es start)
unfolding up_to
run-start-IsSerial parse es = run-IsSerial parse es start (refl, (refl, refl))
