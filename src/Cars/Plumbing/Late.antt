-- ===== src/Cars/Plumbing/Late.antt =====
-- Time-outs of the commands in flight, and responses that come after them.
use mathlib.Core.List.{append-nil}
use kab23_motorsport_telemet.Prelude.{
  ℕ, zero, suc, ◌+◌, ◌≤◌, String, ◌≡◌, refl, sym, ap, ◌∙◌, Bool, true, false, List, [], ◌∷◌, ◌++◌,
  Option, none, some, length, if◌then◌else◌, eq_iff, ◌⊎◌, inl, inr, arith,
}
use kab23_motorsport_telemet.Cars.Plumbing.{
  Command, name_of, DynsecResponse, service_unavailable, Outcome, rejected, InFlight, Plumbing,
  finish, send_now, drain, request, complete, settle, on_timeout, outcome_of, on_response, Event,
  connect_changed, asked, timed_out, responded, step, run, start, settle_at, answer, promise_of,
}
use kab23_motorsport_telemet.Cars.Plumbing.Queue.{
  tickets_of, flying, up_to, all_tickets, IsSerial, Ready, run-start-IsSerial, called_back-IsSerial,
  complete-own, promise_of-own, drain-Drained,
}

-- The timer of the command in flight, if there is one, goes off.
abbrev pub expire_at : Option InFlight → Plumbing → Plumbing
expire_at none s = s
expire_at (some f) s = on_timeout f.token s

unfoldable pub expire : Plumbing → Plumbing
expire s = expire_at s.in_flight s

unfoldable pub expire_all : ℕ → Plumbing → Plumbing
expire_all zero s = s
expire_all (suc n) s = expire_all n (expire s)

abbrev pub open_requests : Plumbing → ℕ
open_requests s = length (flying s.in_flight) + length s.waiting

if-le :
    (b : Bool) (x y : Plumbing) (n : ℕ)
    → open_requests x ≤ n
    → open_requests y ≤ n
    → open_requests (if b then x else y) ≤ n
if-le true x y n here other = here
if-le false x y n here other = other

-- The queue sends at most one of those that wait, and keeps the ones behind it.
drain-open :
    (ws : List (ℕ × Command)) (s : Plumbing)
    → s.in_flight ≡ none
    → open_requests (drain ws s) ≤ length ws
unfolding drain
drain-open [] s idle = rw idle (omega arith)
drain-open ((ticket, c) ∷ ws) s idle =
    let o = rejected (service_unavailable "MQTT broker unavailable") in
    let rest = drain-open ws (finish ticket o s) idle in
    if-le s.connected _ _ (suc (length ws)) (unfold send_now in omega arith) (omega arith)

complete-expired :
    (f : InFlight) (o : Outcome) (s : Plumbing)
    → s.in_flight ≡ some f
    → s.running ≡ some f.ticket
    → (suc (open_requests (complete f.ticket o s)) ≤ open_requests s)
      × ((complete f.ticket o s).next_ticket ≡ s.next_ticket)
complete-expired f o s flies awaits =
    let idle_state = finish f.ticket o (record s { in_flight = none; running = none }) in
    let fewer = drain-open s.waiting idle_state refl in
    rw (complete-own f o s awaits)
      (rw flies (omega arith), (drain-Drained s.waiting idle_state refl refl).1)

-- The timer of the command in flight finishes the promise of that command.
on_timeout-complete :
    (f : InFlight) (s : Plumbing)
    → s.in_flight ≡ some f
    → Ready (some f) s
    → on_timeout f.token s
      ≡ complete f.ticket (rejected (service_unavailable "MQTT broker did not respond")) s
unfolding on_timeout settle settle_at
on_timeout-complete f s flies ready = rw (promise_of-own f s ready, flies) (ground arith)

-- A time-out leaves fewer open requests, if there are any.
abbrev Fewer : Plumbing → Plumbing → Type 0
Fewer s s' =
    ((suc (open_requests s') ≤ open_requests s) ⊎ ((open_requests s ≡ 0) × (s' ≡ s)))
    × (s'.next_ticket ≡ s.next_ticket)

expire-Fewer :
    (f : Option InFlight) (s : Plumbing) → s.in_flight ≡ f → Ready f s → Fewer s (expire_at f s)
expire-Fewer none s idle ready = (inr (rw (idle, ready.0) refl, refl), refl)
expire-Fewer (some f) s flies ready =
    let o = rejected (service_unavailable "MQTT broker did not respond") in
    let (fewer, same) = complete-expired f o s flies ready.0 in
    rw (on_timeout-complete f s flies ready) (inl fewer, same)

expire_at-IsSerial : (f : Option InFlight) (s : Plumbing) → IsSerial s → IsSerial (expire_at f s)
unfolding on_timeout
expire_at-IsSerial none s serial = serial
expire_at-IsSerial (some f) s serial = called_back-IsSerial f.token _ s serial

-- What is left when nothing is open.
all_settled :
    (f : Option InFlight) (s : Plumbing)
    → s.in_flight ≡ f
    → Ready f s
    → all_tickets s ≡ up_to s.next_ticket
    → open_requests s ≡ 0
    → (tickets_of s.settled ≡ up_to s.next_ticket) × (s.in_flight ≡ none)
all_settled none s idle ready all empty =
    let done = tickets_of s.settled in
    (
      sym (append-nil done)
          ∙ ap (λ w. done ++ tickets_of w) (sym ready.0)
          ∙ ap (λ f. done ++ (flying f ++ tickets_of s.waiting)) (sym idle)
          ∙ all,
      idle,
    )
all_settled (some f) s flies ready all empty =
    let one = ap (λ g. length (flying g) + length s.waiting) (sym flies) ∙ empty in
    absurd (omega arith)

expire_all-settled :
    (n : ℕ) (s : Plumbing)
    → IsSerial s
    → open_requests s ≤ n
    → (tickets_of (expire_all n s).settled ≡ up_to s.next_ticket)
      × ((expire_all n s).in_flight ≡ none)
unfolding expire_all expire
expire_all-settled zero s serial few =
    all_settled s.in_flight s refl serial.1 serial.0 (omega arith)
expire_all-settled (suc n) s serial few =
    let (fewer, same) = expire-Fewer s.in_flight s refl serial.1 in
    let (settled, idle) =
      expire_all-settled n (expire_at s.in_flight s) (expire_at-IsSerial s.in_flight s serial)
        (ground arith) in
    (settled ∙ ap up_to same, idle)

-- After any events from the start, let the timer of the command in flight go off at least as
-- often as requests are open: then every request that was made is settled, in their order, and
-- none is in flight.
pub expire_all-run :
    (parse : String → Option DynsecResponse) (es : List Event) (n : ℕ)
    → open_requests (run parse es start) ≤ n
    → let s = run parse es start in
      (tickets_of (expire_all n s).settled ≡ up_to s.next_ticket)
      × ((expire_all n s).in_flight ≡ none)
expire_all-run parse es n few =
    expire_all-settled n (run parse es start) (run-start-IsSerial parse es) few

-- A session of two commands of one name, of which the first timed out.
abbrev pub second_after_timeout : Command → Command → List Event
second_after_timeout c d = connect_changed true ∷ asked c ∷ asked d ∷ timed_out 1 ∷ []

-- Of two commands with one name the first times out: then a response with this name, such as the
-- late one to the first, settles the second.
pub late_response_settles_next :
    (parse : String → Option DynsecResponse) (c d : Command) (payload : String) (r : DynsecResponse)
    → name_of c ≡ name_of d
    → parse payload ≡ some r
    → r.command ≡ name_of c
    → (run parse (second_after_timeout c d ++ responded payload ∷ []) start).settled
      ≡ (0, rejected (service_unavailable "MQTT broker did not respond"))
        ∷ (1, outcome_of r r.error)
        ∷ []
unfolding run step request on_timeout settle settle_at promise_of on_response answer drain send_now
late_response_settles_next parse c d payload r same parsed mine =
    rw (parsed, (eq_iff r.command (name_of d)).1 (mine ∙ same)) refl
