-- ===== src/System/Stopping/Ending.antt =====
-- A running server that was ordered to terminate comes to its end.
use spartan_x.Prelude.{
  ℕ, zero, suc, ◌+◌, ◌-◌, ◌*◌, ◌<◌, ◌≤◌, ◌≡◌, ◌≢◌, refl, ap, ◌∙◌, Bool, true, false, List, [], ◌∷◌,
  length, arith, done, none, some, All, pos, size_max, int_max, ◌⊎◌, inl, inr,
}
use spartan_x.Status.{sx_status_idle}
use spartan_x.Object.{Object, kept, free_server, release}
use spartan_x.Object.Owners.{owned}
use spartan_x.Server.{Server}
use spartan_x.Acceptor.{Verdict, answer, leave}
use spartan_x.Connection.{Conn, Round, Event, dispatch}
use spartan_x.Loop.{Turn, goes_on, exits, crashes}
use spartan_x.Runtime.{Handlers}
use spartan_x.System.{
  System, Point, starting, testing, listening, checking, taking, leaving, left, Actor, Step, tests,
  looks, checks, takes, quits, begins, reads, rounds, ends, Serving, between, in_round, numbered,
  checked, Run, dispatched, Starts, handlers_of,
}
use spartan_x.System.Leaving.{left_behind}
use spartan_x.System.Holding.{IsValid, holders, in_loop, release-kept}
use spartan_x.System.Holding.Steps.{Run-IsValid, dispatched-IsValid}
use spartan_x.System.Work.{work, to_do, conns_left, conn_left-some}
use spartan_x.System.Stopping.{IsStopping, LeavesStopping, own, steps, Run-work}

-- A thread of the library has a step. The thread takes it once the call of `accept` or of `recv` that it
-- may be blocked in returns; what the call answers is the choice of the step.
abbrev pub CanStep : System → Type 0
CanStep s = (a : Actor) × (u : System) × (own a ≡ 1) × Step s a u

leave-done :
    (server : Server) (obj : Object)
    → release server.obj ≡ done (kept obj)
    → (b : Server) × (told : Bool) × (leave server ≡ done (b, told))
unfolding leave
leave-done server obj e =
    (left_behind server obj, elim server.did_kill [ none ↦ false | some _ ↦ true ], rw e)

-- A guest that comes and is admitted is served.
answer-served : (server : Server) → answer server (pos 0) true ≢ Verdict.crashes
unfolding answer
answer-served server = ground arith

abbrev crashed_turn : Turn Conn Event → Bool
crashed_turn (crashes events) = true
crashed_turn _ = false

-- A call of `recv` that fails.
abbrev any_round : Round
any_round = record {
  server_status = sx_status_idle;
  stored = none;
  received = size_max;
  stored_meanwhile = none;
  answer = 0;
}

-- Where `recv` fails, a round does not use a handler.
dispatch-steps : (hs : Handlers) (c : Conn) → crashed_turn (dispatch hs any_round c) ≡ false
unfolding dispatch
dispatch-steps hs c = ground arith

Turn-cases :
    (t : Turn Conn Event)
    → crashed_turn t ≡ false
    → ((c : Conn) × (events : List Event) × (t ≡ goes_on c events))
      ⊎ ((events : List Event) × (t ≡ exits events))
Turn-cases (goes_on c events) h = inl (c, events, refl)
Turn-cases (exits events) h = inr (events, refl)
Turn-cases (crashes events) h = cc

no_conns : (conns : List Serving) → length conns ≡ 0 → conns ≡ []
no_conns [] h = refl
no_conns (c ∷ conns) h = absurd (omega (arith, h))

length-conns_left : (conns : List Serving) → length conns ≤ conns_left conns
length-conns_left [] = omega arith
length-conns_left (c ∷ conns) = omega (arith, length-conns_left conns, conn_left-some c)

count-checked : (server : Server) (count : ℕ) → numbered (checked server count) count ≤ suc count
count-checked server count = ground arith

in_loop-to_do : (point : Point) → in_loop point ≤ to_do point
in_loop-to_do point = ground arith

module _ {owners max_guest : ℕ} (few : owners + 1 + max_guest < 410) (owner : 0 < owners) where
  conn-steps :
      (s : System) (c : Serving) (after : List Serving)
      → s.conns ≡ c ∷ after
      → IsValid owners max_guest s
      → CanStep s
  conn-steps s (between c) after e v = (_, _, refl, reads any_round [] after c e)
  conn-steps s (in_round c) after e v =
      elim (Turn-cases (dispatch (handlers_of s) any_round c) (dispatch-steps (handlers_of s) c)) [
        | inl (c2, events, turn) ↦ (_, _, refl, rounds any_round [] after c e turn)
        | inr (events, turn) ↦
            let k = owners - 1 + in_loop s.acceptor + length after in
            let kept_on = release-kept s k few v (omega (arith, owner, ap length e)) in
            (_, _, refl, ends any_round [] after c e turn kept_on)
      ]

  -- The loop has ended.
  block-steps :
      (s : System) (pending : ℕ) (conns : List Serving)
      → s.pending ≡ pending
      → s.conns ≡ conns
      → pending + length conns ≢ 0
      → IsValid owners max_guest s
      → CanStep s
  block-steps s (suc pending) conns e e2 some_on v = (_, _, refl, begins e)
  block-steps s zero (c ∷ after) e e2 some_on v = conn-steps s c after e2 v
  block-steps s zero [] e e2 some_on v = absurd (some_on refl)

  steps_at :
      (s : System) (point : Point)
      → s.acceptor ≡ point
      → to_do point + 3 * s.pending + conns_left s.conns ≢ 0
      → s.server.sock ≢ none
      → IsStopping s
      → IsValid owners max_guest s
      → CanStep s
  steps_at s starting e on sock i v = absurd (i.0 e)
  steps_at s testing e on sock i v = (_, _, refl, tests e)
  steps_at s listening e on sock i v = (_, _, refl, looks sock e)
  steps_at s checking e on sock i v =
      let small : numbered (checked s.server s.count) s.count ≤ int_max =
        omega (arith, few, v.bounded, count-checked s.server s.count) in
      (_, _, refl, checks small e)
  steps_at s taking e on sock i v = (_, _, refl, takes (pos 0) true sock e (answer-served s.server))
  steps_at s leaving e on sock i v =
      let k = owners - 1 + length s.conns in
      let kept_on = release-kept s k few v (omega (arith, owner, ap in_loop e)) in
      let (b, told, h) = leave-done s.server _ kept_on in (_, _, refl, quits e h)
  steps_at s left e on sock i v =
      block-steps s s.pending s.conns refl refl
        (λ none_left. on (omega (arith, nothing s none_left))) v
    where
      nothing :
          (s : System) → s.pending + length s.conns ≡ 0 → 3 * s.pending + conns_left s.conns ≡ 0
      nothing s h = omega (arith, h, ap conns_left (no_conns s.conns (omega (arith, h))))

-- A server that the program owns, with fewer than 410 owners and places for guests together with the
-- accepting loop, was ordered to terminate once its loop had begun, and the program neither suspends nor
-- resumes it again. Then, however the threads are interleaved and whatever they meet, the steps that
-- they have taken since and the work that is left add up to at most the work at the order, so they end
-- within that number of steps, each of which may wait for `accept` or `recv`; as long as work is left
-- and the server has a socket, a thread has a step, for some answer of the call that it may be blocked
-- in; and when no work is left, the server's count is that of its owners alone.
pub Run-ends :
    {owners : ℕ} (server : Server) {started : Server} {before after : List Actor} {s t : System}
    → server.obj ≡ owned owners free_server
    → 0 < owners
    → owners + 1 + server.max_guest < 410
    → Starts server started
    → Run (dispatched started) before s
    → IsStopping s
    → All LeavesStopping after
    → Run s after t
    → (steps after + work t ≤ work s)
      × (work t ≢ 0 → t.server.sock ≢ none → CanStep t)
      × (work t ≡ 0 → t.server.obj ≡ owned owners free_server)
Run-ends {owners} server {s} {t} owns owner few starts before i only after =
    let v = Run-IsValid few owner before (dispatched-IsValid server owns (omega arith) starts) in
    let v2 = Run-IsValid few owner after v in
    let (i2, e) = Run-work only after i in
    (
      e,
      λ on sock. steps_at few owner t t.acceptor refl on sock i2 v2,
      λ over. v2.held ∙ ap (λ n. owned n free_server) (ended over),
    )
  where
    ended : work t ≡ 0 → holders owners t ≡ owners
    ended over = omega (arith, in_loop-to_do t.acceptor, length-conns_left t.conns)
