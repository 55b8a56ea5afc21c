-- ===== src/System/Stopping.antt =====
-- How a running server ends, once it was ordered to terminate.
pub mod Ending
use spartan_x.Prelude.{
  ◌≤◌, ℕ, suc, ◌+◌, ◌-◌, ◌*◌, ◌<◌, ◌≡◌, ◌≢◌, refl, sym, ap, subst, ◌∙◌, ◌⊎◌, inl, inr, List, [],
  ◌∷◌, ◌++◌, length, arith, done, Outcome, Option, some, All, ◌==◌, ◌||◌, if◌then◌else◌,
}
use spartan_x.Status.{SxStatus, sx_status_idle, sx_status_should_terminate}
use spartan_x.Socket.{Net}
use spartan_x.Loop.{Turn, goes_on, exits}
use spartan_x.Server.{Server}
use spartan_x.Acceptor.{Verdict, answer, leave}
use spartan_x.Connection.{Event, Round, Conn, settled, dispatch}
use spartan_x.Runtime.{Handlers}
use spartan_x.System.{
  System, Point, starting, testing, listening, checking, taking, leaving, left, Call, suspends,
  resumes, kills, obey, Actor, program, accepting, serving, Step, calls, enters, tests, looks,
  checks, takes, quits, begins, reads, rounds, Serving, between, in_round, ends, Run, stay, later,
  tested, looked, checked, received, handlers_of, met,
}
use spartan_x.System.Taking.{
  received-server, received-acceptor, received-conns, received-pending, stands_apart,
}
use spartan_x.System.Calls.{obey-terminating, refused, kills-idle}
use spartan_x.System.Leaving.{leave-kept}
use spartan_x.System.Holding.{length-middle}
use spartan_x.System.Work.{
  to_do, round_left, conn_left, conns_left, work, conns_left-middle, conns_left-replaced,
  conn_left-some, settled-left, dispatch-left,
}

-- The loop of a server with the status has begun, and has the order to terminate or has obeyed it.
abbrev pub Stops : Point → SxStatus → Type 0
Stops point status =
    (point ≢ starting)
    × ((status ≡ sx_status_should_terminate) ⊎ ((status ≡ sx_status_idle) × (point ≡ left)))

abbrev pub IsStopping : System → Type 0
IsStopping s = Stops s.acceptor s.server.status

-- The steps that threads of the library take.
abbrev pub own : Actor → ℕ
own (program c) = 0
own accepting = 1
own (serving events) = 1

abbrev pub steps : List Actor → ℕ
steps [] = 0
steps (a ∷ actors) = own a + steps actors

-- The program neither suspends nor resumes the server any more.
abbrev pub LeavesStopping : Actor → Type 0
LeavesStopping a = (a ≢ program suspends) × (a ≢ program resumes)

pub stopping-status :
    {point : Point} {status : SxStatus}
    → Stops point status
    → (status ≡ sx_status_should_terminate) ⊎ (status ≡ sx_status_idle)
stopping-status (began, inl e) = inl e
stopping-status (began, inr (e, at)) = inr e

-- The server is replaced by one whose status orders or shows the end.
calls-IsStopping :
    (s : System) (net : Net) (c : Call) {b : Server}
    → LeavesStopping (program c)
    → obey net c s.server ≡ done (some b)
    → IsStopping s
    → IsStopping (record s { server = b })
calls-IsStopping s net c only e (began, inl h) =
    let same = refused (obey net c s.server) (obey-terminating net c s.server h) e in
    (began, inl (ap (λ (b : Server). b.status) same ∙ h))
calls-IsStopping s net suspends only e (began, inr h) = absurd (only.0 refl)
calls-IsStopping s net resumes only e (began, inr h) = absurd (only.1 refl)
calls-IsStopping s net kills only e (began, inr (h, at)) =
    (began, killed (kills-idle net s.server h e) at)
  where
    killed :
        {point : Point} {status : SxStatus}
        → (status ≡ sx_status_should_terminate) ⊎ (status ≡ sx_status_idle)
        → point ≡ left
        → (status ≡ sx_status_should_terminate) ⊎ ((status ≡ sx_status_idle) × (point ≡ left))
    killed (inl e) at = inl e
    killed (inr e) at = inr (e, at)

tested-Stops :
    {point : Point} (status : SxStatus)
    → point ≡ testing
    → Stops point status
    → tested status ≡ leaving
tested-Stops status at (began, inl e) = rw e
tested-Stops status at (began, inr (e, off)) = cc

looked-Stops :
    {point : Point} (status : SxStatus)
    → point ≡ listening
    → Stops point status
    → looked status ≡ leaving
looked-Stops status at (began, inl e) = simp e
looked-Stops status at (began, inr (e, off)) = cc

checked-began : (server : Server) (count : ℕ) → checked server count ≢ starting
checked-began server count = ground arith

checked-to_do : (server : Server) (count : ℕ) → to_do (checked server count) ≤ 6
checked-to_do server count = ground arith

-- Behind the second reading the order stands, also where the loop takes a guest.
checked-Stops :
    {point : Point} {status : SxStatus} (server : Server) (count : ℕ)
    → point ≡ checking
    → Stops point status
    → Stops (checked server count) status
checked-Stops server count at (began, inl e) = (checked-began server count, inl e)
checked-Stops server count at (began, inr (e, off)) = cc

-- The loop is behind its end, and the order stands.
leaving-Stops :
    {point next : Point} {status : SxStatus}
    → Stops point status
    → point ≢ left
    → next ≡ leaving
    → Stops next status
leaving-Stops (began, inl h) on e = (rw e (λ q. cc), inl h)
leaving-Stops (began, inr (h, off)) on e = absurd (on off)

-- The loop goes on to its test with the order.
received-IsStopping :
    (s : System) (w : Verdict) → s.acceptor ≡ taking → IsStopping s → IsStopping (received w s)
received-IsStopping s w at (began, inl h) = (
  λ q. stands_apart (sym (received-acceptor w s) ∙ q),
  inl (ap (λ (b : Server). b.status) (received-server w s) ∙ h),
)
received-IsStopping s w at (began, inr (h, off)) = cc

received-work : (s : System) (w : Verdict) → s.acceptor ≡ taking → 1 + work (received w s) ≤ work s
received-work s w at =
    let stands = ap to_do (received-acceptor w s) in
    let same = ap conns_left (received-conns w s) in
    elim (received-pending w s) [
      | inl e ↦ omega (arith, e, stands, same, ap to_do at)
      | inr e ↦ omega (arith, e, stands, same, ap to_do at)
    ]

-- A step of a thread takes one off the work at least, and a call adds none.
pub Step-work :
    {s t : System} {a : Actor}
    → LeavesStopping a
    → Step s a t
    → IsStopping s
    → IsStopping t × (own a + work t ≤ work s)
Step-work {s} only (calls net c e) i = (calls-IsStopping s net c only e i, omega arith)
Step-work only (enters e) (began, h) = absurd (began e)
Step-work {s} only (tests e) i =
    let at = tested-Stops s.server.status e i in
    (leaving-Stops i (λ q. cc) at, omega (arith, ap to_do e, ap to_do at))
Step-work {s} only (looks sock e) i =
    let at = looked-Stops s.server.status e i in
    (leaving-Stops i (λ q. cc) at, omega (arith, ap to_do e, ap to_do at))
Step-work {s} only (checks small e) i =
    (checked-Stops s.server s.count e i, omega (arith, ap to_do e, checked-to_do s.server s.count))
Step-work {s} only (takes accepted admits sock e sound) i =
    let w = answer s.server accepted admits in (received-IsStopping s w e i, received-work s w e)
Step-work {s} only (quits {server} e h) i =
    let (obj, kept_on, same) = leave-kept s.server h in
    let idle : server.status ≡ sx_status_idle = ap (λ (b : Server). b.status) same in
    (((λ q. cc), inr (idle, refl)), omega (arith, ap to_do e))
Step-work only (begins e) i = (i, omega (arith, e))
Step-work {s} only (reads r before after c e) i =
    let over = settled-left (met s r) c (stopping-status i) in
    let d = in_round (record c { status = settled (met s r) c }) in
    let less = conns_left-replaced before (between c) d after (omega (arith, over)) in
    (i, omega (arith, ap conns_left e, less))
Step-work {s} only (rounds r before after c {c'} e turn) i =
    let other = dispatch-left (handlers_of s) r c turn in
    let less = conns_left-replaced before (in_round c) (between c') after (omega (arith, other)) in
    (i, omega (arith, ap conns_left e, less))
Step-work only (ends r before after c e turn h) i =
    let some_left = conn_left-some (in_round c) in
    (i, omega (arith, ap conns_left e, conns_left-middle before (in_round c) after, some_left))

pub Run-work :
    {s t : System} {actors : List Actor}
    → All LeavesStopping actors
    → Run s actors t
    → IsStopping s
    → IsStopping t × (steps actors + work t ≤ work s)
Run-work only stay i = (i, omega arith)
Run-work only (later run step) i =
    let (i, e) = Run-work only.1 run i in
    let (i, e2) = Step-work only.0 step i in (i, omega (arith, e, e2))
