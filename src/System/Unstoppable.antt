-- ===== src/System/Unstoppable.antt =====
-- A server that `SXCreateServer` made cannot be stopped.
use spartan_x.Prelude.{
  ap, leb, ℕ, ◌≡◌, ◌≢◌, refl, sym, subst, ◌∙◌, Option, List, arith, Outcome, done, Bool-cases, inl,
  inr,
}
use spartan_x.Status.{SxError, SxStatus, sx_status_idle, sx_status_running}
use spartan_x.Socket.{Net, ErrCell}
use spartan_x.Runtime.{Block}
use spartan_x.Server.{Server, Setup, ServerRef, live, create_server}
use spartan_x.Server.Creation.{created, create_server-created}
use spartan_x.Acceptor.{Verdict, answer, enter}
use spartan_x.System.{
  System, Point, starting, testing, listening, checking, taking, leaving, left, Actor, obey, Step,
  calls, enters, tests, looks, checks, takes, quits, begins, reads, rounds, ends, Run, stay, later,
  dispatched, Starts, tested, looked, checked, received,
}
use spartan_x.System.Starting.{server_start-retains}
use spartan_x.System.Taking.{received-server, received-acceptor}
use spartan_x.System.Calls.{obey-unreferenced, refused}

-- The accepting loop of a server with the status, which has not seen the order to terminate.
abbrev Goes : Point → SxStatus → Type 0
Goes starting status = status ≡ sx_status_idle
Goes testing status = status ≡ sx_status_running
Goes listening status = status ≡ sx_status_running
Goes checking status = status ≡ sx_status_running
Goes taking status = status ≡ sx_status_running
Goes leaving status = sx_status_idle ≡ sx_status_running
Goes left status = sx_status_idle ≡ sx_status_running

record IsUnstopped (s : System) : Type 0 where
  unreferenced : s.server.ref_count ≡ 0
  goes : Goes s.acceptor s.server.status

looked-Goes : (status : SxStatus) → status ≡ sx_status_running → Goes (looked status) status
looked-Goes status e = rw e refl

checked-Goes :
    (server : Server) (count : ℕ)
    → server.status ≡ sx_status_running
    → Goes (checked server count) server.status
checked-Goes server count e = elim (Bool-cases (leb server.max_guest count)) [
  | inl full ↦ simp (e, full) refl
  | inr room ↦ simp (e, room) refl
]

Goes-running :
    (point : Point) (status : SxStatus)
    → Goes point status
    → point ≢ starting
    → status ≡ sx_status_running
Goes-running starting status g h = absurd (h refl)
Goes-running testing status g h = g
Goes-running listening status g h = g
Goes-running checking status g h = g
Goes-running taking status g h = g
Goes-running leaving status g h = omega arith
Goes-running left status g h = omega arith

tests-Goes : (status : SxStatus) → status ≡ sx_status_running → Goes (tested status) status
tests-Goes status e = rw e refl

received-IsUnstopped :
    {s : System} (w : Verdict)
    → IsUnstopped s
    → s.server.status ≡ sx_status_running
    → IsUnstopped (received w s)
received-IsUnstopped {s} w u on =
    let same = received-server w s in
    let status = ap (λ (b : Server). b.status) same ∙ on in
    record {
      unreferenced = ap (λ (b : Server). b.ref_count) same ∙ u.unreferenced;
      goes = subst (λ p. Goes p (received w s).server.status) (sym (received-acceptor w s)) status;
    }

Step-IsUnstopped : {s t : System} {a : Actor} → Step s a t → IsUnstopped s → IsUnstopped t
unfolding enter
Step-IsUnstopped {s} (calls net c {server} e) u =
    let same : server ≡ s.server =
      refused (obey net c s.server) (obey-unreferenced net c s.server u.unreferenced) e in
    subst (λ b. IsUnstopped (record s { server = b })) (sym same) u
Step-IsUnstopped {s} (enters e) u = record { unreferenced = u.unreferenced; goes = refl }
Step-IsUnstopped {s} (tests e) u =
    let on : s.server.status ≡ sx_status_running = subst (λ p. Goes p s.server.status) e u.goes in
    record { unreferenced = u.unreferenced; goes = tests-Goes s.server.status on }
Step-IsUnstopped {s} (looks sock e) u =
    let on : s.server.status ≡ sx_status_running = subst (λ p. Goes p s.server.status) e u.goes in
    record { unreferenced = u.unreferenced; goes = looked-Goes s.server.status on }
Step-IsUnstopped {s} (checks small e) u =
    let on : s.server.status ≡ sx_status_running = subst (λ p. Goes p s.server.status) e u.goes in
    record { unreferenced = u.unreferenced; goes = checked-Goes s.server s.count on }
Step-IsUnstopped {s} (takes accepted admits sock e sound) u =
    let on : s.server.status ≡ sx_status_running = subst (λ p. Goes p s.server.status) e u.goes in
    received-IsUnstopped (answer s.server accepted admits) u on
Step-IsUnstopped {s} (quits e h) u = absurd (stuck (subst (λ p. Goes p s.server.status) e u.goes))
  where
    stuck : sx_status_idle ≢ sx_status_running
    stuck = omega arith
Step-IsUnstopped (begins e) u = record { unreferenced = u.unreferenced; goes = u.goes }
Step-IsUnstopped (reads r before after c e) u = record {
  unreferenced = u.unreferenced;
  goes = u.goes;
}
Step-IsUnstopped (rounds r before after c e turn) u = record {
  unreferenced = u.unreferenced;
  goes = u.goes;
}
Step-IsUnstopped (ends r before after c e turn h) u = record {
  unreferenced = u.unreferenced;
  goes = u.goes;
}

Run-IsUnstopped :
    {s t : System} {actors : List Actor} → Run s actors t → IsUnstopped s → IsUnstopped t
Run-IsUnstopped stay u = u
Run-IsUnstopped (later run step) u = Step-IsUnstopped step (Run-IsUnstopped run u)

created-IsUnstopped :
    (net : Net) (setup : Setup) (msg_handl : Option Block) {started : Server}
    → Starts (created net setup msg_handl) started
    → IsUnstopped (dispatched started)
created-IsUnstopped net setup msg_handl starts =
    let same = server_start-retains (created net setup msg_handl) starts in
    subst (λ b. IsUnstopped (dispatched b)) (sym same) (record { unreferenced = refl; goes = refl })

live_same :
    {a b : Server} {c d : ErrCell}
    → ◌≡◌ {A = Outcome (ServerRef × ErrCell)} (done (live a, c)) (done (live b, d))
    → b ≡ a
live_same e = cc

create_server-live :
    (net : Net) (unset : SxError) (setup : Setup) (cell out : ErrCell) (msg_handl : Option Block)
    {server : Server}
    → create_server net unset setup cell msg_handl ≡ done (live server, out)
    → server ≡ created net setup msg_handl
unfolding create_server
create_server-live net unset setup cell out msg_handl h = elim (Bool-cases net.calloc_ok) [
  | inl ok ↦ live_same (sym (create_server-created net unset setup cell msg_handl ok) ∙ h)
  | inr out_of_memory ↦ cc
]

-- A point that the loop of such a server does not reach.
inside :
    (point : Point) (s : System)
    → Goes s.acceptor s.server.status
    → (Goes point s.server.status → sx_status_idle ≡ sx_status_running)
    → s.acceptor ≢ point
inside point s g h e = absurd (never (h (subst (λ p. Goes p s.server.status) e g)))
  where
    never : sx_status_idle ≢ sx_status_running
    never = omega arith

-- A server that `SXCreateServer` made and `SXServerStart` started cannot be stopped by
-- `SXSuspendServer`, `SXResumeServer` and `SXKillServer`, in any number and interleaved in any way with
-- its threads: its status is running from the first statement of the accepting loop on, and that loop
-- never ends.
pub create_server-unstoppable :
    (net : Net) (unset : SxError) (setup : Setup) (cell out : ErrCell) (msg_handl : Option Block)
    {server started : Server} {actors : List Actor} {s : System}
    → create_server net unset setup cell msg_handl ≡ done (live server, out)
    → Starts server started
    → Run (dispatched started) actors s
    → (s.acceptor ≢ starting → s.server.status ≡ sx_status_running)
      × (s.acceptor ≢ leaving)
      × (s.acceptor ≢ left)
create_server-unstoppable net unset setup cell out msg_handl {server} {started} {actors} {s} made
      starts run =
    let same = create_server-live net unset setup cell out msg_handl made in
    let u =
      Run-IsUnstopped run
        (created-IsUnstopped net setup msg_handl (subst (λ b. Starts b started) same starts)) in
    (
      Goes-running s.acceptor s.server.status u.goes,
      inside leaving s u.goes (λ e. e),
      inside left s u.goes (λ e. e),
    )
