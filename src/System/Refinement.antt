-- ===== src/System/Refinement.antt =====
-- A running server refines the description by phases.
use spartan_x.Prelude.{
  ℕ, ◌+◌, ◌≤◌, ◌<◌, ◌≡◌, ◌≢◌, ◌⊎◌, inl, inr, refl, sym, ap, ◌∙◌, List, length, arith, ◌==◌,
  if◌then◌else◌,
}
use spartan_x.Status.{SxStatus, sx_status_should_terminate}
use spartan_x.Object.{free_server}
use spartan_x.Object.Owners.{owned}
use spartan_x.Server.{Server}
use spartan_x.Acceptor.{Verdict, leaves, waits, serves, turns_away, crashes, answer, enter}
use spartan_x.System.{
  System, Point, starting, testing, listening, checking, taking, leaving, left, obey, Actor, Step,
  calls, enters, tests, looks, checks, takes, quits, begins, reads, rounds, between, in_round, ends,
  Run, stay, later, tested, looked, checked, numbered, received, dispatched, Starts,
}
use spartan_x.System.Calls.{obey-terminating, refused}
use spartan_x.System.Holding.{IsValid, guests_in, at_accept, length-middle, length-replaced}
use spartan_x.System.Holding.Steps.{Run-IsValid, dispatched-IsValid}
use spartan_x.System.Service.{
  Phase, booting, opened, closing, closed, View, Moves, boots, lets_in, arrives, stays_away,
  departs, orders, closes, rests, History, begun, goes_on, Shut, History-Shut,
}

-- The guest that the loop looks for: it opens the door at the first of the two tests behind `listen`.
abbrev pub expecting : Point → ℕ
expecting checking = 1
expecting taking = 1
expecting _ = 0

-- What is seen of a running server.
abbrev pub phase_of : Point → SxStatus → Phase
phase_of starting status = booting
phase_of testing status = if status == sx_status_should_terminate then closing else opened
phase_of listening status = if status == sx_status_should_terminate then closing else opened
phase_of checking status = if status == sx_status_should_terminate then closing else opened
phase_of taking status = if status == sx_status_should_terminate then closing else opened
phase_of leaving status = closing
phase_of left status = closed

abbrev pub view : System → View
view s = record {
  phase = phase_of s.acceptor s.server.status;
  guests = guests_in s;
  expected = expecting s.acceptor;
}

phase_called :
    (point : Point) (status next : SxStatus)
    → (status ≡ sx_status_should_terminate → next ≡ sx_status_should_terminate)
    → (phase_of point next ≡ phase_of point status)
      ⊎ ((phase_of point status ≡ opened) × (phase_of point next ≡ closing))
phase_called starting status next h = inl refl
phase_called testing status next h = ground arith
phase_called listening status next h = ground arith
phase_called checking status next h = ground arith
phase_called taking status next h = ground arith
phase_called leaving status next h = inl refl
phase_called left status next h = inl refl

phase-tested : (status : SxStatus) → phase_of (tested status) status ≡ phase_of testing status
phase-tested status = ground arith

expecting-tested : (status : SxStatus) → expecting (tested status) ≡ 0
expecting-tested status = ground arith

phase-looked : (status : SxStatus) → phase_of (looked status) status ≡ phase_of listening status
phase-looked status = ground arith

-- Where the door is opened.
looked-checking :
    (status : SxStatus) → looked status ≡ checking → phase_of listening status ≡ opened
looked-checking status h = ground arith

-- The tests behind `listen` do not change the phase.
looked-same :
    (s : System) (point : Point)
    → s.acceptor ≡ listening
    → looked s.server.status ≡ point
    → phase_of point s.server.status ≡ phase_of s.acceptor s.server.status
looked-same s point e at =
    ap (λ q. phase_of q s.server.status) (sym at)
    ∙ phase-looked s.server.status
    ∙ ap (λ q. phase_of q s.server.status) (sym e)

phase-checked :
    (server : Server) (count : ℕ)
    → phase_of (checked server count) server.status ≡ phase_of checking server.status
phase-checked server count = ground arith

checked-same :
    (s : System) (point : Point)
    → s.acceptor ≡ checking
    → checked s.server s.count ≡ point
    → phase_of point s.server.status ≡ phase_of s.acceptor s.server.status
checked-same s point e at =
    ap (λ q. phase_of q s.server.status) (sym at)
    ∙ phase-checked s.server s.count
    ∙ ap (λ q. phase_of q s.server.status) (sym e)

never_taking : (status : SxStatus) → looked status ≢ taking
never_taking status = ground arith

checked-goes_on : (server : Server) (count : ℕ) → checked server count ≢ checking
checked-goes_on server count = ground arith

module _ {max_guest : ℕ} where
  called-Moves :
      (s : System) (b : Server)
      → (s.server.status ≡ sx_status_should_terminate → b.status ≡ sx_status_should_terminate)
      → Moves max_guest (view s) (view (record s { server = b }))
  called-Moves s b h = by (phase_called s.acceptor s.server.status b.status h)
    where
      by :
          (phase_of s.acceptor b.status ≡ phase_of s.acceptor s.server.status)
            ⊎ ((phase_of s.acceptor s.server.status ≡ opened)
                × (phase_of s.acceptor b.status ≡ closing))
          → Moves max_guest (view s) (view (record s { server = b }))
      by (inl same) = rests same refl refl
      by (inr (open_yet, order)) = orders open_yet order refl refl

  looked-Moves :
      (s : System) (point : Point)
      → s.acceptor ≡ listening
      → looked s.server.status ≡ point
      → Moves max_guest (view s) (view (record s { acceptor = point }))
  looked-Moves s checking e at =
      let here = ap (λ q. phase_of q s.server.status) e ∙ looked-checking s.server.status at in
      lets_in here (looked-same s checking e at ∙ here) refl (ap expecting e) refl
  looked-Moves s taking e at = absurd (never_taking s.server.status at)
  looked-Moves s starting e at = rests (looked-same s starting e at) refl (sym (ap expecting e))
  looked-Moves s testing e at = rests (looked-same s testing e at) refl (sym (ap expecting e))
  looked-Moves s listening e at = rests (looked-same s listening e at) refl (sym (ap expecting e))
  looked-Moves s leaving e at = rests (looked-same s leaving e at) refl (sym (ap expecting e))
  looked-Moves s left e at = rests (looked-same s left e at) refl (sym (ap expecting e))

  checked-Moves :
      (s : System) (point : Point)
      → s.acceptor ≡ checking
      → checked s.server s.count ≡ point
      → Moves max_guest (view s) (
          view (record s { acceptor = point; count = numbered (checked s.server s.count) s.count }))
  checked-Moves s checking e at = absurd (checked-goes_on s.server s.count at)
  checked-Moves s taking e at = rests (checked-same s taking e at) refl (sym (ap expecting e))
  checked-Moves s starting e at =
      stays_away (checked-same s starting e at) refl (ap expecting e) refl
  checked-Moves s testing e at = stays_away (checked-same s testing e at) refl (ap expecting e) refl
  checked-Moves s listening e at =
      stays_away (checked-same s listening e at) refl (ap expecting e) refl
  checked-Moves s leaving e at = stays_away (checked-same s leaving e at) refl (ap expecting e) refl
  checked-Moves s left e at = stays_away (checked-same s left e at) refl (ap expecting e) refl

  received-Moves :
      {owners : ℕ} (s : System) (w : Verdict)
      → s.acceptor ≡ taking
      → IsValid owners max_guest s
      → Moves max_guest (view s) (view (received w s))
  received-Moves s serves e v =
      arrives (ap (λ q. phase_of q s.server.status) (sym e))
        (omega (arith, v.counted, v.bounded, ap at_accept e)) (omega arith) (ap expecting e) refl
  received-Moves s turns_away e v =
      stays_away (ap (λ q. phase_of q s.server.status) (sym e)) refl (ap expecting e) refl
  received-Moves s leaves e v =
      stays_away (ap (λ q. phase_of q s.server.status) (sym e)) refl (ap expecting e) refl
  received-Moves s waits e v =
      stays_away (ap (λ q. phase_of q s.server.status) (sym e)) refl (ap expecting e) refl
  received-Moves s crashes e v =
      stays_away (ap (λ q. phase_of q s.server.status) (sym e)) refl (ap expecting e) refl

  Step-Moves :
      {owners : ℕ} {s t : System} {a : Actor}
      → Step s a t
      → IsValid owners max_guest s
      → Moves max_guest (view s) (view t)
  unfolding enter
  Step-Moves {s} (calls net c {server} e) v = called-Moves s server (λ h.
      let same = refused (obey net c s.server) (obey-terminating net c s.server h) e in
      ap (λ (b : Server). b.status) same ∙ h)
  Step-Moves (enters e) v = boots (rw e refl) refl refl (sym (ap expecting e))
  Step-Moves {s} (tests e) v =
      rests (phase-tested s.server.status ∙ ap (λ q. phase_of q s.server.status) (sym e)) refl
        (omega (arith, expecting-tested s.server.status, ap expecting e))
  Step-Moves {s} (looks sock e) v = looked-Moves s (looked s.server.status) e refl
  Step-Moves {s} (checks small e) v = checked-Moves s (checked s.server s.count) e refl
  Step-Moves {s} (takes accepted admits sock e sound) v =
      received-Moves s (answer s.server accepted admits) e v
  Step-Moves {s} (quits e h) v =
      closes (ap (λ q. phase_of q s.server.status) e) refl refl (sym (ap expecting e))
  Step-Moves (begins e) v = rests refl (omega (arith, e)) refl
  Step-Moves (reads r before after c e) v =
      rests refl (omega (arith, ap length e, length-replaced before (between c) (in_round _) after))
        refl
  Step-Moves (rounds r before after c {c'} e turn) v =
      rests refl
        (omega (arith, ap length e, length-replaced before (in_round c) (between c') after)) refl
  Step-Moves (ends r before after c e turn h) v =
      departs refl (omega (arith, ap length e, length-middle before (in_round c) after)) refl

  Run-Moves :
      {owners : ℕ} {s t : System} {actors : List Actor}
      → owners + 1 + max_guest < 410
      → 0 < owners
      → Run s actors t
      → IsValid owners max_guest s
      → History max_guest (view s) (view t)
  Run-Moves few owner stay v = begun
  Run-Moves few owner (later run step) v =
      goes_on (Run-Moves few owner run v) (Step-Moves step (Run-IsValid few owner run v))

-- A server that the program owns, with fewer than 410 owners and places for guests together with the
-- accepting loop, refines the description by phases: what is seen of any run from `SXServerStart` on, in
-- which the program calls `SXSuspendServer`, `SXResumeServer` and `SXKillServer`, is a history of moves, so
-- the server boots once, opens its door for one guest at a time while it has no order to terminate, has
-- at most `max_guest` guests in service, is closed only by an order, and never opens again.
pub Run-History :
    {owners : ℕ} (server : Server) {started : Server} {actors : List Actor} {s : System}
    → server.obj ≡ owned owners free_server
    → 0 < owners
    → owners + 1 + server.max_guest < 410
    → Starts server started
    → Run (dispatched started) actors s
    → History server.max_guest (record { phase = booting; guests = 0; expected = 0 }) (view s)
Run-History server owns owner few starts run =
    Run-Moves few owner run (dispatched-IsValid server owns (omega arith) starts)

-- Of a server that the program owns, with fewer than 410 owners and places for guests together with the
-- accepting loop: once its loop has the order to terminate or has ended, this stays so, and the number
-- of its guests, with the one that the loop was looking for when the order came, never grows again,
-- whichever of `SXSuspendServer`, `SXResumeServer` and `SXKillServer` the program calls later, also behind
-- the end of the loop.
pub Run-Shut :
    {owners : ℕ} (server : Server) {started : Server} {before after : List Actor} {s t : System}
    → server.obj ≡ owned owners free_server
    → 0 < owners
    → owners + 1 + server.max_guest < 410
    → Starts server started
    → Run (dispatched started) before s
    → Shut (view s)
    → Run s after t
    → Shut (view t) × (guests_in t + expecting t.acceptor ≤ guests_in s + expecting s.acceptor)
Run-Shut server owns owner few starts before shut after =
    let v = Run-IsValid few owner before (dispatched-IsValid server owns (omega arith) starts) in
    History-Shut (Run-Moves few owner after v) shut
