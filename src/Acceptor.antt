-- ===== src/Acceptor.antt =====
-- The accepting loop, the outer block of `SXServerStart` in src/SXServer.c. A pass of the loop is a
-- function of what its environment answers; connections that end are interleaved with the passes.
pub mod Slots
pub mod Witness
use spartan_x.Prelude.{
  ℕ, zero, suc, ◌+◌, ◌-◌, Bool, true, false, not, ◌&&◌, Option, none, some, List, [], ◌∷◌, ℤ, leb,
  int_max, ◌==◌, if◌then◌else◌, Outcome, crash, ◌>>=◌, done,
}
use spartan_x.Status.{
  SxStatus, sx_status_idle, sx_status_running, sx_status_suspend, sx_status_should_terminate,
}
use spartan_x.Object
use spartan_x.Object.{Released, kept, deallocates}
use spartan_x.Socket.{failed}
use spartan_x.Server.{Server, with_status}

-- The first statement of the block, and whether `didStart` is called.
unfoldable pub enter : Server → Server × Bool
enter server =
    (with_status server sx_status_running, elim server.did_start [ none ↦ false | some _ ↦ true ])

-- What one pass meets: the status at the test of the loop and behind `listen`, what `accept` returns,
-- and what `shouldConnect` answers.
pub record Pass : Type 0 where
  pub at_test : SxStatus
  pub after_listen : SxStatus
  pub accepted : ℤ
  pub admits : Bool

-- A guest gets a connection; one that fails or is refused does not, and its slot stays counted.
pub data Verdict : Type 0 where
  leaves : Verdict
  waits : Verdict
  serves : Verdict
  turns_away : Verdict
  crashes : Verdict

-- What becomes of a guest. A missing error handler is called all the same.
unfoldable pub answer : Server → ℤ → Bool → Verdict
answer server accepted admits =
    if failed accepted
    then (elim server.handlers.err_handler [ none ↦ crashes | some _ ↦ turns_away ])
    else (elim server.should_connect [
      | none ↦ serves
      | some _ ↦ if admits then serves else turns_away
    ])

-- A pass with `count` slots taken, an `int` whose increment overflows at INT_MAX.
unfoldable pub pass : Server → Pass → ℕ → Verdict
unfolding answer
pass server p count =
    if p.at_test == sx_status_should_terminate
    then leaves
    else if p.after_listen == sx_status_should_terminate
    then leaves
    else if p.after_listen == sx_status_suspend
    then waits
    else if leb server.max_guest count
    then waits
    else if leb int_max count
    then crashes
    else answer server p.accepted p.admits

-- `count` is the variable of the block; `active` counts the connections that are being served, and
-- `turned_away` the guests that took a slot and no connection.
pub record Guests : Type 0 where
  pub accepting : Bool
  pub count : ℕ
  pub active : ℕ
  pub turned_away : ℕ

abbrev pub no_guests : Guests
no_guests = record { accepting = true; count = 0; active = 0; turned_away = 0 }

-- `++count` stands before `accept`.
unfoldable pub take_in : Guests → Verdict → Guests
take_in g leaves = record g { accepting = false }
take_in g waits = g
take_in g serves = record g { count = g.count + 1; active = g.active + 1 }
take_in g turns_away = record g { count = g.count + 1; turned_away = g.turned_away + 1 }
take_in g crashes = record g { accepting = false }

-- A pass of the loop, or the end of a connection, which is the `--count` of its block.
pub data Action : Type 0 where
  passes : Pass → Action
  finishes : Action

unfoldable pub step : Server → Action → Guests → Guests
unfolding pass take_in
step server (passes p) g = if g.accepting then take_in g (pass server p g.count) else g
step server finishes g =
    if g.active == 0 then g else record g { count = g.count - 1; active = g.active - 1 }

unfoldable pub run : Server → List Action → Guests → Guests
run server [] g = g
run server (a ∷ actions) g = run server actions (step server a g)

-- The statements behind the loop: the server is idle and is released, and whether `didKill` is called.
-- The handler is read from the server after the release.
unfoldable pub leave : Server → Outcome (Server × Bool)
leave server =
    let idle = with_status server sx_status_idle in
    let told : Bool = elim server.did_kill [ none ↦ false | some _ ↦ true ] in
    Object.release idle.runtime.obj >>= λ r. (elim r [
      | kept obj ↦ done (record idle { runtime = record (idle.runtime) { obj = obj } }, told)
      | deallocates d obj ↦ crash
    ])
