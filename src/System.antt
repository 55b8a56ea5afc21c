-- ===== src/System.antt =====
-- A running server as a whole, over `SXServerStart` and the control functions of src/SXServer.c: the
-- accepting loop, the blocks that it dispatched, the connections that they serve, and a program that
-- holds the server and calls `SXSuspendServer`, `SXResumeServer` and `SXKillServer` at any time. The
-- threads share the server, and are interleaved between the points where they read its status.
pub mod Calls
pub mod Leaving
pub mod Starting
pub mod Taking
pub mod Holding
pub mod Unstoppable
pub mod Work
pub mod Stopping
pub mod Behind
pub mod Ordered
pub mod Resuming
pub mod Weak
pub mod Service
pub mod Refinement
pub mod Witness
use spartan_x.Prelude.{
  int_max, ◌≤◌, ℕ, suc, ◌-◌, leb, Bool, true, ◌≡◌, ◌≢◌, Option, none, some, List, [], ◌∷◌, ◌++◌, ℤ,
  ◌==◌, if◌then◌else◌, Outcome, done, ◌>>=◌,
}
use spartan_x.Status.{SxStatus, sx_success, sx_status_suspend, sx_status_should_terminate}
use spartan_x.Object.{Object, kept, retain, release}
use spartan_x.Loop.{goes_on, exits}
use spartan_x.Socket.{Net}
use spartan_x.Runtime.{Handlers, no_handlers, transfer_handlers}
use spartan_x.Server.{Server, suspend_server, resume_server, kill_server, server_start}
use spartan_x.Acceptor.{Verdict, answer, enter, leave}
use spartan_x.Connection.{
  Event, calls_did_connect, eval_if_exist, epilogue, Round, Conn, settled, dispatch, start,
}

-- The calls of the program, with the network that the call meets.
pub data Call : Type 0 where
  suspends resumes kills : Call

-- The server behind a call of the program on it.
unfoldable pub obey : Net → Call → Server → Outcome (Option Server)
obey net suspends server = done (suspend_server (some server)).0
obey net resumes server = done (resume_server (some server)).0
obey net kills server = kill_server net (some server) >>= λ e. done e.server

-- Where the block of the accepting loop stands: dispatched, at the test of the loop, behind that test,
-- between the two readings of the status behind `listen`, at `accept`, behind the loop, and at its end.
pub data Point : Type 0 where
  starting testing listening checking taking leaving left : Point

-- A connection between its rounds, or in a round, with the status that it read: it looks at that status
-- later, and may be blocked in `recv`.
pub data Serving : Type 0 where
  between in_round : Conn → Serving

-- `count` is the variable of the accepting loop, and `turned_away` the guests that took a slot and no
-- connection. `pending` counts the blocks that were dispatched for a guest and have not begun, and
-- `conns` holds those that have.
pub record System : Type 0 where
  pub server : Server
  pub acceptor : Point
  pub count : ℕ
  pub turned_away : ℕ
  pub pending : ℕ
  pub conns : List Serving

-- Who takes a step, and for a connection what it does that others can see.
pub data Actor : Type 0 where
  program : Call → Actor
  accepting : Actor
  serving : List Event → Actor

abbrev pub with_obj : Server → Object → Server
with_obj server obj = record server { runtime = record (server.runtime) { obj = obj } }

-- The test of the loop.
abbrev pub tested : SxStatus → Point
tested status = if status == sx_status_should_terminate then leaving else listening

-- The first test behind `listen`.
abbrev pub looked : SxStatus → Point
looked status = if status == sx_status_should_terminate then leaving else checking

-- The second one reads the status again.
abbrev pub checked : Server → ℕ → Point
checked server count =
    if server.status == sx_status_suspend
    then testing
    else if leb server.max_guest count
    then testing
    else taking

-- `++count` stands before `accept`.
abbrev pub numbered : Point → ℕ → ℕ
numbered taking count = suc count
numbered _ count = count

-- What `accept` and `shouldConnect` make of a guest: one that is served gets a block, and the slot of one
-- that is not stays taken.
abbrev pub received : Verdict → System → System
received Verdict.serves s = record s { acceptor = testing; pending = suc s.pending }
received Verdict.turns_away s = record s { acceptor = testing; turned_away = suc s.turned_away }
received _ s = record s { acceptor = testing }

-- The handlers of a connection.
abbrev pub handlers_of : System → Handlers
handlers_of s = transfer_handlers no_handlers s.server.handlers

-- What a block does before its loop.
abbrev pub greets : System → List Event
greets s = eval_if_exist (handlers_of s).did_connect calls_did_connect

-- A round reads the status of the server. The source reads it in the test and in the assignment
-- behind it; that comes to one reading, as a status that is not running does not become running again
-- while there are connections.
abbrev pub met : System → Round → Round
met s r = record r { server_status = s.server.status }

-- The statements between two readings of the shared status. A round of a connection is two steps: it reads
-- the status, and goes on with what it read, once `recv` returns where it calls it. A step may wait for
-- others: `takes` for `accept`, and `rounds` and `ends` for `recv`. A step that crashes is none, and nor
-- is a release that deallocates the server, or an overflow of `count`, which is an `int`.
pub data Step (s : System) : Actor → System → Type 0 where
  calls :
      (net : Net) (c : Call) {server : Server}
      → obey net c s.server ≡ done (some server)
      → Step s (program c) (record s { server = server })
  enters :
      s.acceptor ≡ starting
      → Step s accepting (record s { server = (enter s.server).0; acceptor = testing })
  tests : s.acceptor ≡ testing → Step s accepting (record s { acceptor = tested s.server.status })
  looks :
      s.server.sock ≢ none
      → s.acceptor ≡ listening
      → Step s accepting (record s { acceptor = looked s.server.status })
  checks :
      numbered (checked s.server s.count) s.count ≤ int_max
      → s.acceptor ≡ checking
      → Step s accepting (record s {
        acceptor = checked s.server s.count;
        count = numbered (checked s.server s.count) s.count;
      })
  takes :
      (accepted : ℤ) (admits : Bool)
      → s.server.sock ≢ none
      → s.acceptor ≡ taking
      → answer s.server accepted admits ≢ Verdict.crashes
      → Step s accepting (received (answer s.server accepted admits) s)
  quits :
      {server : Server} {told : Bool}
      → s.acceptor ≡ leaving
      → leave s.server ≡ done (server, told)
      → Step s accepting (record s { server = server; acceptor = left })
  begins :
      {pending : ℕ}
      → s.pending ≡ suc pending
      → Step s (serving (greets s)) (record s {
        server = with_obj s.server (retain s.server.obj);
        pending = pending;
        conns = between start ∷ s.conns;
      })
  reads :
      (r : Round) (before after : List Serving) (c : Conn)
      → s.conns ≡ before ++ between c ∷ after
      → Step s (serving []) (record s {
        conns = before ++ in_round (record c { status = settled (met s r) c }) ∷ after;
      })
  rounds :
      (r : Round) (before after : List Serving) (c : Conn) {c' : Conn} {events : List Event}
      → s.conns ≡ before ++ in_round c ∷ after
      → dispatch (handlers_of s) r c ≡ goes_on c' events
      → Step s (serving events) (record s { conns = before ++ between c' ∷ after })
  ends :
      (r : Round) (before after : List Serving) (c : Conn) {events : List Event} {obj : Object}
      → s.conns ≡ before ++ in_round c ∷ after
      → dispatch (handlers_of s) r c ≡ exits events
      → release s.server.obj ≡ done (kept obj)
      → Step s (serving (events ++ epilogue (handlers_of s))) (record s {
        server = with_obj s.server obj;
        count = s.count - 1;
        conns = before ++ after;
      })

-- The steps of the threads one after the other, with the last one outermost.
pub data Run (s : System) : List Actor → System → Type 0 where
  stay : Run s [] s
  later :
      {actors : List Actor} {a : Actor} {t u : System}
      → Run s actors t
      → Step t a u
      → Run s (a ∷ actors) u

-- What `SXServerStart` leaves to the threads.
abbrev pub dispatched : Server → System
dispatched server = record {
  server = server;
  acceptor = starting;
  count = 0;
  turned_away = 0;
  pending = 0;
  conns = [];
}

-- The system that a call of `SXServerStart` sets off, with success.
abbrev pub Starts : Server → Server → Type 0
Starts server started = server_start (some server) true true ≡ done (some started, sx_success)
