-- ===== src/Connection.antt =====
-- The loop of one connection, the inner block of `SXServerStart` in src/SXServer.c. A round of the
-- loop is a function of what its environment answers in that round: the server's status, what other
-- threads store in the connection's status, what `recv` returns and what the data handler returns.
pub mod Events
pub mod Suspension
pub mod Ending
pub mod Witness
use spartan_x.Prelude.{
  ℕ, ◌+◌, Bool, true, false, ◌||◌, Option, none, some, List, [], ◌∷◌, ◌++◌, ◌==◌, if◌then◌else◌,
  size_max, Outcome, done, ◌>>=◌,
}
use spartan_x.Status.{
  SxStatus, sx_status_idle, sx_status_running, sx_status_resuming, sx_status_suspend,
  sx_status_should_terminate,
}
use spartan_x.Loop
use spartan_x.Loop.{Turn, goes_on, exits, crashes, State}
use spartan_x.Socket.{Socket}
use spartan_x.Runtime.{Block, Handlers, transfer_handlers}
use spartan_x.Queue.{Queue, create_queue}

-- What the loop does that others can see. `receives` is a call of `recv`, and `calls_data_handler`
-- carries the length that the handler is given.
pub data Event : Type 0 where
  calls_did_connect receives calls_did_resume calls_will_suspend calls_will_kill : Event
  calls_data_handler : ℕ → Event
  calls_did_disconnect closes releases_server releases_queue frees_slot : Event

-- `received` and `answer` are `size_t`, so that a failed `recv` is `size_max`.
pub record Round : Type 0 where
  pub server_status : SxStatus
  pub stored : Option SxStatus
  pub received : ℕ
  pub stored_meanwhile : Option SxStatus
  pub answer : ℕ

-- The variables of the loop.
pub record Conn : Type 0 where
  pub status : SxStatus
  pub suspended : Bool
  pub s : ℕ

abbrev pub get_or : Option SxStatus → SxStatus → SxStatus
get_or none status = status
get_or (some stored) status = stored

-- `eval_if_exist_q`.
abbrev pub eval_if_exist : Option Block → Event → List Event
eval_if_exist none e = []
eval_if_exist (some _) e = e ∷ []

-- `while (s > 0)`.
abbrev pub loop_test : Conn → List Event → Turn Conn Event
loop_test c events = if c.s == 0 then exits events else goes_on c events

-- `s = eval_q(dataHandler, …)`, with no test of the handler.
unfoldable pub handle : Handlers → Round → Conn → List Event → ℕ → Turn Conn Event
handle hs r c events len = elim hs.data_handler [
  | none ↦ crashes events
  | some _ ↦ loop_test (record c { s = r.answer }) (events ++ calls_data_handler len ∷ [])
]

unfoldable pub round_running : Handlers → Round → Conn → Turn Conn Event
unfolding handle
round_running hs r c =
    if r.received == size_max
    then exits (receives ∷ [])
    else handle hs r c (receives ∷ []) r.received

unfoldable pub round_resuming : Handlers → Conn → Turn Conn Event
round_resuming hs c =
    loop_test (record c { status = sx_status_running })
      (eval_if_exist hs.did_resume calls_did_resume)

-- The inner `switch`, on the status after `recv`.
unfoldable pub deliver_suspended : Handlers → Round → Conn → List Event → Turn Conn Event
unfolding handle
deliver_suspended hs r c events =
    if c.status == sx_status_should_terminate || c.status == sx_status_idle
    then exits events
    else if c.status == sx_status_resuming || c.status == sx_status_running
    then handle hs r c events r.received
    else loop_test c events

unfoldable pub round_suspend : Handlers → Round → Conn → Turn Conn Event
unfolding deliver_suspended
round_suspend hs r c =
    let first : List Event =
      if c.suspended then [] else eval_if_exist hs.will_suspend calls_will_suspend in
    let events = first ++ receives ∷ [] in
    if r.received == 0 || r.received == size_max
    then exits events
    else deliver_suspended hs r
        (record c { status = get_or r.stored_meanwhile c.status; suspended = true }) events

-- The `switch` of a round, once the status is settled.
unfoldable pub dispatch : Handlers → Round → Conn → Turn Conn Event
unfolding round_running round_resuming round_suspend
dispatch hs r c =
    if c.status == sx_status_running
    then round_running hs r c
    else if c.status == sx_status_resuming
    then round_resuming hs c
    else if c.status == sx_status_suspend
    then round_suspend hs r c
    else if c.status == sx_status_should_terminate || c.status == sx_status_idle
    then exits (eval_if_exist hs.will_kill calls_will_kill)
    else loop_test c []

-- A server that is not running passes its status on.
abbrev pub settled : Round → Conn → SxStatus
settled r c =
    if r.server_status == sx_status_running then get_or r.stored c.status else r.server_status

unfoldable pub round : Handlers → Round → Conn → Turn Conn Event
unfolding dispatch
round hs r c = dispatch hs r (record c { status = settled r c })

-- The label `exit`.
abbrev pub epilogue : Handlers → List Event
epilogue hs =
    closes ∷ eval_if_exist hs.did_disconnect calls_did_disconnect
    ++ releases_server ∷ releases_queue ∷ frees_slot ∷ []

-- The rounds of a list one after the other, and the events in their order.
unfoldable pub run : Handlers → List Round → Conn → State Conn × List Event
unfolding Loop.run
run hs = Loop.run (round hs) (epilogue hs)

abbrev pub start : Conn
start = record { status = sx_status_running; suspended = false; s = 1 }

-- The connection as the block sets it up.
unfoldable pub open_connection : Bool → Handlers → Socket → ℕ → Outcome Queue
unfolding create_queue transfer_handlers
open_connection calloc_ok server sock r_queue =
    create_queue calloc_ok (some sock) (some r_queue) >>= λ q. done (record q {
      runtime = record (q.runtime) {
        status = sx_status_running;
        handlers = transfer_handlers q.runtime.handlers server;
      };
    })

-- A whole connection.
unfoldable pub connection : Handlers → List Round → State Conn × List Event
unfolding run
connection hs rounds =
    let (state, events) = run hs rounds start in
    (state, eval_if_exist hs.did_connect calls_did_connect ++ events)
