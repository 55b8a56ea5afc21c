-- ===== src/Earlier/Serving.antt =====
-- The two blocks of `SXServerStart` in Examples/HTTP-proxy/SXServer.c: the accepting loop, and the loop
-- of one connection. What a round meets, and what it does that others see, are described as for
-- src/SXServer.c.
use spartan_x.Prelude.{
  int_max, ℕ, ◌-◌, Bool, true, false, ◌||◌, Option, none, some, List, [], ◌∷◌, ◌++◌, ◌==◌, leb,
  if◌then◌else◌, size_max, Outcome, crash, done, ◌>>=◌, ℤ,
}
use spartan_x.Status.{
  SxStatus, sx_status_idle, sx_status_running, sx_status_resuming, sx_status_suspend,
  sx_status_should_terminate,
}
use spartan_x.Runtime.{Block}
use spartan_x.Loop.{Turn, goes_on, exits, crashes}
use spartan_x.Socket.{Net, failed}
use spartan_x.Acceptor
use spartan_x.Acceptor.{
  Pass, Verdict, leaves, waits, serves, turns_away, Guests, Action, passes, finishes, take_in,
}
use spartan_x.Connection.{
  Event, receives, calls_did_resume, calls_will_suspend, calls_will_kill, calls_data_handler, Round,
  Conn,
}
use spartan_x.Earlier.{SharedSocket, Queue, create_queue}
use spartan_x.Earlier.Client.{chosen}
use spartan_x.Earlier.Server.{Server, release_server}
use spartan_x.Earlier.Sockets.{set_block}

-- The statements before the accepting loop: the server, and whether `didStart` is called. Whether the
-- socket was made blocking is not asked for.
unfoldable pub enter :
    (getfl : ℤ → ℤ) (setfl : ℤ → Bool → ℤ → ℤ) → Bool → Server → Outcome (Server × Bool)
unfolding set_block
enter getfl setfl use_block_handler server =
    let told : Bool =
      elim (chosen use_block_handler server.status_blocks.did_start server.status_fptrs.did_start) [
        | none ↦ false
        | some _ ↦ true
      ] in
    let on = record server { status = sx_status_running } in
    elim on.socket [
      | none ↦ crash
      | some sock ↦
          if sock.blocking
          then done (on, told)
          else done (record on { socket = some (set_block getfl setfl sock true).0 }, told)
    ]

-- A pass with `count` slots taken. A failed `accept` is kept in a variable that nobody reads.
unfoldable pub pass : Bool → Server → Pass → ℕ → Verdict
pass use_block_handler server p count =
    if p.at_test == sx_status_should_terminate
    then leaves
    else if p.after_listen == sx_status_should_terminate
    then leaves
    else if p.after_listen == sx_status_suspend
    then waits
    else if leb server.max_guest count
    then waits
    else if leb int_max count
    then Acceptor.crashes
    else if failed p.accepted
    then turns_away
    else elim (chosen use_block_handler server.status_blocks.should_connect
        server.status_fptrs.should_connect) [
          | none ↦ serves
          | some _ ↦ if p.admits then serves else turns_away
        ]

unfoldable pub step : Bool → Server → Action → Guests → Guests
unfolding pass take_in
step use_block_handler server (passes p) g =
    if g.accepting then take_in g (pass use_block_handler server p g.count) else g
step use_block_handler server finishes g =
    if g.active == 0 then g else record g { count = g.count - 1; active = g.active - 1 }

unfoldable pub run : Bool → Server → List Action → Guests → Guests
run use_block_handler server [] g = g
run use_block_handler server (a ∷ actions) g =
    run use_block_handler server actions (step use_block_handler server a g)

-- The connection as the block sets it up: both kinds of handlers are passed on. The weak mark is set on
-- a copy of the socket, and the count of `sock` is whatever the memory held.
unfoldable pub open_connection : Server → SharedSocket → ℕ → Outcome (Option Queue)
unfolding create_queue
open_connection server sock r_queue = create_queue (some sock) (some r_queue) false >>= λ made.
    (elim made [
      | none ↦ crash
      | some queue ↦ done (
          some (record queue {
            status = sx_status_running;
            blocks = server.blocks;
            fptrs = server.fptrs;
          }))
    ])

-- `eval_if_exist_q`, for the two places of a handler.
abbrev pub eval_if_exist : Bool → Option Block → Option Block → Event → List Event
eval_if_exist use_block_handler block fptr e = elim (chosen use_block_handler block fptr) [
  | none ↦ []
  | some _ ↦ e ∷ []
]

-- `while (s > 0)`.
abbrev pub loop_test : Conn → List Event → Turn Conn Event
loop_test c events = if c.s == 0 then exits events else goes_on c events

abbrev pub get_or : Option SxStatus → SxStatus → SxStatus
get_or none status = status
get_or (some stored) status = stored

-- `s = eval_q(dataHandler, …)`, with no test of the handler.
unfoldable pub handle : Bool → Queue → Round → Conn → List Event → ℕ → Turn Conn Event
handle use_block_handler queue r c events len =
    elim (chosen use_block_handler queue.blocks.data_handler queue.fptrs.data_handler) [
      | none ↦ crashes events
      | some _ ↦ loop_test (record c { s = r.answer }) (events ++ calls_data_handler len ∷ [])
    ]

unfoldable pub round_running : Bool → Queue → Round → Conn → Turn Conn Event
unfolding handle
round_running use_block_handler queue r c =
    if r.received == size_max
    then exits (receives ∷ [])
    else handle use_block_handler queue r c (receives ∷ []) r.received

unfoldable pub round_resuming : Bool → Queue → Conn → Turn Conn Event
round_resuming use_block_handler queue c =
    loop_test (record c { status = sx_status_running })
      (eval_if_exist use_block_handler queue.blocks.did_resume queue.fptrs.did_resume
        calls_did_resume)

-- The inner `switch`, on the status after `recv`.
unfoldable pub deliver_suspended : Bool → Queue → Round → Conn → List Event → Turn Conn Event
unfolding handle
deliver_suspended use_block_handler queue r c events =
    if c.status == sx_status_should_terminate || c.status == sx_status_idle
    then exits events
    else if c.status == sx_status_resuming || c.status == sx_status_running
    then handle use_block_handler queue r c events r.received
    else loop_test c events

unfoldable pub round_suspend : Bool → Queue → Round → Conn → Turn Conn Event
unfolding deliver_suspended
round_suspend use_block_handler queue r c =
    let first : List Event =
      if c.suspended
      then []
      else eval_if_exist use_block_handler queue.blocks.will_suspend queue.fptrs.will_suspend
          calls_will_suspend in
    let events = first ++ receives ∷ [] in
    if r.received == 0 || r.received == size_max
    then exits events
    else deliver_suspended use_block_handler queue r
        (record c { status = get_or r.stored_meanwhile c.status; suspended = true }) events

unfoldable pub dispatch : Bool → Queue → Round → Conn → Turn Conn Event
unfolding round_running round_resuming round_suspend
dispatch use_block_handler queue r c =
    if c.status == sx_status_running
    then round_running use_block_handler queue r c
    else if c.status == sx_status_resuming
    then round_resuming use_block_handler queue c
    else if c.status == sx_status_suspend
    then round_suspend use_block_handler queue r c
    else if c.status == sx_status_should_terminate || c.status == sx_status_idle
    then exits (
        eval_if_exist use_block_handler queue.blocks.will_kill queue.fptrs.will_kill
          calls_will_kill)
    else loop_test c []

-- A round; a server that is not running passes its status on.
unfoldable pub round : Bool → Queue → Round → Conn → Turn Conn Event
unfolding dispatch
round use_block_handler queue r c =
    let status =
      if r.server_status == sx_status_running then get_or r.stored c.status else r.server_status in
    dispatch use_block_handler queue r (record c { status = status })

-- The statements behind the accepting loop: the server is idle and is released, and whether `didKill` is
-- called, which is read from the server after the release.
unfoldable pub leave : Net → Bool → Server → Outcome (Server × List ℤ × Bool)
unfolding release_server
leave net use_block_handler server =
    let told : Bool =
      elim (chosen use_block_handler server.status_blocks.did_kill server.status_fptrs.did_kill) [
        | none ↦ false
        | some _ ↦ true
      ] in
    release_server net (record server { status = sx_status_idle }) >>= λ e. (elim e.server [
      | none ↦ crash
      | some left ↦ done (left, e.closed, told)
    ])
