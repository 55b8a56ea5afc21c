-- ===== src/Earlier/Kqueue.antt =====
-- The event loop of the earlier copy, the block that `SXServerStart_kqueue` of
-- Examples/HTTP-proxy/SXServer.c dispatches. The handlers are those of the server. What an event meets,
-- and what it does that others see, are described as for src/SXServer.c. Memory is taken to be there.
use spartan_x.Prelude.{
  ℕ, zero, suc, ◌+◌, ◌%◌, Bool, true, false, not, ◌||◌, Option, none, some, List, [], ◌∷◌, ◌++◌, ℤ,
  ◌==◌, leb, if◌then◌else◌, size_max, u64_mod, get_elem?, set, Outcome, crash, done,
}
use spartan_x.Status.{
  SxStatus, sx_status_idle, sx_status_running, sx_status_resuming, sx_status_suspend,
  sx_status_should_terminate,
}
use spartan_x.Runtime.{Block}
use spartan_x.Socket.{failed}
use spartan_x.Kqueue.{
  Event, receives, calls_did_resume, calls_will_suspend, calls_will_kill, calls_data_handler,
  deregisters, closes, releases_queue, calls_did_disconnect, frees_slot, Round, Turn, continues,
  exits, crashes, finish, get_or, Kevent, listener, connection,
}
use spartan_x.Kqueue.Waiting.{Batch, Standing, waits, finishes, gives_up}
use spartan_x.Earlier.{SharedSocket, Queue, Left, create_queue, release_queue, release_socket}
use spartan_x.Earlier.Client.{chosen}
use spartan_x.Earlier.Sockets.{fresh_socket}
use spartan_x.Earlier.Server.{Server}

-- `eval_if_exist`, for the two places of a handler.
abbrev pub eval_if_exist : Bool → Option Block → Option Block → Event → List Event
eval_if_exist use_block_handler block fptr e = elim (chosen use_block_handler block fptr) [
  | none ↦ []
  | some _ ↦ e ∷ []
]

unfoldable pub turn_running : Bool → Server → Round → SxStatus → Turn
turn_running use_block_handler server r status =
    if r.received == size_max
    then exits (receives ∷ [])
    else (elim (chosen use_block_handler server.blocks.data_handler server.fptrs.data_handler) [
      | none ↦ crashes (receives ∷ [])
      | some _ ↦
          let events : List Event = receives ∷ calls_data_handler r.received ∷ [] in
          if r.answer == size_max then exits events else finish status r.answer events
    ])

unfoldable pub turn_kill : Bool → Server → List Event → Turn
turn_kill use_block_handler server events = exits (
    events
    ++ eval_if_exist use_block_handler server.blocks.will_kill server.fptrs.will_kill
        calls_will_kill)

-- The case of a suspended connection falls through to that of a terminating one.
unfoldable pub deliver_suspended : Bool → Server → Round → SxStatus → List Event → Turn
unfolding turn_kill
deliver_suspended use_block_handler server r status events =
    if status == sx_status_should_terminate || status == sx_status_idle
    then exits events
    else if status == sx_status_resuming || status == sx_status_running
    then (elim (chosen use_block_handler server.blocks.data_handler server.fptrs.data_handler) [
      | none ↦ crashes events
      | some _ ↦ turn_kill use_block_handler server (events ++ calls_data_handler r.received ∷ [])
    ])
    else turn_kill use_block_handler server events

unfoldable pub turn_suspend : Bool → Server → Round → SxStatus → Turn
unfolding deliver_suspended
turn_suspend use_block_handler server r status =
    let first : List Event =
      if r.suspended_unset
      then []
      else eval_if_exist use_block_handler server.blocks.will_suspend server.fptrs.will_suspend
          calls_will_suspend in
    let events = first ++ receives ∷ [] in
    if r.received == 0 || r.received == size_max
    then exits events
    else deliver_suspended use_block_handler server r (get_or r.stored_meanwhile status) events

unfoldable pub dispatch : Bool → Server → Round → SxStatus → Turn
unfolding turn_running turn_suspend turn_kill
dispatch use_block_handler server r status =
    if status == sx_status_running
    then turn_running use_block_handler server r status
    else if status == sx_status_resuming
    then finish sx_status_running r.s_unset (
        eval_if_exist use_block_handler server.blocks.did_resume server.fptrs.did_resume
          calls_did_resume)
    else if status == sx_status_suspend
    then turn_suspend use_block_handler server r status
    else if status == sx_status_should_terminate || status == sx_status_idle
    then turn_kill use_block_handler server []
    else finish status r.s_unset []

-- A server that is not running passes its status on.
unfoldable pub turn : Bool → Server → Round → SxStatus → Turn
unfolding dispatch
turn use_block_handler server r status =
    let status =
      if r.server_status == sx_status_running then get_or r.stored status else r.server_status in
    dispatch use_block_handler server r status

-- The label `exit`.
abbrev pub epilogue : Bool → Server → List Event
epilogue use_block_handler server =
    deregisters
      ∷ closes
      ∷ releases_queue
      ∷ eval_if_exist use_block_handler server.blocks.did_disconnect server.fptrs.did_disconnect
          calls_did_disconnect
    ++ frees_slot ∷ []

-- The variable `count` of the loop, the connections that are registered, and the descriptors that were
-- passed to `close`, in their order.
pub record Loop : Type 0 where
  pub count : ℕ
  pub conns : List Queue
  pub closed : List ℤ
  pub crashed : Bool

abbrev pub empty : Loop
empty = record { count = 0; conns = []; closed = []; crashed = false }

abbrev pub erase : List Queue → ℕ → List Queue
erase [] i = []
erase (q ∷ conns) zero = conns
erase (q ∷ conns) (suc i) = q ∷ erase conns i

-- The connection of a guest is registered.
unfoldable pub register : Loop → Outcome (Option Queue) → Loop
register l crash = record l { crashed = true }
register l (done none) = l
register l (done (some queue)) = record l {
  count = (l.count + 1) % u64_mod;
  conns = l.conns ++ record queue { status = sx_status_running } ∷ [];
}

-- The listening socket is readable. The socket of a guest has the family `AF_UNSPEC`, 0, and one owner.
unfoldable pub accept_guest : Server → ℤ → Loop → Loop
unfolding register create_queue release_socket
accept_guest server fd l =
    let socket = fresh_socket fd 0 0 0 in
    if leb server.max_guest l.count
    then l
    else if failed fd
    then record l { closed = l.closed ++ (release_socket socket).1 }
    else register l (create_queue (some socket) none true)

-- The descriptor of a connection that ends is closed, and the connection is released. `--count` is on a
-- `size_t`.
unfoldable pub disconnect : ℕ → Loop → Option SharedSocket → Outcome Left → Loop
disconnect i l none released = record l { crashed = true }
disconnect i l (some sock) crash = record l { crashed = true }
disconnect i l (some sock) (done left) = record l {
  count = (l.count + size_max) % u64_mod;
  conns = erase l.conns i;
  closed = l.closed ++ sock.sockfd ∷ left.closed;
}

unfoldable pub conclude : ℕ → Queue → Loop → Turn → Loop
unfolding disconnect release_queue
conclude i queue l (continues status events) = record l {
  conns = set l.conns i (record queue { status = status });
}
conclude i queue l (exits events) = disconnect i l queue.sock (release_queue queue)
conclude i queue l (crashes events) = record l { crashed = true }

-- An event of a connection that is not registered does not arise.
unfoldable pub handle_connection : Bool → Server → ℕ → Round → Loop → Option Queue → Loop
unfolding conclude turn
handle_connection use_block_handler server i r l none = l
handle_connection use_block_handler server i r l (some queue) =
    conclude i queue l (turn use_block_handler server r queue.status)

unfoldable pub handle_event : Bool → Server → Kevent → Loop → Loop
unfolding accept_guest handle_connection
handle_event use_block_handler server (listener fd) l = accept_guest server fd l
handle_event use_block_handler server (connection i r) l =
    handle_connection use_block_handler server i r l (get_elem? l.conns i)

-- The events in their order, up to a crash.
unfoldable pub handle_events : Bool → Server → List Kevent → Loop → Loop
handle_events use_block_handler server [] l = l
handle_events use_block_handler server (e ∷ events) l =
    handle_events use_block_handler server events
      (if l.crashed then l else handle_event use_block_handler server e l)

-- The statements before the loop, for what `kqueue` returned.
unfoldable pub begin_loop : Bool → Server → ℤ → Server × Bool × Bool
begin_loop use_block_handler server kq = (
  record server { status = sx_status_running },
  elim (chosen use_block_handler server.status_blocks.did_start server.status_fptrs.did_start) [
    | none ↦ false
    | some _ ↦ true
  ],
  not (failed kq),
)

unfoldable pub wait_events : Bool → Server → List Batch → Loop → Loop × Standing
wait_events use_block_handler server [] l = (l, waits)
wait_events use_block_handler server (b ∷ batches) l =
    let rest =
      wait_events use_block_handler server batches
        (handle_events use_block_handler server b.events l) in
    if b.at_test == sx_status_should_terminate
    then (l, finishes)
    else if failed b.n_ev_changes
    then (l, gives_up)
    else rest
