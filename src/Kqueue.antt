-- ===== src/Kqueue.antt =====
-- The event loop, `SXServerStart_kqueue` in src/SXServer.c. Each event of a list that `kevent` returned
-- is handled by a function of what its environment answers. The local variables `s` and `suspended`
-- are not initialised, so what they hold is part of that environment.
pub mod Waiting
pub mod Registered
pub mod Suspending
pub mod Witness
use spartan_x.Prelude.{
  ℕ, zero, suc, ◌+◌, ◌%◌, Bool, true, false, ◌||◌, Option, none, some, List, [], ◌∷◌, ◌++◌, ℤ, leb,
  ◌==◌, if◌then◌else◌, size_max, u64_mod, length, get_elem?, set, Outcome, crash, done, ◌>>=◌,
}
use spartan_x.Status.{
  SxError, SxStatus, sx_success, sx_error_server_cannot_be_dgram, sx_status_idle, sx_status_running,
  sx_status_resuming, sx_status_suspend, sx_status_should_terminate,
}
use spartan_x.Object
use spartan_x.Object.{Released, kept, deallocates}
use spartan_x.Socket.{failed, sock_dgram}
use spartan_x.Runtime.{Block, Handlers}
use spartan_x.Server.{Server}

-- The test before the loop is dispatched, the retain, and the release behind the dispatch; whether the
-- loop is dispatched is the last component.
unfoldable pub server_start_kqueue : Server → Outcome (Released Server × SxError × Bool)
server_start_kqueue server = elim server.sock [
  | none ↦ crash
  | some sock ↦
      if sock.type == sock_dgram
      then done (kept server, sx_error_server_cannot_be_dgram, false)
      else (Object.release (Object.retain server.runtime.obj) >>= λ r. (elim r [
        | kept obj ↦ done (
          kept (record server { runtime = record (server.runtime) { obj = obj } }),
          sx_success,
          true,
        )
        | deallocates d obj ↦ done (
          deallocates d (record server { runtime = record (server.runtime) { obj = obj } }),
          sx_success,
          true,
        )
      ]))
]

pub data Event : Type 0 where
  receives calls_did_resume calls_will_suspend calls_will_kill : Event
  calls_data_handler : ℕ → Event
  deregisters closes releases_queue calls_did_disconnect frees_slot : Event

-- What a connection's event meets; `received` and `answer` are `size_t`.
pub record Round : Type 0 where
  pub server_status : SxStatus
  pub stored : Option SxStatus
  pub received : ℕ
  pub stored_meanwhile : Option SxStatus
  pub answer : ℕ
  pub s_unset : ℕ
  pub suspended_unset : Bool

-- An event ends with the connection's status kept, at the label `exit`, or in a crash.
pub data Turn : Type 0 where
  continues : SxStatus → List Event → Turn
  exits : List Event → Turn
  crashes : List Event → Turn

abbrev pub get_or : Option SxStatus → SxStatus → SxStatus
get_or none status = status
get_or (some stored) status = stored

abbrev pub eval_if_exist : Option Block → Event → List Event
eval_if_exist none e = []
eval_if_exist (some _) e = e ∷ []

-- `if (s == 0) goto exit; continue;`.
abbrev pub finish : SxStatus → ℕ → List Event → Turn
finish status s events = if s == 0 then exits events else continues status events

unfoldable pub turn_running : Handlers → Round → SxStatus → Turn
turn_running hs r status =
    if r.received == size_max then exits (receives ∷ []) else (elim hs.data_handler [
      | none ↦ crashes (receives ∷ [])
      | some _ ↦
          let events : List Event = receives ∷ calls_data_handler r.received ∷ [] in
          if r.answer == size_max then exits events else finish status r.answer events
    ])

unfoldable pub turn_kill : Handlers → List Event → Turn
turn_kill hs events = exits (events ++ eval_if_exist hs.will_kill calls_will_kill)

-- The case of a suspended connection falls through to that of a terminating one.
unfoldable pub deliver_suspended : Handlers → Round → SxStatus → List Event → Turn
unfolding turn_kill
deliver_suspended hs r status events =
    if status == sx_status_should_terminate || status == sx_status_idle
    then exits events
    else if status == sx_status_resuming || status == sx_status_running
    then (elim hs.data_handler [
      | none ↦ crashes events
      | some _ ↦ turn_kill hs (events ++ calls_data_handler r.received ∷ [])
    ])
    else turn_kill hs events

unfoldable pub turn_suspend : Handlers → Round → SxStatus → Turn
unfolding deliver_suspended
turn_suspend hs r status =
    let first : List Event =
      if r.suspended_unset then [] else eval_if_exist hs.will_suspend calls_will_suspend in
    let events = first ++ receives ∷ [] in
    if r.received == 0 || r.received == size_max
    then exits events
    else deliver_suspended hs r (get_or r.stored_meanwhile status) events

unfoldable pub dispatch : Handlers → Round → SxStatus → Turn
unfolding turn_running turn_suspend turn_kill
dispatch hs r status =
    if status == sx_status_running
    then turn_running hs r status
    else if status == sx_status_resuming
    then finish sx_status_running r.s_unset (eval_if_exist hs.did_resume calls_did_resume)
    else if status == sx_status_suspend
    then turn_suspend hs r status
    else if status == sx_status_should_terminate || status == sx_status_idle
    then turn_kill hs []
    else finish status r.s_unset []

-- A server that is not running passes its status on.
abbrev pub settled : Round → SxStatus → SxStatus
settled r status =
    if r.server_status == sx_status_running then get_or r.stored status else r.server_status

unfoldable pub turn : Handlers → Round → SxStatus → Turn
unfolding dispatch
turn hs r status = dispatch hs r (settled r status)

-- The label `exit`: the connection is released before `didDisconnect` is called on it.
abbrev pub epilogue : Handlers → List Event
epilogue hs =
    deregisters ∷ closes ∷ releases_queue ∷ eval_if_exist hs.did_disconnect calls_did_disconnect
    ++ frees_slot ∷ []

-- The variable `count` of the loop, and the statuses of the connections that are registered.
pub record Loop : Type 0 where
  pub count : ℕ
  pub conns : List SxStatus
  pub crashed : Bool

abbrev pub empty : Loop
empty = record { count = 0; conns = []; crashed = false }

-- A `struct kevent`: the listening socket with what `accept` returns, or a connection.
pub data Kevent : Type 0 where
  listener : ℤ → Kevent
  connection : ℕ → Round → Kevent

abbrev pub erase : List SxStatus → ℕ → List SxStatus
erase [] i = []
erase (c ∷ conns) zero = conns
erase (c ∷ conns) (suc i) = c ∷ erase conns i

-- The listening socket is readable: a new connection is registered if there is room for it.
unfoldable pub accept_guest : Server → ℤ → Loop → Loop
accept_guest server fd l =
    if leb server.max_guest l.count
    then l
    else if failed fd
    then l
    else record l { count = (l.count + 1) % u64_mod; conns = l.conns ++ sx_status_running ∷ [] }

-- `--count` on a `size_t`.
unfoldable pub conclude : ℕ → Loop → Turn → Loop
conclude i l (continues status events) = record l { conns = set l.conns i status }
conclude i l (exits events) = record l {
  count = (l.count + size_max) % u64_mod;
  conns = erase l.conns i;
}
conclude i l (crashes events) = record l { crashed = true }

-- An event of a connection that is not registered does not arise.
unfoldable pub handle_connection : Server → ℕ → Round → Loop → Option SxStatus → Loop
unfolding conclude turn
handle_connection server i r l none = l
handle_connection server i r l (some status) = conclude i l (turn server.handlers r status)

unfoldable pub handle_event : Server → Kevent → Loop → Loop
unfolding accept_guest handle_connection
handle_event server (listener fd) l = accept_guest server fd l
handle_event server (connection i r) l = handle_connection server i r l (get_elem? l.conns i)

-- The events in their order, up to a crash.
unfoldable pub handle_events : Server → List Kevent → Loop → Loop
handle_events server [] l = l
handle_events server (e ∷ events) l =
    handle_events server events (if l.crashed then l else handle_event server e l)
