-- ===== src/Client.antt =====
-- A client, src/SXClient.c and `sx_client_t` of src/SXClient.h: its creation, its start, and the loop
-- that `SXStartClient` dispatches. A round of the loop is a function of what its environment answers.
pub mod Looping
pub mod Starting
pub mod Witness
use spartan_x.Prelude.{
  ℕ, Bool, true, false, ◌||◌, Option, none, some, List, [], ◌∷◌, ◌++◌, ℤ, ◌==◌, if◌then◌else◌,
  size_max, size_of_int, Outcome, crash, done, ◌>>=◌,
}
use spartan_x.Status.{
  SxError, SxStatus, sx_success, succeeded, sx_status_idle, sx_status_running, sx_status_resuming,
  sx_status_suspend, sx_status_should_terminate,
}
use spartan_x.Object
use spartan_x.Object.{Released, kept, deallocates, free_client}
use spartan_x.Socket.{Socket, Net, ErrCell, socket_connect}
use spartan_x.Socket.Client.{create_client_socket, create_client_socket_by_hostname}
use spartan_x.Socket.Dns.{Resolver}
use spartan_x.Runtime.{RuntimeObject, zeroed, Block, Handlers, runtime_obj_init}
use spartan_x.Loop
use spartan_x.Loop.{Turn, goes_on, exits, State}

pub data ClientType : Type 0 where
  use_hostname use_ipaddr : ClientType

pub record Client : Type 0 where
  pub runtime : RuntimeObject
  pub open runtime use *
  pub type : ClientType
  pub priority : ℕ
  pub buf_size : ℕ

-- Both creators store the socket and the buffer size alike, and both write the same type.
abbrev pub with_sock : ℕ → ℤ → Option Socket → Client
with_sock priority buf_size sock = record {
  runtime = record (runtime_obj_init zeroed free_client) {
    sock = sock;
    data_size = size_of_int buf_size;
  };
  type = use_hostname;
  priority = priority;
  buf_size = size_of_int buf_size;
}

abbrev pub attach : ℕ → ℤ → Option Socket × ErrCell → Outcome (Client × ErrCell)
attach priority buf_size (sock, cell) = done (with_sock priority buf_size sock, cell)

unfoldable pub create_client_with_hostname :
    Net → Resolver → List ℕ → List ℕ → ℕ → ℤ → ℕ → ErrCell → Outcome (Client × ErrCell)
unfolding runtime_obj_init
create_client_with_hostname net res hostname service hint buf_size priority cell =
    if net.calloc_ok
    then (create_client_socket_by_hostname net res hostname service hint cell
        >>= attach priority buf_size)
    else crash

unfoldable pub create_client_with_ip :
    Net → List ℕ → ℕ → ℕ → ℕ → ℕ → ℤ → ℕ → ErrCell → Outcome (Client × ErrCell)
unfolding runtime_obj_init
create_client_with_ip net ip port sock_domain sock_type sock_protocol buf_size priority cell =
    if net.calloc_ok
    then (create_client_socket net ip port sock_domain sock_type sock_protocol cell
        >>= attach priority buf_size)
    else crash

-- `SXFreeClient`: the release of the socket; the buffer and the client are given back.
unfoldable pub free_client_ref : Client → Outcome (Released Object.Object)
free_client_ref client = elim client.sock [ none ↦ crash | some sock ↦ Object.release sock.obj ]

-- `killClient` passes the client where a socket is expected: an empty message is sent on the descriptor
-- that the client's memory seems to hold, `misread`. The client, and the messages by descriptor and
-- length.
unfoldable pub kill_client : ℤ → Client → Client × List (ℤ × ℕ)
kill_client misread client = (client, (misread, 0) ∷ [])

-- `SXStartClient` up to the dispatch of the loop. A null socket is read through.
unfoldable pub start_client : Net → Client → Outcome SxError
start_client net client = elim client.sock [
  | none ↦ crash
  | some sock ↦ done (socket_connect net sock)
]

-- What the loop does that others can see.
pub data Event : Type 0 where
  receives calls_did_resume calls_will_suspend : Event
  calls_data_handler : ℕ → Event
  releases_sock calls_did_disconnect releases_client : Event

-- Statuses are those that others store before the round and while it waits in `recv`; `received` and
-- `answer` are `size_t`.
pub record Round : Type 0 where
  pub stored : Option SxStatus
  pub received : ℕ
  pub stored_meanwhile : Option SxStatus
  pub answer : ℕ

pub record Conn : Type 0 where
  pub status : SxStatus
  pub suspended : Bool
  pub s : ℕ

abbrev pub get_or : Option SxStatus → SxStatus → SxStatus
get_or none status = status
get_or (some stored) status = stored

-- `if (client->…_block != NULL) client->…_block(…)`.
abbrev pub eval_if_exist : Option Block → Event → List Event
eval_if_exist none e = []
eval_if_exist (some _) e = e ∷ []

-- `while (s > 0)`.
abbrev pub loop_test : Conn → List Event → Turn Conn Event
loop_test c events = if c.s == 0 then exits events else goes_on c events

-- The call of the data handler, if there is one, with the length `s`.
unfoldable pub handle : Handlers → Round → Conn → List Event → Turn Conn Event
handle hs r c events = elim hs.data_handler [
  | none ↦ loop_test c events
  | some _ ↦ loop_test (record c { s = r.answer }) (events ++ calls_data_handler c.s ∷ [])
]

unfoldable pub round_running : Handlers → Round → Conn → Turn Conn Event
unfolding handle
round_running hs r c =
    if r.received == size_max
    then exits (receives ∷ [])
    else handle hs r (record c { s = r.received }) (receives ∷ [])

unfoldable pub round_resuming : Handlers → Conn → Turn Conn Event
round_resuming hs c =
    loop_test (record c { status = sx_status_running })
      (eval_if_exist hs.did_resume calls_did_resume)

-- The inner `switch`: the length that arrived stays in a variable of its own.
unfoldable pub deliver_suspended : Handlers → Round → Conn → List Event → Turn Conn Event
unfolding handle
deliver_suspended hs r c events =
    if c.status == sx_status_should_terminate || c.status == sx_status_idle
    then exits events
    else if c.status == sx_status_resuming || c.status == sx_status_running
    then handle hs r c events
    else loop_test c events

unfoldable pub round_suspend : Handlers → Round → Conn → Turn Conn Event
unfolding deliver_suspended
round_suspend hs r c =
    let first : List Event =
      if c.suspended then [] else eval_if_exist hs.will_suspend calls_will_suspend in
    let events = first ++ receives ∷ [] in
    if r.received == 0 || r.received == size_max
    then exits events
    else deliver_suspended hs r
        (record c { status = get_or r.stored_meanwhile c.status; suspended = true }) events

unfoldable pub dispatch : Handlers → Round → Conn → Turn Conn Event
unfolding round_running round_resuming round_suspend
dispatch hs r c =
    if c.status == sx_status_running
    then round_running hs r c
    else if c.status == sx_status_resuming
    then round_resuming hs c
    else if c.status == sx_status_suspend
    then round_suspend hs r c
    else loop_test c []

unfoldable pub round : Handlers → Round → Conn → Turn Conn Event
unfolding dispatch
round hs r c = dispatch hs r (record c { status = get_or r.stored c.status })

-- What `SXRelease(client)` does to the socket: the last owner deallocates the client, and `SXFreeClient`
-- releases the socket.
abbrev pub freed : Outcome (Released Object.Object) → List Event
freed crash = []
freed (done (kept left)) = []
freed (done (deallocates d left)) = releases_sock ∷ []

-- The label `exit`, for the client's object.
abbrev pub epilogue : Handlers → Object.Object → List Event
epilogue hs obj =
    releases_sock ∷ eval_if_exist hs.did_disconnect calls_did_disconnect
    ++ releases_client ∷ freed (Object.release obj)

unfoldable pub run : Handlers → Object.Object → List Round → Conn → State Conn × List Event
unfolding Loop.run
run hs obj = Loop.run (round hs) (epilogue hs obj)

abbrev pub start : Conn
start = record { status = sx_status_running; suspended = false; s = 0 }
