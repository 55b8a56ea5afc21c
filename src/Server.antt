-- ===== src/Server.antt =====
-- The life of a server, src/SXServer.c and `sx_server_t` of src/SXServer.h, up to the loops. A
-- server pointer is an `Option`; `closed` collects the descriptors that an operation closes.
pub mod Control
pub mod Creation
pub mod Witness
use spartan_x.Prelude.{
  ℕ, ◌%◌, Bool, true, false, not, Option, none, some, List, [], ◌∷◌, ◌++◌, ℤ, pos, ◌==◌,
  if◌then◌else◌, u16_mod, Outcome, crash, done, ◌>>=◌,
}
use spartan_x.Status.{
  SxError, SxStatus, sx_success, succeeded, sx_error_invalid_server, sx_error_create_thread,
  sx_error_server_cannot_be_dgram, sx_status_idle, sx_status_running, sx_status_resuming,
  sx_status_suspend, sx_status_should_terminate, check_status, check_compatible_status,
  check_incompatible_status,
}
use spartan_x.Object
use spartan_x.Object.{free_server, obj_init}
use spartan_x.Socket.{
  Socket, Net, ErrCell, err_ret, create_server_socket, free_socket_ref, af_inet, af_inet6,
  sock_stream, sock_dgram,
}
use spartan_x.Runtime.{RuntimeObject, zeroed, Block}

pub record Server : Type 0 where
  pub runtime : RuntimeObject
  pub open runtime use *
  pub did_start : Option Block
  pub should_connect : Option Block
  pub did_kill : Option Block
  pub backlog : ℕ
  pub max_guest : ℕ
  pub failable : Bool
  pub ref_count : ℕ

pub record Setup : Type 0 where
  pub domain : ℕ
  pub port : ℕ
  pub backlog : ℕ
  pub data_size : ℕ
  pub max_guest : ℕ
  pub failable : Bool

-- What `calloc` hands out.
abbrev pub blank : Server
blank = record {
  runtime = zeroed;
  did_start = none;
  should_connect = none;
  did_kill = none;
  backlog = 0;
  max_guest = 0;
  failable = false;
  ref_count = 0;
}

-- A pointer to a server, or one to memory that was given back.
pub data ServerRef : Type 0 where
  live : Server → ServerRef
  dangling : ServerRef

-- The tail of `SXCreateServer`, from the test of `tmp_err` on.
unfoldable pub finish_server :
    Setup
    → ErrCell
    → Option Block
    → Server
    → Option Socket × ErrCell
    → Outcome (ServerRef × ErrCell)
finish_server setup cell msg_handl server (sock, none) = crash
finish_server setup cell msg_handl server (sock, some tmp_err) =
    if succeeded tmp_err
    then done (
      live (record server {
        runtime = record (server.runtime) {
          sock = sock;
          data_size = setup.data_size;
          handlers = record (server.runtime.handlers) { data_handler = msg_handl };
        };
        backlog = setup.backlog;
        max_guest = setup.max_guest;
        failable = setup.failable;
      }),
      err_ret cell sx_success,
    )
    else done (dangling, err_ret cell tmp_err)

-- `SXCreateServer`; `unset` is what the uninitialised `tmp_err` holds.
unfoldable pub create_server :
    Net → SxError → Setup → ErrCell → Option Block → Outcome (ServerRef × ErrCell)
unfolding obj_init
create_server net unset setup cell msg_handl =
    if net.calloc_ok
    then (let server = record blank {
      runtime = record (blank.runtime) { obj = obj_init (blank.runtime.obj) free_server };
    } in
        let family = if setup.domain == 1 then af_inet else af_inet6 in
        create_server_socket net (setup.port % u16_mod) family sock_stream 0 (some unset)
        >>= finish_server setup cell msg_handl server)
    else crash

unfoldable pub set_block_did_start : Server → Option Block → Server
set_block_did_start server b = record server { did_start = b }

unfoldable pub set_block_should_connect : Server → Option Block → Server
set_block_should_connect server b = record server { should_connect = b }

unfoldable pub set_block_did_kill : Server → Option Block → Server
set_block_did_kill server b = record server { did_kill = b }

abbrev pub with_status : Server → SxStatus → Server
with_status server status = record server { runtime = record (server.runtime) { status = status } }

abbrev pub with_sock : Server → Option Socket → Server
with_sock server sock = record server { runtime = record (server.runtime) { sock = sock } }

unfoldable pub suspend_server : Option Server → Option Server × SxError
suspend_server none = (none, sx_error_invalid_server)
suspend_server (some server) =
    if server.ref_count == 0
    then (some server, sx_error_invalid_server)
    else (let err =
          check_compatible_status server.status (sx_status_idle ∷ sx_status_running ∷ []) in
        if succeeded err
        then (some (with_status server sx_status_suspend), sx_success)
        else (some server, err))

-- `SXResumeServer` on a server.
unfoldable pub resume_present : Server → Server × SxError
resume_present server =
    if server.ref_count == 0
    then (server, sx_error_invalid_server)
    else (let err = check_status server.status sx_status_suspend in
        if succeeded err
        then (with_status server sx_status_resuming, sx_success)
        else (server, err))

unfoldable pub resume_server : Option Server → Option Server × SxError
unfolding resume_present
resume_server none = (none, sx_error_invalid_server)
resume_server (some server) = let (server, err) = resume_present server in (some server, err)

pub record Effect : Type 0 where
  pub server : Option Server
  pub closed : List ℤ
  pub err : SxError

-- The statements of `SXKillServer` that replace the socket. The port is passed as an unsigned short.
unfoldable pub replace_sock : Net → Server → Option Socket → Outcome Effect
replace_sock net server none = crash
replace_sock net server (some sock) =
    create_server_socket net (sock.port % u16_mod) sock.domain sock.type sock.protocol none
    >>= λ (new, _). done (record {
      server = some (with_sock server new);
      closed = sock.sockfd ∷ [];
      err = sx_success;
    })

unfoldable pub kill_server : Net → Option Server → Outcome Effect
kill_server net none = done (record { server = none; closed = []; err = sx_error_invalid_server })
kill_server net (some server) =
    if server.ref_count == 0
    then done (record { server = some server; closed = []; err = sx_error_invalid_server })
    else (let server =
          if server.status == sx_status_suspend then (resume_present server).0 else server in
        let err = check_incompatible_status server.status (sx_status_should_terminate ∷ []) in
        if succeeded err
        then replace_sock net (with_status server sx_status_should_terminate) server.sock
        else done (record { server = some server; closed = []; err = err }))

-- The end of `SXFreeServer`: the socket is freed, and the memory of the server is given back.
unfoldable pub free_sock : List ℤ → Option Server → Outcome Effect
unfolding free_socket_ref
free_sock closed none = crash
free_sock closed (some server) = elim server.sock [
  | none ↦ crash
  | some sock ↦
      let (fd, err) = free_socket_ref sock in
      done (record { server = none; closed = closed ++ fd ∷ []; err = err })
]

unfoldable pub free_server_ref : Net → Server → Outcome Effect
unfolding free_sock
free_server_ref net server =
    if server.status == sx_status_idle
    then free_sock [] (some server)
    else kill_server net (some server) >>= λ e. free_sock e.closed e.server

-- The tests of `SXServerStart` and the retain before the loop is dispatched; the flags say whether
-- the two policies are given.
unfoldable pub server_start : Option Server → Bool → Bool → Outcome (Option Server × SxError)
server_start none preprocess operating = done (none, sx_error_invalid_server)
server_start (some server) preprocess operating =
    if not preprocess
    then done (some server, sx_error_create_thread)
    else if not operating
    then done (some server, sx_error_create_thread)
    else elim server.sock [
      | none ↦ crash
      | some sock ↦
          if sock.type == sock_dgram
          then done (some server, sx_error_server_cannot_be_dgram)
          else done (
            some (record server {
              runtime = record (server.runtime) { obj = Object.retain server.runtime.obj };
            }),
            sx_success,
          )
    ]

-- `SXServerStart1` and `SXServerStart2` pass blocks of their own.
unfoldable pub server_start1 : Option Server → Outcome (Option Server × SxError)
unfolding server_start
server_start1 server = server_start server true true

unfoldable pub server_start2 : Option Server → Outcome (Option Server × SxError)
unfolding server_start
server_start2 server = server_start server true true
