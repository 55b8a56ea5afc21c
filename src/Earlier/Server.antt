-- ===== src/Earlier/Server.antt =====
-- The servers of Examples/HTTP-proxy/SXServer.c: creation, owners, and the control functions. A server
-- counts its owners itself, and each handler is a block or a function pointer.
use spartan_x.Prelude.{
  ℕ, ◌%◌, Bool, false, Option, none, some, List, [], ◌∷◌, ◌++◌, ◌==◌, if◌then◌else◌, ℤ, u16_mod,
  Outcome, crash, done, ◌>>=◌,
}
use spartan_x.Status.{
  SxError, SxStatus, sx_success, sx_error_invalid_server, succeeded, sx_status_idle,
  sx_status_running, sx_status_resuming, sx_status_suspend, sx_status_should_terminate,
  check_status, check_compatible_status, check_incompatible_status,
}
use spartan_x.Runtime.{Block}
use spartan_x.Socket.{Net, ErrCell, err_ret, af_inet, af_inet6, sock_stream}
use spartan_x.Server.{Setup}
use spartan_x.Earlier.{SharedSocket, HandlerSet, no_handler_set, sx_weak_count, up, down}
use spartan_x.Earlier.Sockets.{create_server_socket}

-- The handlers of the server itself, as blocks or as function pointers.
pub record StatusHandlers : Type 0 where
  pub did_start : Option Block
  pub should_connect : Option Block
  pub did_kill : Option Block

pub record Server : Type 0 where
  pub socket : Option SharedSocket
  pub status_blocks : StatusHandlers
  pub status_fptrs : StatusHandlers
  pub blocks : HandlerSet
  pub fptrs : HandlerSet
  pub data_size : ℕ
  pub backlog : ℕ
  pub max_guest : ℕ
  pub failable : Bool
  pub status : SxStatus
  pub ref_count : ℕ

abbrev pub blank : Server
blank = record {
  socket = none;
  status_blocks = record { did_start = none; should_connect = none; did_kill = none };
  status_fptrs = record { did_start = none; should_connect = none; did_kill = none };
  blocks = no_handler_set;
  fptrs = no_handler_set;
  data_size = 0;
  backlog = 0;
  max_guest = 0;
  failable = false;
  status = sx_status_idle;
  ref_count = 0;
}

-- A pointer to a server, or one to memory that was given back.
pub data ServerRef : Type 0 where
  live : Server → ServerRef
  dangling : ServerRef

-- The tail of both constructors, from the test of `tmp_err` on, for a server that has its message
-- handler.
unfoldable pub finish_server :
    Setup → ErrCell → Server → Option SharedSocket × ErrCell → Outcome (ServerRef × ErrCell)
finish_server setup cell handled (sock, none) = crash
finish_server setup cell handled (sock, some tmp_err) =
    if succeeded tmp_err
    then done (
      live (record handled {
        socket = sock;
        ref_count = 1;
        backlog = setup.backlog;
        data_size = setup.data_size;
        max_guest = setup.max_guest;
        failable = setup.failable;
      }),
      err_ret cell sx_success,
    )
    else done (dangling, err_ret cell tmp_err)

-- `unset` is what the uninitialised `tmp_err` holds.
unfoldable pub create_server :
    Net → SxError → Setup → ErrCell → Option Block → Outcome (ServerRef × ErrCell)
unfolding finish_server
create_server net unset setup cell msg_handl =
    if net.calloc_ok
    then (let family = if setup.domain == 1 then af_inet else af_inet6 in
        let handled = record blank {
          blocks = record (blank.blocks) { data_handler = msg_handl };
        } in
        create_server_socket net (setup.port % u16_mod) family sock_stream 0 (some unset)
        >>= finish_server setup cell handled)
    else crash

-- `SXCreateServer_f`, for a function pointer.
unfoldable pub create_server_f :
    Net → SxError → Setup → ErrCell → Option Block → Outcome (ServerRef × ErrCell)
unfolding finish_server
create_server_f net unset setup cell msg_handl =
    if net.calloc_ok
    then (let family = if setup.domain == 1 then af_inet else af_inet6 in
        let handled = record blank { fptrs = record (blank.fptrs) { data_handler = msg_handl } } in
        create_server_socket net (setup.port % u16_mod) family sock_stream 0 (some unset)
        >>= finish_server setup cell handled)
    else crash

unfoldable pub retain_server : Server → Server
retain_server server =
    if server.ref_count == sx_weak_count
    then server
    else record server { ref_count = up server.ref_count }

unfoldable pub suspend_server : Option Server → Option Server × SxError
suspend_server none = (none, sx_error_invalid_server)
suspend_server (some server) =
    if server.ref_count == 0
    then (some server, sx_error_invalid_server)
    else (let err =
          check_compatible_status server.status (sx_status_idle ∷ sx_status_running ∷ []) in
        if succeeded err
        then (some (record server { status = sx_status_suspend }), sx_success)
        else (some server, err))

-- `SXResumeServer` on a server.
unfoldable pub resume_present : Server → Server × SxError
resume_present server =
    if server.ref_count == 0
    then (server, sx_error_invalid_server)
    else (let err = check_status server.status sx_status_suspend in
        if succeeded err
        then (record server { status = sx_status_resuming }, sx_success)
        else (server, err))

unfoldable pub resume_server : Option Server → Option Server × SxError
unfolding resume_present
resume_server none = (none, sx_error_invalid_server)
resume_server (some server) = let (server, err) = resume_present server in (some server, err)

-- What a call leaves of a server, the descriptors that it closes, and its result.
pub record Effect : Type 0 where
  pub server : Option Server
  pub closed : List ℤ
  pub err : SxError

-- The statements of `SXKillServer` that replace the socket.
unfoldable pub replace_socket : Net → Server → Option SharedSocket → Outcome Effect
replace_socket net server none = crash
replace_socket net server (some sock) =
    create_server_socket net (sock.port % u16_mod) sock.domain sock.type sock.protocol none
    >>= λ (new, _). done (record {
      server = some (record server { socket = new });
      closed = sock.sockfd ∷ [];
      err = sx_success;
    })

unfoldable pub kill_server : Net → Option Server → Outcome Effect
unfolding resume_present replace_socket
kill_server net none = done (record { server = none; closed = []; err = sx_error_invalid_server })
kill_server net (some server) =
    if server.ref_count == 0
    then done (record { server = some server; closed = []; err = sx_error_invalid_server })
    else (let server =
          if server.status == sx_status_suspend then (resume_present server).0 else server in
        let err = check_incompatible_status server.status (sx_status_should_terminate ∷ []) in
        if succeeded err
        then replace_socket net (record server { status = sx_status_should_terminate })
            server.socket
        else done (record { server = some server; closed = []; err = err }))

-- The end of `SXFreeServer`: the socket is freed, whoever else owns it.
unfoldable pub free_sock : List ℤ → Option Server → Outcome Effect
free_sock closed none = crash
free_sock closed (some server) = elim server.socket [
  | none ↦ crash
  | some sock ↦
      done (record { server = none; closed = closed ++ sock.sockfd ∷ []; err = sx_success })
]

unfoldable pub free_server : Net → Server → Outcome Effect
unfolding kill_server free_sock
free_server net server =
    if server.status == sx_status_idle
    then free_sock [] (some server)
    else kill_server net (some server) >>= λ e. free_sock e.closed e.server

unfoldable pub release_server : Net → Server → Outcome Effect
unfolding free_server
release_server net server =
    if server.ref_count == sx_weak_count
    then done (record { server = some server; closed = []; err = sx_success })
    else (let left = record server { ref_count = down server.ref_count } in
        if left.ref_count == 0
        then free_server net left
        else done (record { server = some left; closed = []; err = sx_success }))
