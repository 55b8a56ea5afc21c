-- ===== src/Earlier.antt =====
-- The earlier copy of the library in Examples/HTTP-proxy. This file has its shared sockets and its
-- connections, of SXSocket.c and SXQueue.c, where a socket and a connection count their owners
-- themselves; the children have its other parts.
pub mod Scope
pub mod Sockets
pub mod Client
pub mod Starting
pub mod Receiving
pub mod Server
pub mod Launch
pub mod Creation
pub mod Serving
pub mod Closing
pub mod Clients
pub mod Servers
pub mod Same
pub mod Kqueue
pub mod Owned
pub mod Refinement
pub mod Descriptors
pub mod Witness
use spartan_x.Prelude.{
  ℕ, suc, ◌+◌, ◌-◌, ◌%◌, Bool, true, false, Option, none, some, List, [], ◌∷◌, ℤ, pos, negsuc,
  u32_mod, ◌==◌, if◌then◌else◌, Outcome, crash, done, ◌>>=◌,
}
use spartan_x.Status.{
  SxError, SxStatus, sx_success, sx_error_invalid_server, succeeded, sx_status_idle,
  sx_status_running, sx_status_resuming, sx_status_suspend, check_status, check_compatible_status,
}
use spartan_x.Socket.{SockAddr}
use spartan_x.Runtime.{Block}

pub record SharedSocket : Type 0 where
  pub sockfd : ℤ
  pub protocol : ℕ
  pub domain : ℕ
  pub type : ℕ
  pub port : ℕ
  pub blocking : Bool
  pub addr : SockAddr
  pub ref_count : ℕ

abbrev pub sx_weak_count : ℕ
sx_weak_count = 410

-- `++` and `--` on an `unsigned int`.
abbrev pub up : ℕ → ℕ
up n = (n + 1) % u32_mod

abbrev pub down : ℕ → ℕ
down n = (n + u32_mod - 1) % u32_mod

unfoldable pub retain_socket : SharedSocket → SharedSocket
retain_socket socket =
    if socket.ref_count == sx_weak_count
    then socket
    else record socket { ref_count = up socket.ref_count }

-- What is left of the socket, and the descriptors that are closed.
unfoldable pub release_socket : SharedSocket → Option SharedSocket × List ℤ
release_socket socket =
    if socket.ref_count == sx_weak_count
    then (some socket, [])
    else (let left = record socket { ref_count = down socket.ref_count } in
        if left.ref_count == 0 then (none, left.sockfd ∷ []) else (some left, []))

-- The handlers that a server passes on to its connections, as blocks or as function pointers.
pub record HandlerSet : Type 0 where
  pub did_connect : Option Block
  pub data_handler : Option Block
  pub did_disconnect : Option Block
  pub will_suspend : Option Block
  pub did_resume : Option Block
  pub will_kill : Option Block

abbrev pub no_handler_set : HandlerSet
no_handler_set = record {
  did_connect = none;
  data_handler = none;
  did_disconnect = none;
  will_suspend = none;
  did_resume = none;
  will_kill = none;
}

pub record Queue : Type 0 where
  pub gcd_queue : Option ℕ
  pub sock : Option SharedSocket
  pub status : SxStatus
  pub blocks : HandlerSet
  pub fptrs : HandlerSet
  pub ref_count : ℕ

-- The memory of a connection as `calloc` returns it, with its first owner.
abbrev pub fresh_queue : Option SharedSocket → Option ℕ → Queue
fresh_queue sock gcd_queue = record {
  gcd_queue = gcd_queue;
  sock = sock;
  status = sx_status_idle;
  blocks = no_handler_set;
  fptrs = no_handler_set;
  ref_count = 1;
}

-- What is left of the socket and of the connection, and the descriptors that are closed.
pub record Left : Type 0 where
  pub queue : Option Queue
  pub sock : Option SharedSocket
  pub closed : List ℤ

-- The socket of a connection is released through the pointer that it holds.
unfoldable pub free_queue : Queue → Outcome Left
unfolding release_socket
free_queue queue = elim queue.sock [
  | none ↦ crash
  | some sock ↦
      let (left, closed) = release_socket sock in
      done (record { queue = none; sock = left; closed = closed })
]

unfoldable pub retain_queue : Queue → Queue
retain_queue queue =
    if queue.ref_count == sx_weak_count
    then queue
    else record queue { ref_count = up queue.ref_count }

unfoldable pub release_queue : Queue → Outcome Left
unfolding free_queue
release_queue queue =
    if queue.ref_count == sx_weak_count
    then done (record { queue = some queue; sock = queue.sock; closed = [] })
    else (let left = record queue { ref_count = down queue.ref_count } in
        if left.ref_count == 0
        then free_queue left
        else done (record { queue = some left; sock = left.sock; closed = [] }))

-- For a null socket, an error is stored through `err_ret`, which is not checked, and the connection is
-- released, which releases the socket that it does not have.
unfoldable pub create_queue : Option SharedSocket → Option ℕ → Bool → Outcome (Option Queue)
unfolding release_queue
create_queue none gcd_queue has_err_ret =
    if has_err_ret then (release_queue (fresh_queue none gcd_queue) >>= λ _. done none) else crash
create_queue (some sock) gcd_queue has_err_ret = done (some (fresh_queue (some sock) gcd_queue))

unfoldable pub suspend_queue : Option Queue → Option Queue × SxError
suspend_queue none = (none, sx_error_invalid_server)
suspend_queue (some queue) =
    let err = check_compatible_status queue.status (sx_status_idle ∷ sx_status_running ∷ []) in
    if succeeded err
    then (some (record queue { status = sx_status_suspend }), sx_success)
    else (some queue, err)

unfoldable pub resume_queue : Option Queue → Option Queue × SxError
resume_queue none = (none, sx_error_invalid_server)
resume_queue (some queue) =
    let err = check_status queue.status sx_status_suspend in
    if succeeded err
    then (some (record queue { status = sx_status_resuming }), sx_success)
    else (some queue, err)
