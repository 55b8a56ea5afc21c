-- ===== src/Socket.antt =====
-- Sockets, src/SXSocket.c and `sx_socket_t` of src/SXSocket.h. The system calls and `inet_pton` are
-- the parameter `Net`: a function for each, whose argument is what the code passes. Numbers of
-- address families, socket types and structure sizes are those of Darwin, where `sin_len` and
-- `SO_NOSIGPIPE` exist. A returned -1 is `failed`, and `errno` and `perror` have no counterpart.
pub mod Dns
pub mod Client
pub mod Opening
pub mod Lookup
pub mod Witness
use spartan_x.Prelude.{
  ℕ, ◌+◌, ◌*◌, ◌/◌, ◌%◌, Bool, true, false, Option, none, some, List, ℤ, pos, negsuc, ◌==◌, ◌==ℤ◌,
  if◌then◌else◌, Outcome, crash, done, u16_mod,
}
use spartan_x.Status.{
  SxError, sx_success, sx_error_mem_alloc, sx_error_invalid_ipaddr, sx_error_sys_socket,
  sx_error_sys_setsockopt, sx_error_sys_bind, sx_error_sys_connect, sx_error_sys_send,
  sx_error_sys_listen,
}
use spartan_x.Object.{Object, free_socket, obj_init}

abbrev pub af_unspec : ℕ
af_unspec = 0

abbrev pub af_inet : ℕ
af_inet = 2

abbrev pub af_inet6 : ℕ
af_inet6 = 30

abbrev pub sock_stream : ℕ
sock_stream = 1

abbrev pub sock_dgram : ℕ
sock_dgram = 2

abbrev pub so_reuseaddr : ℕ
so_reuseaddr = 4

abbrev pub so_nosigpipe : ℕ
so_nosigpipe = 4130

abbrev pub sizeof_sockaddr_in : ℕ
sizeof_sockaddr_in = 16

abbrev pub sizeof_sockaddr_in6 : ℕ
sizeof_sockaddr_in6 = 28

-- The fields of a `sockaddr_storage` that the program writes. The port is in network order.
pub record SockAddr : Type 0 where
  pub len : ℕ
  pub family : ℕ
  pub port : ℕ
  pub ip : ℕ

abbrev pub zero_addr : SockAddr
zero_addr = record { len = 0; family = 0; port = 0; ip = 0 }

pub record Socket : Type 0 where
  pub obj : Object
  pub sockfd : ℤ
  pub protocol : ℕ
  pub domain : ℕ
  pub type : ℕ
  pub port : ℕ
  pub addr : SockAddr

-- What `calloc` hands out.
abbrev pub zeroed : Socket
zeroed = record {
  obj = record { ref_count = pos 0; dealloc = none };
  sockfd = pos 0;
  protocol = 0;
  domain = 0;
  type = 0;
  port = 0;
  addr = zero_addr;
}

pub record Net : Type 0 where
  pub calloc_ok : Bool
  pub socket : ℕ → ℕ → ℕ → ℤ
  pub setsockopt : ℤ → ℕ → ℤ
  pub bind : ℤ → SockAddr → ℕ → ℤ
  pub listen : ℤ → ℕ → ℤ
  pub connect : ℤ → SockAddr → ℕ → ℤ
  pub send : ℤ → ℕ → ℤ
  pub inet_pton : ℕ → List ℕ → Option ℕ

abbrev pub failed : ℤ → Bool
failed r = r ==ℤ negsuc 0

-- `htons` on a little-endian machine.
unfoldable pub htons : ℕ → ℕ
htons p = p % 256 * 256 + p / 256 % 256

-- The cell behind `err_ret`; `none` is a null pointer.
abbrev pub ErrCell : Type 0
ErrCell = Option SxError

-- The macro `ERR_RET`, which stores a code and goes on.
unfoldable pub err_ret : ErrCell → SxError → ErrCell
err_ret none e = none
err_ret (some _) e = some e

unfoldable pub err_ret_if : Bool → ErrCell → SxError → ErrCell
unfolding err_ret
err_ret_if b cell e = if b then err_ret cell e else cell

-- The two options and the `bind` of `SXCreateServerSocket`, with its last statements.
unfoldable pub bind_server : Net → Socket → ℕ → ErrCell → Option Socket × ErrCell
bind_server net sock addrlen cell =
    let bound = record sock {
      addr = record {
        len = sock.addr.len;
        family = sock.domain;
        port = sock.addr.port;
        ip = sock.addr.ip;
      };
    } in
    let cell =
      err_ret_if (failed (net.setsockopt bound.sockfd so_reuseaddr)) cell sx_error_sys_setsockopt in
    let cell =
      err_ret_if (failed (net.setsockopt bound.sockfd so_nosigpipe)) cell sx_error_sys_setsockopt in
    let cell =
      err_ret_if (failed (net.bind bound.sockfd bound.addr addrlen)) cell sx_error_sys_bind in
    (some bound, err_ret cell sx_success)

-- `SXCreateServerSocket`: the socket or null, and the cell behind `err_ret`. A failed `calloc` is
-- reported and then written through.
unfoldable pub create_server_socket :
    Net → ℕ → ℕ → ℕ → ℕ → ErrCell → Outcome (Option Socket × ErrCell)
unfolding obj_init
create_server_socket net port domain type protocol cell =
    if net.calloc_ok
    then (let fd = net.socket domain type protocol in
        let sock = record zeroed {
          obj = obj_init zeroed.obj free_socket;
          sockfd = fd;
          protocol = protocol;
          domain = domain;
          type = type;
          port = port;
        } in
        let cell = err_ret_if (failed fd) cell sx_error_sys_socket in
        if domain == af_inet
        then done (
            bind_server net
              (record sock {
                addr = record { len = sizeof_sockaddr_in; family = 0; port = htons port; ip = 0 };
              })
              sizeof_sockaddr_in cell)
        else if domain == af_inet6
        then done (
            bind_server net
              (record sock {
                addr = record { len = sizeof_sockaddr_in6; family = 0; port = htons port; ip = 0 };
              })
              sizeof_sockaddr_in6 cell)
        else done (none, err_ret cell sx_error_invalid_ipaddr))
    else crash

-- `SXSocketConnect`, `SXSocketSend` and `SXSocketListen`.
unfoldable pub socket_connect : Net → Socket → SxError
socket_connect net sock =
    let addrlen = if sock.domain == af_inet6 then sizeof_sockaddr_in6 else sizeof_sockaddr_in in
    if failed (net.connect sock.sockfd sock.addr addrlen) then sx_error_sys_connect else sx_success

unfoldable pub socket_send : Net → Socket → ℕ → SxError
socket_send net target length =
    if failed (net.send target.sockfd length) then sx_error_sys_send else sx_success

unfoldable pub socket_listen : Net → Socket → SxError
socket_listen net sock =
    if failed (net.listen sock.sockfd 10) then sx_error_sys_listen else sx_success

-- `SXFreeSocket`: the descriptor that it closes, and its result. The memory of the socket is given
-- back, so no socket is returned.
unfoldable pub free_socket_ref : Socket → ℤ × SxError
free_socket_ref sock = (sock.sockfd, sx_success)
