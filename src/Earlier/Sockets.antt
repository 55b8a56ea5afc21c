-- ===== src/Earlier/Sockets.antt =====
-- The sockets of Examples/HTTP-proxy/SXSocket.c: creation, connecting, sending, listening and the
-- switch between blocking and not blocking.
use spartan_x.Prelude.{
  ℕ, Bool, true, false, Option, none, some, List, ◌==◌, if◌then◌else◌, ℤ, pos, negsuc, Outcome,
  crash, done,
}
use spartan_x.Status.{
  SxError, sx_success, sx_error_invalid_ipaddr, sx_error_sys_socket, sx_error_sys_bind,
  sx_error_sys_listen, sx_error_sys_connect, sx_error_sys_send, sx_error_sys_setsockopt,
}
use spartan_x.Socket.{
  Net, ErrCell, SockAddr, zero_addr, af_inet, af_inet6, so_reuseaddr, sizeof_sockaddr_in,
  sizeof_sockaddr_in6, failed, htons, err_ret, err_ret_if,
}
use spartan_x.Socket.Client.{parsed}
use spartan_x.Earlier.{SharedSocket}

-- The socket with the fields that both constructors set.
abbrev pub fresh_socket : ℤ → ℕ → ℕ → ℕ → SharedSocket
fresh_socket fd domain type protocol = record {
  sockfd = fd;
  protocol = protocol;
  domain = domain;
  type = type;
  port = 0;
  blocking = false;
  addr = zero_addr;
  ref_count = 1;
}

abbrev pub address : (len family port ip : ℕ) → SockAddr
address len family port ip = record { len = len; family = family; port = port; ip = ip }

-- `SXCreateServerSocket` behind its `switch`.
unfoldable pub bind_server : Net → SharedSocket → ℕ → ErrCell → Option SharedSocket × ErrCell
bind_server net sock addrlen cell =
    let cell =
      err_ret_if (failed (net.setsockopt sock.sockfd so_reuseaddr)) cell sx_error_sys_setsockopt in
    let cell =
      err_ret_if (failed (net.bind sock.sockfd sock.addr addrlen)) cell sx_error_sys_bind in
    (some sock, err_ret cell sx_success)

unfoldable pub create_server_socket :
    Net → ℕ → ℕ → ℕ → ℕ → ErrCell → Outcome (Option SharedSocket × ErrCell)
create_server_socket net port domain type protocol cell =
    if net.calloc_ok
    then (let fd = net.socket domain type protocol in
        let sock = record (fresh_socket fd domain type protocol) { port = port } in
        let cell = err_ret_if (failed fd) cell sx_error_sys_socket in
        if domain == af_inet
        then done (
            bind_server net
              (record sock { addr = address sizeof_sockaddr_in domain (htons port) 0 })
              sizeof_sockaddr_in cell)
        else if domain == af_inet6
        then done (
            bind_server net
              (record sock { addr = address sizeof_sockaddr_in6 domain (htons port) 0 })
              sizeof_sockaddr_in6 cell)
        else done (none, err_ret cell sx_error_invalid_ipaddr))
    else crash

unfoldable pub create_client_socket :
    Net → List ℕ → ℕ → ℕ → ℕ → ℕ → ErrCell → Outcome (Option SharedSocket × ErrCell)
create_client_socket net ipaddr port domain type protocol cell =
    if net.calloc_ok
    then (let fd = net.socket domain type protocol in
        let sock = fresh_socket fd domain type protocol in
        let cell = err_ret_if (failed fd) cell sx_error_sys_socket in
        if domain == af_inet
        then done (
          some (record sock {
            addr = address sizeof_sockaddr_in domain (htons port) (parsed net af_inet ipaddr);
          }),
          err_ret cell sx_success,
        )
        else if domain == af_inet6
        then done (
          some (record sock {
            addr = address sizeof_sockaddr_in6 domain (htons port) (parsed net af_inet6 ipaddr);
          }),
          err_ret cell sx_success,
        )
        else done (none, err_ret cell sx_error_invalid_ipaddr))
    else crash

abbrev pub sx_error_sys_fcntl : SxError
sx_error_sys_fcntl = negsuc 20

abbrev pub is_negative : ℤ → Bool
is_negative (pos n) = false
is_negative (negsuc n) = true

-- `fcntl` to get the flags of a descriptor, and to set them with `O_NONBLOCK` removed (`true`) or added.
unfoldable pub set_block :
    (getfl : ℤ → ℤ) (setfl : ℤ → Bool → ℤ → ℤ) → SharedSocket → Bool → SharedSocket × SxError
set_block getfl setfl sock block =
    if is_negative (getfl sock.sockfd)
    then (sock, sx_error_sys_fcntl)
    else if is_negative (setfl sock.sockfd block (getfl sock.sockfd))
    then (sock, sx_error_sys_fcntl)
    else (record sock { blocking = block }, sx_success)

unfoldable pub socket_connect : Net → SharedSocket → SxError
socket_connect net sock =
    let addrlen = if sock.domain == af_inet6 then sizeof_sockaddr_in6 else sizeof_sockaddr_in in
    if failed (net.connect sock.sockfd sock.addr addrlen) then sx_error_sys_connect else sx_success

unfoldable pub socket_send : Net → SharedSocket → ℕ → SxError
socket_send net target length =
    if failed (net.send target.sockfd length) then sx_error_sys_send else sx_success

unfoldable pub socket_listen : Net → SharedSocket → SxError
socket_listen net sock =
    if failed (net.listen sock.sockfd 10) then sx_error_sys_listen else sx_success
