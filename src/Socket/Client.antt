-- ===== src/Socket/Client.antt =====
-- The client sockets of src/SXSocket.c.
use spartan_x.Prelude.{
  ℕ, Option, none, some, List, ◌==◌, if◌then◌else◌, Outcome, crash, done, ◌>>=◌,
}
use spartan_x.Status.{
  SxError, sx_success, sx_error_invalid_ipaddr, sx_error_sys_socket, sx_error_sys_setsockopt,
}
use spartan_x.Object.{free_socket, obj_init}
use spartan_x.Socket.{
  Socket, Net, ErrCell, err_ret, err_ret_if, zeroed, failed, htons, af_inet, af_inet6,
  sizeof_sockaddr_in, sizeof_sockaddr_in6, so_nosigpipe,
}
use spartan_x.Socket.Dns.{Resolver, dns_lookup}

-- What `inet_pton` leaves in an address that was zero; its result is ignored.
abbrev pub parsed : Net → ℕ → List ℕ → ℕ
parsed net family ipaddr = elim (net.inet_pton family ipaddr) [ none ↦ 0 | some ip ↦ ip ]

-- The statements of `SXCreateClientSocket` behind its `switch`.
unfoldable pub finish_client : Net → Socket → ErrCell → Option Socket × ErrCell
finish_client net sock cell =
    let cell =
      err_ret_if (failed (net.setsockopt sock.sockfd so_nosigpipe)) cell sx_error_sys_setsockopt in
    let named = record sock {
      addr = record {
        len = sock.addr.len;
        family = sock.domain;
        port = sock.addr.port;
        ip = sock.addr.ip;
      };
    } in
    (some named, err_ret cell sx_success)

unfoldable pub create_client_socket :
    Net → List ℕ → ℕ → ℕ → ℕ → ℕ → ErrCell → Outcome (Option Socket × ErrCell)
unfolding obj_init
create_client_socket net ipaddr port domain type protocol cell =
    if net.calloc_ok
    then (let fd = net.socket domain type protocol in
        let sock = record zeroed {
          obj = obj_init zeroed.obj free_socket;
          sockfd = fd;
          protocol = protocol;
          domain = domain;
          type = type;
        } in
        let cell = err_ret_if (failed fd) cell sx_error_sys_socket in
        if domain == af_inet
        then done (
            finish_client net
              (record sock {
                addr = record {
                  len = sizeof_sockaddr_in;
                  family = 0;
                  port = htons port;
                  ip = parsed net af_inet ipaddr;
                };
              })
              cell)
        else if domain == af_inet6
        then done (
            finish_client net
              (record sock {
                addr = record {
                  len = sizeof_sockaddr_in6;
                  family = 0;
                  port = htons port;
                  ip = parsed net af_inet6 ipaddr;
                };
              })
              cell)
        else done (none, err_ret cell sx_error_invalid_ipaddr))
    else crash

-- The statements of `SXCreateClientSocketByHostname` from the store through `err_ret`, which is not
-- checked, to `return SX_SUCCESS`, which is a null pointer.
unfoldable pub finish_by_hostname :
    Net → ErrCell → Socket × SxError → Outcome (Option Socket × ErrCell)
finish_by_hostname net none looked = crash
finish_by_hostname net (some _) (looked, err) =
    let fd = net.socket looked.domain looked.type looked.protocol in
    let cell = err_ret_if (failed fd) (some err) sx_error_sys_socket in
    let cell = err_ret_if (failed (net.setsockopt fd so_nosigpipe)) cell sx_error_sys_setsockopt in
    done (none, cell)

unfoldable pub create_client_socket_by_hostname :
    Net → Resolver → List ℕ → List ℕ → ℕ → ErrCell → Outcome (Option Socket × ErrCell)
unfolding obj_init
create_client_socket_by_hostname net res hostname service hint cell =
    if net.calloc_ok
    then dns_lookup res (record zeroed { obj = obj_init zeroed.obj free_socket }) hostname service
        hint
      >>= finish_by_hostname net cell
    else crash
