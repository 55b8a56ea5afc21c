-- ===== src/Client/Starting.antt =====
-- Which clients can be started.
use spartan_x.Prelude.{
  ℕ, Option, ◌≡◌, true, none, some, List, ℤ, arith, crash, done, ◌⊎◌, Outcome, ◌>>=◌,
}
use spartan_x.Status.{sx_success}
use spartan_x.Socket.{Socket, Net, ErrCell, err_ret, af_inet, af_inet6}
use spartan_x.Socket.Client.{create_client_socket_by_hostname}
use spartan_x.Socket.Dns.{Resolver}
use spartan_x.Socket.Opening.{
  NoSocket, connecting, create_client_socket-connecting, create_client_socket_by_hostname-none,
}
use spartan_x.Client.{
  Client, with_sock, attach, create_client_with_hostname, create_client_with_ip, start_client,
}

start-attach :
    (net : Net) (buf_size : ℤ) (priority : ℕ) (r : Outcome (Option Socket × ErrCell))
    {client : Client} {c : ErrCell}
    → NoSocket r
    → (r >>= attach priority buf_size) ≡ done (client, c)
    → start_client net client ≡ crash
unfolding start_client
start-attach net buf_size priority crash n e = cc
start-attach net buf_size priority (done (none, cell)) n e = ground arith
start-attach net buf_size priority (done (some sock, cell)) n e = ground arith

-- A client that was created with a host name crashes when it is started.
pub start_client-hostname :
    (net : Net) (res : Resolver) (hostname service : List ℕ) (hint : ℕ) (buf_size : ℤ)
    (priority : ℕ) (cell : ErrCell) {client : Client} {c : ErrCell}
    → net.calloc_ok ≡ true
    → create_client_with_hostname net res hostname service hint buf_size priority cell
      ≡ done (client, c)
    → start_client net client ≡ crash
unfolding create_client_with_hostname
start_client-hostname net res hostname service hint buf_size priority cell ok e =
    start-attach net buf_size priority
      (create_client_socket_by_hostname net res hostname service hint cell)
      (create_client_socket_by_hostname-none net res hostname service hint cell) (simp ok at e)

-- With memory at hand, a client for an IPv4 or IPv6 address has a socket for that address and port
-- and the buffer size as its data size.
pub create_client_with_ip-connecting :
    (net : Net) (ip : List ℕ) (port domain type protocol : ℕ) (buf_size : ℤ) (priority : ℕ)
    (cell : ErrCell)
    → net.calloc_ok ≡ true
    → (domain ≡ af_inet) ⊎ (domain ≡ af_inet6)
    → create_client_with_ip net ip port domain type protocol buf_size priority cell
      ≡ done (
        with_sock priority buf_size (some (connecting net ip port domain type protocol)),
        err_ret cell sx_success,
      )
unfolding create_client_with_ip
create_client_with_ip-connecting net ip port domain type protocol buf_size priority cell ok h =
    simp (ok, create_client_socket-connecting net ip port domain type protocol cell ok h)
