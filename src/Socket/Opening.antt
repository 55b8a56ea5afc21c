-- ===== src/Socket/Opening.antt =====
-- What opening a socket yields, and what it reports.
use spartan_x.Prelude.{
  ℕ, ◌<◌, ◌≡◌, refl, ◌≢◌, ◌⊎◌, inl, inr, Bool, true, false, Option, none, some, List, pos, arith,
  ◌==◌, ==-ne, Outcome, crash, done, ◌>>=◌, if◌then◌else◌, u16_mod,
}
use spartan_x.Status.{SxError, sx_success, sx_error_invalid_ipaddr}
use spartan_x.Object.{free_socket}
use spartan_x.Socket.{
  Socket, Net, ErrCell, err_ret, err_ret_if, htons, af_inet, af_inet6, sizeof_sockaddr_in,
  sizeof_sockaddr_in6, create_server_socket, bind_server,
}
use spartan_x.Socket.Client.{
  create_client_socket, finish_client, parsed, create_client_socket_by_hostname, finish_by_hostname,
}
use spartan_x.Socket.Dns.{Resolver, dns_lookup}

-- `htons` applied twice gives a 16-bit number back.
pub htons-htons : (p : ℕ) → p < u16_mod → htons (htons p) ≡ p
unfolding htons
htons-htons p h = omega arith

-- The socket of a server that asked for a port.
abbrev pub opened : Net → ℕ → ℕ → ℕ → ℕ → ℕ → Socket
opened net len port domain type protocol = record {
  obj = record { ref_count = pos 1; dealloc = some free_socket };
  sockfd = net.socket domain type protocol;
  protocol = protocol;
  domain = domain;
  type = type;
  port = port;
  addr = record { len = len; family = domain; port = htons port; ip = 0 };
}

abbrev pub addr_len : ℕ → ℕ
addr_len domain = elim (domain == af_inet) [
  | true ↦ sizeof_sockaddr_in
  | false ↦ sizeof_sockaddr_in6
]

pub err_ret-err_ret_if :
    (b : Bool) (cell : ErrCell) (e v : SxError) → err_ret (err_ret_if b cell e) v ≡ err_ret cell v
unfolding err_ret_if
err_ret-err_ret_if true none e v = refl
err_ret-err_ret_if true (some _) e v = refl
err_ret-err_ret_if false cell e v = refl

named : Socket → Socket
named sock = record sock {
  addr = record {
    len = sock.addr.len;
    family = sock.domain;
    port = sock.addr.port;
    ip = sock.addr.ip;
  };
}

bind_server_lem :
    (net : Net) (sock : Socket) (len : ℕ) (cell : ErrCell)
    → bind_server net sock len cell ≡ (some (named sock), err_ret cell sx_success)
unfolding bind_server named
bind_server_lem net sock len cell = simp err_ret-err_ret_if

-- With memory at hand, `SXCreateServerSocket` for IPv4 or IPv6 returns a socket with one owner, the
-- requested parameters and the port in network order, and reports success, whatever `socket`,
-- `setsockopt` and `bind` answered.
pub create_server_socket-opened :
    (net : Net) (port domain type protocol : ℕ) (cell : ErrCell)
    → net.calloc_ok ≡ true
    → (domain ≡ af_inet) ⊎ (domain ≡ af_inet6)
    → create_server_socket net port domain type protocol cell
      ≡ done
          (some (opened net (addr_len domain) port domain type protocol), err_ret cell sx_success)
unfolding create_server_socket named
create_server_socket-opened net port domain type protocol cell ok (inl e) =
    rw (ok, e, bind_server_lem, err_ret-err_ret_if)
create_server_socket-opened net port domain type protocol cell ok (inr e) =
    rw (ok, e, bind_server_lem, err_ret-err_ret_if)

finish_client_lem :
    (net : Net) (sock : Socket) (cell : ErrCell)
    → finish_client net sock cell ≡ (some (named sock), err_ret cell sx_success)
unfolding finish_client named
finish_client_lem net sock cell = simp err_ret-err_ret_if

-- The socket of a client that gave an address and a port.
abbrev pub connecting : Net → List ℕ → ℕ → ℕ → ℕ → ℕ → Socket
connecting net ipaddr port domain type protocol = record {
  obj = record { ref_count = pos 1; dealloc = some free_socket };
  sockfd = net.socket domain type protocol;
  protocol = protocol;
  domain = domain;
  type = type;
  port = 0;
  addr = record {
    len = addr_len domain;
    family = domain;
    port = htons port;
    ip = parsed net domain ipaddr;
  };
}

-- With memory at hand, `SXCreateClientSocket` for IPv4 or IPv6 returns a socket with one owner, the
-- requested parameters, the port in network order and the parsed address, which is zero if it does
-- not parse, and reports success, whatever `socket` and `setsockopt` answered.
pub create_client_socket-connecting :
    (net : Net) (ipaddr : List ℕ) (port domain type protocol : ℕ) (cell : ErrCell)
    → net.calloc_ok ≡ true
    → (domain ≡ af_inet) ⊎ (domain ≡ af_inet6)
    → create_client_socket net ipaddr port domain type protocol cell
      ≡ done (some (connecting net ipaddr port domain type protocol), err_ret cell sx_success)
unfolding create_client_socket named
create_client_socket-connecting net ipaddr port domain type protocol cell ok (inl e) =
    rw (ok, e, finish_client_lem, err_ret-err_ret_if)
create_client_socket-connecting net ipaddr port domain type protocol cell ok (inr e) =
    rw (ok, e, finish_client_lem, err_ret-err_ret_if)

-- For any family but IPv4 and IPv6, with memory at hand, `SXCreateServerSocket` returns null and
-- reports an invalid address.
pub create_server_socket-family :
    (net : Net) (port domain type protocol : ℕ) (cell : ErrCell)
    → net.calloc_ok ≡ true
    → domain ≢ af_inet
    → domain ≢ af_inet6
    → create_server_socket net port domain type protocol cell
      ≡ done (none, err_ret cell sx_error_invalid_ipaddr)
unfolding create_server_socket
create_server_socket-family net port domain type protocol cell ok h k =
    rw (ok, ==-ne h, ==-ne k, err_ret-err_ret_if)

finish_by_hostname-none :
    (net : Net) (cell : ErrCell) (looked : Socket × SxError)
    → (finish_by_hostname net cell looked ≡ crash)
      ⊎ ((c : ErrCell) × (finish_by_hostname net cell looked ≡ done (none, c)))
unfolding finish_by_hostname
finish_by_hostname-none net none looked = inl refl
finish_by_hostname-none net (some _) (looked, err) = inr (_, refl)

-- No socket came out.
abbrev pub NoSocket : Outcome (Option Socket × ErrCell) → Type 0
NoSocket r = (r ≡ crash) ⊎ ((c : ErrCell) × (r ≡ done (none, c)))

bind-NoSocket :
    (net : Net) (cell : ErrCell) (m : Outcome (Socket × SxError))
    → NoSocket (m >>= finish_by_hostname net cell)
bind-NoSocket net cell crash = inl refl
bind-NoSocket net cell (done looked) = finish_by_hostname-none net cell looked

if-NoSocket :
    (b : Bool) (r : Outcome (Option Socket × ErrCell))
    → NoSocket r
    → NoSocket (if b then r else crash)
if-NoSocket true r h = h
if-NoSocket false r h = inl refl

-- `SXCreateClientSocketByHostname` never yields a socket: it crashes or completes with null.
pub create_client_socket_by_hostname-none :
    (net : Net) (res : Resolver) (hostname service : List ℕ) (hint : ℕ) (cell : ErrCell)
    → NoSocket (create_client_socket_by_hostname net res hostname service hint cell)
unfolding create_client_socket_by_hostname
create_client_socket_by_hostname-none net res hostname service hint cell =
    if-NoSocket net.calloc_ok _ (bind-NoSocket net cell (dns_lookup res _ hostname service hint))
