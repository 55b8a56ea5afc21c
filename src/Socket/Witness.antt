-- ===== src/Socket/Witness.antt =====
-- Tests of the sockets, and their theorems at concrete networks.
use spartan_x.Prelude.{
  ℕ, ◌≡◌, refl, inl, true, false, none, some, List, [], ◌∷◌, negsuc, arith, crash, done,
}
use spartan_x.Status.{sx_success, sx_error_invalid_ipaddr, sx_error_mem_alloc}
use spartan_x.Socket.{
  Net, zeroed, af_inet, sock_stream, htons, err_ret, err_ret_if, create_server_socket,
}
use spartan_x.Socket.Client.{create_client_socket, create_client_socket_by_hostname}
use spartan_x.Socket.Dns.{AddrInfo, Resolver, dns_lookup, fill_inet}
use spartan_x.Socket.Opening.{
  NoSocket, htons-htons, opened, addr_len, create_server_socket-opened, create_server_socket-family,
  create_client_socket_by_hostname-none,
}
use spartan_x.Socket.Lookup.{dns_lookup-crash, dns_lookup-inet}

-- Every call of this network but `calloc` fails.
abbrev pub down : Net
down = record {
  calloc_ok = true;
  socket = λ _ _ _. negsuc 0;
  setsockopt = λ _ _. negsuc 0;
  bind = λ _ _ _. negsuc 0;
  listen = λ _ _. negsuc 0;
  connect = λ _ _ _. negsuc 0;
  send = λ _ _. negsuc 0;
  inet_pton = λ _ _. none;
}

abbrev pub entry : ℕ → AddrInfo
entry family = record {
  ai_family = family;
  ai_socktype = 1;
  ai_protocol = 6;
  ai_addr = 0x7f8a_0000_1000;
  ai_behind = 0;
}

abbrev pub names : List AddrInfo → Resolver
names info = record { getaddrinfo = λ _ _ _. some info; getservbyname = λ _. some 20480 }

port_order : htons 80 ≡ 20480
unfolding htons
port_order = refl

out_of_memory :
    create_server_socket (record down { calloc_ok = false }) 80 af_inet sock_stream 0 none ≡ crash
unfolding create_server_socket
out_of_memory = refl

bad_family :
    create_client_socket down [] 80 7 sock_stream 0 (some sx_success)
    ≡ done (none, some sx_error_invalid_ipaddr)
unfolding create_client_socket err_ret_if
bad_family = refl

htons-htons_test : htons (htons 8080) ≡ 8080
htons-htons_test = htons-htons 8080 (omega arith)

create_server_socket-opened_example :
    create_server_socket down 8080 af_inet sock_stream 0 (some sx_error_mem_alloc)
    ≡ done (
      some (opened down (addr_len af_inet) 8080 af_inet sock_stream 0),
      err_ret (some sx_error_mem_alloc) sx_success,
    )
create_server_socket-opened_example =
    create_server_socket-opened down 8080 af_inet sock_stream 0 (some sx_error_mem_alloc) refl
      (inl refl)

create_server_socket-family_test :
    create_server_socket down 8080 1 sock_stream 0 (some sx_success)
    ≡ done (none, err_ret (some sx_success) sx_error_invalid_ipaddr)
create_server_socket-family_test =
    create_server_socket-family down 8080 1 sock_stream 0 (some sx_success) refl (omega arith)
      (omega arith)

create_client_socket_by_hostname-none_test :
    NoSocket
      (create_client_socket_by_hostname down (names (entry 0 ∷ entry af_inet ∷ [])) [] [] 0 none)
create_client_socket_by_hostname-none_test =
    create_client_socket_by_hostname-none down (names (entry 0 ∷ entry af_inet ∷ [])) [] [] 0 none

dns_lookup-crash_test : dns_lookup (names (entry af_inet ∷ [])) zeroed [] [] 0 ≡ crash
dns_lookup-crash_test = dns_lookup-crash (names (entry af_inet ∷ [])) zeroed [] [] 0 refl refl

dns_lookup-inet_test :
    dns_lookup (names (entry 0 ∷ entry af_inet ∷ [])) zeroed [] [] 0
    ≡ done (fill_inet zeroed (entry af_inet) (htons 20480), sx_success)
dns_lookup-inet_test =
    dns_lookup-inet (names (entry 0 ∷ entry af_inet ∷ [])) zeroed [] [] 0 20480 refl refl refl
