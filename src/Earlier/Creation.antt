-- ===== src/Earlier/Creation.antt =====
-- What the two constructors of servers in Examples/HTTP-proxy/SXServer.c set up and report.
use spartan_x.Prelude.{ℕ, ◌%◌, ◌≡◌, refl, ◌⊎◌, inl, inr, true, Option, some, u16_mod, done}
use spartan_x.Status.{SxError, sx_success}
use spartan_x.Runtime.{Block}
use spartan_x.Socket.{Net, ErrCell, err_ret, htons, af_inet, af_inet6, sock_stream}
use spartan_x.Socket.Opening.{addr_len, err_ret-err_ret_if}
use spartan_x.Server.{Setup}
use spartan_x.Server.Creation.{family, family_cases}
use spartan_x.Earlier.{SharedSocket, HandlerSet, no_handler_set}
use spartan_x.Earlier.Sockets.{fresh_socket, address, bind_server, create_server_socket}
use spartan_x.Earlier.Server.{Server, blank, live, finish_server, create_server, create_server_f}

-- The socket of a server that asked for a port.
abbrev pub opened : Net → ℕ → ℕ → ℕ → ℕ → SharedSocket
opened net port domain type protocol =
    record (fresh_socket (net.socket domain type protocol) domain type protocol) {
      port = port;
      addr = address (addr_len domain) domain (htons port) 0;
    }

bind_server_lem :
    (net : Net) (sock : SharedSocket) (len : ℕ) (cell : ErrCell)
    → bind_server net sock len cell ≡ (some sock, err_ret cell sx_success)
unfolding bind_server
bind_server_lem net sock len cell = simp err_ret-err_ret_if

pub create_server_socket-opened :
    (net : Net) (port domain type protocol : ℕ) (cell : ErrCell)
    → net.calloc_ok ≡ true
    → (domain ≡ af_inet) ⊎ (domain ≡ af_inet6)
    → create_server_socket net port domain type protocol cell
      ≡ done (some (opened net port domain type protocol), err_ret cell sx_success)
unfolding create_server_socket
create_server_socket-opened net port domain type protocol cell ok (inl e) =
    rw (ok, e, bind_server_lem, err_ret-err_ret_if)
create_server_socket-opened net port domain type protocol cell ok (inr e) =
    rw (ok, e, bind_server_lem, err_ret-err_ret_if)

-- A server as it is created, with a message handler as a block or as a function pointer.
abbrev pub created : Net → Setup → HandlerSet → HandlerSet → Server
created net setup blocks fptrs = record blank {
  socket = some (opened net (setup.port % u16_mod) (family setup) sock_stream 0);
  blocks = blocks;
  fptrs = fptrs;
  ref_count = 1;
  backlog = setup.backlog;
  data_size = setup.data_size;
  max_guest = setup.max_guest;
  failable = setup.failable;
}

abbrev pub with_data_handler : Option Block → HandlerSet
with_data_handler h = record no_handler_set { data_handler = h }

-- With memory at hand, both constructors yield the server of their setup with one owner and report
-- success, whatever the network answers and whatever `tmp_err` held before: the two servers differ only
-- in that the message handler is among the blocks of one and among the function pointers of the other.
pub create_server-created :
    (net : Net) (unset : SxError) (setup : Setup) (cell : ErrCell) (msg_handl : Option Block)
    → net.calloc_ok ≡ true
    → (create_server net unset setup cell msg_handl
        ≡ done (
          live (created net setup (with_data_handler msg_handl) no_handler_set),
          err_ret cell sx_success,
        ))
      × (create_server_f net unset setup cell msg_handl
          ≡ done (
            live (created net setup no_handler_set (with_data_handler msg_handl)),
            err_ret cell sx_success,
          ))
unfolding create_server create_server_f finish_server err_ret
create_server-created net unset setup cell msg_handl ok =
    let sock =
      create_server_socket-opened net (setup.port % u16_mod) (family setup) sock_stream 0
        (some unset) ok (family_cases setup) in
    (simp (ok, sock) refl, simp (ok, sock) refl)
