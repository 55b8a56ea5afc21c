-- ===== src/Server/Control.antt =====
-- Which calls a server obeys.
use spartan_x.Prelude.{
  ◌%◌, ◌<◌, ◌≡◌, ◌≢◌, ◌⊎◌, inl, inr, true, none, some, [], ◌∷◌, arith, u16_mod, done, ==-ne, ◌==◌,
  Bool-cases,
}
use spartan_x.Status.{
  sx_success, sx_error_invalid_server, sx_error_invalid_arguments, sx_status_should_terminate,
  sx_status_idle, sx_status_suspend, sx_status_resuming, check_status, check_incompatible_status,
}
use spartan_x.Socket.{Net, Socket, af_inet, af_inet6}
use spartan_x.Socket.Opening.{opened, addr_len, create_server_socket-opened}
use spartan_x.Server.{
  Server, Effect, suspend_server, resume_server, kill_server, replace_sock, with_status, with_sock,
  free_server_ref, resume_present,
}

-- A server whose `ref_count` is 0 refuses to be suspended, resumed and killed, and stays unchanged.
pub unreferenced_refuses :
    (net : Net) (server : Server)
    → server.ref_count ≡ 0
    → (suspend_server (some server) ≡ (some server, sx_error_invalid_server))
      × (resume_server (some server) ≡ (some server, sx_error_invalid_server))
      × (kill_server net (some server)
          ≡ done (record { server = some server; closed = []; err = sx_error_invalid_server }))
unfolding suspend_server resume_server kill_server
unreferenced_refuses net server h = (simp h, simp h, simp h)

abbrev pub replaced : Net → Server → Socket → Effect
replaced net server sock = record {
  server = some (
      with_sock (with_status server sx_status_should_terminate)
        (some (opened net (addr_len sock.domain) sock.port sock.domain sock.type sock.protocol)));
  closed = sock.sockfd ∷ [];
  err = sx_success;
}

module _ (net : Net) (sock : Socket) (ok : net.calloc_ok ≡ true) (port : sock.port < u16_mod)
    (dom : (sock.domain ≡ af_inet) ⊎ (sock.domain ≡ af_inet6)) where
  replace_sock_lem :
      (server : Server)
      → replace_sock net (with_status server sx_status_should_terminate) (some sock)
        ≡ done (replaced net server sock)
  unfolding replace_sock
  replace_sock_lem server =
      let same : sock.port % u16_mod ≡ sock.port = omega arith in
      simp (
        same,
        create_server_socket-opened net sock.port sock.domain sock.type sock.protocol none ok dom,
      )

resume_present-suspended :
    (server : Server)
    → server.ref_count ≢ 0
    → server.status ≡ sx_status_suspend
    → (resume_present server).0 ≡ with_status server sx_status_resuming
unfolding resume_present check_status
resume_present-suspended server ref status = simp (==-ne ref, status)

-- `SXKillServer` on a referenced server that is not terminating, whose socket is one of IPv4 or IPv6
-- on a 16-bit port, marks it as terminating, also if it is suspended, closes its descriptor and gives
-- it a socket with the same port, family, type and protocol, if memory is at hand.
pub kill_server-replaces :
    (net : Net) (server : Server) (sock : Socket)
    → net.calloc_ok ≡ true
    → server.ref_count ≢ 0
    → server.status ≢ sx_status_should_terminate
    → server.sock ≡ some sock
    → sock.port < u16_mod
    → (sock.domain ≡ af_inet) ⊎ (sock.domain ≡ af_inet6)
    → kill_server net (some server) ≡ done (replaced net server sock)
unfolding kill_server check_incompatible_status replace_sock
kill_server-replaces net server sock ok ref status has port dom =
    elim (Bool-cases (server.status == sx_status_suspend)) [
      | inl e ↦
          simp (==-ne ref, e, resume_present-suspended server ref (ground arith), has)
            (replace_sock_lem net sock ok port dom server)
      | inr e ↦
          simp (==-ne ref, e, ==-ne status, has) (replace_sock_lem net sock ok port dom server)
    ]

-- A referenced server that is terminating refuses to be killed again, with the code -4, and stays
-- unchanged.
pub kill_server_twice :
    (net : Net) (server : Server)
    → server.ref_count ≢ 0
    → server.status ≡ sx_status_should_terminate
    → kill_server net (some server)
      ≡ done (record { server = some server; closed = []; err = sx_error_invalid_arguments })
unfolding kill_server check_incompatible_status replace_sock
kill_server_twice net server ref status = simp (==-ne ref, status)

-- Freeing a server whose `ref_count` is 0 closes the descriptor of its socket and no other, whatever
-- its status.
pub free_server_ref-closes :
    (net : Net) (server : Server) (sock : Socket)
    → server.ref_count ≡ 0
    → server.sock ≡ some sock
    → free_server_ref net server
      ≡ done (record { server = none; closed = sock.sockfd ∷ []; err = sx_success })
unfolding free_server_ref kill_server
free_server_ref-closes net server sock ref has =
    elim (Bool-cases (server.status == sx_status_idle)) [
      | inl e ↦ simp (e, has)
      | inr e ↦ simp (e, ref, has)
    ]
