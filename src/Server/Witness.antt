-- ===== src/Server/Witness.antt =====
-- Tests of the server's life, and its theorems at concrete servers.
use spartan_x.Prelude.{◌≡◌, refl, inl, true, false, some, none, [], ◌∷◌, pos, arith, done}
use spartan_x.Status.{
  sx_success, sx_error_invalid_server, sx_error_invalid_arguments, sx_error_sys_bind,
  sx_error_server_cannot_be_dgram, sx_status_running, sx_status_suspend, sx_status_should_terminate,
}
use spartan_x.Socket.{Socket, err_ret, sock_dgram}
use spartan_x.Socket.Witness.{down}
use spartan_x.Server.{
  Server, Setup, live, create_server, suspend_server, resume_server, kill_server, free_server_ref,
  server_start, with_status, with_sock,
}
use spartan_x.Server.Creation.{created, create_server-created}
use spartan_x.Server.Control.{
  replaced, unreferenced_refuses, kill_server-replaces, kill_server_twice, free_server_ref-closes,
}

abbrev pub setup : Setup
setup = record {
  domain = 1;
  port = 70080;
  backlog = 5;
  data_size = 1024;
  max_guest = 10;
  failable = false;
}

abbrev pub fresh : Server
fresh = created down setup (some 1)

abbrev listening : Socket
listening = record {
  obj = record { ref_count = pos 1; dealloc = none };
  sockfd = pos 3;
  protocol = 0;
  domain = 2;
  type = 1;
  port = 4544;
  addr = record { len = 16; family = 2; port = 0; ip = 0 };
}

-- A server that holds a reference in the field that the calls test, and is suspended.
abbrev referenced : Server
referenced = record (with_sock (with_status fresh sx_status_suspend) (some listening)) {
  ref_count = 1;
}

datagrams :
    server_start (some (with_sock fresh (some (record listening { type = sock_dgram })))) true true
    ≡ done (
      some (with_sock fresh (some (record listening { type = sock_dgram }))),
      sx_error_server_cannot_be_dgram,
    )
unfolding server_start
datagrams = refl

create_server-created_example :
    create_server down sx_error_sys_bind setup none (some 1)
    ≡ done (live fresh, err_ret none sx_success)
create_server-created_example =
    create_server-created down sx_error_sys_bind setup none (some 1) refl

unreferenced_refuses_test :
    (suspend_server (some fresh) ≡ (some fresh, sx_error_invalid_server))
    × (resume_server (some fresh) ≡ (some fresh, sx_error_invalid_server))
    × (kill_server down (some fresh)
        ≡ done (record { server = some fresh; closed = []; err = sx_error_invalid_server }))
unreferenced_refuses_test = unreferenced_refuses down fresh refl

kill_server-replaces_example :
    kill_server down (some referenced) ≡ done (replaced down referenced listening)
kill_server-replaces_example =
    kill_server-replaces down referenced listening refl (omega arith) (omega arith) refl
      (omega arith) (inl refl)

kill_server_twice_test :
    kill_server down (some (with_status referenced sx_status_should_terminate))
    ≡ done (record {
      server = some (with_status referenced sx_status_should_terminate);
      closed = [];
      err = sx_error_invalid_arguments;
    })
kill_server_twice_test =
    kill_server_twice down (with_status referenced sx_status_should_terminate) (omega arith) refl

free_server_ref-closes_test :
    free_server_ref down (with_status (with_sock fresh (some listening)) sx_status_running)
    ≡ done (record { server = none; closed = pos 3 ∷ []; err = sx_success })
free_server_ref-closes_test =
    free_server_ref-closes down (with_status (with_sock fresh (some listening)) sx_status_running)
      listening refl refl
