-- ===== src/Proxy/Main.antt =====
-- The start of the example, `main` of Examples/HTTP-proxy/main.c up to its last loop, which sleeps.
use spartan_x.Prelude.{◌≡◌, true, false, Option, none, some, Outcome, crash, done, ◌>>=◌}
use spartan_x.Status.{SxError, sx_success}
use spartan_x.Socket.{Net, ErrCell, af_inet, af_inet6, sock_stream}
use spartan_x.Server.{Setup}
use spartan_x.Earlier.Server.{
  Server, ServerRef, blank, live, dangling, create_server, retain_server,
}
use spartan_x.Earlier.Launch.{server_start2, server_start}
use spartan_x.Earlier.Creation.{opened, with_data_handler, create_server-created}

abbrev pub setup : Setup
setup = record {
  domain = af_inet;
  port = 8080;
  backlog = 600000;
  data_size = 20480;
  max_guest = 5000;
  failable = false;
}

-- `SXServerStart2` on the server that was created.
unfoldable pub start_created : ServerRef × ErrCell → Outcome (Option Server × SxError)
unfolding server_start2
start_created (live server, cell) = server_start2 (some server)
start_created (dangling, cell) = crash

-- The message handler is a block.
unfoldable pub main : Net → SxError → Outcome (Option Server × SxError)
unfolding create_server start_created
main net unset = create_server net unset setup none (some 3) >>= start_created

-- The server of the example once its loop is dispatched.
abbrev pub listening : Net → Server
listening net = record blank {
  socket = some (opened net 8080 af_inet6 sock_stream 0);
  blocks = with_data_handler (some 3);
  data_size = 20480;
  backlog = 600000;
  max_guest = 5000;
  ref_count = 2;
}

-- With memory at hand the example starts whatever the network answers, with a server of two owners
-- whose socket is one of IPv6 on port 8080, though the setup asks for `AF_INET`.
pub main-listening :
    (net : Net) (unset : SxError)
    → net.calloc_ok ≡ true
    → main net unset ≡ done (some (listening net), sx_success)
unfolding main start_created server_start2 server_start retain_server
main-listening net unset ok = rw (create_server-created net unset setup none (some 3) ok).0
