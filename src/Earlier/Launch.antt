-- ===== src/Earlier/Launch.antt =====
-- What `SXServerStart` of Examples/HTTP-proxy/SXServer.c and the functions like it do before a loop is
-- dispatched.
use spartan_x.Prelude.{
  Bool, true, false, not, Option, none, some, [], ◌==◌, if◌then◌else◌, Outcome, crash, done, ◌>>=◌,
}
use spartan_x.Status.{
  SxError, sx_success, sx_error_invalid_server, sx_error_create_thread,
  sx_error_server_cannot_be_dgram,
}
use spartan_x.Socket.{Net, sock_dgram}
use spartan_x.Earlier.Server.{Server, Effect, retain_server, release_server}

-- The tests of `SXServerStart` and the retain before the loop is dispatched; the flags say whether the
-- two policies are given.
unfoldable pub server_start : Option Server → Bool → Bool → Outcome (Option Server × SxError)
unfolding retain_server
server_start none preprocess operating = done (none, sx_error_invalid_server)
server_start (some server) preprocess operating =
    if not preprocess
    then done (some server, sx_error_create_thread)
    else if not operating
    then done (some server, sx_error_create_thread)
    else elim server.socket [
      | none ↦ crash
      | some sock ↦
          if sock.type == sock_dgram
          then done (some server, sx_error_server_cannot_be_dgram)
          else done (some (retain_server server), sx_success)
    ]

-- `SXServerStart1`, `SXServerStart2` and `SXServerStart_f` pass blocks of their own.
unfoldable pub server_start1 : Option Server → Outcome (Option Server × SxError)
unfolding server_start
server_start1 server = server_start server true true

unfoldable pub server_start2 : Option Server → Outcome (Option Server × SxError)
unfolding server_start
server_start2 server = server_start server true true

unfoldable pub server_start_f : Option Server → Outcome (Option Server × SxError)
unfolding server_start
server_start_f server = server_start server true true

-- `SXServerStart_kqueue` up to the dispatch, and the release behind it; whether the loop is dispatched is
-- the last component.
unfoldable pub server_start_kqueue : Net → Server → Outcome (Effect × Bool)
unfolding retain_server release_server
server_start_kqueue net server = elim server.socket [
  | none ↦ crash
  | some sock ↦
      if sock.type == sock_dgram
      then done (
        record { server = some server; closed = []; err = sx_error_server_cannot_be_dgram },
        false,
      )
      else (release_server net (retain_server server) >>= λ e.
          done (record e { err = sx_success }, true))
]
