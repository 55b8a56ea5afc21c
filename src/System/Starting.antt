-- ===== src/System/Starting.antt =====
-- How a running server starts.
use spartan_x.Prelude.{◌≡◌, refl, arith}
use spartan_x.Status.{sx_status_running}
use spartan_x.Object.{retain}
use spartan_x.Server.{Server, server_start}
use spartan_x.Acceptor.{enter}
use spartan_x.System.{
  System, Starts, with_obj, accepting, Step, enters, tests, looks, checks, takes, quits, starting,
}

-- `SXServerStart` retains the server and changes nothing else of it.
pub server_start-retains :
    (server : Server) {started : Server}
    → Starts server started
    → started ≡ with_obj server (retain server.obj)
unfolding server_start
server_start-retains server h = ground arith

-- The loop begins with the status running, whatever was stored before: an order to stop that comes
-- between `SXServerStart` and the first statement of the dispatched block is lost.
pub enters-running :
    {s t : System}
    → s.acceptor ≡ starting
    → Step s accepting t
    → t.server.status ≡ sx_status_running
unfolding enter
enters-running at (enters e) = refl
enters-running at (tests e) = cc
enters-running at (looks sock e) = cc
enters-running at (checks small e) = cc
enters-running at (takes accepted admits sock e sound) = cc
enters-running at (quits e h) = cc
