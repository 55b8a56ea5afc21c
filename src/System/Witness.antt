-- ===== src/System/Witness.antt =====
-- Running servers, and their theorems at concrete runs.
use spartan_x.Prelude.{
  ◌+◌, ◌≤◌, ◌≡◌, ◌≢◌, refl, true, none, some, List, [], ◌∷◌, pos, arith, done, inl, size_max,
}
use spartan_x.Status.{
  sx_status_running, sx_status_idle, sx_status_suspend, sx_status_resuming,
  sx_status_should_terminate, sx_error_sys_bind, sx_success, check_status, check_compatible_status,
}
use spartan_x.Object.{free_server, retain, release}
use spartan_x.Object.Owners.{owned}
use spartan_x.Socket.{Socket, sock_stream, err_ret}
use spartan_x.Socket.Opening.{opened, addr_len}
use spartan_x.Socket.Witness.{down}
use spartan_x.Runtime.{transfer_handlers}
use spartan_x.Server.{
  Server, server_start, suspend_server, resume_server, resume_present, with_status, with_sock,
}
use spartan_x.Server.Creation.{create_server-created}
use spartan_x.Server.Control.{kill_server-replaces}
use spartan_x.Server.Witness.{setup, fresh}
use spartan_x.Acceptor.{answer, enter, leave}
use spartan_x.Connection.{Event, start, receives, epilogue, dispatch}
use spartan_x.Connection.Witness.{quiet}
use spartan_x.System.{
  System, Starts, Run, stay, later, Actor, program, accepting, serving, calls, enters, tests, looks,
  checks, takes, quits, begins, reads, ends, between, in_round, handlers_of, suspends, resumes,
  kills, obey, starting, testing, leaving, left, with_obj, dispatched,
}
use spartan_x.System.Calls.{obey-unreferenced}
use spartan_x.System.Holding.{guests_in}
use spartan_x.System.Holding.Steps.{Run-holders}
use spartan_x.System.Unstoppable.{create_server-unstoppable}
use spartan_x.System.Work.{work}
use spartan_x.System.Stopping.Ending.{CanStep, Run-ends}
use spartan_x.System.Behind.{receives_in, behind}
use spartan_x.System.Resuming.{Run-resuming}
use spartan_x.System.Service.{booting, History, Shut}
use spartan_x.System.Refinement.{view, expecting, Run-History, Run-Shut}
use spartan_x.System.Weak.{Run-weak}

abbrev started : Server
started = with_obj fresh (owned 2 free_server)

fresh-Starts : Starts fresh started
unfolding server_start retain
fresh-Starts = refl

-- The program asks for the end, and a guest is served all the same.
abbrev served : List Actor
served = serving [] ∷ accepting ∷ accepting ∷ accepting ∷ accepting ∷ program kills ∷ accepting ∷ []

abbrev after_guest : System
after_guest = record (dispatched started) {
  server = with_obj (with_status started sx_status_running) (owned 3 free_server);
  acceptor = testing;
  count = 1;
  conns = between start ∷ [];
}

one_guest : Run (dispatched started) served after_guest
unfolding enter answer retain transfer_handlers
one_guest =
    later
      (later
        (later
          (later
            (later
              (later (later stay (enters refl))
                (calls down kills (obey-unreferenced down kills _ refl)))
              (tests refl))
            (looks (λ q. cc) refl))
          (checks (omega arith) refl))
        (takes (pos 7) true (λ q. cc) refl (λ q. cc)))
      (begins refl)

Run-holders_example :
    (after_guest.server.obj ≡ owned 3 free_server)
    × (after_guest.count ≡ 0 + 1 + 0 + 0)
    × (after_guest.count ≤ 10)
Run-holders_example = Run-holders fresh refl (omega arith) (omega arith) fresh-Starts one_guest

create_server-unstoppable_example :
    (after_guest.acceptor ≢ starting → after_guest.server.status ≡ sx_status_running)
    × (after_guest.acceptor ≢ leaving)
    × (after_guest.acceptor ≢ left)
create_server-unstoppable_example =
    create_server-unstoppable down sx_error_sys_bind setup none (err_ret none sx_success) (some 1)
      (create_server-created down sx_error_sys_bind setup none (some 1) refl) fresh-Starts one_guest

-- A server that the program gave a reference in the field that the calls test.
abbrev referenced : Server
referenced = record fresh { ref_count = 1 }

abbrev referenced_started : Server
referenced_started = with_obj referenced (owned 2 free_server)

referenced-Starts : Starts referenced referenced_started
unfolding server_start retain
referenced-Starts = refl

abbrev running_server : Server
running_server = with_status referenced_started sx_status_running

abbrev at_loop : Server → System
at_loop server = record (dispatched server) { acceptor = testing }

entered : Run (dispatched referenced_started) (accepting ∷ []) (at_loop running_server)
unfolding enter
entered = later stay (enters refl)

-- It is killed.
abbrev bound_socket : Socket
bound_socket = opened down (addr_len 2) 4544 2 sock_stream 0

abbrev killed_server : Server
killed_server =
    with_sock (with_status running_server sx_status_should_terminate) (some bound_socket)

kill_running : obey down kills running_server ≡ done (some killed_server)
unfolding obey
kill_running = rw (
    kill_server-replaces down running_server bound_socket refl (omega arith) (omega arith) refl
      (omega arith) (inl refl))

abbrev ended : System
ended =
    record (at_loop (with_obj (with_status killed_server sx_status_idle) (owned 1 free_server))) {
      acceptor = left;
    }

last_steps : Run (at_loop killed_server) (accepting ∷ accepting ∷ []) ended
unfolding leave release
last_steps = later (later stay (tests refl)) (quits refl refl)

Run-ends_example :
    (1 + (1 + 0) + work ended ≤ work (at_loop killed_server))
    × (work ended ≢ 0 → ended.server.sock ≢ none → CanStep ended)
    × (work ended ≡ 0 → ended.server.obj ≡ owned 1 free_server)
Run-ends_example =
    Run-ends referenced refl (omega arith) (omega arith) referenced-Starts
      (later entered (calls down kills kill_running)) ((λ q. cc), inl refl)
      (((λ q. cc), (λ q. cc)), (((λ q. cc), (λ q. cc)), tt)) last_steps

-- It is suspended and resumed, while a connection is in a round with the status that it read before.
abbrev in_service : System
in_service = record (at_loop running_server) {
  server = with_obj running_server (owned 3 free_server);
  count = 1;
  conns = in_round start ∷ [];
}

suspend_running :
    obey down suspends in_service.server
    ≡ done (some (with_status in_service.server sx_status_suspend))
unfolding obey suspend_server check_compatible_status
suspend_running = refl

resume_suspended :
    obey down resumes (with_status in_service.server sx_status_suspend)
    ≡ done (some (with_status in_service.server sx_status_resuming))
unfolding obey resume_server resume_present check_status
resume_suspended = refl

abbrev resumed : System
resumed = record in_service { server = with_status in_service.server sx_status_resuming }

until_resumed :
    Run
      (dispatched referenced_started)
      (program resumes
        ∷ program suspends
        ∷ serving []
        ∷ serving []
        ∷ accepting
        ∷ accepting
        ∷ accepting
        ∷ accepting
        ∷ accepting
        ∷ [])
      resumed
unfolding enter answer retain transfer_handlers
until_resumed =
    later
      (later
        (later
          (later
            (later
              (later (later (later (later stay (enters refl)) (tests refl)) (looks (λ q. cc) refl))
                (checks (omega arith) refl))
              (takes (pos 7) true (λ q. cc) refl (λ q. cc)))
            (begins refl))
          (reads quiet [] [] start refl))
        (calls down suspends suspend_running))
      (calls down resumes resume_suspended)

-- The peer hangs up: the connection ends behind the resumption.
abbrev resumed_guest : System
resumed_guest = record resumed {
  server = with_obj resumed.server (owned 2 free_server);
  count = 0;
  conns = [];
}

abbrev hung_up : List Event
hung_up = receives ∷ epilogue (handlers_of resumed)

after_resumed : Run resumed (serving hung_up ∷ []) resumed_guest
unfolding dispatch release
after_resumed = later stay (ends (record quiet { received = size_max }) [] [] start refl refl refl)

Run-resuming_example :
    (resumed_guest.server.status ≡ sx_status_resuming)
    × (receives_in (serving hung_up ∷ []) + behind [] ≤ behind resumed.conns)
    × (guests_in resumed + behind [] ≤ guests_in resumed_guest + behind resumed.conns)
Run-resuming_example = Run-resuming until_resumed ((λ q. cc), refl) ((λ q. cc), tt) after_resumed

-- A server whose count is the mark.
abbrev crowded : System
crowded = record (at_loop running_server) {
  pending = 1;
  server = with_obj running_server (owned 410 free_server);
}

one_more :
    Run crowded (serving [] ∷ []) (record crowded { pending = 0; conns = between start ∷ [] })
unfolding retain transfer_handlers
one_more = later stay (begins refl)

Run-weak_example : crowded.server.obj ≡ crowded.server.obj
Run-weak_example = Run-weak refl one_more

Run-History_example :
    History 10 (record { phase = booting; guests = 0; expected = 0 }) (view after_guest)
Run-History_example = Run-History fresh refl (omega arith) (omega arith) fresh-Starts one_guest

Run-Shut_example :
    Shut (view ended)
    × (guests_in ended + expecting ended.acceptor
        ≤ guests_in (at_loop killed_server) + expecting (at_loop killed_server).acceptor)
Run-Shut_example =
    Run-Shut referenced refl (omega arith) (omega arith) referenced-Starts
      (later entered (calls down kills kill_running)) (inl refl) last_steps
