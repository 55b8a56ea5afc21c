-- ===== src/Connection/Witness.antt =====
-- Tests of the connection's loop, and its theorems at concrete environments.
use spartan_x.Prelude.{ℕ, ◌≤◌, ◌≡◌, refl, inl, inr, some, none, [], ◌∷◌, ◌++◌, arith, size_max}
use spartan_x.Status.{
  sx_status_running, sx_status_resuming, sx_status_suspend, sx_status_should_terminate,
}
use spartan_x.Runtime.{Handlers}
use spartan_x.Loop.{running, ended}
use spartan_x.Loop.Counting.{count, once}
use spartan_x.Connection.{
  calls_did_connect, receives, calls_data_handler, calls_will_kill, calls_did_disconnect, closes,
  releases_server, releases_queue, frees_slot, Round, Conn, start, round, run, connection,
  eval_if_exist, epilogue,
}
use spartan_x.Connection.Events.{is_will_suspend, is_delivery, is_receive, is_close, is_slot}
use spartan_x.Connection.Suspension.{connection-will_suspend, run-suspended}
use spartan_x.Connection.Ending.{connection-ended, run-resuming, run-terminated}

abbrev all_handlers : Handlers
all_handlers = record {
  will_suspend = some 1;
  did_resume = some 2;
  did_connect = some 3;
  did_disconnect = some 4;
  will_kill = some 5;
  data_handler = some 6;
  err_handler = none;
}

-- A round in which 12 bytes arrive and are handled.
abbrev pub quiet : Round
quiet = record {
  server_status = sx_status_running;
  stored = none;
  received = 12;
  stored_meanwhile = none;
  answer = 12;
}

abbrev suspended_by : Round
suspended_by = record quiet { stored = some sx_status_suspend }

abbrev suspended : Conn
suspended = record start { status = sx_status_suspend }

abbrev server_status : ℕ → Round
server_status status = record quiet { server_status = status }

one_message : connection all_handlers (quiet ∷ record quiet { received = size_max } ∷ []) ≡ (
  ended,
  calls_did_connect
      ∷ receives
      ∷ calls_data_handler 12
      ∷ receives
      ∷ closes
      ∷ calls_did_disconnect
      ∷ releases_server
      ∷ releases_queue
      ∷ frees_slot
      ∷ [],
)
unfolding connection round
one_message = refl

connection-will_suspend_example :
    count is_will_suspend
      (connection all_handlers
        (suspended_by ∷ server_status sx_status_resuming ∷ suspended_by ∷ [])).1
    ≤ 1
connection-will_suspend_example =
    connection-will_suspend all_handlers
      (suspended_by ∷ server_status sx_status_resuming ∷ suspended_by ∷ [])

run-suspended_example :
    count is_delivery (run all_handlers (quiet ∷ server_status sx_status_suspend ∷ []) suspended).1
    ≡ 0
run-suspended_example =
    run-suspended all_handlers (quiet ∷ server_status sx_status_suspend ∷ []) suspended
      ((inl refl, refl, refl), ((inr refl, refl, refl), tt)) refl

connection-ended_example :
    (count is_close (connection all_handlers (quiet ∷ [])).1
      ≡ once (connection all_handlers (quiet ∷ [])).0)
    × (count is_slot (connection all_handlers (quiet ∷ [])).1
        ≡ once (connection all_handlers (quiet ∷ [])).0)
connection-ended_example = connection-ended all_handlers (quiet ∷ [])

run-resuming_test :
    (count is_receive (run all_handlers (server_status sx_status_resuming ∷ []) start).1 ≡ 0)
    × ((c : Conn) × ((run all_handlers (server_status sx_status_resuming ∷ []) start).0
          ≡ running c))
run-resuming_test =
    run-resuming all_handlers (server_status sx_status_resuming ∷ []) start (refl, tt) (omega arith)

run-terminated_test :
    run all_handlers (server_status sx_status_should_terminate ∷ quiet ∷ []) start
    ≡ (ended, eval_if_exist (some 5) calls_will_kill ++ epilogue all_handlers)
run-terminated_test =
    run-terminated all_handlers (server_status sx_status_should_terminate) (quiet ∷ []) start
      (inl refl)
