-- ===== src/Client/Witness.antt =====
-- Tests of the client, and its theorems at concrete environments.
use spartan_x.Prelude.{
  ℕ, ◌≤◌, ◌≡◌, refl, inl, some, none, List, [], ◌∷◌, ◌++◌, pos, arith, crash, done,
}
use spartan_x.Status.{
  sx_success, sx_error_sys_setsockopt, sx_status_running, sx_status_resuming, sx_status_suspend,
  sx_status_should_terminate,
}
use spartan_x.Runtime.{Handlers}
use spartan_x.Socket.Client.{create_client_socket_by_hostname, finish_by_hostname}
use spartan_x.Socket.Dns.{dns_lookup}
use spartan_x.Socket.{err_ret, err_ret_if, htons, af_inet}
use spartan_x.Socket.Witness.{down, names, entry}
use spartan_x.Socket.Opening.{connecting}
use spartan_x.Loop.{running, ended, events_of}
use spartan_x.Loop.Counting.{count, times}
use spartan_x.Object.{free_client, release}
use spartan_x.Object.Owners.{owned}
use spartan_x.Client.{
  with_sock, create_client_with_hostname, create_client_with_ip, start_client, Round, Conn, round,
  run, start, eval_if_exist, epilogue, calls_did_resume, receives, calls_data_handler,
  releases_sock, releases_client, calls_did_disconnect,
}
use spartan_x.Client.Looping.{
  is_will_suspend, lengths, run-will_suspend, run-releases, is_sock_release, run-resumed_first,
  run-deaf, round-stale_length,
}
use spartan_x.Client.Starting.{start_client-hostname, create_client_with_ip-connecting}

abbrev all_handlers : Handlers
all_handlers = record {
  will_suspend = some 1;
  did_resume = some 2;
  did_connect = none;
  did_disconnect = some 4;
  will_kill = none;
  data_handler = some 6;
  err_handler = none;
}

abbrev quiet : Round
quiet = record { stored = none; received = 12; stored_meanwhile = none; answer = 12 }

abbrev storing : ℕ → Round
storing status = record quiet { stored = some status }

abbrev told_to_terminate : Conn
told_to_terminate = record start { status = sx_status_should_terminate; s = 12 }

abbrev waiting : Conn
waiting = record start { status = sx_status_suspend; s = 7 }

abbrev woken : Round
woken = record quiet { stored_meanwhile = some sx_status_resuming }

abbrev hang_up : List Round
hang_up = quiet ∷ record quiet { received = 0; answer = 0 } ∷ []

peer_closes :
    run all_handlers
      (owned 1 free_client)
      (quiet ∷ record quiet { received = 0; answer = 0 } ∷ [])
      start
    ≡ (
      ended,
      receives
          ∷ calls_data_handler 12
          ∷ receives
          ∷ calls_data_handler 0
          ∷ releases_sock
          ∷ calls_did_disconnect
          ∷ releases_client
          ∷ releases_sock
          ∷ [],
    )
unfolding run round release
peer_closes = refl

run-releases_example :
    (count is_sock_release (run all_handlers (owned 1 free_client) hang_up start).1
      ≡ times 2 (run all_handlers (owned 1 free_client) hang_up start).0)
    × (count is_sock_release (run all_handlers (owned 2 free_client) hang_up start).1
        ≡ times 1 (run all_handlers (owned 2 free_client) hang_up start).0)
run-releases_example = run-releases all_handlers 0 hang_up start (omega arith)

run-will_suspend_test :
    count is_will_suspend
      (run all_handlers
        (owned 1 free_client)
        (quiet
          ∷ storing sx_status_suspend
          ∷ storing sx_status_running
          ∷ storing sx_status_suspend
          ∷ [])
        start).1
    ≤ 1
run-will_suspend_test =
    run-will_suspend all_handlers (owned 1 free_client) (
      quiet
      ∷ storing sx_status_suspend
      ∷ storing sx_status_running
      ∷ storing sx_status_suspend
      ∷ [])

run-resumed_first_test :
    run all_handlers (owned 1 free_client) (storing sx_status_resuming ∷ quiet ∷ []) start ≡ (
      ended,
      eval_if_exist (some 2) calls_did_resume ++ epilogue all_handlers (owned 1 free_client),
    )
run-resumed_first_test =
    run-resumed_first all_handlers (owned 1 free_client) (storing sx_status_resuming) (quiet ∷ [])
      refl

run-deaf_example :
    run all_handlers (owned 1 free_client) (quiet ∷ quiet ∷ []) told_to_terminate
    ≡ (running told_to_terminate, [])
run-deaf_example =
    run-deaf all_handlers (owned 1 free_client) (quiet ∷ quiet ∷ []) told_to_terminate (inl refl)
      (omega arith) (refl, (refl, tt))

round-stale_length_test : lengths (events_of (round all_handlers woken waiting)) ≡ 7 ∷ []
round-stale_length_test =
    round-stale_length all_handlers woken waiting {b = 6} refl refl (omega arith) (omega arith)
      (inl refl) refl

start_client-hostname_test : start_client down (with_sock 0 (pos 512) none) ≡ crash
unfolding create_client_with_hostname create_client_socket_by_hostname dns_lookup finish_by_hostname
    err_ret_if htons
start_client-hostname_test =
    start_client-hostname down (names (entry 0 ∷ entry af_inet ∷ [])) [] [] 0 (pos 512) 0
      (some sx_success) {client = with_sock 0 (pos 512) none} {c = some sx_error_sys_setsockopt}
      refl refl

create_client_with_ip-connecting_test :
    create_client_with_ip down (49 ∷ []) 80 af_inet 1 0 (pos 512) 0 none
    ≡ done (
      with_sock 0 (pos 512) (some (connecting down (49 ∷ []) 80 af_inet 1 0)),
      err_ret none sx_success,
    )
create_client_with_ip-connecting_test =
    create_client_with_ip-connecting down (49 ∷ []) 80 af_inet 1 0 (pos 512) 0 none refl (inl refl)
