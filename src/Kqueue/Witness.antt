-- ===== src/Kqueue/Witness.antt =====
-- Tests of the event loop, and its theorems at concrete events.
use spartan_x.Prelude.{List, ◌≡◌, refl, true, false, some, none, [], ◌∷◌, pos, negsuc, arith}
use spartan_x.Status.{sx_status_running, sx_status_suspend}
use spartan_x.Server.Witness.{fresh}
use spartan_x.Kqueue.{
  empty, Round, receives, calls_data_handler, exits, listener, connection, handle_event,
  handle_events, turn,
}
use spartan_x.Kqueue.Registered.{IsValid, wait_events-IsValid}
use spartan_x.Kqueue.Waiting.{Batch, wait_events}
use spartan_x.Kqueue.Suspending.{ends, turn-suspended_ends}

abbrev quiet : Round
quiet = record {
  server_status = sx_status_running;
  stored = none;
  received = 12;
  stored_meanwhile = none;
  answer = 12;
  s_unset = 1;
  suspended_unset = false;
}

-- A connection that is suspended, and is running again once data arrives.
abbrev resumed : Round
resumed = record quiet {
  stored = some sx_status_suspend;
  stored_meanwhile = some sx_status_running;
}

abbrev closing : Round
closing = record quiet { answer = 0 }

two_guests :
    handle_events fresh (listener (pos 7) ∷ listener (pos 8) ∷ connection 0 closing ∷ []) empty
    ≡ record { count = 1; conns = sx_status_running ∷ []; crashed = false }
unfolding handle_events handle_event
two_guests = refl

-- The handler gets the data, and the connection ends all the same.
delivered_and_ended :
    turn fresh.handlers resumed sx_status_running ≡ exits (receives ∷ calls_data_handler 12 ∷ [])
unfolding turn
delivered_and_ended = refl

abbrev two_batches : List Batch
two_batches =
    record {
      at_test = sx_status_running;
      n_ev_changes = pos 2;
      events = listener (pos 7) ∷ connection 0 closing ∷ [];
    }
    ∷ record {
      at_test = sx_status_running;
      n_ev_changes = pos 1;
      events = listener (negsuc 0) ∷ [];
    }
    ∷ []

wait_events-IsValid_example : IsValid fresh (wait_events fresh two_batches empty).0
wait_events-IsValid_example = wait_events-IsValid fresh (omega arith) two_batches

turn-suspended_ends_example : ends (turn fresh.handlers resumed sx_status_running) ≡ true
turn-suspended_ends_example =
    turn-suspended_ends fresh.handlers resumed sx_status_running {b = 1} refl refl
