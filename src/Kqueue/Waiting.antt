-- ===== src/Kqueue/Waiting.antt =====
-- The block that `SXServerStart_kqueue` dispatches: how its loop begins, waits for events and ends.
use spartan_x.Prelude.{Bool, true, false, none, some, List, [], ◌∷◌, ℤ, not, ◌==◌, if◌then◌else◌}
use spartan_x.Status.{SxStatus, sx_status_running, sx_status_should_terminate}
use spartan_x.Socket.{failed}
use spartan_x.Server.{Server, with_status}
use spartan_x.Kqueue.{Loop, Kevent, handle_events}

-- The statements before the loop, for what `kqueue` returned: the server, whether `didStart` is called,
-- and whether the loop is reached. The results of `listen` and of the registration are ignored.
unfoldable pub begin_loop : Server → ℤ → Server × Bool × Bool
begin_loop server kq = (
  with_status server sx_status_running,
  elim server.did_start [ none ↦ false | some _ ↦ true ],
  not (failed kq),
)

-- What a round meets: the status at the test of the loop, what `kevent` returns, and the events.
pub record Batch : Type 0 where
  pub at_test : SxStatus
  pub n_ev_changes : ℤ
  pub events : List Kevent

-- Where the loop is: waiting for events, left because the server terminates, or given up because
-- `kevent` failed.
pub data Standing : Type 0 where
  waits finishes gives_up : Standing

unfoldable pub wait_events : Server → List Batch → Loop → Loop × Standing
wait_events server [] l = (l, waits)
wait_events server (b ∷ batches) l =
    let rest = wait_events server batches (handle_events server b.events l) in
    if b.at_test == sx_status_should_terminate
    then (l, finishes)
    else if failed b.n_ev_changes
    then (l, gives_up)
    else rest
