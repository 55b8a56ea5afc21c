-- ===== src/Connection/Ending.antt =====
-- How a connection ends.
use spartan_x.Prelude.{◌≡◌, ◌⊎◌, ◌≢◌, refl, List, [], ◌∷◌, ◌++◌, arith, All}
use spartan_x.Status.{
  sx_status_running, sx_status_resuming, sx_status_idle, sx_status_should_terminate,
}
use spartan_x.Runtime.{Handlers}
use spartan_x.Connection.{
  calls_did_resume, calls_will_kill, Round, Conn, round, eval_if_exist, epilogue, run, start,
  connection,
}
use spartan_x.Loop
use spartan_x.Loop.{goes_on, exits, running, ended, events_of}
use spartan_x.Loop.Counting.{count, count-append, once, run-once}
use spartan_x.Connection.Events.{is_close, is_slot, is_receive}

round-close : (hs : Handlers) (r : Round) (c : Conn) → count is_close (events_of (round hs r c)) ≡ 0
unfolding round
round-close hs r c = ground arith

round-slot : (hs : Handlers) (r : Round) (c : Conn) → count is_slot (events_of (round hs r c)) ≡ 0
unfolding round
round-slot hs r c = ground arith

epilogue-close : (hs : Handlers) → count is_close (epilogue hs) ≡ 1
epilogue-close hs = ground arith

epilogue-slot : (hs : Handlers) → count is_slot (epilogue hs) ≡ 1
epilogue-slot hs = ground arith

-- A connection closes its descriptor and frees its slot exactly once if it has ended, and has done
-- neither as long as it runs or if it crashed.
pub connection-ended :
    (server : Handlers) (rounds : List Round)
    → (count is_close (connection server rounds).1 ≡ once (connection server rounds).0)
      × (count is_slot (connection server rounds).1 ≡ once (connection server rounds).0)
unfolding connection
connection-ended server rounds = (
  ground (
    arith,
    run-once (round server) (epilogue server) is_close (epilogue-close server) (round-close server)
        rounds start,
  ),
  ground (
    arith,
    run-once (round server) (epilogue server) is_slot (epilogue-slot server) (round-slot server)
        rounds start,
  ),
)

pub round-resuming :
    (hs : Handlers) (r : Round) (c : Conn)
    → r.server_status ≡ sx_status_resuming
    → c.s ≢ 0
    → round hs r c
      ≡ goes_on
          (record c { status = sx_status_running })
          (eval_if_exist hs.did_resume calls_did_resume)
unfolding round
round-resuming hs r c e h = ground arith

pub resumed-no_receive :
    (hs : Handlers) → count is_receive (eval_if_exist hs.did_resume calls_did_resume) ≡ 0
resumed-no_receive hs = ground arith

-- While the server's status is resuming, a connection with a nonzero `s` does nothing but
-- call `didResume` in each round: it never receives, and it never ends.
pub run-resuming :
    (hs : Handlers) (rounds : List Round) (c : Conn)
    → All (λ r. r.server_status ≡ sx_status_resuming) rounds
    → c.s ≢ 0
    → (count is_receive (run hs rounds c).1 ≡ 0)
      × ((c' : Conn) × ((run hs rounds c).0 ≡ running c'))
unfolding run Loop.run
run-resuming hs [] c quiet h = (refl, (c, refl))
run-resuming hs (r ∷ rounds) c quiet h =
    let (silent, on) = run-resuming hs rounds (record c { status = sx_status_running }) quiet.1 h in
    let events = eval_if_exist hs.did_resume calls_did_resume in
    rw (round-resuming hs r c quiet.0 h) (
      omega (
        arith,
        count-append is_receive events (run hs rounds (record c { status = sx_status_running })).1,
        resumed-no_receive hs,
      ),
      on,
    )

pub round-terminated :
    (hs : Handlers) (r : Round) (c : Conn)
    → (r.server_status ≡ sx_status_should_terminate) ⊎ (r.server_status ≡ sx_status_idle)
    → round hs r c ≡ exits (eval_if_exist hs.will_kill calls_will_kill)
unfolding round
round-terminated hs r c h = ground arith

-- The first round in which the server's status is terminating or idle calls `willKill` and ends the
-- connection without receiving.
pub run-terminated :
    (hs : Handlers) (r : Round) (rounds : List Round) (c : Conn)
    → (r.server_status ≡ sx_status_should_terminate) ⊎ (r.server_status ≡ sx_status_idle)
    → run hs (r ∷ rounds) c ≡ (ended, eval_if_exist hs.will_kill calls_will_kill ++ epilogue hs)
unfolding run Loop.run
run-terminated hs r rounds c h = rw (round-terminated hs r c h)
