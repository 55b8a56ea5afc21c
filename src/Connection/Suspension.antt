-- ===== src/Connection/Suspension.antt =====
-- What a suspended connection does.
use spartan_x.Prelude.{ℕ, ◌≤◌, ◌≡◌, ◌⊎◌, refl, none, List, [], ◌∷◌, arith, if◌then◌else◌, All}
use spartan_x.Status.{sx_status_running, sx_status_suspend, SxStatus}
use spartan_x.Runtime.{Handlers}
use spartan_x.Connection.{Event, Round, Conn, round, epilogue, run, start, connection}
use spartan_x.Loop
use spartan_x.Loop.{Turn, goes_on, exits, crashes, State, conclude, events_of}
use spartan_x.Loop.Counting.{count, count-append, Within, run-Within}
use spartan_x.Connection.Events.{is_will_suspend, is_delivery}

abbrev left : Conn → ℕ
left c = if c.suspended then 0 else 1

round-left :
    (hs : Handlers) (r : Round) (c : Conn) → Within is_will_suspend left (left c) (round hs r c)
unfolding round
round-left hs r c = ground arith

epilogue-count : (hs : Handlers) → count is_will_suspend (epilogue hs) ≡ 0
epilogue-count hs = ground arith

-- Over all rounds of a connection, whatever its environment does, the handler `willSuspend` is called
-- at most once, also if the connection is suspended several times.
pub connection-will_suspend :
    (server : Handlers) (rounds : List Round)
    → count is_will_suspend (connection server rounds).1 ≤ 1
unfolding connection
connection-will_suspend server rounds = ground (
  arith,
  run-Within (round server) (epilogue server) is_will_suspend left (round-left server) rounds start,
  epilogue-count server,
)

-- The environment leaves a suspended connection alone: the server runs or is suspended too, and
-- nobody stores another status.
abbrev pub LeavesSuspended : Round → Type 0
LeavesSuspended r =
    ((r.server_status ≡ sx_status_running) ⊎ (r.server_status ≡ sx_status_suspend))
    × (r.stored ≡ none)
    × (r.stored_meanwhile ≡ none)

-- The status that a turn leaves, where it leaves one.
abbrev status_after : Turn Conn Event → SxStatus
status_after (goes_on c events) = c.status
status_after (exits events) = sx_status_suspend
status_after (crashes events) = sx_status_suspend

round-suspended :
    (hs : Handlers) (r : Round) (c : Conn)
    → LeavesSuspended r
    → c.status ≡ sx_status_suspend
    → (count is_delivery (events_of (round hs r c)) ≡ 0)
      × (status_after (round hs r c) ≡ sx_status_suspend)
unfolding round
round-suspended hs r c quiet e = ground arith

epilogue-no_delivery : (hs : Handlers) → count is_delivery (epilogue hs) ≡ 0
epilogue-no_delivery hs = ground arith

conclude-no_delivery :
    (hs : Handlers) (rest : Conn → State Conn × List Event) (t : Turn Conn Event)
    → count is_delivery (events_of t) ≡ 0
    → status_after t ≡ sx_status_suspend
    → ((c : Conn) → c.status ≡ sx_status_suspend → count is_delivery (rest c).1 ≡ 0)
    → count is_delivery (conclude (epilogue hs) rest t).1 ≡ 0
unfolding conclude
conclude-no_delivery hs rest (goes_on c events) h e later =
    omega (arith, count-append is_delivery events (rest c).1, later c e)
conclude-no_delivery hs rest (exits events) h e later =
    omega (arith, count-append is_delivery events (epilogue hs), epilogue-no_delivery hs)
conclude-no_delivery hs rest (crashes events) h e later = h

-- As long as a connection is suspended and its environment leaves it so, the data handler is never
-- called, whatever arrives.
pub run-suspended :
    (hs : Handlers) (rounds : List Round) (c : Conn)
    → All LeavesSuspended rounds
    → c.status ≡ sx_status_suspend
    → count is_delivery (run hs rounds c).1 ≡ 0
unfolding run Loop.run
run-suspended hs [] c quiet e = refl
run-suspended hs (r ∷ rounds) c quiet e =
    let (silent, still) = round-suspended hs r c quiet.0 e in
    conclude-no_delivery hs (run hs rounds) (round hs r c) silent still
      (λ c' e'. run-suspended hs rounds c' quiet.1 e')
