-- ===== src/Acceptor/Slots.antt =====
-- How many guests the accepting loop serves.
use spartan_x.Prelude.{◌+◌, ◌≤◌, ◌≡◌, List, [], ◌∷◌, arith, int_max}
use spartan_x.Server.{Server}
use spartan_x.Acceptor.{Guests, no_guests, Action, step, run}

pub record IsValid (server : Server) (g : Guests) : Type 0 where
  pub counted : g.count ≡ g.active + g.turned_away
  pub bounded : g.count ≤ server.max_guest

step-IsValid :
    (server : Server) (a : Action) (g : Guests)
    → IsValid server g
    → IsValid server (step server a g)
unfolding step
step-IsValid server a g v = ground arith

run-keeps :
    (server : Server) (actions : List Action) (g : Guests)
    → IsValid server g
    → IsValid server (run server actions g)
unfolding run
run-keeps server [] g v = v
run-keeps server (a ∷ actions) g v =
    run-keeps server actions (step server a g) (step-IsValid server a g v)

step-turned_away :
    (server : Server) (a : Action) (g : Guests) → g.turned_away ≤ (step server a g).turned_away
unfolding step
step-turned_away server a g = ground arith

run-turned_away :
    (server : Server) (actions : List Action) (g : Guests)
    → g.turned_away ≤ (run server actions g).turned_away
unfolding run
run-turned_away server [] g = omega arith
run-turned_away server (a ∷ actions) g =
    omega (arith, step-turned_away server a g, run-turned_away server actions (step server a g))

-- Of a server whose `max_guest` is at most INT_MAX, after any interleaving of passes and ends of
-- connections, the loop's count is the number of connections in service and of guests that were turned
-- away, and is at most `max_guest`, so that the `int` never overflows.
pub run-IsValid :
    (server : Server) (actions : List Action)
    → server.max_guest ≤ int_max
    → IsValid server (run server actions no_guests)
      × ((run server actions no_guests).count ≤ int_max)
run-IsValid server actions h =
    let v =
      run-keeps server actions no_guests
        (record { counted = omega arith; bounded = omega arith }) in
    (v, omega (arith, v.bounded))

-- Once `max_guest` guests have been turned away, no connection is ever served again.
pub run-exhausted :
    (server : Server) (actions : List Action) (g : Guests)
    → IsValid server g
    → g.turned_away ≡ server.max_guest
    → (run server actions g).active ≡ 0
run-exhausted server actions g v h =
    let after = run-keeps server actions g v in
    omega (arith, after.counted, after.bounded, run-turned_away server actions g)
