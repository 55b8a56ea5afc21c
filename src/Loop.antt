-- ===== src/Loop.antt =====
-- The shape that the receive loops of src/SXServer.c and src/SXClient.c share. A round turns the
-- variables `S` of the loop into a turn with the events that others see, from what the environment
-- answers in that round; `exit` is what stands behind the label of that name.
pub mod Counting
use spartan_x.Prelude.{List, [], ◌∷◌, ◌++◌}

pub data Turn (S E : Type 0) : Type 0 where
  goes_on : S → List E → Turn S E
  exits : List E → Turn S E
  crashes : List E → Turn S E

pub data State (S : Type 0) : Type 0 where
  running : S → State S
  ended crashed : State S

module _ {S E : Type 0} where
  abbrev pub events_of : Turn S E → List E
  events_of (goes_on c events) = events
  events_of (exits events) = events
  events_of (crashes events) = events

  -- What a turn makes of the rest of the run.
  unfoldable pub conclude : List E → (S → State S × List E) → Turn S E → State S × List E
  conclude exit rest (goes_on c events) = let (state, later) = rest c in (state, events ++ later)
  conclude exit rest (exits events) = (ended, events ++ exit)
  conclude exit rest (crashes events) = (crashed, events)

-- The rounds of a list one after the other, and the events in their order.
unfoldable pub run : {S E R : Type 0} → (R → S → Turn S E) → List E → List R → S → State S × List E
unfolding conclude
run round exit [] c = (running c, [])
run round exit (r ∷ rounds) c = conclude exit (run round exit rounds) (round r c)
