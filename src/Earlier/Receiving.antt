-- ===== src/Earlier/Receiving.antt =====
-- The loop of a client, which both starts in Examples/HTTP-proxy/SXClient.c dispatch.
use spartan_x.Prelude.{ℕ, Bool, none, some, List, [], ◌∷◌, ◌==◌, if◌then◌else◌}
use spartan_x.Loop
use spartan_x.Loop.{Turn, goes_on, exits, crashes, State}
use spartan_x.Earlier.Client.{Client, chosen}

pub data Event : Type 0 where
  receives : Event
  calls_data_handler : ℕ → Event
  calls_disconnect : Event
  releases_client : Event

-- A round of `while ((s = recv(…)) > 0)`, for what `recv` returned as a `size_t`. The data handler is
-- called with no test, and its answer is not used.
unfoldable pub round : Bool → Client → ℕ → Unit {0} → Turn (Unit {0}) Event
round use_block_handler client received _ =
    if received == 0
    then exits (receives ∷ [])
    else elim (chosen use_block_handler client.blocks.data_handler client.fptrs.data_handler) [
      | none ↦ crashes (receives ∷ [])
      | some _ ↦ goes_on tt (receives ∷ calls_data_handler received ∷ [])
    ]

unfoldable pub epilogue : Bool → Client → List Event
epilogue use_block_handler client =
    elim (chosen use_block_handler client.blocks.disconnect client.fptrs.disconnect) [
      | none ↦ releases_client ∷ []
      | some _ ↦ calls_disconnect ∷ releases_client ∷ []
    ]

unfoldable pub run : Bool → Client → List ℕ → State (Unit {0}) × List Event
unfolding Loop.run
run use_block_handler client rounds =
    Loop.run (round use_block_handler client) (epilogue use_block_handler client) rounds tt
