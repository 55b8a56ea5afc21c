-- ===== src/Kqueue/Suspending.antt =====
-- A suspended connection in the event loop.
use spartan_x.Prelude.{◌≡◌, Bool, true, false, some, arith}
use spartan_x.Status.{SxStatus, sx_status_suspend}
use spartan_x.Runtime.{Block, Handlers}
use spartan_x.Kqueue.{Round, Turn, continues, exits, crashes, settled, turn}

abbrev pub ends : Turn → Bool
ends (continues status events) = false
ends (exits events) = true
ends (crashes events) = false

-- Any event of a connection whose status has settled to suspended ends the connection, if the server
-- has a data handler, whatever arrives and whatever status is stored meanwhile.
pub turn-suspended_ends :
    (hs : Handlers) (r : Round) (status : SxStatus) {b : Block}
    → hs.data_handler ≡ some b
    → settled r status ≡ sx_status_suspend
    → ends (turn hs r status) ≡ true
unfolding turn
turn-suspended_ends hs r status h e = ground arith
