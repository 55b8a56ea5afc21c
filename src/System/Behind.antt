-- ===== src/System/Behind.antt =====
-- The connections of a running server that are in a round with an earlier status, and what they receive.
use spartan_x.Prelude.{◌+◌, ◌==◌, if◌then◌else◌, ℕ, ◌≤◌, ◌≡◌, ◌≢◌, refl, List, [], ◌∷◌, ◌++◌, arith}
use spartan_x.Status.{sx_status_resuming}
use spartan_x.Loop.{exits, events_of}
use spartan_x.Loop.Counting.{count}
use spartan_x.Runtime.{Handlers}
use spartan_x.Connection.{Event, Round, Conn, settled, dispatch, epilogue}
use spartan_x.Connection.Events.{is_receive}
use spartan_x.System.{Actor, serving, Serving, between, in_round}

-- The calls of `recv` in a step, and in the steps of a run.
abbrev pub receives_of : Actor → ℕ
receives_of (serving events) = count is_receive events
receives_of _ = 0

abbrev pub receives_in : List Actor → ℕ
receives_in [] = 0
receives_in (a ∷ actors) = receives_of a + receives_in actors

-- A connection that is in a round with a status that it read before the server was resumed.
abbrev pub is_behind : Serving → ℕ
is_behind (between c) = 0
is_behind (in_round c) = if c.status == sx_status_resuming then 0 else 1

abbrev pub behind : List Serving → ℕ
behind [] = 0
behind (c ∷ conns) = is_behind c + behind conns

pub behind-middle :
    (before : List Serving) (c : Serving) (after : List Serving)
    → behind (before ++ c ∷ after) ≡ is_behind c + behind (before ++ after)
behind-middle [] c after = refl
behind-middle (d ∷ before) c after = omega (arith, behind-middle before c after)

pub settled-is_behind :
    (r : Round) (c : Conn)
    → r.server_status ≡ sx_status_resuming
    → is_behind (in_round (record c { status = settled r c })) ≡ 0
settled-is_behind r c h = ground arith

-- A round calls `recv` once at most, and not where the status is resuming.
pub dispatch-receives :
    (hs : Handlers) (r : Round) (c : Conn)
    → count is_receive (events_of (dispatch hs r c)) ≤ is_behind (in_round c)
unfolding dispatch
dispatch-receives hs r c = ground arith

pub exits-is_behind :
    (hs : Handlers) (r : Round) (c : Conn) {events : List Event}
    → c.s ≢ 0
    → dispatch hs r c ≡ exits events
    → is_behind (in_round c) ≡ 1
unfolding dispatch
exits-is_behind hs r c answered h = ground arith

pub epilogue-no_receive : (hs : Handlers) → count is_receive (epilogue hs) ≡ 0
epilogue-no_receive hs = ground arith
