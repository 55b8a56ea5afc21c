-- ===== src/System/Work.antt =====
-- What the threads of a running server have still to do behind an order to terminate.
use spartan_x.Prelude.{
  ◌≤◌, ℕ, ◌+◌, ◌*◌, ◌≡◌, refl, ◌⊎◌, List, [], ◌∷◌, ◌++◌, arith, ◌==◌, ◌||◌, if◌then◌else◌,
}
use spartan_x.Status.{SxStatus, sx_status_idle, sx_status_should_terminate}
use spartan_x.Loop.{goes_on}
use spartan_x.Connection.{Event, Round, Conn, settled, dispatch}
use spartan_x.Runtime.{Handlers}
use spartan_x.System.{
  System, Point, starting, testing, listening, checking, taking, leaving, left, Serving, between,
  in_round,
}

-- What the accepting loop has still to do at most, and all threads together: a block has to begin, to read
-- the order and to end, also that of a guest that the loop is accepting, and a connection that read
-- another status goes through one more round.
abbrev pub to_do : Point → ℕ
to_do starting = 3
to_do testing = 2
to_do listening = 2
to_do checking = 7
to_do taking = 6
to_do leaving = 1
to_do left = 0

abbrev pub round_left : SxStatus → ℕ
round_left status =
    if status == sx_status_should_terminate || status == sx_status_idle then 1 else 3

abbrev pub conn_left : Serving → ℕ
conn_left (between c) = 2
conn_left (in_round c) = round_left c.status

abbrev pub conns_left : List Serving → ℕ
conns_left [] = 0
conns_left (c ∷ conns) = conn_left c + conns_left conns

abbrev pub work : System → ℕ
work s = to_do s.acceptor + 3 * s.pending + conns_left s.conns

pub conns_left-middle :
    (before : List Serving) (c : Serving) (after : List Serving)
    → conns_left (before ++ c ∷ after) ≡ conn_left c + conns_left (before ++ after)
conns_left-middle [] c after = refl
conns_left-middle (d ∷ before) c after = omega (arith, conns_left-middle before c after)

-- The steps of one connection.
pub conns_left-replaced :
    (before : List Serving) (c d : Serving) (after : List Serving)
    → 1 + conn_left d ≤ conn_left c
    → 1 + conns_left (before ++ d ∷ after) ≤ conns_left (before ++ c ∷ after)
conns_left-replaced before c d after h =
    omega (arith, conns_left-middle before c after, conns_left-middle before d after)

pub conn_left-some : (c : Serving) → 1 ≤ conn_left c
conn_left-some (between c) = omega arith
conn_left-some (in_round c) = ground arith

-- A status that shows the end is passed on to the connection.
pub settled-left :
    (r : Round) (c : Conn)
    → (r.server_status ≡ sx_status_should_terminate) ⊎ (r.server_status ≡ sx_status_idle)
    → round_left (settled r c) ≡ 1
settled-left r c h = ground arith

-- A connection goes on only if it read another status.
pub dispatch-left :
    (hs : Handlers) (r : Round) (c : Conn) {c' : Conn} {events : List Event}
    → dispatch hs r c ≡ goes_on c' events
    → round_left c.status ≡ 3
unfolding dispatch
dispatch-left hs r c h = ground arith
