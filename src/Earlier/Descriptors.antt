-- ===== src/Earlier/Descriptors.antt =====
-- The descriptors that the event loop of the earlier copy closes.
use spartan_x.Prelude.{
  ◌≡◌, refl, Bool, true, false, Bool-cases, inl, inr, Option, none, some, List, [], ◌∷◌, ◌++◌, ℤ,
  ◌==◌, leb, if◌then◌else◌, get_elem?, ℕ,
}
use spartan_x.Status.{sx_status_should_terminate}
use spartan_x.Socket.{failed}
use spartan_x.Kqueue.{Turn, continues, exits, crashes, Kevent, listener, connection, Round}
use spartan_x.Kqueue.Waiting.{Batch}
use spartan_x.Earlier.{Queue}
use spartan_x.Earlier.Server.{Server}
use spartan_x.Earlier.Owned.{
  Owned, AllOwned, set-AllOwned, erase-AllOwned, append-AllOwned, get_elem?-AllOwned,
  conclude-exits, fresh-Owned, status-Owned,
}
use spartan_x.Earlier.Kqueue.{
  Loop, empty, turn, conclude, accept_guest, register, handle_connection, handle_event,
  handle_events, wait_events,
}

-- Each descriptor was closed twice in a row, but for those of a failed `accept`.
pub data Paired : List ℤ → Type 0 where
  nothing : Paired []
  twice : {closed : List ℤ} (fd : ℤ) → Paired closed → Paired (closed ++ fd ∷ fd ∷ [])
  refused :
      {closed : List ℤ} (fd : ℤ) → failed fd ≡ true → Paired closed → Paired (closed ++ fd ∷ [])

-- Each registered connection owns its socket, and what was closed so far is paired.
abbrev pub Held : Loop → Type 0
Held l = AllOwned l.conns × Paired l.closed

accept_guest-Held : (server : Server) (fd : ℤ) (l : Loop) → Held l → Held (accept_guest server fd l)
unfolding accept_guest register
accept_guest-Held server fd l (all, paired) = elim (Bool-cases (leb server.max_guest l.count)) [
  | inl full ↦ rw full (all, paired)
  | inr free ↦ elim (Bool-cases (failed fd)) [
    | inl bad ↦ rw (free, bad) (all, refused fd bad paired)
    | inr good ↦ rw (free, good) (append-AllOwned l.conns _ (fresh-Owned fd) all, paired)
  ]
]

conclude-Held :
    (i : ℕ) (queue : Queue) (l : Loop) (t : Turn)
    → Owned queue
    → Held l
    → Held (conclude i queue l t)
unfolding conclude
conclude-Held i queue l (continues status events) o (all, paired) = (
  set-AllOwned l.conns i (record queue { status = status }) (status-Owned queue status o) all,
  paired,
)
conclude-Held i queue l (exits events) o (all, paired) =
    rw (conclude-exits i queue l events o)
      (erase-AllOwned l.conns i all, twice o.sock.sockfd paired)
conclude-Held i queue l (crashes events) o held = held

if-Held : (b : Bool) (l l1 : Loop) → Held l → Held l1 → Held (if b then l else l1)
if-Held true l l1 p q = p
if-Held false l l1 p q = q

module _ (b : Bool) (server : Server) where
  handle_connection-Held :
      (i : ℕ) (r : Round) (l : Loop) (q : Option Queue)
      → get_elem? l.conns i ≡ q
      → Held l
      → Held (handle_connection b server i r l q)
  unfolding handle_connection
  handle_connection-Held i r l none h held = held
  handle_connection-Held i r l (some queue) h held =
      conclude-Held i queue l (turn b server r queue.status) (get_elem?-AllOwned l.conns i held.0 h)
        held

  handle_event-Held : (e : Kevent) (l : Loop) → Held l → Held (handle_event b server e l)
  unfolding handle_event
  handle_event-Held (listener fd) l held = accept_guest-Held server fd l held
  handle_event-Held (connection i r) l held =
      handle_connection-Held i r l (get_elem? l.conns i) refl held

  handle_events-Held :
      (events : List Kevent) (l : Loop) → Held l → Held (handle_events b server events l)
  unfolding handle_events
  handle_events-Held [] l held = held
  handle_events-Held (e ∷ events) l held =
      handle_events-Held events _ (if-Held l.crashed l _ held (handle_event-Held e l held))

  waits-Held : (batches : List Batch) (l : Loop) → Held l → Held (wait_events b server batches l).0
  unfolding wait_events
  waits-Held [] l held = held
  waits-Held (batch ∷ batches) l held =
      elim (Bool-cases (batch.at_test == sx_status_should_terminate)) [
        | inl over ↦ rw over held
        | inr on ↦ elim (Bool-cases (failed batch.n_ev_changes)) [
          | inl bad ↦ rw (on, bad) held
          | inr good ↦ rw (on, good) (waits-Held batches _ (handle_events-Held batch.events l held))
        ]
      ]

-- Whatever the events, every descriptor that the event loop closes is closed twice in a row, but for that
-- of a failed `accept`.
pub wait_events-Paired :
    (use_block_handler : Bool) (server : Server) (batches : List Batch)
    → Paired (wait_events use_block_handler server batches empty).0.closed
wait_events-Paired b server batches = (waits-Held b server batches empty (tt, nothing)).1
