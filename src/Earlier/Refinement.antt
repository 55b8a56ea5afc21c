-- ===== src/Earlier/Refinement.antt =====
-- The event loop of the earlier copy against that of src/SXServer.c.
use spartan_x.Prelude.{
  ℕ, ◌≡◌, refl, sym, ap, ◌∙◌, Bool, true, false, Bool-cases, inl, inr, Option, none, some, List, [],
  ◌∷◌, arith, ℤ, ◌==◌, leb, if◌then◌else◌, get_elem?,
}
use spartan_x.Status.{SxStatus, sx_status_should_terminate}
use spartan_x.Socket.{failed}
use spartan_x.Server as Current
use spartan_x.Kqueue
use spartan_x.Kqueue.{Event, Round, Turn, continues, exits, crashes, Kevent, listener, connection}
use spartan_x.Kqueue.Waiting
use spartan_x.Kqueue.Waiting.{Batch, Standing, waits, finishes, gives_up}
use spartan_x.Earlier.{Queue}
use spartan_x.Earlier.Server.{Server}
use spartan_x.Earlier.Same.{handlers_of}
use spartan_x.Earlier.Owned.{
  Owned, AllOwned, statuses, found, get_elem?-statuses, statuses-set, statuses-erase,
  statuses-append, set-AllOwned, erase-AllOwned, append-AllOwned, get_elem?-AllOwned,
  conclude-exits, fresh-Owned, status-Owned,
}
use spartan_x.Earlier.Kqueue.{
  Loop, turn, conclude, accept_guest, register, handle_connection, handle_event, handle_events,
  wait_events,
}

-- A turn of a connection is the turn of src/SXServer.c with the chosen handlers of the server.
turn-same :
    (b : Bool) (server : Server) (r : Round) (status : SxStatus)
    → turn b server r status ≡ Kqueue.turn (handlers_of b server.blocks server.fptrs) r status
unfolding turn Kqueue.turn
turn-same b server r status = ground arith

-- What the loop of src/SXServer.c keeps of the loop.
abbrev pub view : Loop → Kqueue.Loop
view l = record { count = l.count; conns = statuses l.conns; crashed = l.crashed }

-- The state is the view of another, and each of its connections owns its socket.
abbrev pub Simulates : Loop → Kqueue.Loop → Type 0
Simulates l k = (view l ≡ k) × AllOwned l.conns

accept_guest-Simulates :
    (server : Server) (current : Current.Server) (fd : ℤ) (l : Loop)
    → server.max_guest ≡ current.max_guest
    → AllOwned l.conns
    → Simulates (accept_guest server fd l) (Kqueue.accept_guest current fd (view l))
unfolding accept_guest Kqueue.accept_guest register
accept_guest-Simulates server current fd l room all =
    elim (Bool-cases (leb server.max_guest l.count)) [
      | inl full ↦ (rw (sym room, full), rw full all)
      | inr free ↦ elim (Bool-cases (failed fd)) [
        | inl bad ↦ (rw (sym room, free, bad), rw (free, bad) all)
        | inr good ↦ (
          rw (sym room, free, good, statuses-append l.conns),
          rw (free, good) (append-AllOwned l.conns _ (fresh-Owned fd) all),
        )
      ]
    ]

conclude-Simulates :
    (i : ℕ) (queue : Queue) (l : Loop) (t : Turn)
    → Owned queue
    → AllOwned l.conns
    → Simulates (conclude i queue l t) (Kqueue.conclude i (view l) t)
unfolding Kqueue.conclude conclude
conclude-Simulates i queue l (continues status events) o all = (
  rw (statuses-set l.conns i),
  set-AllOwned l.conns i (record queue { status = status }) (status-Owned queue status o) all,
)
conclude-Simulates i queue l (exits events) o all =
    let closed_twice = conclude-exits i queue l events o in
    (rw (closed_twice, statuses-erase l.conns i), rw closed_twice (erase-AllOwned l.conns i all))
conclude-Simulates i queue l (crashes events) o all = (refl, all)

if-Simulates :
    (b : Bool) (l l1 : Loop) (k k1 : Kqueue.Loop)
    → Simulates l k
    → Simulates l1 k1
    → Simulates (if b then l else l1) (if b then k else k1)
if-Simulates true l l1 k k1 p q = p
if-Simulates false l l1 k k1 p q = q

module _ (b : Bool) (server : Server) (current : Current.Server)
    (room : server.max_guest ≡ current.max_guest)
    (same : handlers_of b server.blocks server.fptrs ≡ current.handlers) where
  handle_connection-Simulates :
      (i : ℕ) (r : Round) (l : Loop) (q : Option Queue)
      → get_elem? l.conns i ≡ q
      → AllOwned l.conns
      → Simulates
          (handle_connection b server i r l q)
          (Kqueue.handle_connection current i r (view l) (found q))
  unfolding handle_connection Kqueue.handle_connection
  handle_connection-Simulates i r l none h all = (refl, all)
  handle_connection-Simulates i r l (some queue) h all =
      let turned : turn b server r queue.status ≡ Kqueue.turn current.handlers r queue.status =
        turn-same b server r queue.status ∙ ap (λ hs. Kqueue.turn hs r queue.status) same in
      rw turned (
        conclude-Simulates i queue l (Kqueue.turn current.handlers r queue.status)
          (get_elem?-AllOwned l.conns i all h) all)

  handle_event-Simulates :
      (e : Kevent) (l : Loop)
      → AllOwned l.conns
      → Simulates (handle_event b server e l) (Kqueue.handle_event current e (view l))
  unfolding handle_event Kqueue.handle_event
  handle_event-Simulates (listener fd) l all = accept_guest-Simulates server current fd l room all
  handle_event-Simulates (connection i r) l all =
      rw (get_elem?-statuses l.conns i)
        (handle_connection-Simulates i r l (get_elem? l.conns i) refl all)

  handle_events-Simulates :
      (events : List Kevent) (l : Loop)
      → AllOwned l.conns
      → Simulates (handle_events b server events l) (Kqueue.handle_events current events (view l))
  unfolding handle_events Kqueue.handle_events
  handle_events-Simulates [] l all = (refl, all)
  handle_events-Simulates (e ∷ events) l all =
      let (seen, owned) =
        if-Simulates l.crashed l _ (view l) _ (refl, all) (handle_event-Simulates e l all) in
      rw⁻¹ seen (handle_events-Simulates events _ owned)

  -- A loop all of whose connections own their sockets waits for events, ends and gives up exactly as the
  -- loop of src/SXServer.c does, for a server with the same `max_guest` and handlers, from the same count
  -- and statuses, and comes to the same count and statuses: the owners and the closed descriptors that it
  -- keeps besides change nothing.
  pub wait_events-Simulates :
      (batches : List Batch) (l : Loop)
      → AllOwned l.conns
      → Simulates
          (wait_events b server batches l).0
          (Waiting.wait_events current batches (view l)).0
        × ((wait_events b server batches l).1 ≡ (Waiting.wait_events current batches (view l)).1)
  unfolding wait_events Waiting.wait_events
  wait_events-Simulates [] l all = ((refl, all), refl)
  wait_events-Simulates (batch ∷ batches) l all =
      elim (Bool-cases (batch.at_test == sx_status_should_terminate)) [
        | inl over ↦ rw over ((refl, all), refl)
        | inr on ↦ elim (Bool-cases (failed batch.n_ev_changes)) [
          | inl bad ↦ rw (on, bad) ((refl, all), refl)
          | inr good ↦
              let (seen, owned) = handle_events-Simulates batch.events l all in
              rw (on, good) (rw⁻¹ seen (wait_events-Simulates batches _ owned))
        ]
      ]
