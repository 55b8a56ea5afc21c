-- ===== src/Kqueue/Registered.antt =====
-- How many connections the event loop registers.
use spartan_x.Prelude.{
  ℕ, zero, suc, ◌≤◌, ◌<◌, ◌≡◌, refl, Option, some, none, List, [], ◌∷◌, arith, u64_mod, length,
  length-append, length-set, get_elem?, inl, inr, Bool-cases, ℤ, ◌==◌,
}
use spartan_x.Status.{SxStatus, sx_status_running, sx_status_should_terminate}
use spartan_x.Server.{Server}
use spartan_x.Socket.{failed}
use spartan_x.Kqueue.Waiting.{Batch, wait_events}
use spartan_x.Kqueue.{
  Loop, empty, Kevent, listener, connection, Turn, continues, exits, crashes, erase, conclude,
  accept_guest, Round, handle_connection, handle_event, handle_events, turn,
}

pub record IsValid (server : Server) (l : Loop) : Type 0 where
  pub counted : l.count ≡ length l.conns
  pub bounded : l.count ≤ server.max_guest

length-erase :
    (conns : List SxStatus) (i : ℕ) {status : SxStatus}
    → get_elem? conns i ≡ some status
    → length conns ≡ suc (length (erase conns i))
length-erase [] i h = cc
length-erase (c ∷ conns) zero h = refl
length-erase (c ∷ conns) (suc i) h = omega (arith, length-erase conns i h)

module _ (server : Server) (small : server.max_guest < u64_mod) where
  accept_guest-IsValid :
      (fd : ℤ) (l : Loop) → IsValid server l → IsValid server (accept_guest server fd l)
  unfolding accept_guest
  accept_guest-IsValid fd l v = ground (arith, length-append l.conns (sx_status_running ∷ []))

  conclude-IsValid :
      (i : ℕ) (l : Loop) (t : Turn) {status : SxStatus}
      → get_elem? l.conns i ≡ some status
      → IsValid server l
      → IsValid server (conclude i l t)
  unfolding conclude
  conclude-IsValid i l (continues status events) h v = ground (arith, length-set l.conns i status)
  conclude-IsValid i l (exits events) h v = ground (arith, length-erase l.conns i h)
  conclude-IsValid i l (crashes events) h v = record { counted = v.counted; bounded = v.bounded }

  handle_connection-IsValid :
      (i : ℕ) (r : Round) (l : Loop) (found : Option SxStatus)
      → get_elem? l.conns i ≡ found
      → IsValid server l
      → IsValid server (handle_connection server i r l found)
  unfolding handle_connection
  handle_connection-IsValid i r l none h v = v
  handle_connection-IsValid i r l (some status) h v =
      conclude-IsValid i l (turn server.handlers r status) h v

  handle_event-IsValid :
      (e : Kevent) (l : Loop) → IsValid server l → IsValid server (handle_event server e l)
  unfolding handle_event
  handle_event-IsValid (listener fd) l v = accept_guest-IsValid fd l v
  handle_event-IsValid (connection i r) l v =
      handle_connection-IsValid i r l (get_elem? l.conns i) refl v

  handle_events-keeps :
      (events : List Kevent) (l : Loop)
      → IsValid server l
      → IsValid server (handle_events server events l)
  unfolding handle_events
  handle_events-keeps [] l v = v
  handle_events-keeps (e ∷ events) l v = elim (Bool-cases l.crashed) [
    | inl c ↦ simp c (handle_events-keeps events l v)
    | inr c ↦
        simp c (handle_events-keeps events (handle_event server e l) (handle_event-IsValid e l v))
  ]

  wait_events-keeps :
      (batches : List Batch) (l : Loop)
      → IsValid server l
      → IsValid server (wait_events server batches l).0
  unfolding wait_events
  wait_events-keeps [] l v = v
  wait_events-keeps (b ∷ batches) l v =
      elim (Bool-cases (b.at_test == sx_status_should_terminate)) [
        | inl over ↦ simp over v
        | inr on ↦ elim (Bool-cases (failed b.n_ev_changes)) [
          | inl bad ↦ simp (on, bad) v
          | inr good ↦
              simp (on, good)
                (wait_events-keeps batches (handle_events server b.events l)
                  (handle_events-keeps b.events l v))
        ]
      ]

  -- If `max_guest` fits a `size_t`, then after any number of rounds of the event loop, with any events,
  -- its count is the number of registered connections and is at most `max_guest`.
  pub wait_events-IsValid :
      (batches : List Batch) → IsValid server (wait_events server batches empty).0
  wait_events-IsValid batches =
      wait_events-keeps batches empty (record { counted = refl; bounded = omega arith })
