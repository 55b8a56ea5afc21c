-- ===== src/Earlier/Owned.antt =====
-- The connections that the event loop of the earlier copy keeps, and their owners.
use mathlib.Core.Option.{some-injective}
use spartan_x.Prelude.{
  ℕ, zero, suc, ◌+◌, ◌%◌, ◌≡◌, refl, ap, Option, none, some, List, [], ◌∷◌, ◌++◌, arith, ℤ,
  get_elem?, set, u64_mod, size_max, subst,
}
use spartan_x.Status.{SxStatus, sx_status_running}
use spartan_x.Kqueue
use spartan_x.Kqueue.{Event, Round, Turn, continues, exits, crashes, Kevent, listener, connection}
use spartan_x.Earlier.{SharedSocket, Queue, fresh_queue}
use spartan_x.Earlier.Closing.{release_queue-last}
use spartan_x.Earlier.Sockets.{fresh_socket}
use spartan_x.Earlier.Kqueue.{Loop, erase, conclude, disconnect}

-- A connection with one owner, which is the only owner of its socket.
pub record Owned (queue : Queue) : Type 0 where
  pub sock : SharedSocket
  pub once : queue.ref_count ≡ 1
  pub held : queue.sock ≡ some sock
  pub alone : sock.ref_count ≡ 1

abbrev pub AllOwned : List Queue → Type 0
AllOwned [] = Unit
AllOwned (queue ∷ conns) = Owned queue × AllOwned conns

abbrev pub statuses : List Queue → List SxStatus
statuses [] = []
statuses (queue ∷ conns) = queue.status ∷ statuses conns

abbrev pub found : Option Queue → Option SxStatus
found none = none
found (some queue) = some queue.status

pub get_elem?-statuses :
    (conns : List Queue) (i : ℕ) → get_elem? (statuses conns) i ≡ found (get_elem? conns i)
get_elem?-statuses [] i = refl
get_elem?-statuses (q ∷ conns) zero = refl
get_elem?-statuses (q ∷ conns) (suc i) = get_elem?-statuses conns i

pub statuses-set :
    (conns : List Queue) (i : ℕ) (q : Queue)
    → statuses (set conns i q) ≡ set (statuses conns) i q.status
statuses-set [] i q = refl
statuses-set (c ∷ conns) zero q = refl
statuses-set (c ∷ conns) (suc i) q = ap (λ rest. c.status ∷ rest) (statuses-set conns i q)

pub statuses-erase :
    (conns : List Queue) (i : ℕ) → statuses (erase conns i) ≡ Kqueue.erase (statuses conns) i
statuses-erase [] i = refl
statuses-erase (c ∷ conns) zero = refl
statuses-erase (c ∷ conns) (suc i) = ap (λ rest. c.status ∷ rest) (statuses-erase conns i)

pub statuses-append :
    (conns more : List Queue) → statuses (conns ++ more) ≡ statuses conns ++ statuses more
statuses-append [] more = refl
statuses-append (c ∷ conns) more = ap (λ rest. c.status ∷ rest) (statuses-append conns more)

pub set-AllOwned :
    (conns : List Queue) (i : ℕ) (q : Queue) → Owned q → AllOwned conns → AllOwned (set conns i q)
set-AllOwned [] i q o all = all
set-AllOwned (c ∷ conns) zero q o (_, all) = (o, all)
set-AllOwned (c ∷ conns) (suc i) q o (first, all) = (first, set-AllOwned conns i q o all)

pub erase-AllOwned : (conns : List Queue) (i : ℕ) → AllOwned conns → AllOwned (erase conns i)
erase-AllOwned [] i all = all
erase-AllOwned (c ∷ conns) zero (_, all) = all
erase-AllOwned (c ∷ conns) (suc i) (first, all) = (first, erase-AllOwned conns i all)

pub append-AllOwned :
    (conns : List Queue) (q : Queue) → Owned q → AllOwned conns → AllOwned (conns ++ q ∷ [])
append-AllOwned [] q o all = (o, tt)
append-AllOwned (c ∷ conns) q o (first, all) = (first, append-AllOwned conns q o all)

pub get_elem?-AllOwned :
    (conns : List Queue) (i : ℕ) {q : Queue} → AllOwned conns → get_elem? conns i ≡ some q → Owned q
get_elem?-AllOwned [] i all h = cc
get_elem?-AllOwned (c ∷ conns) zero {q} (first, all) h = subst Owned (some-injective c q h) first
get_elem?-AllOwned (c ∷ conns) (suc i) (first, all) h = get_elem?-AllOwned conns i all h

-- The end of a connection closes its descriptor twice.
pub conclude-exits :
    (i : ℕ) (queue : Queue) (l : Loop) (events : List Event)
    → (o : Owned queue)
    → conclude i queue l (exits events) ≡ record l {
      count = (l.count + size_max) % u64_mod;
      conns = erase l.conns i;
      closed = l.closed ++ o.sock.sockfd ∷ o.sock.sockfd ∷ [];
    }
unfolding conclude disconnect
conclude-exits i queue l events o =
    rw (release_queue-last queue o.sock 0 o.held o.once o.alone (omega arith), o.held)

pub fresh-Owned :
    (fd : ℤ)
    → Owned
        (record (fresh_queue (some (fresh_socket fd 0 0 0)) none) { status = sx_status_running })
fresh-Owned fd = record { sock = fresh_socket fd 0 0 0; once = refl; held = refl; alone = refl }

pub status-Owned :
    (queue : Queue) (status : SxStatus) → Owned queue → Owned (record queue { status = status })
status-Owned queue status o = record {
  sock = o.sock;
  once = o.once;
  held = o.held;
  alone = o.alone;
}
