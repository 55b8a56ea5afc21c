-- ===== src/System/Taking.antt =====
-- What `accept` and the question whether a guest may connect leave of a running server.
use spartan_x.Prelude.{suc, ◌≡◌, ◌≢◌, ◌⊎◌, inl, inr, refl}
use spartan_x.Acceptor.{Verdict, serves, turns_away, leaves, waits, crashes}
use spartan_x.System.{System, testing, starting, received}

pub received-server : (w : Verdict) (s : System) → (received w s).server ≡ s.server
received-server serves s = refl
received-server turns_away s = refl
received-server leaves s = refl
received-server waits s = refl
received-server crashes s = refl

pub received-acceptor : (w : Verdict) (s : System) → (received w s).acceptor ≡ testing
received-acceptor serves s = refl
received-acceptor turns_away s = refl
received-acceptor leaves s = refl
received-acceptor waits s = refl
received-acceptor crashes s = refl

pub received-conns : (w : Verdict) (s : System) → (received w s).conns ≡ s.conns
received-conns serves s = refl
received-conns turns_away s = refl
received-conns leaves s = refl
received-conns waits s = refl
received-conns crashes s = refl

-- At most one block is added.
pub received-pending :
    (w : Verdict) (s : System)
    → ((received w s).pending ≡ s.pending) ⊎ ((received w s).pending ≡ suc s.pending)
received-pending serves s = inr refl
received-pending turns_away s = inl refl
received-pending leaves s = inl refl
received-pending waits s = inl refl
received-pending crashes s = inl refl

pub stands_apart : testing ≢ starting
stands_apart e = cc
