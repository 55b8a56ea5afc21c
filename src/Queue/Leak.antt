-- ===== src/Queue/Leak.antt =====
-- Who owns a connection and its socket.
use spartan_x.Prelude.{
  ℕ, zero, suc, ◌+◌, ◌≡◌, sym, ap, subst, true, Option, none, some, pos, negsuc, arith, replicate,
  done, done-injective,
}
use spartan_x.Object.{Object, kept, releases, run, free_queue}
use spartan_x.Socket.{Socket}
use spartan_x.Queue.{Queue, create_queue}

abbrev pub unowned : ℕ → Object
unowned n = record { ref_count = negsuc n; dealloc = none }

descend : (n m : ℕ) → run (unowned m) (replicate n releases) ≡ done (kept (unowned (m + n)))
unfolding run
descend zero m = let e : m + 0 ≡ m = omega arith in rw e
descend (suc n) m = let e : m + suc n ≡ suc m + n = omega arith in rw e (descend n (suc m))

-- A connection that `SXCreateQueue` made is not deallocated by any number of releases: they take
-- its count below zero.
pub create_queue-releases :
    (sock : Socket) (gcd_queue : Option ℕ) (n : ℕ) {queue : Queue}
    → create_queue true (some sock) gcd_queue ≡ done queue
    → run queue.runtime.obj (replicate (suc n) releases) ≡ done (kept (unowned n))
unfolding create_queue run
create_queue-releases sock gcd_queue n e =
    subst (λ (q : Queue). run q.runtime.obj (replicate (suc n) releases) ≡ done (kept (unowned n)))
      (done-injective e) (let z : 0 + n ≡ n = omega arith in rw z at (descend n 0))

-- `SXCreateQueue` makes itself the only owner of the socket and installs the deallocator of
-- connections there, also where the socket was marked as weak.
pub create_queue-sock :
    (sock : Socket) (gcd_queue : Option ℕ) {queue : Queue}
    → create_queue true (some sock) gcd_queue ≡ done queue
    → queue.runtime.sock
      ≡ some (record sock { obj = record { ref_count = pos 1; dealloc = some free_queue } })
unfolding create_queue
create_queue-sock sock gcd_queue e = ap (λ (q : Queue). q.runtime.sock) (sym (done-injective e))
