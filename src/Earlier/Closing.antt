-- ===== src/Earlier/Closing.antt =====
-- When a connection of the earlier copy closes its descriptor.
use spartan_x.Prelude.{
  ℕ, suc, ◌<◌, ◌≡◌, refl, Bool, true, false, Bool-cases, inl, inr, Option, none, some, [], ◌∷◌,
  arith, ◌==◌, if◌then◌else◌, crash, done,
}
use spartan_x.Earlier.{
  SharedSocket, Queue, down, release_queue, free_queue, release_socket, create_queue,
}

down-suc : (n : ℕ) → suc n < 410 → down (suc n) ≡ n
down-suc n h = omega arith

-- The release of the last owner of a connection frees it and gives up one owner of its socket: the
-- descriptor is closed exactly if the socket had no other owner.
pub release_queue-last :
    (queue : Queue) (sock : SharedSocket) (k : ℕ)
    → queue.sock ≡ some sock
    → queue.ref_count ≡ 1
    → sock.ref_count ≡ suc k
    → suc k < 410
    → release_queue queue
      ≡ done (record {
        queue = none;
        sock = if k == 0 then none else some (record sock { ref_count = k });
        closed = if k == 0 then sock.sockfd ∷ [] else [];
      })
unfolding release_queue free_queue release_socket
release_queue-last queue sock k held one owners small =
    let shy : (suc k == 410) ≡ false = ground arith in
    elim (Bool-cases (k == 0)) [
      | inl last ↦ simp (held, one, owners, shy, down-suc k small, last)
      | inr more ↦ simp (held, one, owners, shy, down-suc k small, more)
    ]

-- `SXCreateQueue` of the earlier copy crashes for a null socket, whether or not the caller gives a
-- place for the error: the new connection is released together with the socket that it lacks.
pub create_queue-null :
    (gcd_queue : Option ℕ) (has_err_ret : Bool) → create_queue none gcd_queue has_err_ret ≡ crash
unfolding create_queue release_queue free_queue
create_queue-null gcd_queue true = refl
create_queue-null gcd_queue false = refl
