-- ===== src/Object/Witness.antt =====
-- Tests of reference counting, and its theorems at concrete histories.
use spartan_x.Prelude.{◌≡◌, refl, [], ◌∷◌, ◌++◌, some, arith, done, replicate}
use spartan_x.Object.{
  Object, free_socket, free_server, kept, deallocates, retains, releases, run, sx_weak_object,
  obj_init,
}
use spartan_x.Object.Owners.{owned, shown, owners, run-owners}
use spartan_x.Object.Sentinel.{run-weak, run-sentinel}

abbrev weak : Object
weak = record { ref_count = sx_weak_object; dealloc = some free_server }

shared :
    run (obj_init weak free_socket) (retains ∷ releases ∷ releases ∷ [])
    ≡ done (deallocates free_socket (owned 0 free_socket))
unfolding run obj_init
shared = refl

run-owners_example :
    run (owned 1 free_socket) (retains ∷ releases ∷ releases ∷ [])
    ≡ shown free_socket (owners 1 (retains ∷ releases ∷ releases ∷ []))
run-owners_example =
    run-owners 0 free_socket (retains ∷ releases ∷ releases ∷ []) (omega arith) (omega arith, tt)

run-weak_test : run weak (releases ∷ retains ∷ []) ≡ done (kept weak)
run-weak_test = run-weak weak (releases ∷ retains ∷ []) refl

run-sentinel_test :
    run (owned 408 free_server) (replicate 2 retains ++ releases ∷ [])
    ≡ done (kept (owned 410 free_server))
run-sentinel_test = run-sentinel 408 free_server (releases ∷ []) (omega arith)
