-- ===== src/Lifetime/Witness.antt =====
-- A server at concrete schedules.
use spartan_x.Prelude.{◌≡◌, refl, true, false, [], ◌∷◌, arith, crash, done}
use spartan_x.Object.{free_server}
use spartan_x.Object.Owners.{owned}
use spartan_x.Lifetime.{
  Holders, alive, owner_releases, dispatches, begins, ends, leaves, run, launch,
}
use spartan_x.Lifetime.Holding.{run-launch, run-last_leave, run-late_block}

run-launch_example :
    run (dispatches ∷ begins ∷ owner_releases ∷ leaves ∷ ends ∷ []) (launch 2 (owned 2 free_server))
    ≡ done (
        alive
          (record { looping = false; pending = 0; serving = 0; owners = 1 })
          (owned 1 free_server))
run-launch_example =
    run-launch 2 (dispatches ∷ begins ∷ owner_releases ∷ leaves ∷ ends ∷ []) (omega arith)
      (omega arith)
      ((
        omega arith,
        omega arith,
        (
          omega arith,
          omega arith,
          (omega arith, omega arith, (omega arith, omega arith, (omega arith, omega arith, tt))),
        ),
      ))

abbrev abandoned : Holders
abandoned = record { looping = true; pending = 3; serving = 0; owners = 0 }

run-last_leave_example : run (leaves ∷ []) (alive abandoned (owned 1 free_server)) ≡ crash
run-last_leave_example = run-last_leave abandoned [] refl refl

abbrev late : Holders
late = record { looping = false; pending = 1; serving = 1; owners = 0 }

run-late_block_example :
    run (ends ∷ begins ∷ dispatches ∷ []) (alive late (owned 1 free_server)) ≡ crash
run-late_block_example = run-late_block late (dispatches ∷ []) refl refl refl (omega arith)
