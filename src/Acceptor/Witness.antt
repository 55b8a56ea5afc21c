-- ===== src/Acceptor/Witness.antt =====
-- Tests of the accepting loop, and its theorems at concrete schedules.
use spartan_x.Prelude.{◌≡◌, refl, true, false, some, [], ◌∷◌, pos, arith, ◌≤◌, int_max}
use spartan_x.Status.{sx_status_running}
use spartan_x.Server.{Server}
use spartan_x.Server.Witness.{fresh}
use spartan_x.Acceptor.{Pass, Guests, passes, finishes, no_guests, step, run}
use spartan_x.Acceptor.Slots.{IsValid, run-IsValid, run-exhausted}

-- A server for one guest at a time, which asks whether a guest may connect.
abbrev narrow : Server
narrow = record fresh { max_guest = 1; should_connect = some 1 }

abbrev guest : Pass
guest = record {
  at_test = sx_status_running;
  after_listen = sx_status_running;
  accepted = pos 7;
  admits = true;
}

abbrev refused : Pass
refused = record guest { admits = false }

abbrev one_turned_away : Guests
one_turned_away = record no_guests { count = 1; turned_away = 1 }

-- A slot is free again behind a connection that ended, and is not behind a refused guest.
served_again : (run narrow (passes guest ∷ finishes ∷ passes guest ∷ []) no_guests).active ≡ 1
unfolding run step
served_again = refl

locked_out : run narrow (passes refused ∷ passes guest ∷ []) no_guests ≡ one_turned_away
unfolding run step
locked_out = refl

run-IsValid_example :
    IsValid narrow (run narrow (passes guest ∷ finishes ∷ passes refused ∷ []) no_guests)
    × ((run narrow (passes guest ∷ finishes ∷ passes refused ∷ []) no_guests).count ≤ int_max)
run-IsValid_example =
    run-IsValid narrow (passes guest ∷ finishes ∷ passes refused ∷ []) (omega arith)

run-exhausted_example : (run narrow (passes guest ∷ passes guest ∷ []) one_turned_away).active ≡ 0
run-exhausted_example =
    run-exhausted narrow (passes guest ∷ passes guest ∷ []) one_turned_away
      (record { counted = refl; bounded = omega arith }) refl
