-- ===== src/Status/Witness.antt =====
-- Tests of the status checks, and their theorems at concrete statuses.
use spartan_x.Prelude.{◌≡◌, refl, ◌↔◌, ◌⊎◌, true, false, [], ◌∷◌, arith}
use spartan_x.Status.{
  sx_success, sx_status_idle, sx_status_running, sx_status_suspend, sx_status_should_terminate,
  sx_error_invalid_socket, check_status, check_compatible_status, check_incompatible_status,
}
use spartan_x.Status.Checks.{
  contains, check_status-success, check_compatible_status-success,
  check_incompatible_status-success,
}

-- The code that refuses a running object is the one of an invalid socket.
running_refused : check_status sx_status_running sx_status_suspend ≡ sx_error_invalid_socket
unfolding check_status
running_refused = refl

idle_accepted : check_status sx_status_idle sx_status_suspend ≡ sx_success
unfolding check_status
idle_accepted = refl

check_status-success_test :
    (check_status sx_status_running sx_status_suspend ≡ sx_success)
    ↔ ((sx_status_running ≡ sx_status_suspend) ⊎ (sx_status_running ≡ sx_status_idle))
check_status-success_test = check_status-success sx_status_running sx_status_suspend (omega arith)

check_compatible_status-success_test :
    (check_compatible_status sx_status_running (sx_status_idle ∷ sx_status_running ∷ [])
      ≡ sx_success)
    ↔ ((contains sx_status_running (sx_status_idle ∷ sx_status_running ∷ []) ≡ true)
        ⊎ (sx_status_running ≡ sx_status_idle))
check_compatible_status-success_test =
    check_compatible_status-success sx_status_running (sx_status_idle ∷ sx_status_running ∷ [])
      (omega arith)

check_incompatible_status-success_test :
    (check_incompatible_status sx_status_suspend (sx_status_should_terminate ∷ []) ≡ sx_success) ↔ (
      (contains sx_status_suspend (sx_status_should_terminate ∷ []) ≡ false)
      ⊎ (sx_status_suspend ≡ sx_status_idle))
check_incompatible_status-success_test =
    check_incompatible_status-success sx_status_suspend (sx_status_should_terminate ∷ [])
      (omega arith)
