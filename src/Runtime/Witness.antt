-- ===== src/Runtime/Witness.antt =====
-- Tests of suspending and resuming, and their theorems at concrete objects.
use spartan_x.Prelude.{◌≡◌, ◌≢◌, ◌⊎◌, refl, some, none, arith}
use spartan_x.Status.{
  sx_success, sx_error_invalid_server, sx_status_idle, sx_status_running, sx_status_resuming,
  sx_status_suspend, negated,
}
use spartan_x.Object.{free_client}
use spartan_x.Runtime.{
  RuntimeObject, zeroed, runtime_obj_init, suspend_object, resume_object, no_handlers,
  runtime_object_set_block, Slot, transfer_handlers,
}
use spartan_x.Runtime.Control.{suspend_object_lem, resume_object_lem}

abbrev started : RuntimeObject
started = record zeroed { status = sx_status_running }

null_object : suspend_object none ≡ (none, sx_error_invalid_server)
unfolding suspend_object
null_object = refl

initialised : (runtime_obj_init started free_client).status ≡ sx_status_idle
unfolding runtime_obj_init
initialised = refl

-- The error handler is not passed on to a connection.
errors_not_passed_on :
    (transfer_handlers no_handlers
      (runtime_object_set_block Slot.did_recv_error started (some 7)).handlers).err_handler
    ≡ none
unfolding transfer_handlers runtime_object_set_block
errors_not_passed_on = refl

suspend_object_lem_test :
    (((started.status ≡ sx_status_idle) ⊎ (started.status ≡ sx_status_running))
      × (suspend_object (some started)
          ≡ (some (record started { status = sx_status_suspend }), sx_success)))
    ⊎ ((started.status ≢ sx_status_idle)
        × (started.status ≢ sx_status_running)
        × (suspend_object (some started) ≡ (some started, negated started.status)))
suspend_object_lem_test = suspend_object_lem started (omega arith)

resume_object_lem_example :
    (((zeroed.status ≡ sx_status_suspend) ⊎ (zeroed.status ≡ sx_status_idle))
      × (resume_object (some zeroed)
          ≡ (some (record zeroed { status = sx_status_resuming }), sx_success)))
    ⊎ ((zeroed.status ≢ sx_status_suspend)
        × (zeroed.status ≢ sx_status_idle)
        × (resume_object (some zeroed) ≡ (some zeroed, negated zeroed.status)))
resume_object_lem_example = resume_object_lem zeroed (omega arith)
