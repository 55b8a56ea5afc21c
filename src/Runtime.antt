-- ===== src/Runtime.antt =====
-- Runtime objects: `sx_runtime_object_t` of src/sx_object.h, the handlers of src/sx_event.h, and the
-- functions of src/sx_object.c that suspend and resume an object and install its handlers.
pub mod Control
pub mod Witness
use spartan_x.Prelude.{ℕ, Option, none, some, [], ◌∷◌, pos, if◌then◌else◌}
use spartan_x.Status.{
  SxError, SxStatus, sx_success, succeeded, sx_error_invalid_server, sx_status_idle,
  sx_status_running, sx_status_resuming, sx_status_suspend, check_status, check_compatible_status,
}
use spartan_x.Object.{Object, Deallocator, obj_init}
use spartan_x.Socket.{Socket}

-- A block, by its address.
abbrev pub Block : Type 0
Block = ℕ

pub record Handlers : Type 0 where
  pub will_suspend : Option Block
  pub did_resume : Option Block
  pub did_connect : Option Block
  pub did_disconnect : Option Block
  pub will_kill : Option Block
  pub data_handler : Option Block
  pub err_handler : Option Block

abbrev pub no_handlers : Handlers
no_handlers = record {
  will_suspend = none;
  did_resume = none;
  did_connect = none;
  did_disconnect = none;
  will_kill = none;
  data_handler = none;
  err_handler = none;
}

pub record RuntimeObject : Type 0 where
  pub obj : Object
  pub sock : Option Socket
  pub data_size : ℕ
  pub recv_flags : ℕ
  pub send_flags : ℕ
  pub status : SxStatus
  pub handlers : Handlers

-- What `calloc` hands out.
abbrev pub zeroed : RuntimeObject
zeroed = record {
  obj = record { ref_count = pos 0; dealloc = none };
  sock = none;
  data_size = 0;
  recv_flags = 0;
  send_flags = 0;
  status = sx_status_idle;
  handlers = no_handlers;
}

unfoldable pub runtime_obj_init : RuntimeObject → Deallocator → RuntimeObject
unfolding obj_init
runtime_obj_init o dealloc = record o {
  obj = obj_init o.obj dealloc;
  send_flags = 0;
  recv_flags = 0;
  status = sx_status_idle;
}

unfoldable pub suspend_object : Option RuntimeObject → Option RuntimeObject × SxError
suspend_object none = (none, sx_error_invalid_server)
suspend_object (some o) =
    let err = check_compatible_status o.status (sx_status_idle ∷ sx_status_running ∷ []) in
    if succeeded err
    then (some (record o { status = sx_status_suspend }), sx_success)
    else (some o, err)

unfoldable pub resume_object : Option RuntimeObject → Option RuntimeObject × SxError
resume_object none = (none, sx_error_invalid_server)
resume_object (some o) =
    let err = check_status o.status sx_status_suspend in
    if succeeded err
    then (some (record o { status = sx_status_resuming }), sx_success)
    else (some o, err)

-- The setters of `sx_runtime_object_t`, by the handler that they set.
pub data Slot : Type 0 where
  will_suspend did_resume did_connect did_disconnect will_kill did_receive did_recv_error : Slot

unfoldable pub set_handler : Slot → Option Block → Handlers → Handlers
set_handler Slot.did_connect h hs = record hs { did_connect = h }
set_handler Slot.did_disconnect h hs = record hs { did_disconnect = h }
set_handler Slot.will_kill h hs = record hs { will_kill = h }
set_handler Slot.did_receive h hs = record hs { data_handler = h }
set_handler Slot.did_recv_error h hs = record hs { err_handler = h }
set_handler Slot.will_suspend h hs = record hs { will_suspend = h }
set_handler Slot.did_resume h hs = record hs { did_resume = h }

unfoldable pub runtime_object_set_block : Slot → RuntimeObject → Option Block → RuntimeObject
unfolding set_handler
runtime_object_set_block slot o h = record o { handlers = set_handler slot h o.handlers }

-- The six `transfer_fn` of src/SXServer.c, from a server's handlers to those of a connection.
unfoldable pub transfer_handlers : Handlers → Handlers → Handlers
transfer_handlers queue server = record queue {
  did_connect = server.did_connect;
  data_handler = server.data_handler;
  did_disconnect = server.did_disconnect;
  will_suspend = server.will_suspend;
  did_resume = server.did_resume;
  will_kill = server.will_kill;
}
