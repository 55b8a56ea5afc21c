-- ===== src/Queue.antt =====
-- A connection, src/SXQueue.c and `sx_queue_t` of src/SXQueue.h.
pub mod Leak
pub mod Witness
use spartan_x.Prelude.{ℕ, Bool, Option, none, some, if◌then◌else◌, Outcome, crash, done, ◌>>=◌}
use spartan_x.Status.{SxError, sx_success}
use spartan_x.Object
use spartan_x.Object.{Object, Released, kept, deallocates, free_queue, obj_init}
use spartan_x.Socket.{Socket}
use spartan_x.Runtime.{RuntimeObject, zeroed}

pub record Queue : Type 0 where
  pub runtime : RuntimeObject
  pub gcd_queue : Option ℕ

-- `SXCreateQueue`. The initialised object is the one of the socket. A null socket is written
-- through before it is tested, so the code behind the test is not reached.
unfoldable pub create_queue : Bool → Option Socket → Option ℕ → Outcome Queue
unfolding obj_init
create_queue calloc_ok none gcd_queue = crash
create_queue calloc_ok (some sock) gcd_queue =
    if calloc_ok
    then done (record {
      runtime = record zeroed { sock = some (record sock { obj = obj_init sock.obj free_queue }) };
      gcd_queue = gcd_queue;
    })
    else crash

-- `SXRelease` on a connection.
unfoldable pub release_queue : Queue → Outcome (Released Queue)
release_queue queue = Object.release queue.runtime.obj >>= λ r. (elim r [
  | kept obj ↦ done (kept (record queue { runtime = record (queue.runtime) { obj = obj } }))
  | deallocates d obj ↦
      done (deallocates d (record queue { runtime = record (queue.runtime) { obj = obj } }))
])

-- `SXFreeQueue`: what the release of its socket leaves. The memory of the connection is given back.
unfoldable pub free_queue_ref : Queue → Outcome (Released Object.Object)
free_queue_ref queue = elim queue.runtime.sock [
  | none ↦ crash
  | some sock ↦ Object.release sock.obj
]
