-- ===== src/Queue/Witness.antt =====
-- The theorems about connections at a concrete socket.
use spartan_x.Prelude.{◌≡◌, refl, some, none, pos, done, replicate}
use spartan_x.Object.{kept, releases, run, free_queue, sx_weak_object}
use spartan_x.Socket.{Socket, zeroed}
use spartan_x.Runtime
use spartan_x.Queue.{Queue, create_queue}
use spartan_x.Queue.Leak.{unowned, create_queue-releases, create_queue-sock}

-- The socket of a guest, marked as weak.
abbrev guest : Socket
guest = record zeroed {
  obj = record { ref_count = sx_weak_object; dealloc = none };
  sockfd = pos 9;
}

abbrev connection : Queue
connection = record {
  runtime = record (Runtime.zeroed) {
    sock = some (record guest { obj = record { ref_count = pos 1; dealloc = some free_queue } });
  };
  gcd_queue = none;
}

create_queue-releases_example :
    run connection.runtime.obj (replicate 3 releases) ≡ done (kept (unowned 2))
unfolding create_queue
create_queue-releases_example = create_queue-releases guest none 2 {queue = connection} refl

create_queue-sock_test :
    connection.runtime.sock
    ≡ some (record guest { obj = record { ref_count = pos 1; dealloc = some free_queue } })
unfolding create_queue
create_queue-sock_test = create_queue-sock guest none {queue = connection} refl
