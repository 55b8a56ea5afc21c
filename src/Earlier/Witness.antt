-- ===== src/Earlier/Witness.antt =====
-- Concrete connections, clients and servers of the earlier copy, and its theorems at them.
use spartan_x.Prelude.{
  ℕ, ◌≡◌, refl, inr, true, false, some, none, List, [], ◌∷◌, pos, length, replicate, size_max,
  crash, done, arith,
}
use spartan_x.Status.{sx_success, sx_status_running, sx_status_suspend, sx_status_resuming}
use spartan_x.Acceptor
use spartan_x.Acceptor.{Pass, passes, finishes, no_guests}
use spartan_x.Server as Current
use spartan_x.Server.Witness.{fresh}
use spartan_x.Socket.{zero_addr, af_inet}
use spartan_x.Socket.Witness.{down}
use spartan_x.Strings.Memory.{strlen, strncpy}
use spartan_x.Earlier.{
  SharedSocket, Queue, HandlerSet, no_handler_set, fresh_queue, release_queue, create_queue,
}
use spartan_x.Earlier.Client.{
  Client, create_client_with_hostname, release_client, zeroed, use_hostname,
}
use spartan_x.Earlier.Receiving.{run}
use spartan_x.Earlier.Server.{Server, blank, release_server, suspend_server, resume_server}
use spartan_x.Kqueue
use spartan_x.Kqueue.{listener, connection}
use spartan_x.Kqueue.Waiting
use spartan_x.Kqueue.Waiting.{Batch}
use spartan_x.Earlier.Kqueue.{empty, handle_event, handle_events, wait_events}
use spartan_x.Earlier.Refinement.{view, Simulates, wait_events-Simulates}
use spartan_x.Earlier.Descriptors.{Paired, wait_events-Paired}
use spartan_x.Earlier.Serving
use spartan_x.Earlier.Closing.{release_queue-last, create_queue-null}
use spartan_x.Earlier.Clients.{
  lengths, before_zero, state_after, run-lengths, release_client-unstarted,
  create_client_with_hostname-target,
}
use spartan_x.Earlier.Scope.{
  IfAddr, matches, get_scope_for_ip, get_scope_for_ip-first, get_scope_for_ip-zoned,
}
use spartan_x.Earlier.Servers.{release_server-closes, resume_server-suspend}
use spartan_x.Earlier.Same.{handlers_of, run-same}

abbrev shared : SharedSocket
shared = record {
  sockfd = pos 9;
  protocol = 0;
  domain = 2;
  type = 1;
  port = 80;
  blocking = true;
  addr = zero_addr;
  ref_count = 1;
}

abbrev served : Queue
served = record (fresh_queue (some shared) (some 3)) { status = sx_status_running }

release_queue-last_test :
    release_queue served ≡ done (record { queue = none; sock = none; closed = pos 9 ∷ [] })
release_queue-last_test = release_queue-last served shared 0 refl refl refl (omega arith)

create_queue-null_test : create_queue none (some 3) true ≡ crash
create_queue-null_test = create_queue-null (some 3) true

abbrev with_handler : HandlerSet
with_handler = record no_handler_set { data_handler = some 7 }

abbrev running_server : Server
running_server = record blank {
  socket = some shared;
  blocks = with_handler;
  max_guest = 2;
  status = sx_status_running;
  ref_count = 1;
}

release_server-closes_test :
    release_server down running_server
    ≡ done (record { server = none; closed = pos 9 ∷ []; err = sx_success })
release_server-closes_test = release_server-closes down running_server shared refl refl

resume_server-suspend_test :
    (suspend_server (some running_server)
      ≡ (some (record running_server { status = sx_status_suspend }), sx_success))
    × (resume_server (suspend_server (some running_server)).0
        ≡ (some (record running_server { status = sx_status_resuming }), sx_success))
resume_server-suspend_test = resume_server-suspend running_server (omega arith) (inr refl)

abbrev listening : Client
listening = record zeroed {
  fptrs = record { data_handler = some 7; err_handler = none; disconnect = none };
  ref_count = pos 1;
}

-- The second `recv` fails.
abbrev answers : List ℕ
answers = 12 ∷ size_max ∷ 0 ∷ 5 ∷ []

run-lengths_example :
    (lengths (run false listening answers).1 ≡ before_zero answers)
    × ((run false listening answers).0 ≡ state_after answers)
run-lengths_example = run-lengths false listening answers refl

-- One character and its end.
abbrev short : List ℕ
short = 104 ∷ 0 ∷ []

abbrev named : Client
named = record zeroed {
  type = use_hostname;
  priority = pos 0;
  buf_size = pos 64;
  preferred_af_inet = 2;
  sock_type = 1;
  ref_count = pos 1;
  target = 104 ∷ replicate 254 0;
  service = 104 ∷ replicate 54 0;
}

created : create_client_with_hostname true short short 1 2 (pos 64) (pos 0) ≡ done named
unfolding create_client_with_hostname strncpy
created = refl

release_client-unstarted_test : release_client named ≡ crash
release_client-unstarted_test =
    release_client-unstarted short short 1 2 (pos 64) (pos 0) named created

create_client_with_hostname-target_test : strlen named.target ≡ done 1
create_client_with_hostname-target_test =
    create_client_with_hostname-target (104 ∷ []) [] short 1 2 (pos 64) (pos 0) named
      (omega arith, tt) created

abbrev guest : Pass
guest = record {
  at_test = sx_status_running;
  after_listen = sx_status_running;
  accepted = pos 7;
  admits = true;
}

abbrev current : Current.Server
current = record fresh {
  runtime = record (fresh.runtime) {
    handlers = record (fresh.runtime.handlers) { err_handler = some 9 };
  };
  max_guest = 2;
}

run-same_test :
    Serving.run true running_server (passes guest ∷ finishes ∷ passes guest ∷ []) no_guests
    ≡ Acceptor.run current (passes guest ∷ finishes ∷ passes guest ∷ []) no_guests
run-same_test =
    run-same true running_server current (passes guest ∷ finishes ∷ passes guest ∷ []) no_guests
      refl refl refl

-- A guest comes, sends 12 bytes, and hangs up.
abbrev arrived : Kqueue.Round
arrived = record {
  server_status = sx_status_running;
  stored = none;
  received = 12;
  stored_meanwhile = none;
  answer = 12;
  s_unset = 0;
  suspended_unset = false;
}

abbrev batches : List Batch
batches =
    record {
      at_test = sx_status_running;
      n_ev_changes = pos 2;
      events = listener (pos 11) ∷ connection 0 arrived ∷ [];
    }
    ∷ record {
      at_test = sx_status_running;
      n_ev_changes = pos 1;
      events = connection 0 (record arrived { received = size_max }) ∷ [];
    }
    ∷ []

closed_twice : (wait_events true running_server batches empty).0.closed ≡ pos 11 ∷ pos 11 ∷ []
unfolding wait_events handle_events handle_event
closed_twice = refl

wait_events-Paired_example : Paired (wait_events true running_server batches empty).0.closed
wait_events-Paired_example = wait_events-Paired true running_server batches

abbrev serving : Current.Server
serving = record current {
  runtime = record (current.runtime) {
    handlers = handlers_of true running_server.blocks running_server.fptrs;
  };
}

wait_events-Simulates_example :
    Simulates
      (wait_events true running_server batches empty).0
      (Waiting.wait_events serving batches (view empty)).0
    × ((wait_events true running_server batches empty).1
        ≡ (Waiting.wait_events serving batches (view empty)).1)
wait_events-Simulates_example =
    wait_events-Simulates true running_server serving refl refl batches empty tt

-- The interfaces of a machine: one of IPv4, and two with the address "ab" in two zones.
abbrev interfaces : List IfAddr
interfaces =
    record { family = some af_inet; numeric = 97 ∷ 98 ∷ 37 ∷ []; name = 1 ∷ [] }
    ∷ record { family = some 30; numeric = 97 ∷ 98 ∷ 37 ∷ 50 ∷ []; name = 2 ∷ [] }
    ∷ record { family = some 30; numeric = 97 ∷ 98 ∷ 37 ∷ 51 ∷ []; name = 3 ∷ [] }
    ∷ []

get_scope_for_ip-first_test :
    get_scope_for_ip (λ name. length name) (some interfaces) (97 ∷ 98 ∷ []) ≡ done 1
unfolding matches
get_scope_for_ip-first_test =
    get_scope_for_ip-first (λ name. length name) (97 ∷ 98 ∷ []) (50 ∷ [])
      (record { family = some af_inet; numeric = 97 ∷ 98 ∷ 37 ∷ []; name = 1 ∷ [] } ∷ [])
      (record { family = some 30; numeric = 97 ∷ 98 ∷ 37 ∷ 51 ∷ []; name = 3 ∷ [] } ∷ [])
      (record { family = some 30; numeric = 97 ∷ 98 ∷ 37 ∷ 50 ∷ []; name = 2 ∷ [] })
      (omega arith, (omega arith, tt)) refl refl (refl, tt)

get_scope_for_ip-zoned_test :
    get_scope_for_ip (λ name. length name) (some interfaces) (97 ∷ 98 ∷ 37 ∷ 50 ∷ []) ≡ done 0
get_scope_for_ip-zoned_test =
    get_scope_for_ip-zoned (λ name. length name) interfaces (97 ∷ 98 ∷ []) (50 ∷ [])
