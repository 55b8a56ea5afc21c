-- ===== src/Server/Creation.antt =====
-- What `SXCreateServer` sets up and reports.
use spartan_x.Prelude.{
  ℕ, ◌%◌, ◌≡◌, refl, ◌⊎◌, inl, inr, true, Option, none, some, pos, ◌==◌, Bool-cases, if◌then◌else◌,
  u16_mod, done,
}
use spartan_x.Status.{SxError, sx_success, sx_status_idle}
use spartan_x.Object.{free_server}
use spartan_x.Socket.{Net, ErrCell, err_ret, af_inet, af_inet6, sock_stream}
use spartan_x.Socket.Opening.{opened, addr_len, create_server_socket-opened}
use spartan_x.Runtime.{Block, no_handlers}
use spartan_x.Server.{Server, Setup, live, create_server, finish_server}

-- Domain 1 stands for IPv4, any other for IPv6.
abbrev pub family : Setup → ℕ
family setup = if setup.domain == 1 then af_inet else af_inet6

-- A server as it is created: listening on the port's low 16 bits, idle, owned once, with the
-- message handler as its only handler, and with a `ref_count` of 0 beside the count of its object.
abbrev pub created : Net → Setup → Option Block → Server
created net setup msg_handl = record {
  runtime = record {
    obj = record { ref_count = pos 1; dealloc = some free_server };
    sock =
        some (
          opened net (addr_len (family setup)) (setup.port % u16_mod) (family setup) sock_stream 0);
    data_size = setup.data_size;
    recv_flags = 0;
    send_flags = 0;
    status = sx_status_idle;
    handlers = record no_handlers { data_handler = msg_handl };
  };
  did_start = none;
  should_connect = none;
  did_kill = none;
  backlog = setup.backlog;
  max_guest = setup.max_guest;
  failable = setup.failable;
  ref_count = 0;
}

pub family_cases : (setup : Setup) → (family setup ≡ af_inet) ⊎ (family setup ≡ af_inet6)
family_cases setup = elim (Bool-cases (setup.domain == 1)) [
  | inl e ↦ rw e (inl refl)
  | inr e ↦ rw e (inr refl)
]

-- With memory at hand, `SXCreateServer` yields the server of its setup and reports success, whatever
-- the network answers and whatever `tmp_err` held before.
pub create_server-created :
    (net : Net) (unset : SxError) (setup : Setup) (cell : ErrCell) (msg_handl : Option Block)
    → net.calloc_ok ≡ true
    → create_server net unset setup cell msg_handl
      ≡ done (live (created net setup msg_handl), err_ret cell sx_success)
unfolding create_server finish_server err_ret
create_server-created net unset setup cell msg_handl ok =
    simp (ok, create_server_socket-opened net _ _ _ _ (some unset) ok (family_cases setup)) refl
