-- ===== src/Earlier/Client.antt =====
-- The clients of Examples/HTTP-proxy/SXClient.c: their creation and their owners.
use spartan_x.Prelude.{
  ℕ, Bool, Option, none, some, List, [], ◌==ℤ◌, if◌then◌else◌, ℤ, pos, increment, decrement,
  replicate, Outcome, crash, done, ◌>>=◌,
}
use spartan_x.Object.{sx_weak_object}
use spartan_x.Runtime.{Block}
use spartan_x.Strings.Memory.{strncpy}
use spartan_x.Earlier.{SharedSocket, release_socket}

pub data ClientType : Type 0 where
  use_hostname use_ipaddr : ClientType

-- The handlers, as blocks or as function pointers.
pub record Callbacks : Type 0 where
  pub data_handler : Option Block
  pub err_handler : Option Block
  pub disconnect : Option Block

abbrev pub no_callbacks : Callbacks
no_callbacks = record { data_handler = none; err_handler = none; disconnect = none }

pub record Client : Type 0 where
  pub socket : Option SharedSocket
  pub target : List ℕ
  pub service : List ℕ
  pub preferred_af_inet : ℕ
  pub sock_type : ℕ
  pub protocol : ℕ
  pub buf_size : ℤ
  pub port : ℕ
  pub type : ClientType
  pub priority : ℤ
  pub blocks : Callbacks
  pub fptrs : Callbacks
  pub ref_count : ℤ

-- The memory of a client as `calloc` returns it; the enumeration's first value is `use_hostname`.
abbrev pub zeroed : Client
zeroed = record {
  socket = none;
  target = replicate 255 0;
  service = replicate 55 0;
  preferred_af_inet = 0;
  sock_type = 0;
  protocol = 0;
  buf_size = pos 0;
  port = 0;
  type = use_hostname;
  priority = pos 0;
  blocks = no_callbacks;
  fptrs = no_callbacks;
  ref_count = pos 0;
}

-- `err_ret` is not used.
unfoldable pub create_client_with_hostname :
    Bool
    → List ℕ
    → List ℕ
    → (sock_type preferred_af_inet : ℕ) → (buf_size priority : ℤ) → Outcome Client
create_client_with_hostname calloc_ok hostname service sock_type preferred_af_inet buf_size
      priority =
    if calloc_ok
    then (strncpy 255 hostname >>= λ target.
        (strncpy 55 service >>= λ named. done (record zeroed {
          type = use_hostname;
          priority = priority;
          buf_size = buf_size;
          preferred_af_inet = preferred_af_inet;
          sock_type = sock_type;
          ref_count = pos 1;
          target = target;
          service = named;
        })))
    else crash

unfoldable pub create_client_with_ip :
    Bool → List ℕ → (port domain type protocol : ℕ) → (buf_size priority : ℤ) → Outcome Client
create_client_with_ip calloc_ok ip port domain type protocol buf_size priority =
    if calloc_ok
    then (strncpy 255 ip >>= λ target. done (record zeroed {
      priority = priority;
      preferred_af_inet = domain;
      type = use_ipaddr;
      sock_type = type;
      port = port;
      protocol = protocol;
      buf_size = buf_size;
      ref_count = pos 1;
      target = target;
    }))
    else crash

unfoldable pub retain_client : Client → Client
retain_client client =
    if client.ref_count ==ℤ sx_weak_object
    then client
    else record client { ref_count = increment client.ref_count }

-- What is left of the client, and the descriptors that are closed.
unfoldable pub free_client : Client → Outcome (Option Client × List ℤ)
unfolding release_socket
free_client client = elim client.socket [
  | none ↦ crash
  | some sock ↦ done (none, (release_socket sock).1)
]

unfoldable pub release_client : Client → Outcome (Option Client × List ℤ)
unfolding free_client
release_client client =
    if client.ref_count ==ℤ sx_weak_object
    then done (some client, [])
    else (let left = record client { ref_count = decrement client.ref_count } in
        if left.ref_count ==ℤ pos 0 then free_client left else done (some left, []))

-- The macro `eval`, which picks the block or the function pointer.
abbrev pub chosen : Bool → Option Block → Option Block → Option Block
chosen use_block_handler block fptr = if use_block_handler then block else fptr
