-- ===== src/Socket/Dns.antt =====
-- `dns_lookup` of src/SXSocket.c. The resolver is the parameter `Resolver`.
use spartan_x.Prelude.{
  ℕ, ◌/◌, ◌%◌, ◌^◌, Option, none, some, List, [], ◌∷◌, ◌==◌, if◌then◌else◌, Outcome, crash, done,
  ◌>>=◌,
}
use spartan_x.Status.{SxError, sx_success, sx_error_sys_get_addr_info}
use spartan_x.Socket.{Socket, af_inet, af_inet6, sizeof_sockaddr_in, sizeof_sockaddr_in6, htons}

-- A `struct addrinfo`: `ai_addr` is the pointer's value, and `ai_behind` the 16 bytes that lie
-- from the 8th byte behind the start of that field on.
pub record AddrInfo : Type 0 where
  pub ai_family : ℕ
  pub ai_socktype : ℕ
  pub ai_protocol : ℕ
  pub ai_addr : ℕ
  pub ai_behind : ℕ

-- `getaddrinfo` with its list, or `none` for an error; and the port of `getservbyname`, or `none`
-- for a null pointer. A hint is a pointer.
pub record Resolver : Type 0 where
  pub getaddrinfo : List ℕ → List ℕ → ℕ → Option (List AddrInfo)
  pub getservbyname : List ℕ → Option ℕ

-- `sockaddr_in(cinfo->ai_addr)` reads the bytes of the pointer field itself, so its `sin_addr` is
-- the upper half of the pointer.
unfoldable pub fill_inet : Socket → AddrInfo → ℕ → Socket
fill_inet sock cinfo port = record sock {
  domain = af_inet;
  type = cinfo.ai_socktype;
  protocol = cinfo.ai_protocol;
  addr = record {
    len = sizeof_sockaddr_in;
    family = af_inet;
    port = port;
    ip = cinfo.ai_addr / 2 ^ 32 % 2 ^ 32;
  };
}

unfoldable pub fill_inet6 : Socket → AddrInfo → ℕ → Socket
fill_inet6 sock cinfo port = record sock {
  addr = record { len = sizeof_sockaddr_in6; family = af_inet6; port = port; ip = cinfo.ai_behind };
}

-- The `while` loop with `cinfo` at the head of the list. A round moves on to the next entry before
-- it looks at one.
unfoldable pub walk : ℕ → Socket → List AddrInfo → Outcome Socket
unfolding fill_inet fill_inet6
walk port sock [] = done sock
walk port sock (_ ∷ []) = crash
walk port sock (_ ∷ cinfo ∷ rest) =
    let continued = walk port sock (cinfo ∷ rest) in
    if cinfo.ai_family == af_inet
    then done (fill_inet sock cinfo port)
    else if cinfo.ai_family == af_inet6
    then done (fill_inet6 sock cinfo port)
    else continued

-- The port is looked up anew in each round, with the same result.
unfoldable pub search_entries : Resolver → Socket → List ℕ → List AddrInfo → Outcome Socket
unfolding walk htons
search_entries res sock service [] = done sock
search_entries res sock service (cinfo ∷ rest) = elim (res.getservbyname service) [
  | none ↦ crash
  | some s_port ↦ walk (htons s_port) sock (cinfo ∷ rest)
]

unfoldable pub dns_lookup : Resolver → Socket → List ℕ → List ℕ → ℕ → Outcome (Socket × SxError)
unfolding search_entries
dns_lookup res sock hostname service hint = elim (res.getaddrinfo hostname service hint) [
  | none ↦ done (sock, sx_error_sys_get_addr_info)
  | some info ↦ search_entries res sock service info >>= λ found. done (found, sx_success)
]
