-- ===== src/Earlier/Starting.antt =====
-- The start of a client, `SXStartClient` in Examples/HTTP-proxy/SXClient.c, with an address or with the
-- name of a host, up to the dispatch of its loop.
use spartan_x.Prelude.{
  ℕ, Option, none, some, List, [], ◌∷◌, ◌++◌, ◌==◌, if◌then◌else◌, length, replicate, ◌-◌, Outcome,
  crash, done, ◌>>=◌,
}
use spartan_x.Status.{succeeded}
use spartan_x.Socket.{Net, ErrCell, af_inet, af_inet6, htons}
use spartan_x.Socket.Dns.{AddrInfo, Resolver}
use spartan_x.Earlier.{release_socket, SharedSocket}
use spartan_x.Earlier.Sockets.{create_client_socket, socket_connect}
use spartan_x.Earlier.Client.{Client, ClientType, use_hostname, use_ipaddr}

-- Where the start of a client leads: its loop is dispatched, or the connection failed.
pub data Start : Type 0 where
  dispatched : Client → Start
  refused : Client → Start

-- `SXStartClient_ip` up to the dispatch. The error of the socket's creation is not asked for.
unfoldable pub connect_ip : Net → Client → Option SharedSocket → Outcome Start
connect_ip net client none = crash
connect_ip net client (some sock) =
    let client = record client { socket = some sock } in
    if succeeded (socket_connect net sock) then done (dispatched client) else done (refused client)

unfoldable pub start_client_ip : Net → Client → Outcome Start
unfolding connect_ip
start_client_ip net client =
    create_client_socket net client.target client.port client.preferred_af_inet client.sock_type
      client.protocol none
    >>= λ (sock, _). connect_ip net client sock

-- `inet_ntop` for the family of the first entry and the address of another, with the first entry's
-- length: the text, or `none` for a failure.
abbrev pub Ntop : Type 0
Ntop = AddrInfo → AddrInfo → Option (List ℕ)

-- The buffer of 50 bytes behind the two tests.
unfoldable pub address_text : Ntop → AddrInfo → AddrInfo → List ℕ
address_text ntop info cinfo =
    let empty = replicate 50 0 in
    let text : List ℕ = elim (ntop info cinfo) [
      | none ↦ empty
      | some t ↦ t ++ replicate (50 - length t) 0
    ] in
    if cinfo.ai_family == af_inet then text else if info.ai_family == af_inet6 then text else empty

-- A socket that does not connect is released, and the client keeps the pointer to it, which is `none`
-- where the release gave the socket back; `retry` is the rest of the loop.
unfoldable pub try_socket :
    Net → Client → (Client → Outcome Start) → Option SharedSocket × ErrCell → Outcome Start
unfolding release_socket
try_socket net client retry (none, _) = crash
try_socket net client retry (some sock, _) =
    if succeeded (socket_connect net sock)
    then done (dispatched (record client { socket = some sock }))
    else retry (record client { socket = (release_socket sock).0 })

-- An entry, for what `getservbyname` answered.
unfoldable pub try_named :
    Net → Ntop → AddrInfo → AddrInfo → Client → (Client → Outcome Start) → Option ℕ → Outcome Start
unfolding address_text try_socket
try_named net ntop info cinfo client retry none = crash
try_named net ntop info cinfo client retry (some s_port) =
    let named = record client { port = htons s_port } in
    create_client_socket net (address_text ntop info cinfo) named.port info.ai_family
      named.sock_type 0 none
    >>= try_socket net named retry

-- The block that is dispatched reads the client's socket; `none` is a null pointer or one to a socket
-- that was given back.
unfoldable pub unconnected : Client → Option SharedSocket → Outcome Start
unconnected client none = crash
unconnected client (some _) = done (dispatched client)

-- The loop over the entries, of which `info` is the first. At the end of the entries the block is
-- dispatched with the socket that the client has then.
unfoldable pub try_entries :
    Net → Resolver → Ntop → AddrInfo → List AddrInfo → Client → Outcome Start
unfolding try_named unconnected
try_entries net res ntop info [] client = unconnected client client.socket
try_entries net res ntop info (cinfo ∷ rest) client =
    try_named net ntop info cinfo client (try_entries net res ntop info rest)
      (res.getservbyname client.service)

-- For what `getaddrinfo` answered. After a failed lookup, `info` is read all the same, although nothing
-- was stored in it; without an entry, the block reads the socket that the client had.
unfoldable pub start_with : Net → Resolver → Ntop → Client → Option (List AddrInfo) → Outcome Start
unfolding try_entries unconnected
start_with net res ntop client none = crash
start_with net res ntop client (some []) = unconnected client client.socket
start_with net res ntop client (some (info ∷ rest)) =
    try_entries net res ntop info (info ∷ rest) client

-- `SXStartClient_h` up to the dispatch.
unfoldable pub start_client_h : Net → Resolver → Ntop → Client → Outcome Start
unfolding start_with
start_client_h net res ntop client =
    start_with net res ntop client (res.getaddrinfo client.target client.service 0)

unfoldable pub start_by : Net → Resolver → Ntop → Client → ClientType → Outcome Start
unfolding start_client_h start_client_ip
start_by net res ntop client use_hostname = start_client_h net res ntop client
start_by net res ntop client use_ipaddr = start_client_ip net client

unfoldable pub start_client : Net → Resolver → Ntop → Client → Outcome Start
unfolding start_by
start_client net res ntop client = start_by net res ntop client client.type
