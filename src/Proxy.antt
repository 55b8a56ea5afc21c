-- ===== src/Proxy.antt =====
-- The example, Examples/HTTP-proxy/main.c: what it makes of a request, and its handlers, which bridge a
-- connection of a server and a client of the earlier copy of the library. Messages are pairs of a
-- descriptor and a length.
pub mod Bridging
pub mod Main
pub mod Witness
use spartan_x.Prelude.{
  ℕ, ◌+◌, ◌-◌, ◌%◌, Bool, true, false, Option, none, some, List, [], ◌∷◌, ℤ, pos, u64_mod, ◌==◌,
  if◌then◌else◌, Outcome, crash, done, ◌>>=◌,
}
use spartan_x.Runtime.{Block}
use spartan_x.Socket.{Net, af_inet, sock_stream}
use spartan_x.Socket.Dns.{Resolver}
use spartan_x.Vector.{Vector, object_at, release_vector}
use spartan_x.Strings.{
  SxString, create_string_with_cstring, substring_location, sub_cstring_locations, release_string,
}
use spartan_x.Strings.Editing.{removing_range, remove_ocurrence_of_cstring}
use spartan_x.Strings.Replacing.{replacing_occurrences_of_string, substrings_trimmed_by_cstring}
use spartan_x.Earlier.{SharedSocket, retain_socket, release_socket}
use spartan_x.Earlier.Client.{Client, create_client_with_hostname, create_client_with_ip}
use spartan_x.Earlier.Starting.{Ntop, Start, dispatched, refused, start_client}

-- The result of `inet_pton` as a Boolean, so that it is true for an address.
unfoldable pub request_is_hostname : Net → SxString → Bool
request_is_hostname net string = elim (net.inet_pton af_inet string.chars) [
  | none ↦ false
  | some _ ↦ true
]

-- "://", " ", a line's end and "http", with their terminators.
abbrev pub scheme_end : List ℕ
scheme_end = 58 ∷ 47 ∷ 47 ∷ 0 ∷ []

abbrev pub space : List ℕ
space = 32 ∷ 0 ∷ []

abbrev pub line_end : List ℕ
line_end = 13 ∷ 10 ∷ 0 ∷ []

abbrev pub http : List ℕ
http = 104 ∷ 116 ∷ 116 ∷ 112 ∷ 0 ∷ []

-- The differences are `size_t`.
unfoldable pub trim_url_protocol : (fill : ℕ) → SxString → ℕ → Outcome SxString
trim_url_protocol fill string offset = substring_location string scheme_end 3 0 >>= λ loca.
    (let start = (loca + u64_mod - offset) % u64_mod in
      removing_range fill string (record { loca = start; len = (start + 3) % u64_mod }))

-- The first position of a space in the first line; without one, the vector is NULL and is read from.
unfoldable pub first_space : Option (Vector ℕ) → Outcome ℕ
first_space none = crash
first_space (some is) = object_at is 0

-- `SXStringDealloc` on each string of a vector that is freed.
unfoldable pub release_strings : List SxString → Outcome (Unit {0})
release_strings [] = done tt
release_strings (s ∷ strings) = release_string s >>= λ _. release_strings strings

unfoldable pub release_parts : Vector SxString → Outcome (Unit {0})
unfolding release_strings
release_parts v = release_vector v >>= λ (_, gone). release_strings gone

-- The request that is passed on, and the host's name.
unfoldable pub parse_request : (fill : ℕ) → SxString → Outcome (SxString × SxString)
unfolding trim_url_protocol first_space release_parts
parse_request fill string = substrings_trimmed_by_cstring string line_end 2 >>= λ lines.
    (object_at lines 0 >>= λ firstline.
    (create_string_with_cstring firstline.chars firstline.length >>= λ original.
    (sub_cstring_locations firstline space 1 >>= λ is.
    (first_space is >>= λ loca.
    (trim_url_protocol fill firstline (loca + 1) >>= λ firstline.
    (object_at lines 1 >>= λ secline.
    (substrings_trimmed_by_cstring secline space 1 >>= λ a.
    (object_at a 1 >>= λ hostname.
    (create_string_with_cstring hostname.chars hostname.length >>= λ domain.
    (remove_ocurrence_of_cstring fill firstline hostname.chars hostname.length >>= λ firstline.
    (release_parts a >>= λ _.
    (replacing_occurrences_of_string string original firstline >>= λ string.
    (release_string original >>= λ _.
    (release_parts lines >>= λ _. done (string, domain)))))))))))))))

-- The data handler of a client: what is left of its socket, the messages, and the result. `queue_sock`
-- is the socket of the connection that it is bridged to.
unfoldable pub cl :
    Option SharedSocket → Option SharedSocket → ℕ → Outcome (Option SharedSocket × List (ℤ × ℕ) × ℕ)
unfolding retain_socket release_socket
cl none queue_sock length = crash
cl (some sock) queue_sock length =
    let sent : List (ℤ × ℕ) = elim queue_sock [ none ↦ [] | some to ↦ (to.sockfd, length) ∷ [] ] in
    done ((release_socket (retain_socket sock)).0, sent, length)

-- The client of a domain as it is set up, with the handlers `cl` and an empty one.
unfoldable pub client_for : Net → SxString → Outcome Client
unfolding request_is_hostname
client_for net domain =
    (if request_is_hostname net domain
      then create_client_with_ip net.calloc_ok domain.chars 80 af_inet sock_stream 0 (pos 50000)
          (pos 2)
      else create_client_with_hostname net.calloc_ok domain.chars http sock_stream af_inet
          (pos 50000) (pos 2))
    >>= λ client. done (record client {
      blocks = record (client.blocks) { data_handler = some 1; disconnect = some 2 };
    })

abbrev pub started : Start → Client
started (dispatched client) = client
started (refused client) = client

-- The client that a connection is bridged to, which is made for the first request.
unfoldable pub bridge : Net → Resolver → Ntop → SxString → Option Client → Outcome Client
unfolding client_for
bridge net res ntop domain (some client) = done client
bridge net res ntop domain none =
    client_for net domain >>= λ client. (start_client net res ntop client >>= λ s. done (started s))

abbrev pub forwarded : Client → SxString → List (ℤ × ℕ)
forwarded client string = elim client.socket [
  | none ↦ []
  | some sock ↦ (sock.sockfd, string.length) ∷ []
]

-- The data handler of the server, for the client that the connection is bridged to: the client behind it,
-- the messages, and the result.
unfoldable pub serve :
    (fill : ℕ)
    → Net
    → Resolver
    → Ntop
    → Option Client
    → List ℕ
    → ℕ
    → Outcome (Option Client × List (ℤ × ℕ) × ℕ)
unfolding parse_request bridge
serve fill net res ntop bridged bytes length =
    if length == 0
    then done (bridged, [], 0)
    else create_string_with_cstring bytes (length + 1) >>= λ string.
        (parse_request fill string >>= λ (string, domain).
        (bridge net res ntop domain bridged >>= λ client.
        (release_string string >>= λ _.
        (release_string domain >>= λ _. done (some client, forwarded client string, length)))))
