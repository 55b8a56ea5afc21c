-- ===== src/Socket/Lookup.antt =====
-- What `dns_lookup` finds in the list of the resolver.
use spartan_x.Prelude.{
  ℕ, ◌≡◌, refl, inl, inr, ◌||◌, Bool, false, List, [], ◌∷◌, some, arith, ◌==◌, Option-cases, crash,
  done,
}
use spartan_x.Status.{sx_success}
use spartan_x.Socket.{Socket, af_inet, af_inet6, htons}
use spartan_x.Socket.Dns.{AddrInfo, Resolver, fill_inet, walk, search_entries, dns_lookup}

abbrev pub is_internet : AddrInfo → Bool
is_internet a = a.ai_family == af_inet || a.ai_family == af_inet6

abbrev pub any_internet : List AddrInfo → Bool
any_internet [] = false
any_internet (a ∷ rest) = is_internet a || any_internet rest

walk-crash :
    (port : ℕ) (sock : Socket) (first : AddrInfo) (rest : List AddrInfo)
    → any_internet rest ≡ false
    → walk port sock (first ∷ rest) ≡ crash
unfolding walk
walk-crash port sock first [] h = refl
walk-crash port sock first (a ∷ rest) h = ground (arith, walk-crash port sock a rest)

-- The outcome of the walk depends on the first entry only if it is the only one.
walk-first :
    (port : ℕ) (sock : Socket) (a b : AddrInfo) (rest : List AddrInfo)
    → walk port sock (a ∷ rest) ≡ walk port sock (b ∷ rest)
unfolding walk
walk-first port sock a b [] = refl
walk-first port sock a b (c ∷ rest) = refl

-- `dns_lookup` crashes on a list of the resolver none of whose entries behind the first is an IPv4
-- or IPv6 address, whatever the first entry is.
pub dns_lookup-crash :
    (res : Resolver) (sock : Socket) (hostname service : List ℕ) (hint : ℕ) {first : AddrInfo}
    {rest : List AddrInfo}
    → res.getaddrinfo hostname service hint ≡ some (first ∷ rest)
    → any_internet rest ≡ false
    → dns_lookup res sock hostname service hint ≡ crash
unfolding dns_lookup
dns_lookup-crash res sock hostname service hint found miss =
    rw (found, dns_lookup)
      (elim (Option-cases (res.getservbyname service)) [
        | inl e ↦ rw (e, search_entries)
        | inr (p, e) ↦ rw (e, search_entries, walk-crash (htons p) sock _ _ miss)
      ])

-- Where the second entry is an IPv4 address, `dns_lookup` succeeds and takes the type and the
-- protocol from that entry, whatever the first entry is, and as the address the upper half of the
-- pointer `ai_addr` in place of what it points at.
pub dns_lookup-inet :
    (res : Resolver) (sock : Socket) (hostname service : List ℕ) (hint port : ℕ)
    {first second : AddrInfo} {rest : List AddrInfo}
    → res.getaddrinfo hostname service hint ≡ some (first ∷ second ∷ rest)
    → res.getservbyname service ≡ some port
    → second.ai_family ≡ af_inet
    → dns_lookup res sock hostname service hint
      ≡ done (fill_inet sock second (htons port), sx_success)
unfolding dns_lookup
dns_lookup-inet res sock hostname service hint port found serv family =
    rw (found, dns_lookup, serv, search_entries, family)
