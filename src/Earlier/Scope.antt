-- ===== src/Earlier/Scope.antt =====
-- `getScopeForIp` of Examples/HTTP-proxy/SXSocket.c: the interface that an IPv6 address belongs to. The
-- texts are those of C strings, without their end.
use spartan_x.Prelude.{
  ℕ, ◌≡◌, ◌≢◌, refl, Bool, true, false, ◌&&◌, Option, none, some, List, [], ◌∷◌, ◌++◌, ◌==◌,
  ==_refl, ==-ne, if◌then◌else◌, Outcome, crash, done, All, ap, Bool-cases, inl, inr,
}
use spartan_x.Socket.{af_inet6}

-- An address of an interface: the family, where the entry has an address, the text that `getnameinfo`
-- leaves in the buffer for it, and the name of the interface.
pub record IfAddr : Type 0 where
  pub family : Option ℕ
  pub numeric : List ℕ
  pub name : List ℕ

-- The character `%`.
abbrev pub percent : ℕ
percent = 37

-- The text up to its zone.
unfoldable pub strip_zone : List ℕ → List ℕ
strip_zone [] = []
strip_zone (c ∷ text) = let rest = strip_zone text in if c == percent then [] else c ∷ rest

-- `strcmp(…) == 0`.
unfoldable pub strcmp_same : List ℕ → List ℕ → Bool
strcmp_same [] [] = true
strcmp_same [] (b ∷ right) = false
strcmp_same (a ∷ left) [] = false
strcmp_same (a ∷ left) (b ∷ right) = a == b && strcmp_same left right

-- Whether an entry has an address, and one of IPv6.
abbrev pub is_inet6 : Option ℕ → Bool
is_inet6 none = false
is_inet6 (some family) = family == af_inet6

unfoldable pub matches : IfAddr → List ℕ → Bool
unfolding strip_zone strcmp_same
matches addr ip = is_inet6 addr.family && strcmp_same (strip_zone addr.numeric) ip

unfoldable pub scope_in : (List ℕ → ℕ) → List ℕ → List IfAddr → ℕ
unfolding matches
scope_in if_nametoindex ip [] = 0
scope_in if_nametoindex ip (addr ∷ addrs) =
    let rest = scope_in if_nametoindex ip addrs in
    if matches addr ip then if_nametoindex addr.name else rest

-- The addresses are what `getifaddrs` stores, if it succeeds: its result is not tested.
unfoldable pub get_scope_for_ip : (List ℕ → ℕ) → Option (List IfAddr) → List ℕ → Outcome ℕ
unfolding scope_in
get_scope_for_ip if_nametoindex none ip = crash
get_scope_for_ip if_nametoindex (some addrs) ip = done (scope_in if_nametoindex ip addrs)

strcmp_same_refl : (text : List ℕ) → strcmp_same text text ≡ true
unfolding strcmp_same
strcmp_same_refl [] = refl
strcmp_same_refl (c ∷ text) = rw (==_refl c, strcmp_same_refl text)

-- Nothing in the text begins a zone.
abbrev pub NoZone : List ℕ → Type 0
NoZone text = All (λ c. c ≢ percent) text

strip_zone-zoned : (ip zone : List ℕ) → NoZone ip → strip_zone (ip ++ percent ∷ zone) ≡ ip
unfolding strip_zone
strip_zone-zoned [] zone plain = refl
strip_zone-zoned (c ∷ ip) zone plain = rw (==-ne plain.0, strip_zone-zoned ip zone plain.1)

matches-zoned :
    (addr : IfAddr) (ip zone : List ℕ)
    → addr.family ≡ some af_inet6
    → addr.numeric ≡ ip ++ percent ∷ zone
    → NoZone ip
    → matches addr ip ≡ true
unfolding matches
matches-zoned addr ip zone inet6 text plain =
    simp (ap is_inet6 inet6, text, strip_zone-zoned ip zone plain, strcmp_same_refl ip)

scope_in-first :
    (if_nametoindex : List ℕ → ℕ) (ip : List ℕ) (before : List IfAddr) (addr : IfAddr)
    (after : List IfAddr)
    → All (λ b. matches b ip ≡ false) before
    → matches addr ip ≡ true
    → scope_in if_nametoindex ip (before ++ addr ∷ after) ≡ if_nametoindex addr.name
unfolding scope_in
scope_in-first if_nametoindex ip [] addr after others hit = rw hit
scope_in-first if_nametoindex ip (b ∷ before) addr after others hit =
    rw (others.0, scope_in-first if_nametoindex ip before addr after others.1 hit)

-- The scope of an address without a zone is the index of the first interface that has it as an IPv6
-- address with a zone, if the entries before do not match.
pub get_scope_for_ip-first :
    (if_nametoindex : List ℕ → ℕ) (ip zone : List ℕ) (before after : List IfAddr) (addr : IfAddr)
    → NoZone ip
    → addr.family ≡ some af_inet6
    → addr.numeric ≡ ip ++ percent ∷ zone
    → All (λ b. matches b ip ≡ false) before
    → get_scope_for_ip if_nametoindex (some (before ++ addr ∷ after)) ip
      ≡ done (if_nametoindex addr.name)
unfolding get_scope_for_ip
get_scope_for_ip-first if_nametoindex ip zone before after addr plain inet6 text others = ap done (
    scope_in-first if_nametoindex ip before addr after others
      (matches-zoned addr ip zone inet6 text plain))

and_false : (b : Bool) → (b && false) ≡ false
and_false true = refl
and_false false = refl

strip_zone-differs :
    (text ip zone : List ℕ) → strcmp_same (strip_zone text) (ip ++ percent ∷ zone) ≡ false
unfolding strip_zone strcmp_same
strip_zone-differs [] [] zone = refl
strip_zone-differs [] (b ∷ ip) zone = refl
strip_zone-differs (c ∷ text) [] zone = elim (Bool-cases (c == percent)) [
  | inl e ↦ rw e
  | inr e ↦ rw (e, e)
]
strip_zone-differs (c ∷ text) (b ∷ ip) zone = elim (Bool-cases (c == percent)) [
  | inl e ↦ rw e
  | inr e ↦ rw (e, strip_zone-differs text ip zone) (and_false (c == b))
]

matches-zone : (addr : IfAddr) (ip zone : List ℕ) → matches addr (ip ++ percent ∷ zone) ≡ false
unfolding matches
matches-zone addr ip zone =
    rw (strip_zone-differs addr.numeric ip zone) (and_false (is_inet6 addr.family))

-- An address that is given with its zone has the scope 0, whatever the interfaces are.
pub get_scope_for_ip-zoned :
    (if_nametoindex : List ℕ → ℕ) (addrs : List IfAddr) (ip zone : List ℕ)
    → get_scope_for_ip if_nametoindex (some addrs) (ip ++ percent ∷ zone) ≡ done 0
unfolding get_scope_for_ip scope_in
get_scope_for_ip-zoned if_nametoindex [] ip zone = refl
get_scope_for_ip-zoned if_nametoindex (addr ∷ addrs) ip zone =
    rw (matches-zone addr ip zone) (get_scope_for_ip-zoned if_nametoindex addrs ip zone)
