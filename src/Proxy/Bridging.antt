-- ===== src/Proxy/Bridging.antt =====
-- What the example makes of requests and answers.
use spartan_x.Prelude.{
  ℕ, suc, ◌+◌, ◌<◌, ◌≡◌, refl, sym, ap, false, Bool-cases, inl, inr, Option, none, some, List, [],
  ◌∷◌, arith, ◌==◌, if◌then◌else◌, Outcome, crash, done, ◌>>=◌, >>=-eq-done, done-injective,
  Outcome-cases,
}
use spartan_x.Socket.{Net}
use spartan_x.Socket.Dns.{Resolver}
use spartan_x.Strings.{
  SxString, create_string_with_cstring, release_string, free_string, substrings_trimmed_by_string,
}
use spartan_x.Strings.Memory.{strnlen, load}
use spartan_x.Strings.Replacing.{substrings_trimmed_by_cstring}
use spartan_x.Earlier.{SharedSocket, retain_socket, release_socket, up, down}
use spartan_x.Earlier.Client.{Client}
use spartan_x.Earlier.Starting.{Ntop}
use spartan_x.Proxy.{line_end, parse_request, cl, serve}

-- A string that was just made cannot be released: its block is read behind the end of its life.
release_string-made :
    (bytes : List ℕ) (n : ℕ) (s : SxString)
    → create_string_with_cstring bytes n ≡ done s
    → release_string s ≡ crash
unfolding create_string_with_cstring release_string free_string
release_string-made bytes n s h =
    let (len, _, h1) = >>=-eq-done (strnlen bytes n) _ h in
    let (chars, _, h2) = >>=-eq-done (load (len + 1) bytes) _ h1 in
    let (l, _, h3) = >>=-eq-done (strnlen chars len) _ h2 in rw⁻¹ (done-injective h3) refl

>>=-crash {ℓ κ} :
    {A : Type ℓ} {B : Type κ} (m : Outcome A) (f : A → Outcome B)
    → ((a : A) → f a ≡ crash)
    → (m >>= f) ≡ crash
>>=-crash crash f h = refl
>>=-crash (done a) f h = h a

substrings_trimmed_by_cstring-crash :
    (target : SxString) (bytes : List ℕ) (n : ℕ)
    → substrings_trimmed_by_cstring target bytes n ≡ crash
unfolding substrings_trimmed_by_cstring
substrings_trimmed_by_cstring-crash target bytes n =
    elim (Outcome-cases (create_string_with_cstring bytes n)) [
      | inl stuck ↦ rw stuck
      | inr (s, made) ↦
          rw (made, release_string-made bytes n s made)
            (>>=-crash (substrings_trimmed_by_string target s) _ (λ _. refl))
    ]

parse_request-crash : (fill : ℕ) (string : SxString) → parse_request fill string ≡ crash
unfolding parse_request
parse_request-crash fill string = rw (substrings_trimmed_by_cstring-crash string line_end 2)

-- The data handler of the example's server answers an empty message with 0 and does nothing, and any other
-- message makes it use memory that was given back.
pub serve-crash :
    (fill : ℕ) (net : Net) (res : Resolver) (ntop : Ntop) (bridged : Option Client) (bytes : List ℕ)
    (len : ℕ)
    → serve fill net res ntop bridged bytes len
      ≡ (if len == 0 then done (bridged, [], 0) else crash)
unfolding serve
serve-crash fill net res ntop bridged bytes len = elim (Bool-cases (len == 0)) [
  | inl empty ↦ rw empty
  | inr more ↦ elim (Outcome-cases (create_string_with_cstring bytes (len + 1))) [
    | inl stuck ↦ rw (more, stuck)
    | inr (string, made) ↦ rw (more, made, parse_request-crash fill string)
  ]
]

-- The data handler of a client gives back the socket of a client with fewer than 409 owners as it got it,
-- and sends what came to the connection, if it has a socket.
pub cl-sock :
    (sock : SharedSocket) (queue_sock : Option SharedSocket) (len k : ℕ)
    → sock.ref_count ≡ suc k
    → suc k < 409
    → cl (some sock) queue_sock len
      ≡ done (some sock, elim queue_sock [ none ↦ [] | some to ↦ (to.sockfd, len) ∷ [] ], len)
unfolding cl retain_socket release_socket
cl-sock sock queue_sock len k owners small =
    let counted : (suc k == 410) ≡ false = ground arith in
    let shy : (suc (suc k) == 410) ≡ false = ground arith in
    let left : (suc k == 0) ≡ false = ground arith in
    let more : up (suc k) ≡ suc (suc k) = omega arith in
    let less : down (suc (suc k)) ≡ suc k = omega arith in
    let same : record sock { ref_count = suc k } ≡ sock =
      ap (λ n. record sock { ref_count = n }) (sym owners) in
    let kept : (release_socket (retain_socket sock)).0 ≡ some sock =
      simp (owners, counted, more, shy, less, left) (ap some same) in
    rw kept
