-- ===== src/Earlier/Clients.antt =====
-- What the clients of the earlier copy do.
use spartan_x.Prelude.{
  ℕ, zero, suc, ◌≡◌, refl, sym, Bool, true, false, Bool-cases, inl, inr, some, List, [], ◌∷◌, ◌++◌,
  ◌==◌, ltb, if◌then◌else◌, ℤ, length, arith, crash, done, >>=-eq-done, done-injective,
}
use spartan_x.Runtime.{Block}
use spartan_x.Loop
use spartan_x.Loop.{State, running, ended, conclude}
use spartan_x.Strings.Memory.{strncpy, strlen}
use spartan_x.Strings.Spelling.{NonZero}
use spartan_x.Earlier.Client.{
  Client, create_client_with_hostname, release_client, free_client, chosen,
}
use spartan_x.Earlier.Receiving.{
  Event, receives, calls_data_handler, calls_disconnect, releases_client, round, epilogue, run,
}

-- The lengths that the data handler gets.
abbrev pub lengths : List Event → List ℕ
lengths [] = []
lengths (receives ∷ events) = lengths events
lengths (calls_data_handler n ∷ events) = n ∷ lengths events
lengths (calls_disconnect ∷ events) = lengths events
lengths (releases_client ∷ events) = lengths events

abbrev pub before_zero : List ℕ → List ℕ
before_zero [] = []
before_zero (zero ∷ rounds) = []
before_zero (suc n ∷ rounds) = suc n ∷ before_zero rounds

abbrev pub state_after : List ℕ → State (Unit {0})
state_after [] = running tt
state_after (zero ∷ rounds) = ended
state_after (suc n ∷ rounds) = state_after rounds

epilogue-lengths : (b : Bool) (client : Client) → lengths (epilogue b client) ≡ []
unfolding epilogue
epilogue-lengths b client = ground arith

-- With a data handler, the loop of a client hands over every length that `recv` returned before the
-- first 0, the value of a failed `recv` included, and ends at that 0 and at nothing else.
pub run-lengths :
    (use_block_handler : Bool) (client : Client) {h : Block} (rounds : List ℕ)
    → chosen use_block_handler client.blocks.data_handler client.fptrs.data_handler ≡ some h
    → (lengths (run use_block_handler client rounds).1 ≡ before_zero rounds)
      × ((run use_block_handler client rounds).0 ≡ state_after rounds)
unfolding run Loop.run round conclude
run-lengths b client [] e = (refl, refl)
run-lengths b client (zero ∷ rounds) e = (epilogue-lengths b client, refl)
run-lengths b client {h} (suc n ∷ rounds) e =
    let (handed, state) = run-lengths b client rounds e in
    let more : (suc n == 0) ≡ false = ground arith in
    (simp (more, e, handed), simp (more, e, state))

strncpy-strlen :
    (n : ℕ) (xs rest bytes : List ℕ)
    → NonZero xs
    → strncpy n (xs ++ 0 ∷ rest) ≡ done bytes
    → strlen bytes ≡ (if ltb (length xs) n then done (length xs) else crash)
unfolding strncpy strlen
strncpy-strlen zero xs rest bytes z h =
    let e : ltb (length xs) 0 ≡ false = ground arith in rw (sym (done-injective h), e)
strncpy-strlen (suc n) [] rest bytes z h =
    let e : ltb 0 (suc n) ≡ true = ground arith in rw (sym (done-injective h), e)
strncpy-strlen (suc n) (zero ∷ xs) rest bytes (p, z) h = absurd (omega arith)
strncpy-strlen (suc n) (suc x ∷ xs) rest bytes (p, z) h =
    let (later, copied, e) = >>=-eq-done (strncpy n (xs ++ 0 ∷ rest)) _ h in
    let same : ltb (suc (length xs)) (suc n) ≡ ltb (length xs) n = ground arith in
    elim (Bool-cases (ltb (length xs) n)) [
      | inl fits ↦ rw (sym (done-injective e), strncpy-strlen n xs rest later z copied, same, fits)
      | inr long ↦ rw (sym (done-injective e), strncpy-strlen n xs rest later z copied, same, long)
    ]

-- Releasing the only owner of a client that was not started reads through its missing socket.
pub release_client-unstarted :
    (hostname service : List ℕ) (sock_type preferred : ℕ) (buf_size priority : ℤ) (client : Client)
    → create_client_with_hostname true hostname service sock_type preferred buf_size priority
      ≡ done client
    → release_client client ≡ crash
unfolding create_client_with_hostname release_client free_client
release_client-unstarted hostname service sock_type preferred buf_size priority client h =
    let (target, _, h1) = >>=-eq-done (strncpy 255 hostname) _ h in
    let (named, _, h2) = >>=-eq-done (strncpy 55 service) _ h1 in rw⁻¹ (done-injective h2) refl

-- In a client that was created with a host name of fewer than 255 characters, `target` keeps the name as
-- a C string, and for any longer name `target` has no end: reading it runs behind the array.
pub create_client_with_hostname-target :
    (xs rest service : List ℕ) (sock_type preferred : ℕ) (buf_size priority : ℤ) (client : Client)
    → NonZero xs
    → create_client_with_hostname true
        (xs ++ 0 ∷ rest)
        service
        sock_type
        preferred
        buf_size
        priority
      ≡ done client
    → strlen client.target ≡ (if ltb (length xs) 255 then done (length xs) else crash)
unfolding create_client_with_hostname
create_client_with_hostname-target xs rest service sock_type preferred buf_size priority client z
      h =
    let (target, copied, h1) = >>=-eq-done (strncpy 255 (xs ++ 0 ∷ rest)) _ h in
    let (named, _, h2) = >>=-eq-done (strncpy 55 service) _ h1 in
    rw⁻¹ (done-injective h2) (strncpy-strlen 255 xs rest target z copied)
