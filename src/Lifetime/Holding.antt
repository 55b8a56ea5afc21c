-- ===== src/Lifetime/Holding.antt =====
-- How long a server lives.
use spartan_x.Prelude.{
  ℕ, suc, ◌+◌, ◌-◌, ◌<◌, ◌≡◌, ◌≢◌, refl, sym, ap, ◌∙◌, true, false, Bool-cases, inl, inr, List, [],
  ◌∷◌, arith, ◌==◌, if◌then◌else◌, crash, done,
}
use spartan_x.Object.{Object, free_server, retain, release, free}
use spartan_x.Object.Owners.{owned, retain-owned, release-owned}
use spartan_x.Lifetime.{
  Holders, alive, freed, Action, owner_retains, owner_releases, dispatches, begins, ends, leaves,
  acts, after, release_by, tell_did_kill, act, step, run, launch,
}

-- How many holders count.
abbrev pub holders : Holders → ℕ
holders h = h.owners + h.serving + (if h.looping then 1 else 0)

abbrev pub counted : Holders → Object
counted h = owned (holders h) free_server

-- The references that owners give up.
abbrev pub gives_up : Action → ℕ
gives_up owner_retains = 0
gives_up owner_releases = 1
gives_up dispatches = 0
gives_up begins = 0
gives_up ends = 0
gives_up leaves = 0

-- The holders behind an action and behind a list of actions, with no object.
abbrev pub moved : Action → Holders → Holders
moved a h = if acts a h then after a h else h

abbrev pub settled : List Action → Holders → Holders
settled [] h = h
settled (a ∷ actions) h = settled actions (moved a h)

release_by-owned :
    (h : Holders) (k : ℕ)
    → holders h ≡ suc k
    → suc (suc k) < 410
    → release_by h (owned (suc (suc k)) free_server) ≡ done (alive h (counted h))
unfolding release_by
release_by-owned h k e small = rw (release-owned k free_server small, e)

retain-counted :
    (h h1 : Holders)
    → holders h1 ≡ suc (holders h)
    → holders h < 410
    → retain (counted h) ≡ counted h1
retain-counted h h1 e small =
    retain-owned (holders h) free_server small ∙ ap (λ n. owned n free_server) (sym e)

release_by-counted :
    (h h1 : Holders)
    → holders h ≡ suc (holders h1)
    → 0 < holders h1
    → holders h < 410
    → release_by h1 (counted h) ≡ done (alive h1 (counted h1))
release_by-counted h h1 e some_left small =
    let k = holders h1 - 1 in
    let e1 : holders h1 ≡ suc k = omega arith in
    let e2 : holders h ≡ suc (suc k) = omega arith in
    ap (λ n. release_by h1 (owned n free_server)) e2 ∙ release_by-owned h1 k e1 (omega arith)

act-counted :
    (a : Action) (h : Holders)
    → acts a h ≡ true
    → gives_up a < h.owners
    → holders h < 410
    → act a (after a h) (counted h) ≡ done (alive (after a h) (counted (after a h)))
unfolding act tell_did_kill
act-counted owner_retains h on kept_one small =
    ap (λ o. done (alive (after owner_retains h) o))
      (retain-counted h (after owner_retains h) (omega arith) (omega arith))
act-counted owner_releases h on kept_one small =
    release_by-counted h (after owner_releases h) (omega arith) (omega arith) (omega arith)
act-counted dispatches h on kept_one small = refl
act-counted begins h on kept_one small =
    ap (λ o. done (alive (after begins h) o))
      (retain-counted h (after begins h) (omega arith) (omega arith))
act-counted ends h on kept_one small =
    let some_on : h.serving ≢ 0 = ground arith in
    release_by-counted h (after ends h) (omega arith) (omega arith) (omega arith)
act-counted leaves h on kept_one small =
    rw (release_by-counted h (after leaves h) (ground arith) (omega arith) (omega arith))

moved-owned :
    (a : Action) (h : Holders) → acts a h ≡ true → 0 < (moved a h).owners → gives_up a < h.owners
moved-owned a h on kept_one = ground arith

step-kept :
    (a : Action) (h : Holders)
    → holders h < 410
    → 0 < (moved a h).owners
    → step a (alive h (counted h)) ≡ done (alive (moved a h) (counted (moved a h)))
unfolding step
step-kept a h small owner = elim (Bool-cases (acts a h)) [
  | inl on ↦ rw on (act-counted a h on (moved-owned a h on owner) small)
  | inr off ↦ rw off
]

-- At any time an owner keeps its reference, and the holders are fewer than 410.
abbrev pub Kept : List Action → Holders → Type 0
Kept [] h = Unit
Kept (a ∷ actions) h =
    (0 < (moved a h).owners) × (holders (moved a h) < 410) × Kept actions (moved a h)

run-counted :
    (actions : List Action) (h : Holders)
    → 0 < h.owners
    → holders h < 410
    → Kept actions h
    → run actions (alive h (counted h))
      ≡ done (alive (settled actions h) (counted (settled actions h)))
unfolding run
run-counted [] h owner few kept_on = refl
run-counted (a ∷ actions) h owner few kept_on =
    rw (step-kept a h few kept_on.0) (run-counted actions (moved a h) kept_on.0 kept_on.1 kept_on.2)

abbrev pub launched : ℕ → Holders
launched n = record { looping = true; pending = 0; serving = 0; owners = n }

-- With an owner that keeps its reference and fewer than 410 references at any time, `SXServerStart` and
-- any interleaving of the accepting loop, its connections and the owners never use the server after it
-- was freed, and its count is always the number of its holders.
pub run-launch :
    (n : ℕ) (actions : List Action)
    → 0 < n
    → n + 1 < 410
    → Kept actions (launched n)
    → run actions (launch n (owned n free_server))
      ≡ done (alive (settled actions (launched n)) (counted (settled actions (launched n))))
unfolding launch
run-launch n actions owner few kept_on =
    let first : retain (owned n free_server) ≡ counted (launched n) =
      retain-owned n free_server (omega arith) ∙ ap (λ k. owned k free_server) (omega arith) in
    rw first (run-counted actions (launched n) owner (omega arith) kept_on)

release_by-last :
    (h : Holders) (k : ℕ) → k ≡ 1 → release_by h (owned k free_server) ≡ done (freed h)
unfolding release_by release free
release_by-last h k e = rw e

leave-last :
    (h : Holders) (k : ℕ) → k ≡ 1 → act leaves (after leaves h) (owned k free_server) ≡ crash
unfolding act tell_did_kill
leave-last h k e = rw (release_by-last (after leaves h) k e)

-- An accepting loop that is the last holder of its server frees it, and then reads `didKill_block` from
-- it: the program uses the server after it was freed.
pub run-last_leave :
    (h : Holders) (actions : List Action)
    → h.looping ≡ true
    → holders h ≡ 1
    → run (leaves ∷ actions) (alive h (counted h)) ≡ crash
unfolding run step
run-last_leave h actions on alone = rw (leave-last h (holders h) alone, on)

-- A block that was dispatched for a guest holds nothing before it begins: if the last connection ends
-- first, with no loop and no owner left, the block uses the server after it was freed.
pub run-late_block :
    (h : Holders) (actions : List Action)
    → h.looping ≡ false
    → h.owners ≡ 0
    → h.serving ≡ 1
    → h.pending ≢ 0
    → run (ends ∷ begins ∷ actions) (alive h (counted h)) ≡ crash
unfolding run step act
run-late_block h actions off unowned one waiting =
    let alone : holders h ≡ 1 = ground arith in
    let some_pending : (h.pending == 0) ≡ false = ground arith in
    let some_serving : (h.serving == 0) ≡ false = ground arith in
    simp (some_serving, release_by-last (after ends h) (holders h) alone, some_pending)
