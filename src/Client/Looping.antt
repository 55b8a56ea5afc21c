-- ===== src/Client/Looping.antt =====
-- What the loop of a client does over all its rounds.
use spartan_x.Prelude.{
  ℕ, suc, ◌+◌, ◌<◌, ap, ◌∙◌, done, ◌≤◌, ◌≡◌, ◌⊎◌, ◌≢◌, refl, Bool, true, false, none, some, List,
  [], ◌∷◌, ◌++◌, arith, if◌then◌else◌, size_max, All, Outcome, Option-cases, inl, inr,
}
use spartan_x.Status.{
  sx_status_running, sx_status_resuming, sx_status_suspend, sx_status_idle,
  sx_status_should_terminate,
}
use spartan_x.Object.{Object, Released, deallocates, free_client, release}
use spartan_x.Object.Owners.{owned, release-owned}
use spartan_x.Runtime.{Block, Handlers}
use spartan_x.Loop
use spartan_x.Loop.{goes_on, exits, running, ended, events_of}
use spartan_x.Loop.Counting.{count, run-Within, Within, times, run-times}
use spartan_x.Client.{
  Event, calls_did_resume, calls_will_suspend, calls_data_handler, releases_sock, freed, Round,
  Conn, round, eval_if_exist, epilogue, run, start,
}

abbrev pub is_will_suspend : Event → Bool
is_will_suspend calls_will_suspend = true
is_will_suspend _ = false

abbrev pub is_sock_release : Event → Bool
is_sock_release releases_sock = true
is_sock_release _ = false

-- The lengths that the data handler was called with.
abbrev pub lengths : List Event → List ℕ
lengths [] = []
lengths (calls_data_handler n ∷ events) = n ∷ lengths events
lengths (_ ∷ events) = lengths events

abbrev left : Conn → ℕ
left c = if c.suspended then 0 else 1

round-left :
    (hs : Handlers) (r : Round) (c : Conn) → Within is_will_suspend left (left c) (round hs r c)
unfolding round
round-left hs r c = ground arith

freed-will_suspend : (m : Outcome (Released Object)) → count is_will_suspend (freed m) ≡ 0
freed-will_suspend m = ground arith

epilogue-will_suspend : (hs : Handlers) (obj : Object) → count is_will_suspend (epilogue hs obj) ≡ 0
epilogue-will_suspend hs obj = elim (Option-cases hs.did_disconnect) [
  | inl e ↦ rw (e, freed-will_suspend (release obj))
  | inr (h, e) ↦ rw (e, freed-will_suspend (release obj))
]

-- Over all rounds of a client, whatever its environment does, the handler `willSuspend` is called at
-- most once.
pub run-will_suspend :
    (hs : Handlers) (obj : Object) (rounds : List Round)
    → count is_will_suspend (run hs obj rounds start).1 ≤ 1
unfolding run
run-will_suspend hs obj rounds = omega (
  arith,
  run-Within (round hs) (epilogue hs obj) is_will_suspend left (round-left hs) rounds start,
  epilogue-will_suspend hs obj,
)

round-sock :
    (hs : Handlers) (r : Round) (c : Conn) → count is_sock_release (events_of (round hs r c)) ≡ 0
unfolding round
round-sock hs r c = ground arith

-- What the release of a client adds to the releases of its socket.
epilogue-sock :
    (hs : Handlers) (obj : Object)
    → count is_sock_release (epilogue hs obj) ≡ 1 + count is_sock_release (freed (release obj))
epilogue-sock hs obj = elim (Option-cases hs.did_disconnect) [
  | inl e ↦ rw e (omega arith)
  | inr (h, e) ↦ rw e (omega arith)
]

release-last : release (owned 1 free_client) ≡ done (deallocates free_client (owned 0 free_client))
unfolding release
release-last = refl

-- The receive loop of a client releases the client's socket once it has ended, and not before: twice if
-- the client has no other owner than the loop, and once if it has other ones, fewer than 410 together.
pub run-releases :
    (hs : Handlers) (k : ℕ) (rounds : List Round) (c : Conn)
    → suc (suc k) < 410
    → (count is_sock_release (run hs (owned 1 free_client) rounds c).1
        ≡ times 2 (run hs (owned 1 free_client) rounds c).0)
      × (count is_sock_release (run hs (owned (suc (suc k)) free_client) rounds c).1
          ≡ times 1 (run hs (owned (suc (suc k)) free_client) rounds c).0)
unfolding run
run-releases hs k rounds c few = (
  run-times (round hs) (epilogue hs (owned 1 free_client)) is_sock_release
      (epilogue-sock hs (owned 1 free_client)
        ∙ ap (λ m. 1 + count is_sock_release (freed m)) release-last)
      (round-sock hs) rounds c,
  run-times (round hs) (epilogue hs (owned (suc (suc k)) free_client)) is_sock_release
      (epilogue-sock hs (owned (suc (suc k)) free_client)
        ∙ ap (λ m. 1 + count is_sock_release (freed m)) (release-owned k free_client few))
      (round-sock hs) rounds c,
)

round-resumed_first :
    (hs : Handlers) (r : Round)
    → r.stored ≡ some sx_status_resuming
    → round hs r start ≡ exits (eval_if_exist hs.did_resume calls_did_resume)
unfolding round
round-resumed_first hs r h = ground arith

-- A client that is found resuming in its first round ends there, without receiving.
pub run-resumed_first :
    (hs : Handlers) (obj : Object) (r : Round) (rounds : List Round)
    → r.stored ≡ some sx_status_resuming
    → run hs obj (r ∷ rounds) start
      ≡ (ended, eval_if_exist hs.did_resume calls_did_resume ++ epilogue hs obj)
unfolding run Loop.run
run-resumed_first hs obj r rounds h = rw (round-resumed_first hs r h)

round-deaf :
    (hs : Handlers) (r : Round) (c : Conn)
    → (c.status ≡ sx_status_should_terminate) ⊎ (c.status ≡ sx_status_idle)
    → c.s ≢ 0
    → r.stored ≡ none
    → round hs r c ≡ goes_on c []
unfolding round
round-deaf hs r c h k e = ground arith

-- A client that has received something and is then told to terminate, or to be idle, does nothing at
-- all in any number of rounds, and never ends, unless another status is stored.
pub run-deaf :
    (hs : Handlers) (obj : Object) (rounds : List Round) (c : Conn)
    → (c.status ≡ sx_status_should_terminate) ⊎ (c.status ≡ sx_status_idle)
    → c.s ≢ 0
    → All (λ r. r.stored ≡ none) rounds
    → run hs obj rounds c ≡ (running c, [])
unfolding run Loop.run
run-deaf hs obj [] c h k quiet = refl
run-deaf hs obj (r ∷ rounds) c h k quiet =
    rw (round-deaf hs r c h k quiet.0, run-deaf hs obj rounds c h k quiet.1)

-- A suspended client that is resumed while it waits for data hands the data to its handler with the
-- length of the previous message in place of the length that arrived.
pub round-stale_length :
    (hs : Handlers) (r : Round) (c : Conn) {b : Block}
    → c.status ≡ sx_status_suspend
    → r.stored ≡ none
    → r.received ≢ 0
    → r.received ≢ size_max
    → (r.stored_meanwhile ≡ some sx_status_resuming) ⊎ (r.stored_meanwhile ≡ some sx_status_running)
    → hs.data_handler ≡ some b
    → lengths (events_of (round hs r c)) ≡ c.s ∷ []
unfolding round
round-stale_length hs r c e q n m w h = ground arith
