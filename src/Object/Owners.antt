-- ===== src/Object/Owners.antt =====
-- Reference counting refines a count of owners.
use spartan_x.Prelude.{
  ℕ, zero, suc, ◌<◌, ◌≡◌, refl, List, [], ◌∷◌, some, pos, arith, Outcome, crash, done, false, ◌==◌,
}
use spartan_x.Object.{
  Deallocator, Object, Released, kept, deallocates, Call, retains, releases, retain, release, run,
  apply,
}

-- What a history of calls makes of a number of owners.
pub data Owners : Type 0 where
  held : ℕ → Owners
  gone : Owners
  misused : Owners

pub owners : ℕ → List Call → Owners
owners zero calls = misused
owners (suc k) [] = held (suc k)
owners (suc k) (retains ∷ calls) = owners (suc (suc k)) calls
owners (suc (suc k)) (releases ∷ calls) = owners (suc k) calls
owners (suc zero) (releases ∷ []) = gone
owners (suc zero) (releases ∷ _ ∷ _) = misused

abbrev pub owned : ℕ → Deallocator → Object
owned k d = record { ref_count = pos k; dealloc = some d }

abbrev pub shown : Deallocator → Owners → Outcome (Released Object)
shown d (held k) = done (kept (owned k d))
shown d gone = done (deallocates d (owned 0 d))
shown d misused = crash

-- While the calls of a history are made, the owners stay fewer than 410.
abbrev pub Below : ℕ → List Call → Type 0
Below k [] = Unit
Below k (retains ∷ calls) = (suc k < 410) × Below (suc k) calls
Below zero (releases ∷ calls) = Unit
Below (suc k) (releases ∷ calls) = Below k calls

not_weak : (k : ℕ) → k < 410 → (k == 410) ≡ false
not_weak k h = ground arith

pub retain-owned : (k : ℕ) (d : Deallocator) → k < 410 → retain (owned k d) ≡ owned (suc k) d
unfolding retain
retain-owned k d h = rw (not_weak k h)

pub release-owned :
    (k : ℕ) (d : Deallocator)
    → suc (suc k) < 410
    → release (owned (suc (suc k)) d) ≡ done (kept (owned (suc k) d))
unfolding release
release-owned k d h = rw (not_weak (suc (suc k)) h) (ground arith)

-- An object with at least one owner, whose owners are fewer than 410, the weak mark, at any time, is
-- deallocated by the release of its last owner and by no other call, and any later call is a use after
-- free, however many calls there are.
pub run-owners :
    (k : ℕ) (d : Deallocator) (calls : List Call)
    → suc k < 410
    → Below (suc k) calls
    → run (owned (suc k) d) calls ≡ shown d (owners (suc k) calls)
unfolding run apply owners
run-owners k d [] few h = refl
run-owners k d (retains ∷ calls) few h =
    rw (retain-owned (suc k) d few) (run-owners (suc k) d calls h.0 h.1)
run-owners (suc k) d (releases ∷ calls) few h =
    rw (release-owned k d few) (run-owners k d calls (omega arith) h)
run-owners zero d (releases ∷ []) few h = refl
run-owners zero d (releases ∷ _ ∷ _) few h = refl
