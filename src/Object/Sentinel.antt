-- ===== src/Object/Sentinel.antt =====
-- The weak mark 410 is a value that a count can reach.
use spartan_x.Prelude.{
  ℕ, zero, suc, ◌+◌, ◌-◌, ◌≤◌, ◌≡◌, refl, List, [], ◌∷◌, ◌++◌, arith, done, replicate,
}
use spartan_x.Object.{
  Deallocator, Object, kept, Call, retains, releases, run, apply, sx_weak_object,
}
use spartan_x.Object.Owners.{owned, retain-owned}

-- No history of calls changes or deallocates a weak object.
pub run-weak :
    (obj : Object) (calls : List Call)
    → obj.ref_count ≡ sx_weak_object
    → run obj calls ≡ done (kept obj)
unfolding run apply
run-weak obj [] h = refl
run-weak obj (retains ∷ calls) h = simp h (run-weak obj calls h)
run-weak obj (releases ∷ calls) h = simp h (run-weak obj calls h)

climb :
    (n k : ℕ) (d : Deallocator) (calls : List Call)
    → k + n ≡ 410
    → run (owned k d) (replicate n retains ++ calls) ≡ done (kept (owned 410 d))
unfolding run apply
climb zero k d calls e =
    let full : k ≡ 410 = omega arith in rw full (run-weak (owned 410 d) calls refl)
climb (suc n) k d calls e =
    rw (retain-owned k d (omega arith)) (climb n (suc k) d calls (omega arith))

-- An object that is retained until it has 410 owners is never deallocated, whatever is called
-- afterwards.
pub run-sentinel :
    (k : ℕ) (d : Deallocator) (calls : List Call)
    → k ≤ 410
    → run (owned k d) (replicate (410 - k) retains ++ calls) ≡ done (kept (owned 410 d))
run-sentinel k d calls h = climb (410 - k) k d calls (omega arith)
