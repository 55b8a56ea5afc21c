-- ===== src/Loop/Counting.antt =====
-- Counting the events of a run, from what holds of each round.
use spartan_x.Prelude.{ℕ, ◌+◌, ◌≤◌, ◌≡◌, refl, Bool, List, [], ◌∷◌, ◌++◌, arith, if◌then◌else◌}
use spartan_x.Loop.{
  Turn, goes_on, exits, crashes, State, running, ended, crashed, events_of, conclude, run,
}

module _ {E : Type 0} where
  abbrev pub count : (E → Bool) → List E → ℕ
  count p [] = 0
  count p (e ∷ events) = (if p e then 1 else 0) + count p events

  pub count-append : (p : E → Bool) (xs ys : List E) → count p (xs ++ ys) ≡ count p xs + count p ys
  count-append p [] ys = omega arith
  count-append p (x ∷ xs) ys = omega (arith, count-append p xs ys)

module _ {S E : Type 0} where
  abbrev pub budget_of : (S → ℕ) → Turn S E → ℕ
  budget_of budget (goes_on c events) = budget c
  budget_of budget (exits events) = 0
  budget_of budget (crashes events) = 0

  -- A bound on the events of a turn that satisfy `p`, by a budget that a state still has.
  abbrev pub Within : (E → Bool) → (S → ℕ) → ℕ → Turn S E → Type 0
  Within p budget n t = count p (events_of t) + budget_of budget t ≤ n

abbrev pub times : {S : Type 0} → ℕ → State S → ℕ
times n ended = n
times n (running c) = 0
times n crashed = 0

abbrev pub once : {S : Type 0} → State S → ℕ
once state = times 1 state

module _ {S E R : Type 0} (round : R → S → Turn S E) (exit : List E) (p : E → Bool) where
  conclude-Within :
      (budget : S → ℕ) (n : ℕ) (rest : S → State S × List E) (t : Turn S E)
      → Within p budget n t
      → ((c : S) → count p (rest c).1 ≤ budget c + count p exit)
      → count p (conclude exit rest t).1 ≤ n + count p exit
  unfolding conclude
  conclude-Within budget n rest (goes_on c events) h later =
      omega (arith, count-append p events (rest c).1, later c)
  conclude-Within budget n rest (exits events) h later = omega (arith, count-append p events exit)
  conclude-Within budget n rest (crashes events) h later = omega arith

  -- If each round stays within the budget that it leaves, the run stays within the first budget,
  -- with what the exit adds.
  pub run-Within :
      (budget : S → ℕ)
      → ((r : R) (c : S) → Within p budget (budget c) (round r c))
      → (rounds : List R) (c : S) → count p (run round exit rounds c).1 ≤ budget c + count p exit
  unfolding run
  run-Within budget each [] c = omega arith
  run-Within budget each (r ∷ rounds) c =
      conclude-Within budget (budget c) (run round exit rounds) (round r c) (each r c)
        (run-Within budget each rounds)

  conclude-times :
      {n : ℕ}
      → count p exit ≡ n
      → (rest : S → State S × List E) (t : Turn S E) → count p (events_of t) ≡ 0
      → ((c : S) → count p (rest c).1 ≡ times n (rest c).0)
      → count p (conclude exit rest t).1 ≡ times n (conclude exit rest t).0
  unfolding conclude
  conclude-times at_exit rest (goes_on c events) h later =
      omega (arith, count-append p events (rest c).1, later c)
  conclude-times at_exit rest (exits events) h later = omega (arith, count-append p events exit)
  conclude-times at_exit rest (crashes events) h later = omega arith

  -- An event that no round makes and that the exit makes `n` times tells whether the run has ended.
  pub run-times :
      {n : ℕ}
      → count p exit ≡ n
      → ((r : R) (c : S) → count p (events_of (round r c)) ≡ 0)
      → (rounds : List R) (c : S)
      → count p (run round exit rounds c).1 ≡ times n (run round exit rounds c).0
  unfolding run
  run-times at_exit before [] c = refl
  run-times at_exit before (r ∷ rounds) c =
      conclude-times at_exit (run round exit rounds) (round r c) (before r c)
        (run-times at_exit before rounds)

  -- That makes it once.
  pub run-once :
      count p exit ≡ 1
      → ((r : R) (c : S) → count p (events_of (round r c)) ≡ 0)
      → (rounds : List R) (c : S)
      → count p (run round exit rounds c).1 ≡ once (run round exit rounds c).0
  run-once one before rounds c = run-times one before rounds c
