-- ===== src/Strings/Editing/Removing.antt =====
-- How often the loops that remove run.
use spartan_x.Prelude.{
  u64_mod, ◌%◌, replicate, ℕ, zero, suc, ◌+◌, ◌-◌, ◌≤◌, ◌≡◌, ==_refl, refl, ap, Bool, true, false,
  inl, inr, ◌⊎◌, Outcome-cases, >>=-eq-done, done-injective, List, [], ◌∷◌, arith, ltb,
  if◌then◌else◌, Outcome, crash, done, drop,
}
use spartan_x.Strings.{SxString, Range}
use spartan_x.Strings.Memory.{strnlen, strncmp_same, load, store}
use spartan_x.Strings.Editing.{
  removing_range, remove_at, remove_rounds, remove_ocurrence_of_cstring, remove_again,
}

strnlen-bound : (block : List ℕ) (n : ℕ) {k : ℕ} → strnlen block n ≡ done k → k ≤ n
unfolding strnlen
strnlen-bound block zero h = let e = done-injective h in omega arith
strnlen-bound [] (suc n) h = cc
strnlen-bound (zero ∷ block) (suc n) h = let e = done-injective h in omega arith
strnlen-bound (suc b ∷ block) (suc n) h =
    let (k, counted, e) = >>=-eq-done (strnlen block n) (λ k. done (suc k)) h in
    let bound = strnlen-bound block n counted in let l = done-injective e in omega arith

if-done :
    (b : Bool) {left : SxString} (here there : Outcome SxString)
    → (if b then here else there) ≡ done left
    → (here ≡ done left) ⊎ (there ≡ done left)
if-done true here there h = inl h
if-done false here there h = inr h

if-crash :
    (b : Bool) {left : SxString} (there : Outcome SxString)
    → (if b then crash else there) ≡ done left
    → there ≡ done left
if-crash true there h = cc
if-crash false there h = h

-- Removing a range never makes a string longer.
removing_range-length :
    (fill : ℕ) (string : SxString) (range : Range) {left : SxString}
    → removing_range fill string range ≡ done left
    → left.length ≤ string.length
unfolding removing_range
removing_range-length fill string range h =
    let moved = (string.length + u64_mod + u64_mod - range.loca - range.len) % u64_mod in
    let (cleared, _, h1) =
      >>=-eq-done (store range.loca (replicate range.len 0) string.chars) _ h in
    let h2 = if-crash (ltb range.len moved) _ h1 in
    let (bytes, _, h3) = >>=-eq-done (load moved (drop (range.loca + range.len) cleared)) _ h2 in
    let (closed, _, h4) = >>=-eq-done (store range.loca bytes cleared) _ h3 in
    let (ended, _, h5) =
      >>=-eq-done (store (string.length - range.len) (replicate range.len 0) closed) _ h4 in
    let (n, counted, h6) = >>=-eq-done (strnlen ended string.length) _ h5 in
    let bound = strnlen-bound ended string.length counted in
    let same = ap (λ (s : SxString). s.length) (done-injective h6) in omega (arith, bound, same)

remove_at-length :
    (fill i : ℕ) (string : SxString) (remove : List ℕ) (len : ℕ) {left : SxString}
    → remove_at fill i string remove len ≡ done left
    → left.length ≤ string.length
unfolding remove_at
remove_at-length fill i string remove len h =
    let (hit, _, h1) = >>=-eq-done (strncmp_same (drop i string.chars) remove len) _ h in
    elim (if-done hit _ _ h1) [
      | inl found ↦
          let (n, _, h2) = >>=-eq-done (strnlen remove len) _ found in
          removing_range-length fill string (record { loca = i; len = n }) h2
      | inr kept ↦
          let same = ap (λ (s : SxString). s.length) (done-injective kept) in omega (arith, same)
    ]

-- A round for each position up to the length is enough: more rounds change nothing.
remove_rounds-enough :
    (fill rounds more i : ℕ) (string : SxString) (remove : List ℕ) (len : ℕ)
    → string.length ≤ i + rounds
    → remove_rounds fill (rounds + more) i string remove len
      ≡ remove_rounds fill rounds i string remove len
unfolding remove_rounds
remove_rounds-enough fill zero zero i string remove len h = refl
remove_rounds-enough fill zero (suc more) i string remove len h =
    let e : 0 + suc more ≡ suc more = omega arith in
    let over : ltb i string.length ≡ false = ground arith in simp (e, over)
remove_rounds-enough fill (suc rounds) more i string remove len h =
    let e : suc rounds + more ≡ suc (rounds + more) = omega arith in
    elim (Outcome-cases (remove_at fill i string remove len)) [
      | inl c ↦ rw (e, c)
      | inr (left, d) ↦
          let shorter = remove_at-length fill i string remove len d in
          rw (e, d, remove_rounds-enough fill rounds more (i + 1) left remove len (omega arith))
    ]

-- The loop of `SXStringRemoveOcurrenceOfCString` ends within as many rounds as the string has
-- characters, whatever is removed: more rounds change nothing.
pub remove_ocurrence_of_cstring-enough :
    (fill more : ℕ) (string : SxString) (remove : List ℕ) (len : ℕ)
    → remove_rounds fill (string.length + more) 0 string remove len
      ≡ remove_ocurrence_of_cstring fill string remove len
unfolding remove_ocurrence_of_cstring
remove_ocurrence_of_cstring-enough fill more string remove len =
    remove_rounds-enough fill string.length more 0 string remove len (omega arith)

-- `SXStringRemoveOcurrencesOfCStrings` is one call of `SXStringRemoveOcurrenceOfCString`: its loop
-- runs once, whatever number of rounds it is allowed.
pub remove_again-once :
    (fill rounds : ℕ) (string : SxString) (remove : List ℕ) (len : ℕ)
    → remove_again fill (suc rounds) string remove len
      ≡ remove_ocurrence_of_cstring fill string remove len
unfolding remove_again
remove_again-once fill rounds string remove len =
    elim (Outcome-cases (remove_ocurrence_of_cstring fill string remove len)) [
      | inl c ↦ rw c
      | inr (left, d) ↦ rw (d, ==_refl left.length)
    ]
