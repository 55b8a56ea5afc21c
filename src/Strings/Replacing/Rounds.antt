-- ===== src/Strings/Replacing/Rounds.antt =====
-- How many rounds the loop that replaces takes.
use spartan_x.Prelude.{
  ℕ, zero, suc, ◌+◌, ◌-◌, ◌≤◌, ◌<◌, ◌≡◌, refl, ap, ◌⊎◌, inl, inr, Bool, true, false, Bool-cases,
  Option, none, some, List, [], ◌∷◌, ◌++◌, arith, ltb, ◌==◌, if◌then◌else◌, length, drop, Outcome,
  Outcome-cases, >>=-eq-done, done-injective, done,
}
use spartan_x.Vector.{Vector, object_at, read_slot}
use spartan_x.Strings.{SxString}
use spartan_x.Strings.Memory.{load, store}
use spartan_x.Strings.Replacing.{
  Cursor, replace_hit, replace_miss, replace_at, replace_rounds, filled, at_start, bound_of,
}

read_slot-bound :
    (slots : List (Option ℕ)) (i : ℕ) {a : ℕ} → read_slot slots i ≡ done a → i < length slots
unfolding read_slot
read_slot-bound [] i h = cc
read_slot-bound (none ∷ slots) zero h = cc
read_slot-bound (some a ∷ slots) zero h = omega arith
read_slot-bound (none ∷ slots) (suc i) h = let k = read_slot-bound slots i h in omega arith
read_slot-bound (some a ∷ slots) (suc i) h = let k = read_slot-bound slots i h in omega arith

-- Positions and bytes that are left.
abbrev pub left : ℕ → Vector ℕ → Cursor → ℕ
left bound positions c = (bound - c.i) + (length positions.mem_loca - c.n)

replace_hit-moves :
    (target replacement : SxString) (c : Cursor) {d : Cursor}
    → replace_hit target replacement c ≡ done d
    → (c.i ≤ d.i) × (d.n ≡ c.n + 1)
unfolding replace_hit
replace_hit-moves target replacement c h =
    let (bytes, _, h1) = >>=-eq-done (load replacement.length replacement.chars) _ h in
    let (buf, _, h2) = >>=-eq-done (store c.i bytes c.buf) _ h1 in
    let i = ap (λ (e : Cursor). e.i) (done-injective h2) in
    let n = ap (λ (e : Cursor). e.n) (done-injective h2) in (omega (arith, i), omega (arith, n))

replace_miss-moves :
    (string : SxString) (c : Cursor) {d : Cursor}
    → replace_miss string c ≡ done d
    → (d.i ≡ c.i + 1) × (d.n ≡ c.n)
unfolding replace_miss
replace_miss-moves string c h =
    let (char, _, h1) = >>=-eq-done (load 1 (drop c.str_pos string.chars)) _ h in
    let (buf, _, h2) = >>=-eq-done (store c.i (char ++ 0 ∷ []) c.buf) _ h1 in
    let i = ap (λ (e : Cursor). e.i) (done-injective h2) in
    let n = ap (λ (e : Cursor). e.n) (done-injective h2) in (omega (arith, i), omega (arith, n))

if-done :
    (b : Bool) {d : Cursor} (here there : Outcome Cursor)
    → (if b then here else there) ≡ done d
    → (here ≡ done d) ⊎ (there ≡ done d)
if-done true here there h = inl h
if-done false here there h = inr h

replace_at-left :
    (string target replacement : SxString) (positions : Vector ℕ) (bound : ℕ) (c : Cursor)
    {d : Cursor}
    → c.i < bound
    → replace_at string target replacement positions c ≡ done d
    → left bound positions d < left bound positions c
unfolding replace_at object_at
replace_at-left string target replacement positions bound c below h =
    let (loca, read, h1) = >>=-eq-done (object_at positions c.n) _ h in
    let within = read_slot-bound positions.mem_loca c.n read in
    elim (if-done (c.str_pos == loca) _ _ h1) [
      | inl hit ↦ omega (arith, within, below, replace_hit-moves target replacement c hit)
      | inr miss ↦ omega (arith, within, below, replace_miss-moves string c miss)
    ]

-- More rounds than what is left change nothing.
replace_rounds-enough :
    (rounds more bound : ℕ) (string target replacement : SxString) (positions : Vector ℕ)
    (c : Cursor)
    → left bound positions c ≤ rounds
    → replace_rounds (rounds + more) bound string target replacement positions c
      ≡ replace_rounds rounds bound string target replacement positions c
unfolding replace_rounds
replace_rounds-enough zero zero bound string target replacement positions c h = refl
replace_rounds-enough zero (suc more) bound string target replacement positions c h =
    let e : 0 + suc more ≡ suc more = omega arith in
    let over : ltb c.i bound ≡ false = ground arith in simp (e, over)
replace_rounds-enough (suc rounds) more bound string target replacement positions c h =
    let e : suc rounds + more ≡ suc (rounds + more) = omega arith in
    elim (Bool-cases (ltb c.i bound)) [
      | inr over ↦ rw (e, over)
      | inl below ↦ elim (Outcome-cases (replace_at string target replacement positions c)) [
        | inl stuck ↦ rw (e, stuck)
        | inr (d, moved) ↦
            let fewer =
              replace_at-left string target replacement positions bound c (ground arith) moved in
            rw (
              e,
              moved,
              replace_rounds-enough rounds more bound string target replacement positions d
                  (omega arith),
            )
      ]
    ]

-- The loop that replaces ends within the rounds that it is given, one for each byte up to its bound and
-- one for each position, whatever the strings and the positions are: more rounds change nothing.
pub filled-enough :
    (more : ℕ) (string target replacement : SxString) (positions : Vector ℕ)
    → (let bound = bound_of string target replacement positions in
        replace_rounds
          (bound + length positions.mem_loca + more)
          bound
          string
          target
          replacement
          positions
          (at_start string replacement))
      ≡ filled string target replacement positions
unfolding filled
filled-enough more string target replacement positions =
    let bound = bound_of string target replacement positions in
    replace_rounds-enough (bound + length positions.mem_loca) more bound string target replacement
      positions (at_start string replacement) (omega arith)
