-- ===== src/Strings/Replacing/Text.antt =====
-- The string that replacing in place leaves, for a string that ends with an occurrence.
use native.Mathlib.Nat.{suc-mul, mul_comm, add-mul}
use spartan_x.Prelude.{
  int_max, leb, ℕ, suc, ◌+◌, ◌-◌, ◌*◌, ◌≤◌, ◌<◌, ◌≡◌, refl, sym, ap, ◌∙◌, true, false, List, [],
  ◌∷◌, ◌++◌, arith, ◌==◌, length, take, drop, replicate, u64_mod, done,
}
use spartan_x.Vector.Holding.{slots_of}
use spartan_x.Strings.{SxString}
use spartan_x.Strings.Spelling.{NonZero, Spells, NonZero-take, NonZero-drop, strlen-end}
use spartan_x.Strings.Searching.{occurrences}
use spartan_x.Strings.Replacing.Bound.{remaining, bound_lem}
use spartan_x.Strings.Replacing.Trailing.{
  buf_size-length, vector_of, substring_locations-vector_of, length-slots_of,
}
use spartan_x.Strings.Replacing.Yielding.{written, Ends, length-written, rounds-written, finished}
use spartan_x.Strings.Replacing.{
  replaced, filled, bound_of, buf_size, replace_in_place, replacing_occurrences_of_string,
}

remaining-Ends :
    (k m len p : ℕ) (ls : List ℕ)
    → Ends k p ls len
    → p + remaining k m len p ls + length ls * k ≡ len + length ls * m
remaining-Ends k m len p [] e = omega arith
remaining-Ends k m len p (l ∷ ls) (near, e) =
    let later = remaining-Ends k m len (l + k) ls e in
    omega (arith, later, near, suc-mul (length ls) k, suc-mul (length ls) m)

length-Ends : (k len p : ℕ) (ls : List ℕ) → 0 < k → Ends k p ls len → p + length ls ≤ len
length-Ends k len p [] some_there e = omega arith
length-Ends k len p (l ∷ ls) some_there (near, e) =
    omega (arith, near, some_there, length-Ends k len (l + k) ls some_there e)

NonZero-append : (xs ys : List ℕ) → NonZero xs → NonZero ys → NonZero (xs ++ ys)
NonZero-append [] ys z w = w
NonZero-append (x ∷ xs) ys (p, z) w = (p, NonZero-append xs ys z w)

NonZero-written :
    (rep : List ℕ) (k : ℕ) (xs : List ℕ) (p : ℕ) (ls : List ℕ)
    → NonZero rep
    → NonZero xs
    → NonZero (written rep k xs p ls)
NonZero-written rep k xs p [] w z = NonZero-drop p xs z
NonZero-written rep k xs p (l ∷ ls) w z =
    NonZero-append (take (l - p) (drop p xs)) _
      (NonZero-take (l - p) (drop p xs) (NonZero-drop p xs z))
      (NonZero-append rep _ w (NonZero-written rep k xs (l + k) ls w z))

-- The buffer is large enough for what is written.
fits : (len n m k r : ℕ) → n ≤ len → r + n * k ≡ len + n * m → r < len + m * len + 1
fits len n m k r few e =
    let whole : n + (len - n) ≡ len = omega arith in
    let parts : len * m ≡ n * m + (len - n) * m =
      ap (λ t. t * m) (sym whole) ∙ add-mul n (len - n) m in
    omega (arith, parts, e, mul_comm m len)

module _ (string target replacement : SxString) (xs rep : List ℕ) (h : Spells string xs)
    (hr : Spells replacement rep) (ps : List ℕ) (ends : Ends target.length 0 ps (length xs))
    (some_there : 0 < target.length) (small : length xs + length ps * length rep < u64_mod)
    (fit_target : target.length < u64_mod) (fit : length rep < u64_mod) where
  total :
      remaining target.length (length rep) (length xs) 0 ps + length ps * target.length
      ≡ length xs + length ps * length rep
  total = omega (arith, remaining-Ends target.length (length rep) (length xs) 0 ps ends)

  bound_of-written :
      bound_of string target replacement (vector_of ps) ≡ length (written rep target.length xs 0 ps)
  bound_of-written =
      let r = remaining target.length (length rep) (length xs) 0 ps in
      rw (h.counted, hr.counted)
        (bound_lem (length xs) target.length (length rep) (length ps) r fit_target fit total
            (omega (arith, total))
          ∙ sym (length-written rep target.length xs 0 ps ends))

  enough_room : length (written rep target.length xs 0 ps) < buf_size string replacement
  enough_room =
      rw (h.counted, hr.counted, length-written rep target.length xs 0 ps ends)
        (fits (length xs) (length ps) (length rep) target.length
          (remaining target.length (length rep) (length xs) 0 ps)
          (omega (arith, length-Ends target.length (length xs) 0 ps some_there ends)) total)

  filled-written :
      filled string target replacement (vector_of ps)
      ≡ finished [] (buf_size string replacement) (written rep target.length xs 0 ps)
  unfolding filled
  filled-written =
      let b = bound_of string target replacement (vector_of ps) in
      rounds-written string target replacement xs rep h hr (vector_of ps) ps refl refl
        (b + length (slots_of ps)) b (buf_size string replacement) 0 [] ps [] refl ends
        (omega (arith, bound_of-written)) (omega (arith, bound_of-written, length-slots_of ps))
        enough_room

-- If `target` is not empty, its occurrences do not overlap, the last one ends the string, the sizes fit
-- a `size_t`, and the target and the buffer are not longer than INT_MAX, replacing them in place succeeds, and the string spells its old text with the
-- replacement in place of each occurrence.
pub replacing_occurrences_of_string-written :
    (string target replacement : SxString) (xs ys rep : List ℕ) (l : ℕ) (ls : List ℕ)
    → Spells string xs
    → Spells target ys
    → Spells replacement rep
    → occurrences ys 0 xs ≡ l ∷ ls
    → Ends target.length 0 (l ∷ ls) (length xs)
    → 0 < target.length
    → length xs + length (l ∷ ls) * length rep < u64_mod
    → buf_size string replacement ≤ int_max
    → target.length ≤ int_max
    → length rep < u64_mod
    → (s : SxString) × (replacing_occurrences_of_string string target replacement ≡ done s)
      × Spells s (written rep target.length xs 0 (l ∷ ls))
unfolding replacing_occurrences_of_string replace_in_place replaced
replacing_occurrences_of_string-written string target replacement xs ys rep l ls h k hr there ends
      some_there small short_buf short fit =
    let fit_target : target.length < u64_mod = omega arith in
    let fits1 : leb (buf_size string replacement) int_max ≡ true = ground arith in
    let fits2 : leb target.length int_max ≡ true = ground arith in
    let text = written rep target.length xs 0 (l ∷ ls) in
    let size = buf_size string replacement in
    let found =
      substring_locations-vector_of string target xs ys h k
        (omega (arith, h.counted, buf_size-length string replacement, short_buf)) there in
    let made =
      filled-written string target replacement xs rep h hr (l ∷ ls) ends some_there small fit_target
        fit in
    let room =
      enough_room string target replacement xs rep h hr (l ∷ ls) ends some_there small fit_target
        fit in
    let end : size - length text ≡ suc (size - length text - 1) = omega (arith, room) in
    let rest : List ℕ = replicate (size - length text - 1) 0 in
    let chars : text ++ replicate (size - length text) 0 ≡ text ++ 0 ∷ rest =
      ap (λ n. text ++ replicate n 0) end in
    let letters = NonZero-written rep target.length xs 0 (l ∷ ls) hr.characters h.characters in
    let some_found : (length (l ∷ ls) == 0) ≡ false = ground arith in
    (
      record string { length = length text; chars = text ++ 0 ∷ rest },
      rw (found, some_found, fits1, fits2, made, chars, strlen-end text rest letters),
      record { rest = rest; stored = refl; counted = refl; characters = letters },
    )
