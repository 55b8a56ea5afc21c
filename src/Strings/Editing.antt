-- ===== src/Strings/Editing.antt =====
-- The functions of src/SXString.c that change a string in place: joining and removing. `fill` is the
-- byte that `realloc` leaves in memory that it adds.
pub mod Joining
pub mod Removing
use spartan_x.Prelude.{
  ℕ, zero, suc, ◌+◌, ◌-◌, ◌%◌, Bool, true, false, List, [], ◌∷◌, u64_mod, ltb, ◌==◌, if◌then◌else◌,
  replicate, drop, Outcome, crash, done, ◌>>=◌,
}
use spartan_x.Vector.{Vector, object_at}
use spartan_x.Strings.{retain_string, SxString, Range}
use spartan_x.Strings.Memory.{strnlen, strlen, strncmp_same, load, store, resized}

-- The length of the string stays as it is, and no terminator is written.
unfoldable pub join_cstring : (fill : ℕ) → SxString → List ℕ → Outcome SxString
join_cstring fill string cstring = strlen cstring >>= λ n.
    (load n cstring >>= λ bytes.
    (store string.length bytes (resized fill (string.length + n + 1) string.chars) >>= λ chars.
    done (record string { chars = chars })))

-- The loop of `SXStringByJoiningSubStrings` from `i` on, `rounds` before its end. The strings of the
-- vector are distinct.
unfoldable pub join_from : (fill rounds i : ℕ) → SxString → Vector SxString → Outcome SxString
unfolding join_cstring
join_from fill zero i first substring = done first
join_from fill (suc rounds) i first substring = object_at substring i >>= λ o.
    (join_cstring fill first o.chars >>= λ joined. join_from fill rounds (i + 1) joined substring)

unfoldable pub by_joining_sub_strings : (fill : ℕ) → Vector SxString → Outcome SxString
unfolding join_from
by_joining_sub_strings fill substring = object_at substring 0 >>= λ first.
    join_from fill (substring.count - 1) 1 (retain_string first) substring

-- `memcpy` of overlapping ranges is undefined behaviour.
unfoldable pub removing_range : (fill : ℕ) → SxString → Range → Outcome SxString
removing_range fill string range =
    let moved = (string.length + u64_mod + u64_mod - range.loca - range.len) % u64_mod in
    store range.loca (replicate range.len 0) string.chars >>= λ cleared.
    (if ltb range.len moved
      then crash
      else (load moved (drop (range.loca + range.len) cleared) >>= λ bytes.
          (store range.loca bytes cleared >>= λ closed.
          (store (string.length - range.len) (replicate range.len 0) closed >>= λ ended.
          (strnlen ended string.length >>= λ n.
          done (record string { length = n; chars = resized fill (n + 1) ended }))))))

-- The body of the loop of `SXStringRemoveOcurrenceOfCString` at `i`.
unfoldable pub remove_at : (fill : ℕ) → ℕ → SxString → List ℕ → ℕ → Outcome SxString
unfolding removing_range
remove_at fill i string remove len = strncmp_same (drop i string.chars) remove len >>= λ hit.
    (if hit
      then (strnlen remove len >>= λ n. removing_range fill string (record { loca = i; len = n }))
      else done string)

-- The loop, for at most `rounds` rounds.
unfoldable pub remove_rounds : (fill rounds i : ℕ) → SxString → List ℕ → ℕ → Outcome SxString
remove_rounds fill zero i string remove len = done string
remove_rounds fill (suc rounds) i string remove len =
    let rest = remove_at fill i string remove len >>= λ left.
    remove_rounds fill rounds (i + 1) left remove len in
    if ltb i string.length then rest else done string

-- A string has at most as many rounds as characters.
unfoldable pub remove_ocurrence_of_cstring : (fill : ℕ) → SxString → List ℕ → ℕ → Outcome SxString
unfolding remove_rounds
remove_ocurrence_of_cstring fill string remove len =
    remove_rounds fill string.length 0 string remove len

-- The `do` loop of `SXStringRemoveOcurrencesOfCStrings`, for at most `rounds` rounds: its condition
-- compares the length with a copy that was made just before.
unfoldable pub remove_again : (fill rounds : ℕ) → SxString → List ℕ → ℕ → Outcome SxString
unfolding remove_ocurrence_of_cstring
remove_again fill zero string remove len = done string
remove_again fill (suc rounds) string remove len =
    remove_ocurrence_of_cstring fill string remove len >>= λ left.
    (let cl = left.length in
      let again = remove_again fill rounds left remove len in
      if left.length == cl then done left else again)

unfoldable pub remove_ocurrences_of_cstrings : (fill : ℕ) → SxString → List ℕ → ℕ → Outcome SxString
unfolding remove_again
remove_ocurrences_of_cstrings fill string remove len = remove_again fill 1 string remove len
