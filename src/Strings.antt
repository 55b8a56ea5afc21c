-- ===== src/Strings.antt =====
-- Strings, src/SXString.c and `sx_string_t` of src/SXString.h: making them, finding in them, splitting
-- them and owning them. Memory is a list of bytes that ends where its block ends: an access behind it
-- crashes, and so does a use of a block that was given back. A string owns its block `chars`.
pub mod Memory
pub mod Spelling
pub mod Searching
pub mod Splitting
pub mod Parting
pub mod Gluing
pub mod Editing
pub mod Replacing
pub mod Witness
use spartan_x.Prelude.{
  int_max, leb, ℕ, zero, suc, ◌+◌, ◌-◌, Bool, true, false, Option, none, some, List, [], ◌∷◌, ◌++◌,
  ℤ, pos, increment, decrement, ◌==ℤ◌, sub_ℕ, size_of_int, u64_mod, size_max, ltb, ◌==◌, ◌&&◌, ◌%◌,
  if◌then◌else◌, length, set, drop, Outcome, crash, done, ◌>>=◌,
}
use spartan_x.Object.{sx_weak_object}
use spartan_x.Vector.{Vector, create_vector, create_vector_with_array, object_at}
use spartan_x.Strings.Memory.{strnlen, strlen, strncmp_same, load}

pub record SxString : Type 0 where
  pub length : ℕ
  pub ref_count : ℤ
  pub chars : List ℕ

pub record Range : Type 0 where
  pub loca : ℕ
  pub len : ℕ

unfoldable pub create_string_with_cstring : List ℕ → ℕ → Outcome SxString
create_string_with_cstring cstr n = strnlen cstr n >>= λ len.
    (load (len + 1) cstr >>= λ chars.
    (strnlen chars len >>= λ l. done (record { length = l; ref_count = pos 1; chars = chars })))

unfoldable pub get_substring_in_range : SxString → Range → Outcome SxString
unfolding create_string_with_cstring
get_substring_in_range o_str range = load range.len (drop range.loca o_str.chars) >>= λ bytes.
    create_string_with_cstring (bytes ++ 0 ∷ []) range.len

-- The loop of `SXStringSubStringLocation`, `rounds` before its end.
unfoldable pub locate : (rounds i j : ℕ) → SxString → List ℕ → ℕ → ℕ → Outcome ℕ
locate zero i j o_str trim len n = done size_max
locate (suc rounds) i j o_str trim len n = strncmp_same (drop i o_str.chars) trim len >>= λ hit.
    (let later = locate rounds (i + 1) (if hit then j + 1 else j) o_str trim len n in
      if hit && (j == n) then done i else later)

-- A loop that found nothing up to INT_MAX increments `i` once more.
unfoldable pub overflowed : ℕ → Outcome ℕ
overflowed i = if i == size_max then crash else done i

unfoldable pub locate_up_to_max : SxString → List ℕ → ℕ → ℕ → Outcome ℕ
unfolding locate overflowed
locate_up_to_max o_str trim len n = locate (int_max + 1) 0 0 o_str trim len n >>= overflowed

-- The counters `i` and `j`, which is at most `i`, are `int`.
unfoldable pub substring_location : SxString → List ℕ → ℕ → ℕ → Outcome ℕ
unfolding locate
substring_location o_str trim len n =
    if leb o_str.length int_max
    then locate o_str.length 0 0 o_str trim len n
    else locate_up_to_max o_str trim len n

-- The loop of `SXStringSubCStringLocations`: what it writes to `locas` from `i` on.
unfoldable pub locations : (rounds i : ℕ) → SxString → List ℕ → ℕ → Outcome (List ℕ)
locations zero i o_str trim len = done []
locations (suc rounds) i o_str trim len = strncmp_same (drop i o_str.chars) trim len >>= λ hit.
    (locations rounds (i + 1) o_str trim len >>= λ later. done (if hit then i ∷ later else later))

-- `none` is the pointer NULL.
unfoldable pub vector_of_locations : List ℕ → Outcome (Option (Vector ℕ))
vector_of_locations [] = done none
vector_of_locations (l ∷ locas) =
    create_vector_with_array (l ∷ locas) 4 (length (l ∷ locas)) false >>= λ v. done (some v)

-- The counters `i` and `n`, which is at most `i`, and the positions are `int`: on a longer string `i`
-- overflows.
unfoldable pub sub_cstring_locations : SxString → List ℕ → ℕ → Outcome (Option (Vector ℕ))
unfolding locations vector_of_locations
sub_cstring_locations o_str trim len =
    if leb o_str.length int_max
    then locations o_str.length 0 o_str trim len >>= vector_of_locations
    else crash

unfoldable pub substring_locations : SxString → SxString → Outcome (Option (Vector ℕ))
unfolding sub_cstring_locations
substring_locations o_str trim = sub_cstring_locations o_str trim.chars trim.length

-- The range of the `i`-th part: `int` differences, stored as `size_t`.
unfoldable pub part_range : SxString → SxString → Vector ℕ → ℕ → Outcome Range
part_range target trimstr loca zero =
    object_at loca 0 >>= λ first. done (record { loca = 0; len = first })
part_range target trimstr loca (suc i) = object_at loca i >>= λ before.
    (if suc i == loca.count
      then (let len = size_of_int (sub_ℕ target.length (before + trimstr.length)) in
          done (record { loca = (target.length + u64_mod - len) % u64_mod; len = len }))
      else (object_at loca (suc i) >>= λ next. done (record {
        loca = before + trimstr.length;
        len = size_of_int (sub_ℕ next (before + trimstr.length));
      })))

-- The loop of `SXStringSubStringsTrimmedByString`, `rounds` before its end.
unfoldable pub trim_parts :
    (rounds i : ℕ) → SxString → SxString → Vector ℕ → Vector SxString → Outcome (Vector SxString)
unfolding part_range get_substring_in_range
trim_parts zero i target trimstr loca ret = done ret
trim_parts (suc rounds) i target trimstr loca ret = part_range target trimstr loca i >>= λ range.
    (get_substring_in_range target range >>= λ sstr.
    trim_parts rounds (i + 1) target trimstr loca
      (record ret { mem_loca = set ret.mem_loca i (some sstr); count = ret.count + 1 }))

-- Without an occurrence, `loca` is NULL and `loca->count` is read from it. The lengths are converted to
-- `int` and the position of an occurrence is added to one of them: where both together are above INT_MAX
-- this may overflow, and the model crashes.
unfoldable pub trim_at : SxString → SxString → Option (Vector ℕ) → Outcome (Vector SxString)
unfolding trim_parts
trim_at target trimstr none = crash
trim_at target trimstr (some loca) =
    if leb (target.length + trimstr.length) int_max
    then trim_parts (loca.count + 1) 0 target trimstr loca (create_vector 8 (loca.count + 1) true)
    else crash

unfoldable pub substrings_trimmed_by_string : SxString → SxString → Outcome (Vector SxString)
unfolding substring_locations trim_at
substrings_trimmed_by_string target trimstr =
    substring_locations target trimstr >>= trim_at target trimstr

-- The loop of `SXStringContainsCString`, whose body does not depend on its counter.
unfoldable pub contains_rounds : ℕ → SxString → List ℕ → ℕ → Outcome Bool
contains_rounds zero string cstr n = done false
contains_rounds (suc t) string cstr n = strncmp_same string.chars cstr n >>= λ hit.
    (let later = contains_rounds t string cstr n in if hit then done true else later)

unfoldable pub contains_cstring : SxString → List ℕ → Outcome Bool
unfolding contains_rounds
contains_cstring string cstr = strlen cstr >>= λ n.
    (if ltb n string.length
      then done false
      else contains_rounds ((string.length + u64_mod + 1 - n) % u64_mod) string cstr n)

unfoldable pub retain_string : SxString → SxString
retain_string string =
    if string.ref_count ==ℤ sx_weak_object
    then string
    else record string { ref_count = increment string.ref_count }

-- `SXFreeString` gives back the string and then reads `string->chars`.
unfoldable pub free_string : SxString → Outcome (Option SxString)
free_string string = crash

unfoldable pub release_string : SxString → Outcome (Option SxString)
unfolding free_string
release_string string =
    if string.ref_count ==ℤ sx_weak_object
    then done (some string)
    else (let left = record string { ref_count = decrement string.ref_count } in
        if left.ref_count ==ℤ pos 0 then free_string left else done (some left))
