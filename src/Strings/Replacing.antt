-- ===== src/Strings/Replacing.antt =====
-- The functions of src/SXString.c that replace the occurrences of a string, and those that make
-- temporary strings of C strings.
pub mod Rounds
pub mod Bound
pub mod Trailing
pub mod Yielding
pub mod Text
use spartan_x.Prelude.{
  int_max, leb, ◌&&◌, ℕ, zero, suc, ◌+◌, ◌*◌, ◌%◌, Bool, true, false, Option, none, some, List, [],
  ◌∷◌, ◌++◌, sub_ℕ, size_of_int, u64_mod, ltb, ◌==◌, if◌then◌else◌, length, replicate, drop,
  Outcome, crash, done, ◌>>=◌,
}
use spartan_x.Vector.{Vector, object_at}
use spartan_x.Strings.{
  SxString, create_string_with_cstring, substring_locations, substrings_trimmed_by_string,
  release_string,
}
use spartan_x.Strings.Memory.{strlen, load, store}

-- The variables of the loop.
pub record Cursor : Type 0 where
  pub i : ℕ
  pub str_pos : ℕ
  pub n : ℕ
  pub buf : List ℕ

-- The two branches of the loop's body, with the `++i` behind it. `sprintf` writes a character and a
-- terminator.
unfoldable pub replace_hit : SxString → SxString → Cursor → Outcome Cursor
replace_hit target replacement c = load replacement.length replacement.chars >>= λ bytes.
    (store c.i bytes c.buf >>= λ buf. done (record {
      i = c.i + replacement.length;
      str_pos = c.str_pos + target.length;
      n = c.n + 1;
      buf = buf;
    }))

unfoldable pub replace_miss : SxString → Cursor → Outcome Cursor
replace_miss string c = load 1 (drop c.str_pos string.chars) >>= λ char.
    (store c.i (char ++ 0 ∷ []) c.buf >>= λ buf.
    done (record { i = c.i + 1; str_pos = c.str_pos + 1; n = c.n; buf = buf }))

-- The body reads the next position, also behind the last one.
unfoldable pub replace_at : SxString → SxString → SxString → Vector ℕ → Cursor → Outcome Cursor
unfolding replace_hit replace_miss
replace_at string target replacement positions c = object_at positions c.n >>= λ loca.
    (if c.str_pos == loca then replace_hit target replacement c else replace_miss string c)

-- The loop up to `bound`, for at most `rounds` rounds.
unfoldable pub replace_rounds :
    (rounds bound : ℕ) → SxString → SxString → SxString → Vector ℕ → Cursor → Outcome (List ℕ)
unfolding replace_at
replace_rounds zero bound string target replacement positions c = done c.buf
replace_rounds (suc rounds) bound string target replacement positions c =
    let rest =
      replace_at string target replacement positions c
      >>= replace_rounds rounds bound string target replacement positions in
    if ltb c.i bound then rest else done c.buf

-- `string->length + delta * positions->count`, computed in `size_t`.
abbrev pub bound_of : SxString → SxString → SxString → Vector ℕ → ℕ
bound_of string target replacement positions =
    (string.length + size_of_int (sub_ℕ replacement.length target.length) * positions.count)
    % u64_mod

abbrev pub buf_size : SxString → SxString → ℕ
buf_size string replacement = string.length + replacement.length * string.length + 1

abbrev pub at_start : SxString → SxString → Cursor
at_start string replacement = record {
  i = 0;
  str_pos = 0;
  n = 0;
  buf = replicate (buf_size string replacement) 0;
}

-- The number of rounds covers each byte up to the bound and each position.
unfoldable pub filled : SxString → SxString → SxString → Vector ℕ → Outcome (List ℕ)
unfolding replace_rounds
filled string target replacement positions =
    let bound = bound_of string target replacement positions in
    replace_rounds (bound + length positions.mem_loca) bound string target replacement positions
      (at_start string replacement)

-- The variables of the loop, `delta` and the lengths that it is computed from are `int`. Where the buffer
-- or the target is longer than INT_MAX they may overflow, or `len` may wrap, and the model crashes.
unfoldable pub replaced : SxString → SxString → SxString → Vector ℕ → Outcome (List ℕ)
unfolding filled
replaced string target replacement positions =
    if leb (buf_size string replacement) int_max && leb target.length int_max
    then filled string target replacement positions
    else crash

-- Without an occurrence, `positions` is NULL and `positions->count` is read from it.
unfoldable pub replace_in_place :
    SxString → SxString → SxString → Option (Vector ℕ) → Outcome SxString
unfolding replaced
replace_in_place string target replacement none = crash
replace_in_place string target replacement (some positions) =
    if positions.count == 0
    then done string
    else (replaced string target replacement positions >>= λ buf.
        (strlen buf >>= λ n. done (record string { length = n; chars = buf })))

unfoldable pub replacing_occurrences_of_string : SxString → SxString → SxString → Outcome SxString
unfolding replace_in_place
replacing_occurrences_of_string string target replacement =
    substring_locations string target >>= replace_in_place string target replacement

unfoldable pub replace_in_copy :
    SxString → SxString → SxString → Option (Vector ℕ) → Outcome SxString
unfolding replaced
replace_in_copy string target replacement none = crash
replace_in_copy string target replacement (some positions) =
    if positions.count == 0
    then create_string_with_cstring string.chars string.length
    else (replaced string target replacement positions >>= λ buf.
        create_string_with_cstring buf (buf_size string replacement))

unfoldable pub by_replacing_occurrences_of_string :
    SxString → SxString → SxString → Outcome SxString
unfolding replace_in_copy
by_replacing_occurrences_of_string string target replacement =
    substring_locations string target >>= replace_in_copy string target replacement

unfoldable pub by_replacing_occurrences_of_cstring : SxString → List ℕ → List ℕ → Outcome SxString
unfolding by_replacing_occurrences_of_string
by_replacing_occurrences_of_cstring string ctarget creplacement = strlen ctarget >>= λ m.
    (create_string_with_cstring ctarget m >>= λ target.
    (strlen creplacement >>= λ k.
    (create_string_with_cstring creplacement k >>= λ replacement.
    (by_replacing_occurrences_of_string string target replacement >>= λ str.
    (release_string target >>= λ _. (release_string replacement >>= λ _. done str))))))

-- The string that the function replaces in is not the one that it returns: it is dropped.
unfoldable pub replacing_occurrences_of_cstring : SxString → List ℕ → List ℕ → Outcome SxString
unfolding by_replacing_occurrences_of_cstring
replacing_occurrences_of_cstring string ctarget creplacement =
    by_replacing_occurrences_of_cstring string ctarget creplacement >>= λ _. done string

unfoldable pub substrings_trimmed_by_cstring : SxString → List ℕ → ℕ → Outcome (Vector SxString)
substrings_trimmed_by_cstring target trimcstr trimstr_len =
    create_string_with_cstring trimcstr trimstr_len >>= λ s.
    (substrings_trimmed_by_string target s >>= λ v. (release_string s >>= λ _. done v))
