-- ===== src/Strings/Witness.antt =====
-- Concrete strings.
use spartan_x.Prelude.{
  ◌+◌, ◌>>=◌, ℕ, ◌≡◌, refl, true, false, Option, some, List, [], ◌∷◌, ◌++◌, arith, pos, crash, done,
  length,
}
use spartan_x.Vector.{Vector, create_vector, create_vector_with_array, object_at}
use spartan_x.Strings.{
  SxString, create_string_with_cstring, get_substring_in_range, contains_cstring,
  substring_location, sub_cstring_locations, substrings_trimmed_by_string, retain_string,
  release_string,
}
use spartan_x.Strings.Editing.{join_cstring, remove_rounds, remove_ocurrence_of_cstring}
use spartan_x.Strings.Editing.Joining.{join_cstring_twice}
use spartan_x.Strings.Editing.Removing.{remove_ocurrence_of_cstring-enough}
use spartan_x.Strings.Replacing.Text.{replacing_occurrences_of_string-written}
use spartan_x.Strings.Replacing.Trailing.{replacing-crash}
use spartan_x.Strings.Replacing.{
  replacing_occurrences_of_string, by_replacing_occurrences_of_string, replace_rounds, filled,
  at_start,
}
use spartan_x.Strings.Replacing.Rounds.{filled-enough}
use spartan_x.Strings.Memory.{strlen, strnlen, strncmp_same, load}
use spartan_x.Strings.Spelling.{
  release_string-retain, Spells, create_string_with_cstring-Spells,
  create_string_with_cstring-unended, get_substring_in_range-Spells,
}
use spartan_x.Strings.Parting.{SpellAll, holding}
use spartan_x.Strings.Gluing.{glued, substrings_trimmed_by_string-glued}
use spartan_x.Strings.Splitting.{substrings_trimmed_by_string-two}
use spartan_x.Strings.Searching.{
  Found, contains_cstring-equal, sub_cstring_locations-occurrences, substring_location-nth,
  substrings_trimmed_by_string-crash,
}

-- "GET /a/b".
abbrev request : List ℕ
request = 71 ∷ 69 ∷ 84 ∷ 32 ∷ 47 ∷ 97 ∷ 47 ∷ 98 ∷ []

abbrev slash : List ℕ
slash = 47 ∷ []

abbrev colon : List ℕ
colon = 58 ∷ []

abbrev spelled : List ℕ → SxString
spelled xs = record { length = length xs; ref_count = pos 1; chars = xs ++ 0 ∷ [] }

request-Spells : Spells (spelled request) request
request-Spells = record {
  rest = [];
  stored = refl;
  counted = refl;
  characters = (
    omega arith,
    (
      omega arith,
      (omega arith, (omega arith, (omega arith, (omega arith, (omega arith, (omega arith, tt)))))),
    ),
  );
}

colon-Spells : Spells (spelled colon) colon
colon-Spells = record { rest = []; stored = refl; counted = refl; characters = (omega arith, tt) }

create_string_with_cstring-Spells_test :
    (s : SxString) × (create_string_with_cstring (request ++ 0 ∷ 7 ∷ []) 8 ≡ done s)
    × Spells s request
create_string_with_cstring-Spells_test =
    create_string_with_cstring-Spells request (7 ∷ []) 8 request-Spells.characters (omega arith)

create_string_with_cstring-unended_test :
    (s : SxString) × (create_string_with_cstring (colon ++ 47 ∷ 47 ∷ 0 ∷ []) 1 ≡ done s)
    × (s.length ≡ 1)
    × (strlen s.chars ≡ crash)
create_string_with_cstring-unended_test =
    create_string_with_cstring-unended colon (47 ∷ 0 ∷ []) 47 colon-Spells.characters (omega arith)

get_substring_in_range-Spells_test :
    (s : SxString) × (get_substring_in_range (spelled request) (record { loca = 4; len = 2 })
      ≡ done s)
    × Spells s (47 ∷ 97 ∷ [])
get_substring_in_range-Spells_test =
    get_substring_in_range-Spells (spelled request) request 4 2 request-Spells (omega arith)

contains_cstring-equal_example : contains_cstring (spelled request) (slash ++ 0 ∷ []) ≡ done false
contains_cstring-equal_example =
    contains_cstring-equal (spelled request) request slash [] request-Spells (omega arith, tt)

sub_cstring_locations-occurrences_example :
    (r : Option (Vector ℕ)) × (sub_cstring_locations (spelled request) (slash ++ 0 ∷ []) 1 ≡ done r)
    × Found r (4 ∷ 6 ∷ [])
sub_cstring_locations-occurrences_example =
    sub_cstring_locations-occurrences (spelled request) request slash [] request-Spells
      (omega arith, tt) (omega arith)

substring_location-nth_example : substring_location (spelled request) (slash ++ 0 ∷ []) 1 1 ≡ done 6
substring_location-nth_example =
    substring_location-nth (spelled request) request slash [] 1 request-Spells (omega arith, tt)
      (omega arith)

substrings_trimmed_by_string-crash_test :
    substrings_trimmed_by_string (spelled request) (spelled colon) ≡ crash
substrings_trimmed_by_string-crash_test =
    substrings_trimmed_by_string-crash (spelled request) (spelled colon) request colon
      request-Spells colon-Spells (omega arith) refl

release_string-retain_test :
    release_string (retain_string (spelled request)) ≡ done (some (spelled request))
release_string-retain_test = release_string-retain (spelled request) 0 refl (omega arith)

-- The parts "GET ", "a" and "b" between the slashes.
split_test :
    substrings_trimmed_by_string (spelled request) (spelled slash)
    ≡ done (record {
      count = 3;
      osize = 8;
      mem_loca =
          some (spelled (71 ∷ 69 ∷ 84 ∷ 32 ∷ []))
          ∷ some (spelled (97 ∷ []))
          ∷ some (spelled (98 ∷ []))
          ∷ [];
      ref_count = pos 1;
      dealloc = true;
    })
unfolding substrings_trimmed_by_string strncmp_same create_vector_with_array object_at load strnlen
    create_vector
split_test = refl

join_cstring_twice_test :
    (joined : SxString) × (later : List ℕ) × ((join_cstring 255 (spelled request) (slash ++ 0 ∷ [])
        >>= λ first. join_cstring 255 first (colon ++ 0 ∷ []))
      ≡ done joined)
    × (joined.chars ≡ request ++ (colon ++ later))
join_cstring_twice_test =
    join_cstring_twice 255 (spelled request) request (0 ∷ []) slash colon [] [] refl refl
      (omega arith, tt) (omega arith, tt)

remove_ocurrence_of_cstring-enough_test :
    remove_rounds 255 (8 + 5) 0 (spelled request) (slash ++ 0 ∷ []) 1
    ≡ remove_ocurrence_of_cstring 255 (spelled request) (slash ++ 0 ∷ []) 1
remove_ocurrence_of_cstring-enough_test =
    remove_ocurrence_of_cstring-enough 255 5 (spelled request) (slash ++ 0 ∷ []) 1

abbrev at_slashes : Vector ℕ
at_slashes = record {
  count = 2;
  osize = 4;
  mem_loca = some 4 ∷ some 6 ∷ [];
  ref_count = pos 1;
  dealloc = false;
}

filled-enough_test :
    replace_rounds
      (8 + 2 + 5)
      8
      (spelled request)
      (spelled slash)
      (spelled colon)
      at_slashes
      (at_start (spelled request) (spelled colon))
    ≡ filled (spelled request) (spelled slash) (spelled colon) at_slashes
filled-enough_test = filled-enough 5 (spelled request) (spelled slash) (spelled colon) at_slashes

-- "GET /a".
abbrev front : List ℕ
front = 71 ∷ 69 ∷ 84 ∷ 32 ∷ 47 ∷ 97 ∷ []

front-Spells : Spells (spelled front) front
front-Spells = record {
  rest = [];
  stored = refl;
  counted = refl;
  characters =
      (omega arith, (omega arith, (omega arith, (omega arith, (omega arith, (omega arith, tt))))));
}

slash-Spells : Spells (spelled slash) slash
slash-Spells = record { rest = []; stored = refl; counted = refl; characters = (omega arith, tt) }

substrings_trimmed_by_string-two_test :
    (p : SxString) × (q : SxString) × (substrings_trimmed_by_string (spelled front) (spelled slash)
      ≡ done (record (create_vector 8 2 true) { count = 2; mem_loca = some p ∷ some q ∷ [] }))
    × Spells p (71 ∷ 69 ∷ 84 ∷ 32 ∷ [])
    × Spells q (97 ∷ [])
substrings_trimmed_by_string-two_test =
    substrings_trimmed_by_string-two (spelled front) (spelled slash) front slash 4 front-Spells
      slash-Spells refl (omega arith)

-- The separator occurs twice, and one of the parts is empty at the end of "a//".
abbrev path : List ℕ
path = 97 ∷ 47 ∷ 47 ∷ []

path-Spells : Spells (spelled path) path
path-Spells = record {
  rest = [];
  stored = refl;
  counted = refl;
  characters = (omega arith, (omega arith, (omega arith, tt)));
}

substrings_trimmed_by_string-glued_example :
    (parts : List SxString) × (text : List ℕ) × (texts : List (List ℕ))
    × (substrings_trimmed_by_string (spelled path) (spelled slash) ≡ done (holding parts 0))
    × SpellAll parts (text ∷ texts)
    × (length texts ≡ 2)
    × (text ++ glued slash texts ≡ path)
substrings_trimmed_by_string-glued_example =
    substrings_trimmed_by_string-glued (spelled path) (spelled slash) path slash 1 (2 ∷ [])
      path-Spells slash-Spells refl (omega arith, tt) (omega arith)

replacing-crash_example :
    (replacing_occurrences_of_string (spelled request) (spelled slash) (spelled colon) ≡ crash)
    × (by_replacing_occurrences_of_string (spelled request) (spelled slash) (spelled colon) ≡ crash)
replacing-crash_example =
    replacing-crash (spelled request) (spelled slash) (spelled colon) request slash 4 (6 ∷ [])
      request-Spells slash-Spells refl (omega arith, (omega arith, omega arith)) (omega arith)
      (omega arith) (omega arith) (omega arith)

replacing_occurrences_of_string-written_example :
    (s : SxString) × (replacing_occurrences_of_string (spelled path) (spelled slash) (spelled colon)
      ≡ done s)
    × Spells s (97 ∷ 58 ∷ 58 ∷ [])
replacing_occurrences_of_string-written_example =
    replacing_occurrences_of_string-written (spelled path) (spelled slash) (spelled colon) path
      slash colon 1 (2 ∷ []) path-Spells slash-Spells colon-Spells refl
      (omega arith, (omega arith, refl)) (omega arith) (omega arith) (omega arith) (omega arith)
      (omega arith)
