-- ===== src/Strings/Searching.antt =====
-- What the searches in strings find.
use spartan_x.Prelude.{
  int_max, leb, ℕ, zero, suc, ◌+◌, ◌-◌, ◌≤◌, ◌≡◌, refl, sym, ap, ◌∙◌, Bool, true, false, ◌&&◌,
  Bool-cases, inl, inr, ◌⊎◌, List, [], ◌∷◌, ◌++◌, arith, ltb, ◌==◌, if◌then◌else◌, Option, none,
  some, length, drop, crash, done, u64_mod, size_max,
}
use spartan_x.Vector.{Vector}
use spartan_x.Vector.Holding.{Holds, create_vector_with_array-Holds}
use spartan_x.Strings.Memory.{strncmp_same}
use spartan_x.Strings.{
  SxString, contains_rounds, contains_cstring, locations, locate, substring_location,
  vector_of_locations, sub_cstring_locations, substring_locations, trim_at,
  substrings_trimmed_by_string,
}
use spartan_x.Strings.Spelling.{NonZero, Spells, strlen-end}

-- An independent description of what is searched for.
abbrev pub is_prefix : List ℕ → List ℕ → Bool
is_prefix [] xs = true
is_prefix (y ∷ ys) [] = false
is_prefix (y ∷ ys) (x ∷ xs) = (x == y) && is_prefix ys xs

abbrev pub equal_lists : List ℕ → List ℕ → Bool
equal_lists [] [] = true
equal_lists [] (y ∷ ys) = false
equal_lists (x ∷ xs) [] = false
equal_lists (x ∷ xs) (y ∷ ys) = (x == y) && equal_lists xs ys

-- The positions, counted from `i`, where `ys` begins.
abbrev pub occurrences : List ℕ → ℕ → List ℕ → List ℕ
occurrences ys i [] = []
occurrences ys i (z ∷ zs) =
    let later = occurrences ys (i + 1) zs in if is_prefix ys (z ∷ zs) then i ∷ later else later

abbrev pub nth_or : ℕ → List ℕ → ℕ → ℕ
nth_or d [] n = d
nth_or d (l ∷ ls) zero = l
nth_or d (l ∷ ls) (suc n) = nth_or d ls n

strncmp_same-prefix :
    (xs ys rest rest1 : List ℕ)
    → NonZero xs
    → NonZero ys
    → strncmp_same (xs ++ 0 ∷ rest) (ys ++ 0 ∷ rest1) (length ys) ≡ done (is_prefix ys xs)
unfolding strncmp_same
strncmp_same-prefix xs [] rest rest1 z w = refl
strncmp_same-prefix xs (zero ∷ ys) rest rest1 z (q, w) = absurd (omega arith)
strncmp_same-prefix [] (suc y ∷ ys) rest rest1 z w = ap done (ground arith)
strncmp_same-prefix (zero ∷ xs) (suc y ∷ ys) rest rest1 (p, z) w = absurd (omega arith)
strncmp_same-prefix (suc x ∷ xs) (suc y ∷ ys) rest rest1 (p, z) (q, w) =
    let later = strncmp_same-prefix xs ys rest rest1 z w in
    elim (Bool-cases (suc x == suc y)) [ inl e ↦ rw (e, later) | inr e ↦ rw e ]

contains_rounds-miss :
    (t : ℕ) (string : SxString) (cstr : List ℕ) (n : ℕ)
    → strncmp_same string.chars cstr n ≡ done false
    → contains_rounds t string cstr n ≡ done false
unfolding contains_rounds
contains_rounds-miss zero string cstr n h = refl
contains_rounds-miss (suc t) string cstr n h = rw h (contains_rounds-miss t string cstr n h)

equal_lists-length : (xs ys : List ℕ) → equal_lists xs ys ≡ true → length xs ≡ length ys
equal_lists-length [] [] h = refl
equal_lists-length [] (y ∷ ys) h = cc
equal_lists-length (x ∷ xs) [] h = cc
equal_lists-length (x ∷ xs) (y ∷ ys) h = elim (Bool-cases (x == y)) [
  | inl e ↦ ap suc (equal_lists-length xs ys (rw (sym (ap (λ b. b && equal_lists xs ys) e)) h))
  | inr e ↦ absurd (ground arith)
]

is_prefix-equal : (xs ys : List ℕ) → length xs ≤ length ys → is_prefix ys xs ≡ equal_lists xs ys
is_prefix-equal [] [] h = refl
is_prefix-equal [] (y ∷ ys) h = refl
is_prefix-equal (x ∷ xs) [] h = absurd (omega arith)
is_prefix-equal (x ∷ xs) (y ∷ ys) h = rw (is_prefix-equal xs ys (omega arith))

-- `SXStringContainsCString` tells whether the string and the C string are equal.
pub contains_cstring-equal :
    (s : SxString) (xs ys rest : List ℕ)
    → Spells s xs
    → NonZero ys
    → contains_cstring s (ys ++ 0 ∷ rest) ≡ done (equal_lists xs ys)
unfolding contains_cstring contains_rounds
contains_cstring-equal s xs ys rest h z = elim (Bool-cases (ltb (length ys) s.length)) [
  | inl longer ↦
      let different : equal_lists xs ys ≡ false = elim (Bool-cases (equal_lists xs ys)) [
        | inl e ↦ let l = equal_lists-length xs ys e in let c = h.counted in absurd (ground arith)
        | inr e ↦ e
      ] in
      rw (strlen-end ys rest z, longer, different)
  | inr fits ↦
      let c = h.counted in
      let short : length xs ≤ length ys = ground arith in
      let same : strncmp_same s.chars (ys ++ 0 ∷ rest) (length ys) ≡ done (equal_lists xs ys) =
        rw (h.stored, sym (is_prefix-equal xs ys short))
          (strncmp_same-prefix xs ys h.rest rest h.characters z) in
      elim (Bool-cases (equal_lists xs ys)) [
        | inl e ↦
            let l = equal_lists-length xs ys e in
            let once : s.length + u64_mod + 1 - length ys ≡ u64_mod + 1 = omega arith in
            rw (strlen-end ys rest z, fits, once, same, e)
        | inr e ↦
            rw (strlen-end ys rest z, fits, e)
              (contains_rounds-miss _ s (ys ++ 0 ∷ rest) (length ys) (same ∙ ap done e))
      ]
]

drop-suc :
    (i : ℕ) (block : List ℕ) {b : ℕ} {later : List ℕ}
    → drop i block ≡ b ∷ later
    → drop (suc i) block ≡ later
drop-suc zero [] h = cc
drop-suc zero (a ∷ block) h = cc
drop-suc (suc i) [] h = cc
drop-suc (suc i) (a ∷ block) h = drop-suc i block h

drop-next :
    (i : ℕ) (block : List ℕ) {b : ℕ} {later : List ℕ}
    → drop i block ≡ b ∷ later
    → drop (i + 1) block ≡ later
drop-next i block h = let e : i + 1 ≡ suc i = omega arith in rw e (drop-suc i block h)

locations-occurrences :
    (o_str : SxString) (ys rest1 zs rest : List ℕ) (i : ℕ)
    → drop i o_str.chars ≡ zs ++ 0 ∷ rest
    → NonZero zs
    → NonZero ys
    → locations (length zs) i o_str (ys ++ 0 ∷ rest1) (length ys) ≡ done (occurrences ys i zs)
unfolding locations
locations-occurrences o_str ys rest1 [] rest i h z w = refl
locations-occurrences o_str ys rest1 (c ∷ zs) rest i h z w =
    let here = strncmp_same-prefix (c ∷ zs) ys rest rest1 z w in
    let later =
      locations-occurrences o_str ys rest1 zs rest (i + 1) (drop-next i o_str.chars h) z.1 w in
    rw (h, here, later)

-- What a vector of positions holds, NULL for none.
abbrev pub Found : Option (Vector ℕ) → List ℕ → Type 0
Found none ls = ls ≡ []
Found (some v) ls = Holds v ls

vector_of_locations-Found :
    (ls : List ℕ) → (r : Option (Vector ℕ)) × (vector_of_locations ls ≡ done r) × Found r ls
unfolding vector_of_locations
vector_of_locations-Found [] = (none, refl, refl)
vector_of_locations-Found (l ∷ ls) =
    let (v, e, held) = create_vector_with_array-Holds (l ∷ ls) 4 false in (some v, rw e, held)

pub all_locations :
    (o_str : SxString) (xs ys rest1 : List ℕ)
    → Spells o_str xs
    → NonZero ys
    → locations o_str.length 0 o_str (ys ++ 0 ∷ rest1) (length ys) ≡ done (occurrences ys 0 xs)
all_locations o_str xs ys rest1 h w =
    simp h.counted (locations-occurrences o_str ys rest1 xs h.rest 0 h.stored h.characters w)

-- The counters of a loop over the string do not overflow.
pub in_int :
    (o_str : SxString) (xs : List ℕ)
    → Spells o_str xs
    → length xs ≤ int_max
    → leb o_str.length int_max ≡ true
in_int o_str xs h small = ground (arith, h.counted)

-- On a string of at most INT_MAX characters, `SXStringSubCStringLocations` for a C string and its length completes, with NULL where the C string
-- does not occur, else with a vector of all positions where it begins, in their order.
pub sub_cstring_locations-occurrences :
    (o_str : SxString) (xs ys rest1 : List ℕ)
    → Spells o_str xs
    → NonZero ys
    → length xs ≤ int_max
    → (r : Option (Vector ℕ)) × (sub_cstring_locations o_str (ys ++ 0 ∷ rest1) (length ys) ≡ done r)
      × Found r (occurrences ys 0 xs)
unfolding sub_cstring_locations
sub_cstring_locations-occurrences o_str xs ys rest1 h w small =
    simp (in_int o_str xs h small, all_locations o_str xs ys rest1 h w)
      (vector_of_locations-Found (occurrences ys 0 xs))

zero-or-suc : (n : ℕ) → (n ≡ 0) ⊎ ((k : ℕ) × (n ≡ suc k))
zero-or-suc zero = inl refl
zero-or-suc (suc k) = inr (k, refl)

locate-occurrences :
    (o_str : SxString) (ys rest1 zs rest : List ℕ) (i j n k : ℕ)
    → drop i o_str.chars ≡ zs ++ 0 ∷ rest
    → NonZero zs
    → NonZero ys
    → n ≡ j + k
    → locate (length zs) i j o_str (ys ++ 0 ∷ rest1) (length ys) n
      ≡ done (nth_or size_max (occurrences ys i zs) k)
unfolding locate
locate-occurrences o_str ys rest1 [] rest i j n k h z w e = refl
locate-occurrences o_str ys rest1 (c ∷ zs) rest i j n k h z w e =
    let here = strncmp_same-prefix (c ∷ zs) ys rest rest1 z w in
    let on = drop-next i o_str.chars h in
    elim (Bool-cases (is_prefix ys (c ∷ zs))) [
      | inr miss ↦
          rw (h, here, miss) (locate-occurrences o_str ys rest1 zs rest (i + 1) j n k on z.1 w e)
      | inl hit ↦ elim (zero-or-suc k) [
        | inl first ↦ let same : (j == n) ≡ true = ground arith in rw (h, here, hit, same, first)
        | inr (k1, later) ↦
            let other : (j == n) ≡ false = ground arith in
            rw (h, here, hit, other, later)
              (locate-occurrences o_str ys rest1 zs rest (i + 1) (j + 1) n k1 on z.1 w
                (omega arith))
      ]
    ]

-- On a string of at most INT_MAX characters, `SXStringSubStringLocation` for a C string and its length yields the n-th position, counted from 0,
-- where the C string begins, or -1 as a `size_t` where there is none.
pub substring_location-nth :
    (o_str : SxString) (xs ys rest1 : List ℕ) (n : ℕ)
    → Spells o_str xs
    → NonZero ys
    → length xs ≤ int_max
    → substring_location o_str (ys ++ 0 ∷ rest1) (length ys) n
      ≡ done (nth_or size_max (occurrences ys 0 xs) n)
unfolding substring_location
substring_location-nth o_str xs ys rest1 n h w small =
    let fits : leb (length xs) int_max ≡ true = ground arith in
    simp (h.counted, fits)
      (locate-occurrences o_str ys rest1 xs h.rest 0 0 n n h.stored h.characters w (omega arith))

-- Splitting a string at a string that does not occur in it reads through NULL.
pub substrings_trimmed_by_string-crash :
    (target trimstr : SxString) (xs ys : List ℕ)
    → Spells target xs
    → Spells trimstr ys
    → length xs ≤ int_max
    → occurrences ys 0 xs ≡ []
    → substrings_trimmed_by_string target trimstr ≡ crash
unfolding substrings_trimmed_by_string substring_locations sub_cstring_locations vector_of_locations
    trim_at
substrings_trimmed_by_string-crash target trimstr xs ys h k small none_there = simp (
  in_int target xs h small,
  k.stored,
  k.counted,
  all_locations target xs ys k.rest h k.characters,
  none_there,
)
