-- ===== src/Strings/Splitting.antt =====
-- What splitting a string yields.
use spartan_x.Prelude.{
  int_max, leb, ℕ, zero, suc, ◌+◌, ◌-◌, ◌%◌, ◌≤◌, ◌<◌, ◌≡◌, refl, ap, subst, Bool, true, false,
  Bool-cases, inl, inr, List, [], ◌∷◌, ◌++◌, some, arith, sub_ℕ, size_of_int, u64_mod,
  if◌then◌else◌, ◌∙◌, length, take, drop, length-drop, done,
}
use spartan_x.Vector.{create_vector_with_array, copy_items, create_vector, object_at, read_slot}
use spartan_x.Strings.{
  SxString, vector_of_locations, sub_cstring_locations, substring_locations, locations, part_range,
  trim_parts, trim_at, substrings_trimmed_by_string,
}
use spartan_x.Strings.Spelling.{Spells, get_substring_in_range-Spells}
use spartan_x.Strings.Searching.{is_prefix, occurrences, all_locations}

pub is_prefix-length : (ys xs : List ℕ) → is_prefix ys xs ≡ true → length ys ≤ length xs
is_prefix-length [] xs h = omega arith
is_prefix-length (y ∷ ys) [] h = cc
is_prefix-length (y ∷ ys) (x ∷ xs) h = elim (Bool-cases (is_prefix ys xs)) [
  | inl p ↦ omega (arith, is_prefix-length ys xs p)
  | inr n ↦ absurd (ground arith)
]

first_hit :
    (b : Bool) (j : ℕ) (ls : List ℕ) {i : ℕ} {later : List ℕ}
    → b ≡ true
    → (if b then j ∷ ls else ls) ≡ i ∷ later
    → j ≡ i
first_hit true j ls p h = cc
first_hit false j ls p h = cc

later_hit :
    (b : Bool) (j : ℕ) (ls : List ℕ) {i : ℕ} {later : List ℕ}
    → b ≡ false
    → (if b then j ∷ ls else ls) ≡ i ∷ later
    → ls ≡ i ∷ later
later_hit true j ls p h = cc
later_hit false j ls p h = h

-- The first position is far enough from the end.
occurrences-fit :
    (ys : List ℕ) (j : ℕ) (xs : List ℕ) {i : ℕ} {later : List ℕ}
    → occurrences ys j xs ≡ i ∷ later
    → i + length ys ≤ j + length xs
occurrences-fit ys j [] h = cc
occurrences-fit ys j (x ∷ xs) {i} {later} h = elim (Bool-cases (is_prefix ys (x ∷ xs))) [
  | inl p ↦
      let fits = is_prefix-length ys (x ∷ xs) p in
      let here : j ≡ i = first_hit (is_prefix ys (x ∷ xs)) j (occurrences ys (j + 1) xs) p h in
      omega (arith, fits, here)
  | inr n ↦
      let on : occurrences ys (j + 1) xs ≡ i ∷ later =
        later_hit (is_prefix ys (x ∷ xs)) j (occurrences ys (j + 1) xs) n h in
      omega (arith, occurrences-fit ys (j + 1) xs on)
]

pub take-all : (n : ℕ) (xs : List ℕ) → n ≡ length xs → take n xs ≡ xs
take-all zero [] h = refl
take-all zero (x ∷ xs) h = absurd (omega arith)
take-all (suc n) [] h = refl
take-all (suc n) (x ∷ xs) h = ap (◌∷◌ x) (take-all n xs (omega arith))

pub last_length : (a b : ℕ) → b ≤ a → a < u64_mod → size_of_int (sub_ℕ a b) ≡ a - b
last_length a b h k = ground arith

pub last_start : (a b : ℕ) → b ≤ a → a < u64_mod → (a + u64_mod - (a - b)) % u64_mod ≡ b
last_start a b h k = let e : a + u64_mod - (a - b) ≡ u64_mod + b = omega arith in omega (arith, e)

-- A string in which the separator occurs once, and whose length and that of the separator are together at most
-- INT_MAX, is split into two strings, which spell what stands before the separator and what stands behind it.
pub substrings_trimmed_by_string-two :
    (target trimstr : SxString) (xs ys : List ℕ) (i : ℕ)
    → Spells target xs
    → Spells trimstr ys
    → occurrences ys 0 xs ≡ i ∷ []
    → length xs + length ys ≤ int_max
    → (p : SxString) × (q : SxString) × (substrings_trimmed_by_string target trimstr
        ≡ done (record (create_vector 8 2 true) { count = 2; mem_loca = some p ∷ some q ∷ [] }))
      × Spells p (take i xs)
      × Spells q (drop (i + length ys) xs)
unfolding substrings_trimmed_by_string substring_locations sub_cstring_locations vector_of_locations
    trim_at trim_parts part_range create_vector_with_array copy_items object_at read_slot
    create_vector
substrings_trimmed_by_string-two target trimstr xs ys i h k once fit =
    let small : length xs < u64_mod = omega arith in
    let short : leb (length xs) int_max ≡ true = ground arith in
    let both : leb (length xs + length ys) int_max ≡ true = ground arith in
    let fits : i + length ys ≤ length xs = omega (arith, occurrences-fit ys 0 xs once) in
    let found : locations (length xs) 0 target (ys ++ 0 ∷ k.rest) (length ys) ≡ done (i ∷ []) =
      subst (λ n. locations n 0 target (ys ++ 0 ∷ k.rest) (length ys) ≡ done (i ∷ [])) h.counted
        (all_locations target xs ys k.rest h k.characters ∙ ap done once) in
    let behind = length xs - (i + length ys) in
    let (p, pe, ps) = get_substring_in_range-Spells target xs 0 i h (omega arith) in
    let (q, qe, qs) =
      get_substring_in_range-Spells target xs (i + length ys) behind h (omega arith) in
    (
      p,
      q,
      simp (
        k.stored,
        k.counted,
        h.counted,
        short,
        both,
        found,
        last_length (length xs) (i + length ys) fits small,
        last_start (length xs) (i + length ys) fits small,
        pe,
        qe,
      ),
      ps,
      subst (Spells q)
          (take-all behind (drop (i + length ys) xs)
            (omega (arith, length-drop (i + length ys) xs)))
          qs,
    )
