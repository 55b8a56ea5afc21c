-- ===== src/Strings/Gluing.antt =====
-- Splitting a string and putting its parts together again.
use spartan_x.Prelude.{
  int_max, leb, ℕ, zero, suc, ◌+◌, ◌-◌, ◌≤◌, ◌<◌, ◌≡◌, refl, sym, ap, subst, ◌∙◌, true, false,
  Bool-cases, inl, inr, some, List, [], ◌∷◌, ◌++◌, All, append-nil, arith, u64_mod, length,
  length-drop, take, drop, take-append-drop, done,
}
use spartan_x.Vector.{Vector, object_at, create_vector}
use spartan_x.Vector.Holding.{Holds, object_at-Holds, create_vector_with_array-Holds}
use spartan_x.Strings.{
  SxString, part_range, trim_at, substrings_trimmed_by_string, substring_locations,
  sub_cstring_locations, vector_of_locations,
}
use spartan_x.Strings.Spelling.{Spells, get_substring_in_range-Spells}
use spartan_x.Strings.Searching.{is_prefix, occurrences, all_locations, in_int}
use spartan_x.Strings.Splitting.{is_prefix-length}
use spartan_x.Strings.Parting.{
  SpellAll, texts_behind, Apart, Apart-end, holding, parts_behind, round,
}

-- The texts, each with the separator `ys` before it.
abbrev pub glued : List ℕ → List (List ℕ) → List ℕ
glued ys [] = []
glued ys (text ∷ texts) = ys ++ (text ++ glued ys texts)

is_prefix-append : (ys zs : List ℕ) → is_prefix ys zs ≡ true → zs ≡ ys ++ drop (length ys) zs
is_prefix-append [] zs h = refl
is_prefix-append (y ∷ ys) [] h = cc
is_prefix-append (y ∷ ys) (z ∷ zs) h = elim (Bool-cases (is_prefix ys zs)) [
  | inl p ↦
      let same : z ≡ y = ground arith in
      ap (λ c. c ∷ zs) same ∙ ap (◌∷◌ y) (is_prefix-append ys zs p)
  | inr n ↦ absurd (ground arith)
]

-- `ys` stands at the position `l` of `xs`, counted from `j`.
abbrev pub Stands : List ℕ → ℕ → List ℕ → ℕ → Type 0
Stands ys j xs l = (m : ℕ) × (l ≡ j + m) × (is_prefix ys (drop m xs) ≡ true) × (m ≤ length xs)

Stands-later :
    (ys : List ℕ) (j x : ℕ) (xs ls : List ℕ)
    → All (Stands ys (j + 1) xs) ls
    → All (Stands ys j (x ∷ xs)) ls
Stands-later ys j x xs [] all = tt
Stands-later ys j x xs (l ∷ ls) ((m, at, found, within), all) =
    ((suc m, omega arith, found, omega arith), Stands-later ys j x xs ls all)

pub occurrences-Stands :
    (ys : List ℕ) (j : ℕ) (xs : List ℕ) → All (Stands ys j xs) (occurrences ys j xs)
occurrences-Stands ys j [] = tt
occurrences-Stands ys j (x ∷ xs) =
    let later =
      Stands-later ys j x xs (occurrences ys (j + 1) xs) (occurrences-Stands ys (j + 1) xs) in
    elim (Bool-cases (is_prefix ys (x ∷ xs))) [
      | inl p ↦ rw p ((0, omega arith, p, omega arith), later)
      | inr n ↦ rw n later
    ]

-- Consecutive positions do not overlap.
abbrev pub Disjoint : ℕ → ℕ → List ℕ → Type 0
Disjoint k b [] = Unit
Disjoint k b (l ∷ ls) = (b + k ≤ l) × Disjoint k l ls

drop-nil : (n : ℕ) → drop {A = ℕ} n [] ≡ []
drop-nil zero = refl
drop-nil (suc n) = refl

drop-drop : (m n : ℕ) (xs : List ℕ) → drop m (drop n xs) ≡ drop (n + m) xs
drop-drop m zero xs = let e : 0 + m ≡ m = omega arith in rw e
drop-drop m (suc n) [] = let e : suc n + m ≡ suc (n + m) = omega arith in rw (e, drop-nil m)
drop-drop m (suc n) (x ∷ xs) =
    let e : suc n + m ≡ suc (n + m) = omega arith in rw e (drop-drop m n xs)

Stands-drop :
    (ys xs : List ℕ) (l : ℕ)
    → Stands ys 0 xs l
    → (drop l xs ≡ ys ++ drop (l + length ys) xs) × (l + length ys ≤ length xs)
Stands-drop ys xs l (m, at, found, within) =
    let same : m ≡ l = omega arith in
    let here : is_prefix ys (drop l xs) ≡ true = rw (sym same) found in
    (
      is_prefix-append ys (drop l xs) here ∙ ap (λ zs. ys ++ zs) (drop-drop (length ys) l xs),
      omega (arith, is_prefix-length ys (drop l xs) here, length-drop l xs),
    )

Disjoint-Apart :
    (ys xs : List ℕ) (b : ℕ) (ls : List ℕ)
    → All (Stands ys 0 xs) (b ∷ ls)
    → Disjoint (length ys) b ls
    → Apart (length ys) b ls (length xs)
Disjoint-Apart ys xs b [] (here, _) d = (Stands-drop ys xs b here).1
Disjoint-Apart ys xs b (l ∷ ls) (here, all) (near, d) = (near, Disjoint-Apart ys xs l ls all d)

drop-glued :
    (ys xs : List ℕ) (b : ℕ) (ls : List ℕ)
    → All (Stands ys 0 xs) (b ∷ ls)
    → Disjoint (length ys) b ls
    → drop b xs ≡ glued ys (texts_behind (length ys) b ls xs)
drop-glued ys xs b [] (here, _) d =
    (Stands-drop ys xs b here).0 ∙ ap (λ zs. ys ++ zs) (sym (append-nil (drop (b + length ys) xs)))
drop-glued ys xs b (l ∷ ls) (here, all) (near, d) =
    let start = b + length ys in
    let reach : start + (l - start) ≡ l = omega arith in
    let behind : drop (l - start) (drop start xs) ≡ glued ys (texts_behind (length ys) l ls xs) =
      drop-drop (l - start) start xs ∙ ap (λ n. drop n xs) reach ∙ drop-glued ys xs l ls all d in
    (Stands-drop ys xs b here).0
    ∙ ap (λ zs. ys ++ zs)
        (sym (take-append-drop (l - start) (drop start xs))
          ∙ ap (λ zs. take (l - start) (drop start xs) ++ zs) behind)

length-texts_behind : (k b : ℕ) (ls xs : List ℕ) → length (texts_behind k b ls xs) ≡ suc (length ls)
length-texts_behind k b [] xs = refl
length-texts_behind k b (l ∷ ls) xs = ap suc (length-texts_behind k l ls xs)

first_range :
    (target trimstr : SxString) (loca : Vector ℕ) (l : ℕ)
    → object_at loca 0 ≡ done l
    → part_range target trimstr loca 0 ≡ done (record { loca = 0; len = l })
unfolding part_range
first_range target trimstr loca l read = rw read

substring_locations-Holds :
    (target trimstr : SxString) (xs ys : List ℕ) {l : ℕ} {ls : List ℕ}
    → Spells target xs
    → Spells trimstr ys
    → length xs ≤ int_max
    → occurrences ys 0 xs ≡ l ∷ ls
    → (loca : Vector ℕ) × (substring_locations target trimstr ≡ done (some loca))
      × Holds loca (l ∷ ls)
unfolding substring_locations sub_cstring_locations vector_of_locations
substring_locations-Holds target trimstr xs ys {l} {ls} h k short there =
    let (loca, built, held) = create_vector_with_array-Holds (l ∷ ls) 4 false in
    (
      loca,
      simp (
        in_int target xs h short,
        k.stored,
        k.counted,
        all_locations target xs ys k.rest h k.characters,
        there,
        built,
      ),
      held,
    )

-- A string in which the separator occurs, and its occurrences do not overlap, and whose length and that of
-- the separator are together at most INT_MAX, is split into one string more than there are occurrences. They spell texts that give back
-- the characters of the string when the separator is put between them.
pub substrings_trimmed_by_string-glued :
    (target trimstr : SxString) (xs ys : List ℕ) (l : ℕ) (ls : List ℕ)
    → Spells target xs
    → Spells trimstr ys
    → occurrences ys 0 xs ≡ l ∷ ls
    → Disjoint (length ys) l ls
    → length xs + length ys ≤ int_max
    → (parts : List SxString) × (text : List ℕ) × (texts : List (List ℕ))
      × (substrings_trimmed_by_string target trimstr ≡ done (holding parts 0))
      × SpellAll parts (text ∷ texts)
      × (length texts ≡ length (l ∷ ls))
      × (text ++ glued ys texts ≡ xs)
unfolding substrings_trimmed_by_string trim_at create_vector
substrings_trimmed_by_string-glued target trimstr xs ys l ls h k there disjoint fit =
    let small : length xs < u64_mod = omega arith in
    let fits : leb (target.length + trimstr.length) int_max ≡ true =
      ground (arith, h.counted, k.counted) in
    let stands : All (Stands ys 0 xs) (l ∷ ls) =
      subst (All (Stands ys 0 xs)) there (occurrences-Stands ys 0 xs) in
    let apart = Disjoint-Apart ys xs l ls stands disjoint in
    let end = Apart-end (length ys) l ls (length xs) apart in
    let (loca, located, held) =
      substring_locations-Holds target trimstr xs ys h k (omega arith) there in
    let (s, made, spelled) = get_substring_in_range-Spells target xs 0 l h (omega arith) in
    let ranged : part_range target trimstr loca 0 ≡ done (record { loca = 0; len = l }) =
      first_range target trimstr loca l (object_at-Holds loca (l ∷ ls) 0 held refl) in
    let first =
      round target trimstr xs ys h k small loca (l ∷ ls) held (suc (length ls)) 0 []
        (record { loca = 0; len = l }) s refl ranged made in
    let (more, looped, spells) =
      parts_behind target trimstr xs ys h k small loca (l ∷ ls) held 0 l [] ls (s ∷ []) refl refl
        refl apart in
    let rounds : loca.count + 1 ≡ suc (suc (length ls)) = omega (arith, held.counted) in
    (
      s ∷ more,
      take l xs,
      texts_behind (length ys) l ls xs,
      rw (located, fits, rounds) (first ∙ looped),
      (spelled, spells),
      length-texts_behind (length ys) l ls xs,
      ap (λ zs. take l xs ++ zs) (sym (drop-glued ys xs l ls stands disjoint))
          ∙ take-append-drop l xs,
    )
