-- ===== src/Strings/Spelling.antt =====
-- Strings as lists of characters: what creation, substrings and comparison do to the characters that a
-- string spells.
use spartan_x.Prelude.{
  some, ℕ, zero, suc, ◌+◌, ◌≤◌, ◌<◌, ◌≡◌, refl, sym, ap, false, List, [], ◌∷◌, ◌++◌, pos, arith,
  ◌==◌, All, length, length-take, length-drop, take, drop, crash, done,
}
use spartan_x.Strings.Memory.{strnlen, strlen, load}
use spartan_x.Strings.{
  SxString, create_string_with_cstring, get_substring_in_range, release_string, retain_string,
}

abbrev pub NonZero : List ℕ → Type 0
NonZero = All (λ b. 0 < b)

-- The string's characters are `xs`, with their end after them.
pub record Spells (s : SxString) (xs : List ℕ) : Type 0 where
  pub rest : List ℕ
  pub stored : s.chars ≡ xs ++ 0 ∷ rest
  pub counted : s.length ≡ length xs
  pub characters : NonZero xs

pub strlen-end : (xs rest : List ℕ) → NonZero xs → strlen (xs ++ 0 ∷ rest) ≡ done (length xs)
unfolding strlen
strlen-end [] rest z = refl
strlen-end (zero ∷ xs) rest (h, z) = absurd (omega arith)
strlen-end (suc x ∷ xs) rest (h, z) = rw (strlen-end xs rest z)

strnlen-end :
    (xs rest : List ℕ) (n : ℕ)
    → NonZero xs
    → length xs ≤ n
    → strnlen (xs ++ 0 ∷ rest) n ≡ done (length xs)
unfolding strnlen
strnlen-end [] rest zero z h = refl
strnlen-end [] rest (suc n) z h = refl
strnlen-end (x ∷ xs) rest zero z h = absurd (omega arith)
strnlen-end (zero ∷ xs) rest (suc n) (p, z) h = absurd (omega arith)
strnlen-end (suc x ∷ xs) rest (suc n) (p, z) h = rw (strnlen-end xs rest n z (omega arith))

strnlen-cut : (xs rest : List ℕ) → NonZero xs → strnlen (xs ++ rest) (length xs) ≡ done (length xs)
unfolding strnlen
strnlen-cut [] rest z = refl
strnlen-cut (zero ∷ xs) rest (p, z) = absurd (omega arith)
strnlen-cut (suc x ∷ xs) rest (p, z) = rw (strnlen-cut xs rest z)

pub load-append : (xs rest : List ℕ) → load (length xs) (xs ++ rest) ≡ done xs
unfolding load
load-append [] rest = refl
load-append (x ∷ xs) rest = rw (load-append xs rest)

next : (n : ℕ) → n + 1 ≡ suc n
next n = omega arith

load-end :
    (xs : List ℕ) (b : ℕ) (rest : List ℕ)
    → load (suc (length xs)) (xs ++ b ∷ rest) ≡ done (xs ++ b ∷ [])
unfolding load
load-end [] b rest = refl
load-end (x ∷ xs) b rest = rw (load-end xs b rest)

-- The string that `SXCreateStringWithCString` makes of characters that end within the given length
-- spells these characters.
pub create_string_with_cstring-Spells :
    (xs more : List ℕ) (n : ℕ)
    → NonZero xs
    → length xs ≤ n
    → (s : SxString) × (create_string_with_cstring (xs ++ 0 ∷ more) n ≡ done s) × Spells s xs
unfolding create_string_with_cstring
create_string_with_cstring-Spells xs more n z h = (
  record { length = length xs; ref_count = pos 1; chars = xs ++ 0 ∷ [] },
  rw (strnlen-end xs more n z h, next (length xs), load-end xs 0 more, strnlen-cut xs (0 ∷ []) z),
  record { rest = []; stored = refl; counted = refl; characters = z },
)

pub strlen-unended : (xs : List ℕ) → NonZero xs → strlen xs ≡ crash
unfolding strlen
strlen-unended [] z = refl
strlen-unended (zero ∷ xs) (p, z) = absurd (omega arith)
strlen-unended (suc x ∷ xs) (p, z) = rw (strlen-unended xs z)

NonZero-append : (xs : List ℕ) (b : ℕ) → NonZero xs → 0 < b → NonZero (xs ++ b ∷ [])
NonZero-append [] b z h = (h, tt)
NonZero-append (x ∷ xs) b (p, z) h = (p, NonZero-append xs b z h)

-- If the characters go on behind the given length, the string that is made counts that length, but its
-- block has no end: it holds one character more, and `strlen` of it reads behind the block.
pub create_string_with_cstring-unended :
    (xs more : List ℕ) (b : ℕ)
    → NonZero xs
    → 0 < b
    → (s : SxString) × (create_string_with_cstring (xs ++ b ∷ more) (length xs) ≡ done s)
      × (s.length ≡ length xs)
      × (strlen s.chars ≡ crash)
unfolding create_string_with_cstring
create_string_with_cstring-unended xs more b z h = (
  record { length = length xs; ref_count = pos 1; chars = xs ++ b ∷ [] },
  rw (strnlen-cut xs (b ∷ more) z, next (length xs), load-end xs b more, strnlen-cut xs (b ∷ []) z),
  refl,
  strlen-unended (xs ++ b ∷ []) (NonZero-append xs b z h),
)

pub drop-append :
    (i : ℕ) (xs rest : List ℕ) → i ≤ length xs → drop i (xs ++ rest) ≡ drop i xs ++ rest
drop-append zero xs rest h = refl
drop-append (suc i) [] rest h = absurd (omega arith)
drop-append (suc i) (x ∷ xs) rest h = drop-append i xs rest (omega arith)

load-take : (n : ℕ) (xs rest : List ℕ) → n ≤ length xs → load n (xs ++ rest) ≡ done (take n xs)
unfolding load
load-take zero xs rest h = refl
load-take (suc n) [] rest h = absurd (omega arith)
load-take (suc n) (x ∷ xs) rest h = rw (load-take n xs rest (omega arith))

pub NonZero-take : (n : ℕ) (xs : List ℕ) → NonZero xs → NonZero (take n xs)
NonZero-take zero xs z = tt
NonZero-take (suc n) [] z = tt
NonZero-take (suc n) (x ∷ xs) (p, z) = (p, NonZero-take n xs z)

pub NonZero-drop : (n : ℕ) (xs : List ℕ) → NonZero xs → NonZero (drop n xs)
NonZero-drop zero xs z = z
NonZero-drop (suc n) [] z = tt
NonZero-drop (suc n) (x ∷ xs) (p, z) = NonZero-drop n xs z

-- The substring of a range within a string spells the characters of the range.
pub get_substring_in_range-Spells :
    (o_str : SxString) (xs : List ℕ) (i n : ℕ)
    → Spells o_str xs
    → i + n ≤ length xs
    → (s : SxString) × (get_substring_in_range o_str (record { loca = i; len = n }) ≡ done s)
      × Spells s (take n (drop i xs))
unfolding get_substring_in_range
get_substring_in_range-Spells o_str xs i n h k =
    let left : n ≤ length (drop i xs) = omega (arith, length-drop i xs) in
    let loaded : load n (drop i o_str.chars) ≡ done (take n (drop i xs)) =
      rw (h.stored, drop-append i xs (0 ∷ h.rest) (omega arith))
        (load-take n (drop i xs) (0 ∷ h.rest) left) in
    let (s, e, spelled) =
      create_string_with_cstring-Spells (take n (drop i xs)) [] n
        (NonZero-take n (drop i xs) (NonZero-drop i xs h.characters))
        (omega (arith, length-take n (drop i xs))) in
    (s, rw loaded e, spelled)

-- A retain that is followed by a release leaves a counted string as it was.
pub release_string-retain :
    (s : SxString) (n : ℕ)
    → s.ref_count ≡ pos (suc n)
    → suc n < 409
    → release_string (retain_string s) ≡ done (some s)
unfolding release_string retain_string
release_string-retain s n h k =
    let shy : (suc n == 410) ≡ false = ground arith in
    let still : (suc (suc n) == 410) ≡ false = ground arith in
    let left : (suc n == 0) ≡ false = ground arith in
    let same : record s { ref_count = pos (suc n) } ≡ s =
      ap (λ c. record s { ref_count = c }) (sym h) in
    simp (h, shy, still, left) (ap (λ t. done (some t)) same)
