-- ===== src/Strings/Editing/Joining.antt =====
-- What joining leaves in a string.
use spartan_x.Prelude.{
  ℕ, suc, ◌+◌, ◌-◌, ◌≤◌, ◌≡◌, refl, ap, List, [], ◌∷◌, ◌++◌, arith, length, length-append,
  length-take, length-replicate, drop, take, replicate, done, ◌>>=◌,
}
use spartan_x.Strings.{SxString}
use spartan_x.Strings.Memory.{store, resized}
use spartan_x.Strings.Spelling.{NonZero, strlen-end, load-append}
use spartan_x.Strings.Editing.{join_cstring}

store-here :
    (ys block : List ℕ)
    → length ys ≤ length block
    → store 0 ys block ≡ done (ys ++ drop (length ys) block)
unfolding store
store-here [] block h = refl
store-here (y ∷ ys) [] h = absurd (omega arith)
store-here (y ∷ ys) (b ∷ block) h = rw (store-here ys block (omega arith))

store-behind :
    (xs ys block : List ℕ)
    → length ys ≤ length block
    → store (length xs) ys (xs ++ block) ≡ done (xs ++ (ys ++ drop (length ys) block))
unfolding store
store-behind [] ys block h = store-here ys block h
store-behind (x ∷ xs) ys block h = rw (store-behind xs ys block h)

resized-append :
    (fill n : ℕ) (xs block : List ℕ)
    → resized fill (length xs + n) (xs ++ block) ≡ xs ++ resized fill n block
resized-append fill n [] block = let e : 0 + n ≡ n = omega arith in rw e
resized-append fill n (x ∷ xs) block =
    let e : suc (length xs) + n ≡ suc (length xs + n) = omega arith in
    let same : suc (length xs + n) - suc (length (xs ++ block))
        ≡ length xs + n - length (xs ++ block) =
      omega arith in
    rw (e, same) (ap (◌∷◌ x) (resized-append fill n xs block))

length-resized : (fill n : ℕ) (block : List ℕ) → length (resized fill n block) ≡ n
length-resized fill n block = omega (
  arith,
  length-append (take n block) (replicate (n - length block) fill),
  length-take n block,
  length-replicate (n - length block) fill,
)

-- Joining writes the characters of the C string behind the first `length` bytes of the string, keeps
-- these bytes and keeps the length.
pub join_cstring-prefix :
    (fill : ℕ) (string : SxString) (xs block ys rest : List ℕ)
    → string.chars ≡ xs ++ block
    → string.length ≡ length xs
    → NonZero ys
    → (joined : SxString) × (later : List ℕ) × (join_cstring fill string (ys ++ 0 ∷ rest)
        ≡ done joined)
      × (joined.chars ≡ xs ++ (ys ++ later))
      × (joined.length ≡ length xs)
unfolding join_cstring
join_cstring-prefix fill string xs block ys rest c l z =
    let room = resized fill (length ys + 1) block in
    let later = drop (length ys) room in
    let fits : length ys ≤ length room = omega (arith, length-resized fill (length ys + 1) block) in
    let e : length xs + length ys + 1 ≡ length xs + (length ys + 1) = omega arith in
    (
      record string { chars = xs ++ (ys ++ later) },
      later,
      simp (
        strlen-end ys rest z,
        load-append ys (0 ∷ rest),
        c,
        l,
        e,
        resized-append fill (length ys + 1) xs block,
        store-behind xs ys room fits,
      ),
      refl,
      l,
    )

-- A second joining overwrites the first: of the bytes behind the string, the later characters are
-- written where the earlier ones were.
pub join_cstring_twice :
    (fill : ℕ) (string : SxString) (xs block ys zs rest rest1 : List ℕ)
    → string.chars ≡ xs ++ block
    → string.length ≡ length xs
    → NonZero ys
    → NonZero zs
    → (joined : SxString) × (later : List ℕ) × ((join_cstring fill string (ys ++ 0 ∷ rest)
          >>= λ first. join_cstring fill first (zs ++ 0 ∷ rest1))
        ≡ done joined)
      × (joined.chars ≡ xs ++ (zs ++ later))
join_cstring_twice fill string xs block ys zs rest rest1 c l z w =
    let (first, after, e, fc, fl) = join_cstring-prefix fill string xs block ys rest c l z in
    let (joined, later, e1, jc, _) =
      join_cstring-prefix fill first xs (ys ++ after) zs rest1 fc fl w in
    (joined, later, rw e e1, jc)
