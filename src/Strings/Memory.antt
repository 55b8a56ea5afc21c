-- ===== src/Strings/Memory.antt =====
-- The functions of <string.h> that src/SXString.c and Examples/HTTP-proxy/SXClient.c call, on a block
-- of bytes that ends where the list ends. They behave as the C standard documents them.
use spartan_x.Prelude.{
  take, replicate, length, ◌++◌, ◌-◌, ℕ, zero, suc, Bool, true, false, List, [], ◌∷◌, ◌==◌,
  if◌then◌else◌, Outcome, crash, done, ◌>>=◌,
}

unfoldable pub strnlen : List ℕ → ℕ → Outcome ℕ
strnlen block zero = done 0
strnlen [] (suc n) = crash
strnlen (zero ∷ block) (suc n) = done 0
strnlen (suc b ∷ block) (suc n) = strnlen block n >>= λ k. done (suc k)

unfoldable pub strlen : List ℕ → Outcome ℕ
strlen [] = crash
strlen (zero ∷ block) = done 0
strlen (suc b ∷ block) = strlen block >>= λ k. done (suc k)

-- The bytes that `strncpy` writes: up to the end of the string, and zeros behind it.
unfoldable pub strncpy : ℕ → List ℕ → Outcome (List ℕ)
strncpy zero block = done []
strncpy (suc n) [] = crash
strncpy (suc n) (zero ∷ block) = done (replicate (suc n) 0)
strncpy (suc n) (suc b ∷ block) = strncpy n block >>= λ bytes. done (suc b ∷ bytes)

-- Whether `strncmp` finds no difference.
unfoldable pub strncmp_same : List ℕ → List ℕ → ℕ → Outcome Bool
strncmp_same left right zero = done true
strncmp_same [] right (suc n) = crash
strncmp_same (a ∷ left) [] (suc n) = crash
strncmp_same (zero ∷ left) (b ∷ right) (suc n) = done (b == 0)
strncmp_same (suc a ∷ left) (b ∷ right) (suc n) =
    let later = strncmp_same left right n in if suc a == b then later else done false

-- The bytes that `memcpy` reads from the beginning of a block.
unfoldable pub load : ℕ → List ℕ → Outcome (List ℕ)
load zero block = done []
load (suc n) [] = crash
load (suc n) (b ∷ block) = load n block >>= λ bytes. done (b ∷ bytes)

-- The block after `memcpy` or `memset` wrote bytes to it from an offset on.
unfoldable pub store : ℕ → List ℕ → List ℕ → Outcome (List ℕ)
store zero [] block = done block
store zero (b ∷ bytes) [] = crash
store zero (b ∷ bytes) (_ ∷ block) = store zero bytes block >>= λ written. done (b ∷ written)
store (suc i) bytes [] = crash
store (suc i) bytes (c ∷ block) = store i bytes block >>= λ written. done (c ∷ written)

-- `realloc`, which leaves some byte in memory that it adds.
abbrev pub resized : (fill n : ℕ) → List ℕ → List ℕ
resized fill n block = take n block ++ replicate (n - length block) fill
