-- ===== src/Strings/Replacing/Bound.antt =====
-- The arithmetic of the bound `string->length + delta * positions->count` in `size_t`, and
-- the bytes that it counts.
use native.Mathlib.Nat.{mul_comm, mul-add, suc-mul, add-mul, add-mul-mod_self_left}
use spartan_x.Prelude.{
  ℕ, List, [], ◌∷◌, length, ◌+◌, ◌-◌, ◌*◌, ◌%◌, ◌≤◌, ◌<◌, ◌≡◌, sym, ap, ◌∙◌, inl, inr, Bool-cases,
  arith, leb, size_of_int, sub_ℕ, u64_mod,
}

bound-grows :
    (len k m n r : ℕ)
    → k ≤ m
    → m < u64_mod
    → r + n * k ≡ len + n * m
    → r < u64_mod
    → (len + (m - k) % u64_mod * n) % u64_mod ≡ r
bound-grows len k m n r up fit e small =
    let d = m - k in
    let whole : k + d ≡ m = omega arith in
    let parts : n * m ≡ n * k + d * n =
      ap (λ t. n * t) (sym whole) ∙ mul-add n k d ∙ ap (λ t. n * k + t) (mul_comm n d) in
    let gain : d % u64_mod ≡ d = omega arith in
    let sum : len + d * n ≡ r = omega (arith, parts, e) in rw (gain, sum) (omega arith)

bound-shrinks :
    (len k m n r : ℕ)
    → m < k
    → k < u64_mod
    → r + n * k ≡ len + n * m
    → r < u64_mod
    → (len + ((u64_mod - 1) - (k - m - 1) % u64_mod) * n) % u64_mod ≡ r
bound-shrinks len k m n r down fit e small =
    let d = k - m in
    let whole : m + d ≡ k = omega arith in
    let parts : n * k ≡ n * m + d * n =
      ap (λ t. n * t) (sym whole) ∙ mul-add n m d ∙ ap (λ t. n * m + t) (mul_comm n d) in
    let wrapped : (u64_mod - 1) - (k - m - 1) % u64_mod ≡ u64_mod - d = omega arith in
    let full : (u64_mod - d) + d ≡ u64_mod = omega arith in
    let shares : u64_mod * n ≡ (u64_mod - d) * n + d * n =
      ap (λ t. t * n) (sym full) ∙ add-mul (u64_mod - d) d n in
    let sum : len + (u64_mod - d) * n ≡ r + u64_mod * n = omega (arith, parts, e, shares) in
    rw (wrapped, sum, add-mul-mod_self_left r u64_mod n) (omega arith)

-- `len + delta * n`, with a difference that may be negative as a `size_t`.
pub bound_lem :
    (len k m n r : ℕ)
    → k < u64_mod
    → m < u64_mod
    → r + n * k ≡ len + n * m
    → r < u64_mod
    → (len + size_of_int (sub_ℕ m k) * n) % u64_mod ≡ r
bound_lem len k m n r fit_k fit_m e small = elim (Bool-cases (leb k m)) [
  | inl up ↦ rw up (bound-grows len k m n r (ground arith) fit_m e small)
  | inr down ↦ rw down (bound-shrinks len k m n r (ground arith) fit_k e small)
]

-- The positions `ls` are in their order, `k` apart, from `p` on, and characters up to `len` follow the last.
abbrev pub Followed : ℕ → ℕ → List ℕ → ℕ → Type 0
Followed k p [] len = p < len
Followed k p (l ∷ ls) len = (p ≤ l) × Followed k (l + k) ls len

-- The bytes that are still to be written from `p` on, for a replacement of `m` characters.
abbrev pub remaining : (k m len p : ℕ) → List ℕ → ℕ
remaining k m len p [] = len - p
remaining k m len p (l ∷ ls) = (l - p) + (m + remaining k m len (l + k) ls)

pub remaining-positive :
    (k m len p : ℕ) (ls : List ℕ) → Followed k p ls len → 0 < remaining k m len p ls
remaining-positive k m len p [] f = omega arith
remaining-positive k m len p (l ∷ ls) (near, f) =
    omega (arith, remaining-positive k m len (l + k) ls f)

pub remaining-length :
    (k m len p : ℕ) (ls : List ℕ)
    → Followed k p ls len
    → (p + remaining k m len p ls + length ls * k ≡ len + length ls * m)
remaining-length k m len p [] f = omega arith
remaining-length k m len p (l ∷ ls) (near, f) =
    let later = remaining-length k m len (l + k) ls f in
    omega (arith, later, near, suc-mul (length ls) k, suc-mul (length ls) m)
