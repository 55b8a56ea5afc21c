-- ===== src/Strings/Replacing/Yielding.antt =====
-- What replacing yields for a string that ends with an occurrence.
use spartan_x.Prelude.{
  ℕ, zero, suc, ◌+◌, ◌-◌, ◌≤◌, ◌<◌, ◌≡◌, refl, sym, ap, ◌∙◌, inl, inr, false, Bool-cases, List, [],
  ◌∷◌, ◌++◌, append_assoc, arith, ltb, ◌==◌, length, take, replicate, length-append, length-drop,
  length-take, drop, Outcome, done,
}
use spartan_x.Vector.{Vector, object_at}
use spartan_x.Vector.Holding.{slots_of}
use spartan_x.Strings.{SxString}
use spartan_x.Strings.Spelling.{Spells, load-append, drop-append}
use spartan_x.Strings.Replacing.Bound.{remaining}
use spartan_x.Strings.Replacing.Trailing.{read}
use spartan_x.Strings.Memory.{load, store}
use spartan_x.Strings.Replacing.{Cursor, replace_hit, replace_miss, replace_at, replace_rounds}

-- The text from `p` on with `rep` in place of the `k` characters at each of the positions `ls`.
abbrev pub written : List ℕ → ℕ → List ℕ → ℕ → List ℕ → List ℕ
written rep k xs p [] = drop p xs
written rep k xs p (l ∷ ls) = take (l - p) (drop p xs) ++ (rep ++ written rep k xs (l + k) ls)

-- The positions `ls` are in their order, `k` apart, from `p` on, and the last one ends at `len`.
abbrev pub Ends : ℕ → ℕ → List ℕ → ℕ → Type 0
Ends k p [] len = p ≡ len
Ends k p (l ∷ ls) len = (p ≤ l) × Ends k (l + k) ls len

Ends-within : (k p : ℕ) (ls : List ℕ) (len : ℕ) → Ends k p ls len → p ≤ len
Ends-within k p [] len e = omega arith
Ends-within k p (l ∷ ls) len (near, e) = omega (arith, near, Ends-within k (l + k) ls len e)

pub length-written :
    (rep : List ℕ) (k : ℕ) (xs : List ℕ) (p : ℕ) (ls : List ℕ)
    → Ends k p ls (length xs)
    → length (written rep k xs p ls) ≡ remaining k (length rep) (length xs) p ls
length-written rep k xs p [] e = omega (arith, length-drop p xs)
length-written rep k xs p (l ∷ ls) (near, e) =
    let later = length-written rep k xs (l + k) ls e in
    let end = Ends-within k (l + k) ls (length xs) e in
    omega (
      arith,
      length-append (take (l - p) (drop p xs)) (rep ++ written rep k xs (l + k) ls),
      length-append rep (written rep k xs (l + k) ls),
      length-take (l - p) (drop p xs),
      length-drop p xs,
      later,
      near,
      end,
    )

-- Writing behind what was written.
store-behind :
    (w bytes : List ℕ) (r : ℕ)
    → length bytes ≤ r
    → store (length w) bytes (w ++ replicate r 0)
      ≡ done (w ++ (bytes ++ replicate (r - length bytes) 0))
unfolding store
store-behind [] [] r h = let e : r - 0 ≡ r = omega arith in rw e
store-behind [] (b ∷ bytes) zero h = absurd (omega arith)
store-behind [] (b ∷ bytes) (suc r) h =
    let e : suc r - suc (length bytes) ≡ r - length bytes = omega arith in
    rw (e, store-behind [] bytes r (omega arith))
store-behind (x ∷ w) bytes r h = rw (store-behind w bytes r h)

drop-next : (p : ℕ) (xs : List ℕ) → p < length xs → (x : ℕ) × (drop p xs ≡ x ∷ drop (suc p) xs)
drop-next zero [] h = absurd (omega arith)
drop-next zero (x ∷ xs) h = (x, refl)
drop-next (suc p) [] h = absurd (omega arith)
drop-next (suc p) (x ∷ xs) h = drop-next p xs (omega arith)

drop-all : (n : ℕ) (xs : List ℕ) → n ≡ length xs → drop n xs ≡ []
drop-all zero [] h = refl
drop-all zero (x ∷ xs) h = absurd (omega arith)
drop-all (suc n) [] h = refl
drop-all (suc n) (x ∷ xs) h = drop-all n xs (omega arith)

-- The cursor behind what was written, with `r` bytes left.
abbrev pub behind : (w : List ℕ) (r p n : ℕ) → Cursor
behind w r p n = record { i = length w; str_pos = p; n = n; buf = w ++ replicate r 0 }

behind-path :
    (w w1 : List ℕ) (i r p p1 n n1 : ℕ) (buf : List ℕ)
    → i ≡ length w1
    → p ≡ p1
    → n ≡ n1
    → buf ≡ w1 ++ replicate r 0
    → done (record { i = i; str_pos = p; n = n; buf = buf }) ≡ done (behind w1 r p1 n1)
behind-path w w1 i r p p1 n n1 buf a b c d = rw (a, b, c, d)

replace_hit-behind :
    (target replacement : SxString) (rep w : List ℕ) (r p n : ℕ)
    → Spells replacement rep
    → length rep ≤ r
    → replace_hit target replacement (behind w r p n)
      ≡ done (behind (w ++ rep) (r - length rep) (p + target.length) (suc n))
unfolding replace_hit
replace_hit-behind target replacement rep w r p n h room =
    let loaded : load replacement.length replacement.chars ≡ done rep =
      rw (h.stored, h.counted) (load-append rep (0 ∷ h.rest)) in
    rw (loaded, store-behind w rep r room)
      (behind-path w (w ++ rep) _ (r - length rep) _ _ _ _ _
        (omega (arith, length-append w rep, h.counted)) refl (omega arith)
        (sym (append_assoc w rep (replicate (r - length rep) 0))))

replace_miss-behind :
    (string : SxString) (xs w : List ℕ) (r p n x : ℕ)
    → Spells string xs
    → p < length xs
    → drop p xs ≡ x ∷ drop (suc p) xs
    → 2 ≤ r
    → replace_miss string (behind w r p n) ≡ done (behind (w ++ x ∷ []) (r - 1) (suc p) n)
unfolding replace_miss
replace_miss-behind string xs w r p n x h inside here room =
    let loaded : load 1 (drop p string.chars) ≡ done (x ∷ []) =
      rw (h.stored, drop-append p xs (0 ∷ h.rest) (omega arith), here) (load-append (x ∷ []) _) in
    let fewer : r - 1 ≡ suc (r - 2) = omega arith in
    rw (loaded, store-behind w (x ∷ 0 ∷ []) r room, fewer)
      (behind-path w (w ++ x ∷ []) _ (suc (r - 2)) _ _ _ _ _
        (omega (arith, length-append w (x ∷ []))) (omega arith) refl
        (sym (append_assoc w (x ∷ []) (replicate (suc (r - 2)) 0))))

-- What is left in the buffer when `text` is written behind `w`.
abbrev pub finished : (w : List ℕ) (r : ℕ) (text : List ℕ) → Outcome (List ℕ)
finished w r text = done (w ++ (text ++ replicate (r - length text) 0))

finished-append :
    (w a text : List ℕ) (r : ℕ) → finished (w ++ a) (r - length a) text ≡ finished w r (a ++ text)
finished-append w a text r =
    let room : r - length a - length text ≡ r - length (a ++ text) =
      omega (arith, length-append a text) in
    rw room (
      ap done (
        append_assoc w a (text ++ replicate (r - length (a ++ text)) 0)
        ∙ ap (λ zs. w ++ zs) (sym (append_assoc a text (replicate (r - length (a ++ text)) 0)))))

finished-nil :
    (w text : List ℕ) (r : ℕ) → length text ≡ 0 → done (w ++ replicate r 0) ≡ finished w r text
finished-nil w [] r h = let e : r - 0 ≡ r = omega arith in rw e
finished-nil w (t ∷ text) r h = absurd (omega arith)

written-hit :
    (rep : List ℕ) (k : ℕ) (xs : List ℕ) (p l : ℕ) (ls : List ℕ)
    → p ≡ l
    → written rep k xs p (l ∷ ls) ≡ rep ++ written rep k xs (l + k) ls
written-hit rep k xs p l ls same =
    let none_between : l - p ≡ 0 = omega arith in
    ap (λ n. take n (drop p xs) ++ (rep ++ written rep k xs (l + k) ls)) none_between

written-miss :
    (rep : List ℕ) (k : ℕ) (xs : List ℕ) (p l x : ℕ) (ls : List ℕ)
    → p < l
    → drop p xs ≡ x ∷ drop (suc p) xs
    → written rep k xs p (l ∷ ls) ≡ (x ∷ []) ++ written rep k xs (suc p) (l ∷ ls)
written-miss rep k xs p l x ls short here =
    let one_more : l - p ≡ suc (l - suc p) = omega arith in
    ap (λ n. take n (drop p xs) ++ (rep ++ written rep k xs (l + k) ls)) one_more
    ∙ ap (λ zs. take (suc (l - suc p)) zs ++ (rep ++ written rep k xs (l + k) ls)) here

module _ (string target replacement : SxString) (xs rep : List ℕ) (h : Spells string xs)
    (hr : Spells replacement rep) (positions : Vector ℕ) (ps : List ℕ)
    (stored : positions.mem_loca ≡ slots_of ps) (counted : positions.count ≡ length ps) where
  pub rounds-written :
      (rounds bound r p : ℕ) (before ls w : List ℕ)
      → ps ≡ before ++ ls
      → Ends target.length p ls (length xs)
      → bound ≡ length w + length (written rep target.length xs p ls)
      → length (written rep target.length xs p ls) + length ls ≤ rounds
      → length (written rep target.length xs p ls) < r
      → replace_rounds rounds bound string target replacement positions
          (behind w r p (length before))
        ≡ finished w r (written rep target.length xs p ls)
  unfolding replace_rounds replace_at
  rounds-written zero bound r p before ls w e ends b enough room =
      finished-nil w (written rep target.length xs p ls) r (omega arith)
  rounds-written (suc rounds) bound r p before [] w e ends b enough room =
      let last = ap length (drop-all p xs ends) in
      let over : ltb (length w) bound ≡ false = ground (arith, last) in
      rw over (finished-nil w (drop p xs) r last)
  rounds-written (suc rounds) bound r p before (l ∷ ls) w e (near, ends) b enough room =
      let here : object_at positions (length before) ≡ done l =
        read string target replacement positions ps stored counted before l ls e in
      let end = Ends-within target.length (l + target.length) ls (length xs) ends in
      let full = written rep target.length xs p (l ∷ ls) in
      elim (Bool-cases (ltb (length w) bound)) [
        | inr over ↦ rw over (finished-nil w full r (ground arith))
        | inl below ↦ elim (Bool-cases (p == l)) [
          | inl hit ↦
              let same : p ≡ l = ground arith in
              let text = written rep target.length xs (l + target.length) ls in
              let whole : full ≡ rep ++ text = written-hit rep target.length xs p l ls same in
              let sizes : length full ≡ length rep + length text =
                ap length whole ∙ length-append rep text in
              let next : suc (length before) ≡ length (before ++ l ∷ []) =
                omega (arith, length-append before (l ∷ [])) in
              let step : replace_at string target replacement positions
                    (behind w r p (length before))
                  ≡ done (
                      behind (w ++ rep) (r - length rep) (l + target.length)
                        (length (before ++ l ∷ []))) =
                rw (here, hit)
                  (replace_hit-behind target replacement rep w r p (length before) hr (omega arith)
                    ∙ ap (λ q. done (behind (w ++ rep) (r - length rep) q (suc (length before))))
                        (omega arith)
                    ∙ ap (λ q. done (behind (w ++ rep) (r - length rep) (l + target.length) q))
                        next) in
              rw (below, step)
                (rounds-written rounds bound (r - length rep) (l + target.length) (before ++ l ∷ [])
                    ls (w ++ rep) (rw append_assoc e) ends
                    (omega (arith, b, sizes, length-append w rep)) (omega arith) (omega arith)
                  ∙ finished-append w rep text r
                  ∙ ap (finished w r) (sym whole))
          | inr miss ↦
              let short : p < l = ground arith in
              let (x, char) = drop-next p xs (omega arith) in
              let text = written rep target.length xs (suc p) (l ∷ ls) in
              let whole : full ≡ (x ∷ []) ++ text =
                written-miss rep target.length xs p l x ls short char in
              let sizes : length full ≡ suc (length text) = ap length whole in
              let step : replace_at string target replacement positions
                    (behind w r p (length before))
                  ≡ done (behind (w ++ x ∷ []) (r - 1) (suc p) (length before)) =
                rw (here, miss)
                  (replace_miss-behind string xs w r p (length before) x h (omega arith) char
                    (omega arith)) in
              rw (below, step)
                (rounds-written rounds bound (r - 1) (suc p) before (l ∷ ls) (w ++ x ∷ []) e
                    (omega arith, ends) (omega (arith, b, sizes, length-append w (x ∷ [])))
                    (omega arith) (omega arith)
                  ∙ finished-append w (x ∷ []) text r
                  ∙ ap (finished w r) (sym whole))
        ]
      ]
