-- ===== src/Strings/Parting.antt =====
-- The loop of `SXStringSubStringsTrimmedByString`: the parts that it makes, one for each position and
-- one more.
use spartan_x.Prelude.{
  ℕ, suc, ◌+◌, ◌-◌, ◌≤◌, ◌<◌, ◌≡◌, refl, sym, ap, subst, ◌∙◌, true, false, some, none, List, [],
  ◌∷◌, ◌++◌, append_assoc, arith, u64_mod, length, length-append, length-drop, take, drop,
  replicate, set, pos, done, ◌==◌, Outcome,
}
use spartan_x.Vector.{Vector, object_at}
use spartan_x.Vector.Holding.{Holds, slots_of, object_at-Holds, get_elem?-middle}
use spartan_x.Strings.{SxString, Range, part_range, trim_parts, get_substring_in_range}
use spartan_x.Strings.Spelling.{Spells, get_substring_in_range-Spells}
use spartan_x.Strings.Splitting.{take-all, last_length, last_start}

-- The strings of a list spell the texts of another.
abbrev pub SpellAll : List SxString → List (List ℕ) → Type 0
SpellAll [] [] = Unit
SpellAll [] (text ∷ texts) = ⊥
SpellAll (s ∷ parts) [] = ⊥
SpellAll (s ∷ parts) (text ∷ texts) = Spells s text × SpellAll parts texts

-- The texts behind each of the positions `b ∷ ls`, up to the next one.
abbrev pub texts_behind : ℕ → ℕ → List ℕ → List ℕ → List (List ℕ)
texts_behind k b [] xs = drop (b + k) xs ∷ []
texts_behind k b (l ∷ ls) xs = take (l - (b + k)) (drop (b + k) xs) ∷ texts_behind k l ls xs

-- The positions `b ∷ ls` are at least `k` apart, also from the end `n`.
abbrev pub Apart : ℕ → ℕ → List ℕ → ℕ → Type 0
Apart k b [] n = b + k ≤ n
Apart k b (l ∷ ls) n = (b + k ≤ l) × Apart k l ls n

pub Apart-end : (k b : ℕ) (ls : List ℕ) (n : ℕ) → Apart k b ls n → b + k ≤ n
Apart-end k b [] n a = a
Apart-end k b (l ∷ ls) n (near, a) = omega (arith, near, Apart-end k l ls n a)

-- The vector with the parts so far, and room for `room` more.
abbrev pub holding : List SxString → ℕ → Vector SxString
holding parts room = record {
  count = length parts;
  osize = 8;
  mem_loca = slots_of parts ++ replicate room none;
  ref_count = pos 1;
  dealloc = true;
}

set-room :
    (parts : List SxString) (room : ℕ) (s : SxString)
    → set (slots_of parts ++ replicate (suc room) none) (length parts) (some s)
      ≡ slots_of (parts ++ s ∷ []) ++ replicate room none
set-room [] room s = refl
set-room (p ∷ parts) room s = ap (◌∷◌ (some p)) (set-room parts room s)

-- A round of the loop adds its part.
pub holding-next :
    (parts : List SxString) (room i : ℕ) (s : SxString)
    → length parts ≡ i
    → record (holding parts (suc room)) {
      mem_loca = set (holding parts (suc room)).mem_loca i (some s);
      count = length parts + 1;
    }
      ≡ holding (parts ++ s ∷ []) room
holding-next parts room i s e =
    let more : length parts + 1 ≡ length (parts ++ s ∷ []) =
      omega (arith, length-append parts (s ∷ [])) in
    rw (sym e, set-room parts room s, more)

module _ (target trimstr : SxString) (xs ys : List ℕ) (h : Spells target xs) (k : Spells trimstr ys)
    (small : length xs < u64_mod) (loca : Vector ℕ) (locas : List ℕ) (held : Holds loca locas) where
  last_range :
      (i b : ℕ)
      → object_at loca i ≡ done b
      → suc i ≡ loca.count
      → b + length ys ≤ length xs
      → part_range target trimstr loca (suc i)
        ≡ done (record { loca = b + length ys; len = length xs - (b + length ys) })
  unfolding part_range
  last_range i b read last fits =
      let over : (suc i == loca.count) ≡ true = ground arith in
      simp (
        read,
        over,
        h.counted,
        k.counted,
        last_length (length xs) (b + length ys) fits small,
        last_start (length xs) (b + length ys) fits small,
      )

  inner_range :
      (i b l : ℕ)
      → object_at loca i ≡ done b
      → object_at loca (suc i) ≡ done l
      → suc i < loca.count
      → b + length ys ≤ l
      → l < u64_mod
      → part_range target trimstr loca (suc i)
        ≡ done (record { loca = b + length ys; len = l - (b + length ys) })
  unfolding part_range
  inner_range i b l read next more near bound =
      let on : (suc i == loca.count) ≡ false = ground arith in
      simp (read, on, next, k.counted, last_length l (b + length ys) near bound)

  abbrev pub loop_from : ℕ → List SxString → ℕ → Outcome (Vector SxString)
  loop_from i parts room = trim_parts room i target trimstr loca (holding parts room)

  pub round :
      (room i : ℕ) (parts : List SxString) (range : Range) (s : SxString)
      → length parts ≡ i
      → part_range target trimstr loca i ≡ done range
      → get_substring_in_range target range ≡ done s
      → loop_from i parts (suc room) ≡ loop_from (suc i) (parts ++ s ∷ []) room
  unfolding trim_parts
  round room i parts range s e ranged made =
      let next : i + 1 ≡ suc i = omega arith in
      rw (ranged, made, next)
        (ap (trim_parts room (suc i) target trimstr loca) (holding-next parts room i s e))

  -- The parts behind the position `b`, which stands at index `i` of the vector.
  pub parts_behind :
      (i b : ℕ) (before ls : List ℕ) (parts : List SxString)
      → locas ≡ before ++ b ∷ ls
      → length before ≡ i
      → length parts ≡ suc i
      → Apart (length ys) b ls (length xs)
      → (more : List SxString) × (loop_from (suc i) parts (suc (length ls))
          ≡ done (holding (parts ++ more) 0))
        × SpellAll more (texts_behind (length ys) b ls xs)
  unfolding trim_parts
  parts_behind i b before [] parts e at count apart =
      let read : object_at loca i ≡ done b =
        object_at-Holds loca locas i held (rw (e, sym at) (get_elem?-middle before b [])) in
      let last : suc i ≡ loca.count =
        omega (arith, held.counted, ap length e, length-append before (b ∷ []), at) in
      let start = b + length ys in
      let (s, made, spelled) =
        get_substring_in_range-Spells target xs start (length xs - start) h (omega arith) in
      (
        s ∷ [],
        round 0 (suc i) parts (record { loca = start; len = length xs - start }) s count
            (last_range i b read last apart) made,
        (
          subst (Spells s)
              (take-all (length xs - start) (drop start xs) (omega (arith, length-drop start xs)))
              spelled,
          tt,
        ),
      )
  parts_behind i b before (l ∷ ls) parts e at count (near, apart) =
      let read : object_at loca i ≡ done b =
        object_at-Holds loca locas i held (rw (e, sym at) (get_elem?-middle before b (l ∷ ls))) in
      let e1 : locas ≡ (before ++ b ∷ []) ++ l ∷ ls = rw (append_assoc) e in
      let at1 : length (before ++ b ∷ []) ≡ suc i =
        omega (arith, length-append before (b ∷ []), at) in
      let next : object_at loca (suc i) ≡ done l =
        object_at-Holds loca locas (suc i) held
          (rw (e1, sym at1) (get_elem?-middle (before ++ b ∷ []) l ls)) in
      let more_left : suc i < loca.count =
        omega (arith, held.counted, ap length e1, length-append (before ++ b ∷ []) (l ∷ ls), at1) in
      let start = b + length ys in
      let end = Apart-end (length ys) l ls (length xs) apart in
      let (s, made, spelled) =
        get_substring_in_range-Spells target xs start (l - start) h (omega arith) in
      let first =
        round (suc (length ls)) (suc i) parts (record { loca = start; len = l - start }) s count
          (inner_range i b l read next more_left near (omega arith)) made in
      let counted : length (parts ++ s ∷ []) ≡ suc (suc i) =
        omega (arith, length-append parts (s ∷ []), count) in
      let (more, looped, spells) =
        parts_behind (suc i) l (before ++ b ∷ []) ls (parts ++ s ∷ []) e1 at1 counted apart in
      (
        s ∷ more,
        first ∙ looped ∙ ap (λ ps. done (holding ps 0)) (append_assoc parts (s ∷ []) more),
        (spelled, spells),
      )
