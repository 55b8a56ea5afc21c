-- ===== src/Strings/Replacing/Trailing.antt =====
-- What replacing does to a string that goes on behind the last occurrence.
use spartan_x.Prelude.{
  int_max, leb, ℕ, zero, suc, ◌+◌, ◌*◌, ◌≤◌, ◌<◌, ◌≡◌, refl, sym, ap, subst, ◌∙◌, inl, inr, true,
  false, Bool-cases, some, List, [], ◌∷◌, ◌++◌, append_assoc, append-nil, arith, pos, ltb, ◌==◌,
  length, length-append, drop, u64_mod, Outcome-cases, >>=-eq-done, done-injective, done, crash,
}
use spartan_x.Vector.{Vector, object_at, read_slot, copy_items, create_vector_with_array}
use spartan_x.Vector.Holding.{copy_items_lem, slots_of, Holds, object_at-Holds, get_elem?-middle}
use spartan_x.Strings.{SxString, substring_locations, sub_cstring_locations, vector_of_locations}
use spartan_x.Strings.Spelling.{Spells}
use spartan_x.Strings.Searching.{occurrences, all_locations, in_int}
use spartan_x.Strings.Replacing.Bound.{
  Followed, remaining, remaining-positive, remaining-length, bound_lem,
}
use spartan_x.Strings.Memory.{load, store}
use spartan_x.Strings.Replacing.{
  replaced, buf_size, Cursor, replace_hit, replace_miss, replace_at, replace_rounds, filled,
  at_start, bound_of, replace_in_place, replace_in_copy, replacing_occurrences_of_string,
  by_replacing_occurrences_of_string,
}

replace_hit-cursor :
    (target replacement : SxString) (c : Cursor) {d : Cursor}
    → replace_hit target replacement c ≡ done d
    → (d.i ≡ c.i + replacement.length) × (d.str_pos ≡ c.str_pos + target.length) × (d.n ≡ c.n + 1)
unfolding replace_hit
replace_hit-cursor target replacement c h =
    let (bytes, _, h1) = >>=-eq-done (load replacement.length replacement.chars) _ h in
    let (buf, _, h2) = >>=-eq-done (store c.i bytes c.buf) _ h1 in
    let e = done-injective h2 in
    (
      sym (ap (λ (e : Cursor). e.i) e),
      sym (ap (λ (e : Cursor). e.str_pos) e),
      sym (ap (λ (e : Cursor). e.n) e),
    )

replace_miss-cursor :
    (string : SxString) (c : Cursor) {d : Cursor}
    → replace_miss string c ≡ done d
    → (d.i ≡ c.i + 1) × (d.str_pos ≡ c.str_pos + 1) × (d.n ≡ c.n)
unfolding replace_miss
replace_miss-cursor string c h =
    let (char, _, h1) = >>=-eq-done (load 1 (drop c.str_pos string.chars)) _ h in
    let (buf, _, h2) = >>=-eq-done (store c.i (char ++ 0 ∷ []) c.buf) _ h1 in
    let e = done-injective h2 in
    (
      sym (ap (λ (e : Cursor). e.i) e),
      sym (ap (λ (e : Cursor). e.str_pos) e),
      sym (ap (λ (e : Cursor). e.n) e),
    )

read_slot-end : (ps : List ℕ) → read_slot (slots_of ps) (length ps) ≡ crash
unfolding read_slot
read_slot-end [] = refl
read_slot-end (p ∷ ps) = read_slot-end ps

pub length-slots_of : (ps : List ℕ) → length (slots_of ps) ≡ length ps
length-slots_of [] = refl
length-slots_of (p ∷ ps) = ap suc (length-slots_of ps)

module _ (string target replacement : SxString) (positions : Vector ℕ) (ps : List ℕ)
    (stored : positions.mem_loca ≡ slots_of ps) (counted : positions.count ≡ length ps) where
  pub read :
      (before : List ℕ) (l : ℕ) (ls : List ℕ)
      → ps ≡ before ++ l ∷ ls
      → object_at positions (length before) ≡ done l
  unfolding object_at
  read before l ls e =
      let h : Holds positions ps = record {
        rest = [];
        counted = counted;
        stored = stored ∙ sym (append-nil (slots_of ps));
      } in
      object_at-Holds positions ps (length before) h (rw e (get_elem?-middle before l ls))

  over : (n : ℕ) → n ≡ length ps → object_at positions n ≡ crash
  unfolding object_at
  over n e = rw (e, stored, read_slot-end ps)

  -- With positions left or characters behind them, and rounds for both, the loop ends in a crash.
  rounds-crash :
      (rounds bound : ℕ) (before ls : List ℕ) (c : Cursor)
      → ps ≡ before ++ ls
      → c.n ≡ length before
      → Followed target.length c.str_pos ls string.length
      → bound ≡ c.i + remaining target.length replacement.length string.length c.str_pos ls
      → remaining target.length replacement.length string.length c.str_pos ls + length ls ≤ rounds
      → replace_rounds rounds bound string target replacement positions c ≡ crash
  unfolding replace_rounds replace_at
  rounds-crash zero bound before ls c e at f b enough =
      let some_left =
        remaining-positive target.length replacement.length string.length c.str_pos ls f in
      absurd (omega arith)
  rounds-crash (suc rounds) bound before [] c e at f b enough =
      let below : ltb c.i bound ≡ true = ground arith in
      let last : c.n ≡ length ps = at ∙ ap length (sym (append-nil before) ∙ sym e) in
      rw (over c.n last, below)
  rounds-crash (suc rounds) bound before (l ∷ ls) c e at (near, f) b enough =
      let some_left =
        remaining-positive target.length replacement.length string.length c.str_pos (l ∷ ls)
          (near, f) in
      let below : ltb c.i bound ≡ true = ground arith in
      let here : object_at positions c.n ≡ done l = rw at (read before l ls e) in
      elim (Bool-cases (c.str_pos == l)) [
        | inl hit ↦ elim (Outcome-cases (replace_hit target replacement c)) [
          | inl stuck ↦ rw (here, below, hit, stuck)
          | inr (d, moved) ↦
              let (i, s, n) = replace_hit-cursor target replacement c moved in
              let same : c.str_pos ≡ l = ground arith in
              let behind : d.str_pos ≡ l + target.length = omega arith in
              let later =
                ap (λ q. remaining target.length replacement.length string.length q ls) behind in
              rw (here, below, hit, moved)
                (rounds-crash rounds bound (before ++ l ∷ []) ls d (rw append_assoc e)
                  (omega (arith, n, at, length-append before (l ∷ [])))
                  (subst (λ q. Followed target.length q ls string.length) (sym behind) f)
                  (omega (arith, b, i, later, same)) (omega (arith, enough, later)))
        ]
        | inr miss ↦ elim (Outcome-cases (replace_miss string c)) [
          | inl stuck ↦ rw (here, below, miss, stuck)
          | inr (d, moved) ↦
              let (i, s, n) = replace_miss-cursor string c moved in
              let short : c.str_pos < l = ground arith in
              rw (here, below, miss, moved)
                (rounds-crash rounds bound before (l ∷ ls) d e (n ∙ at) (omega (arith, s, short), f)
                  (omega (arith, b, i, s, short)) (omega (arith, enough, s, short)))
        ]
      ]

  -- The bound of the loop counts the bytes that are to be written.
  bound_of-remaining :
      Followed target.length 0 ps string.length
      → string.length + length ps * replacement.length < u64_mod
      → target.length < u64_mod
      → replacement.length < u64_mod
      → bound_of string target replacement positions
        ≡ remaining target.length replacement.length string.length 0 ps
  bound_of-remaining f small fit_target fit =
      let total = remaining-length target.length replacement.length string.length 0 ps f in
      rw counted (
        bound_lem string.length target.length replacement.length (length ps) _ fit_target fit
          (omega (arith, total)) (omega (arith, total)))

  filled-crash :
      Followed target.length 0 ps string.length
      → string.length + length ps * replacement.length < u64_mod
      → target.length < u64_mod
      → replacement.length < u64_mod
      → filled string target replacement positions ≡ crash
  unfolding filled
  filled-crash f small fit_target fit =
      let bound = bound_of-remaining f small fit_target fit in
      let slots : length positions.mem_loca ≡ length ps = ap length stored ∙ length-slots_of ps in
      let b = bound_of string target replacement positions in
      rounds-crash (b + length positions.mem_loca) b [] ps (at_start string replacement) refl refl f
        (omega (arith, bound)) (omega (arith, bound, slots))

abbrev pub vector_of : List ℕ → Vector ℕ
vector_of ps = record {
  count = length ps;
  osize = 4;
  mem_loca = slots_of ps;
  ref_count = pos 1;
  dealloc = false;
}

pub substring_locations-vector_of :
    (string target : SxString) (xs ys : List ℕ) {l : ℕ} {ls : List ℕ}
    → Spells string xs
    → Spells target ys
    → length xs ≤ int_max
    → occurrences ys 0 xs ≡ l ∷ ls
    → substring_locations string target ≡ done (some (vector_of (l ∷ ls)))
unfolding substring_locations sub_cstring_locations vector_of_locations create_vector_with_array
substring_locations-vector_of string target xs ys {l} {ls} h k short there =
    let copied : copy_items (length (l ∷ ls)) (l ∷ ls) ≡ done (slots_of (l ∷ ls)) =
      subst (λ zs. copy_items (length (l ∷ ls)) zs ≡ done (slots_of (l ∷ ls))) (append-nil (l ∷ ls))
        (copy_items_lem (l ∷ ls) []) in
    simp (
      in_int string xs h short,
      k.stored,
      k.counted,
      all_locations string xs ys k.rest h k.characters,
      there,
      copied,
    )

pub buf_size-length : (string replacement : SxString) → string.length ≤ buf_size string replacement
buf_size-length string replacement = omega arith

-- If characters follow the last of the occurrences of `target`, which do not overlap, the sizes fit a
-- `size_t`, and the target and the buffer are not longer than INT_MAX, replacing them reads a position behind the last one, in place as well as in a copy,
-- whatever the replacement is.
pub replacing-crash :
    (string target replacement : SxString) (xs ys : List ℕ) (l : ℕ) (ls : List ℕ)
    → Spells string xs
    → Spells target ys
    → occurrences ys 0 xs ≡ l ∷ ls
    → Followed target.length 0 (l ∷ ls) string.length
    → string.length + length (l ∷ ls) * replacement.length < u64_mod
    → buf_size string replacement ≤ int_max
    → target.length ≤ int_max
    → replacement.length < u64_mod
    → (replacing_occurrences_of_string string target replacement ≡ crash)
      × (by_replacing_occurrences_of_string string target replacement ≡ crash)
unfolding replacing_occurrences_of_string by_replacing_occurrences_of_string replace_in_place
    replace_in_copy replaced
replacing-crash string target replacement xs ys l ls h k there f small room short fit =
    let fit_target : target.length < u64_mod = omega arith in
    let fits : leb (buf_size string replacement) int_max ≡ true = ground arith in
    let fits2 : leb target.length int_max ≡ true = ground arith in
    let found =
      substring_locations-vector_of string target xs ys h k
        (omega (arith, h.counted, buf_size-length string replacement, room)) there in
    let stuck =
      filled-crash string target replacement (vector_of (l ∷ ls)) (l ∷ ls) refl refl f small
        fit_target fit in
    let some_there : (length (l ∷ ls) == 0) ≡ false = ground arith in
    (rw (found, some_there, fits, fits2, stuck), rw (found, some_there, fits, fits2, stuck))
