-- ===== src/Vector/Resizing.antt =====
-- What `SXVectorResize` leaves of a vector that it makes smaller.
use spartan_x.Prelude.{
  ℕ, zero, suc, ◌-◌, ◌≤◌, ◌<◌, ◌≡◌, refl, sym, ap, ◌∙◌, done-injective, inl, inr, true, false,
  Option, none, some, List, [], ◌∷◌, ◌++◌, arith, ltb, ◌==◌, Bool-cases, length, take, crash, done,
  append-nil,
}
use spartan_x.Vector.{Vector, object_at, read_slot, resize, reallocated}
use spartan_x.Vector.Holding.{Holds, slots_of}

module _ {A : Type 0} where
  -- Making a vector smaller deallocates no object and leaves the count as it is, with only the new
  -- number of slots behind it.
  pub resize-shrinks :
      (v : Vector A) (n : ℕ)
      → n < v.count
      → resize v n ≡ done (record v { mem_loca = reallocated v.mem_loca n }, [])
  unfolding resize
  resize-shrinks v n h =
      let ne : (n == v.count) ≡ false = ground arith in
      let lt : ltb n v.count ≡ true = ground arith in
      let none_left : n - v.count ≡ 0 = omega arith in
      elim (Bool-cases v.dealloc) [ inl d ↦ simp (ne, lt, d, none_left) | inr d ↦ simp (ne, lt, d) ]

  read_slot-take :
      (slots : List (Option A)) (n i : ℕ)
      → n ≤ length slots
      → n ≤ i
      → read_slot (take n slots) i ≡ crash
  unfolding read_slot
  read_slot-take slots zero i h k = refl
  read_slot-take [] (suc n) i h k = refl
  read_slot-take (s ∷ slots) (suc n) zero h k = absurd (omega arith)
  read_slot-take (none ∷ slots) (suc n) (suc i) h k =
      read_slot-take slots n i (omega arith) (omega arith)
  read_slot-take (some a ∷ slots) (suc n) (suc i) h k =
      read_slot-take slots n i (omega arith) (omega arith)

  length-slots_of :
      (xs : List A) (rest : List (Option A)) → length xs ≤ length (slots_of xs ++ rest)
  length-slots_of [] rest = omega arith
  length-slots_of (x ∷ xs) rest = omega (arith, length-slots_of xs rest)

  -- After a vector that holds objects was made smaller, any object behind the new size is still within
  -- the count, and reading it crashes.
  pub resize-loses :
      (v w : Vector A) (xs gone : List A) (n i : ℕ)
      → Holds v xs
      → n < length xs
      → n ≤ i
      → i < length xs
      → resize v n ≡ done (w, gone)
      → (i < w.count) × (object_at w i ≡ crash)
  unfolding object_at
  resize-loses v w xs gone n i h small k l e =
      let shrunk : w ≡ record v { mem_loca = reallocated v.mem_loca n } =
        ap (λ (p : Vector A × List A). p.0)
          (done-injective (sym e ∙ resize-shrinks v n (omega (arith, h.counted)))) in
      let room : n ≤ length v.mem_loca = rw h.stored (omega (arith, length-slots_of xs h.rest)) in
      let whole : n - length v.mem_loca ≡ 0 = omega arith in
      rw shrunk
        (omega (arith, h.counted), rw (whole, append-nil) (read_slot-take v.mem_loca n i room k))
