-- ===== src/Vector/Holding.antt =====
-- A vector as a list: what its operations do to the objects that it holds.
use spartan_x.Prelude.{
  Bool, subst, pos, sym, ℕ, zero, suc, ◌+◌, ◌-◌, ◌≡◌, refl, ap, ◌∙◌, true, false, Bool-cases, inl,
  inr, Option, some, List, [], ◌∷◌, ◌++◌, append_assoc, append-nil, arith, ◌==◌, length,
  length-append, get_elem?, set, crash, done,
}
use spartan_x.Vector.{
  Vector, copy_items, create_vector_with_array, read_slot, object_at, reallocated, push_back,
  dealloc_from, pop_back, free_vector,
}

module _ {A : Type 0} where
  abbrev pub slots_of : List A → List (Option A)
  slots_of [] = []
  slots_of (x ∷ xs) = some x ∷ slots_of xs

  -- The first `count` slots are written, with the objects `xs`.
  pub record Holds (v : Vector A) (xs : List A) : Type 0 where
    pub rest : List (Option A)
    pub counted : v.count ≡ length xs
    pub stored : v.mem_loca ≡ slots_of xs ++ rest

  pub copy_items_lem : (xs more : List A) → copy_items (length xs) (xs ++ more) ≡ done (slots_of xs)
  unfolding copy_items
  copy_items_lem [] more = refl
  copy_items_lem (x ∷ xs) more = rw (copy_items_lem xs more)

  -- A vector made of an array and its length holds the items of the array.
  pub create_vector_with_array-Holds :
      (xs : List A) (obj_size : ℕ) (dealloc : Bool)
      → (v : Vector A) × (create_vector_with_array xs obj_size (length xs) dealloc ≡ done v)
        × Holds v xs
  unfolding create_vector_with_array
  create_vector_with_array-Holds xs obj_size dealloc =
      let copied : copy_items (length xs) xs ≡ done (slots_of xs) =
        subst (λ ys. copy_items (length xs) ys ≡ done (slots_of xs)) (append-nil xs)
          (copy_items_lem xs []) in
      (
        record {
          count = length xs;
          osize = obj_size;
          mem_loca = slots_of xs;
          ref_count = pos 1;
          dealloc = dealloc;
        },
        rw copied,
        record { rest = []; counted = refl; stored = sym (append-nil (slots_of xs)) },
      )

  read_slots_of :
      (xs : List A) (rest : List (Option A)) (i : ℕ) {a : A}
      → get_elem? xs i ≡ some a
      → read_slot (slots_of xs ++ rest) i ≡ done a
  unfolding read_slot
  read_slots_of [] rest i h = cc
  read_slots_of (x ∷ xs) rest zero h = cc
  read_slots_of (x ∷ xs) rest (suc i) h = read_slots_of xs rest i h

  -- Reading at the index of an object that a vector holds yields that object.
  pub object_at-Holds :
      (v : Vector A) (xs : List A) (i : ℕ) {a : A}
      → Holds v xs
      → get_elem? xs i ≡ some a
      → object_at v i ≡ done a
  unfolding object_at
  object_at-Holds v xs i h e = rw h.stored (read_slots_of xs h.rest i e)

  grown :
      (xs : List A) (rest : List (Option A)) (x : A)
      → set (reallocated (slots_of xs ++ rest) (suc (length xs))) (length xs) (some x)
        ≡ slots_of (xs ++ x ∷ [])
  grown [] [] x = refl
  grown [] (r ∷ rest) x = let e : 1 - suc (length rest) ≡ 0 = omega arith in rw e
  grown (y ∷ xs) rest x =
      let e : suc (suc (length xs)) - suc (length (slots_of xs ++ rest))
          ≡ suc (length xs) - length (slots_of xs ++ rest) =
        omega arith in
      rw e (ap (◌∷◌ (some y)) (grown xs rest x))

  -- If `realloc` leaves the block in place, `SXVectorPushBack` appends the object and returns the new
  -- count; if the block moves, it writes to memory that was given back.
  pub push_back-Holds :
      (v : Vector A) (xs : List A) (x : A)
      → Holds v xs
      → ((w : Vector A) × (push_back false v x ≡ done (w, suc (length xs)))
          × Holds w (xs ++ x ∷ []))
        × (push_back true v x ≡ crash)
  unfolding push_back
  push_back-Holds v xs x h =
      let w : Vector A = record v {
        count = v.count + 1;
        mem_loca = set (reallocated v.mem_loca (v.count + 1)) v.count (some x);
      } in
      let next : v.count + 1 ≡ suc (length xs) = omega (arith, h.counted) in
      (
        (
          w,
          ap (λ n. done (w, n)) next,
          record {
            rest = [];
            counted = omega (arith, h.counted, length-append xs (x ∷ []));
            stored = rw (next, h.counted, h.stored, append-nil) (grown xs h.rest x);
          },
        ),
        refl,
      )

  pub get_elem?-middle :
      (before : List A) (x : A) (xs : List A)
      → get_elem? (before ++ x ∷ xs) (length before) ≡ some x
  get_elem?-middle [] x xs = refl
  get_elem?-middle (b ∷ before) x xs = get_elem?-middle before x xs

  dealloc_from-drop :
      (v : Vector A) (before xs : List A) (rest : List (Option A))
      → v.mem_loca ≡ slots_of (before ++ xs) ++ rest
      → dealloc_from (length xs) (length before) v ≡ done xs
  unfolding dealloc_from object_at
  dealloc_from-drop v before [] rest e = refl
  dealloc_from-drop v before (x ∷ xs) rest e =
      let here : object_at v (length before) ≡ done x =
        rw e
          (read_slots_of (before ++ x ∷ xs) rest (length before) (get_elem?-middle before x xs)) in
      let after : length before + 1 ≡ length (before ++ x ∷ []) =
        omega (arith, length-append before (x ∷ [])) in
      let moved : v.mem_loca ≡ slots_of ((before ++ x ∷ []) ++ xs) ++ rest = rw append_assoc e in
      rw (here, after, dealloc_from-drop v (before ++ x ∷ []) xs rest moved)

  -- Freeing a vector with a deallocator deallocates its objects, each once and in their order.
  pub free_vector-Holds :
      (v : Vector A) (xs : List A) → Holds v xs → v.dealloc ≡ true → free_vector v ≡ done xs
  unfolding free_vector
  free_vector-Holds v xs h d = simp (d, h.counted) (dealloc_from-drop v [] xs h.rest h.stored)

  slots-append :
      (xs : List A) (x : A) (rest : List (Option A))
      → slots_of (xs ++ x ∷ []) ++ rest ≡ slots_of xs ++ some x ∷ rest
  slots-append [] x rest = refl
  slots-append (y ∷ xs) x rest = rw (slots-append xs x rest)

  -- What the deallocator gets at the end of an object, if there is one.
  abbrev pub deallocated : Bool → A → List A
  deallocated true x = x ∷ []
  deallocated false x = []

  -- `SXVectorPopback` removes the last object, and the deallocator, if there is one, gets it and no other.
  pub pop_back-Holds :
      (v : Vector A) (xs : List A) (x : A)
      → Holds v (xs ++ x ∷ [])
      → (w : Vector A) × (pop_back v ≡ done (w, deallocated v.dealloc x)) × Holds w xs
  unfolding pop_back
  pop_back-Holds v xs x h =
      let full : v.count ≡ suc (length xs) = omega (arith, h.counted, length-append xs (x ∷ [])) in
      let some_left : (v.count == 0) ≡ false = ground arith in
      let last : v.count - 1 ≡ length xs = omega arith in
      let read : object_at v (v.count - 1) ≡ done x =
        object_at-Holds v (xs ++ x ∷ []) (v.count - 1) h (rw last (get_elem?-middle xs x [])) in
      (
        record v { count = v.count - 1 },
        elim (Bool-cases v.dealloc) [
          | inl on ↦ simp (some_left, on, read)
          | inr off ↦ simp (some_left, off)
        ],
        record {
          rest = some x ∷ h.rest;
          counted = last;
          stored = h.stored ∙ slots-append xs x h.rest;
        },
      )

  -- If `realloc` leaves the block in place, `SXVectorPushBack` followed by `SXVectorPopback` gives back a
  -- vector of the same objects, and the deallocator, if there is one, gets the pushed object and no other.
  pub pop_back-push_back :
      (v : Vector A) (xs : List A) (x : A)
      → Holds v xs
      → (w : Vector A) × (u : Vector A) × (push_back false v x ≡ done (w, suc (length xs)))
        × (pop_back w ≡ done (u, deallocated w.dealloc x))
        × Holds u xs
  pop_back-push_back v xs x h =
      let ((w, pushed, held), _) = push_back-Holds v xs x h in
      let (u, popped, left) = pop_back-Holds w xs x held in (w, u, pushed, popped, left)
