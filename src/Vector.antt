-- ===== src/Vector.antt =====
-- Vectors, src/SXVector.c and `sx_vector_t` of src/SXVector.h. The memory behind `mem_loca` is a list of
-- slots of `osize` bytes, and a slot that was not written yet is `none`. A vector owns its memory, and
-- an access outside of it crashes. `dealloc` says whether a deallocator is installed; the objects that
-- it is called on are collected in their order.
pub mod Holding
pub mod Resizing
pub mod Witness
use spartan_x.Prelude.{
  ℕ, zero, suc, ◌+◌, ◌-◌, Bool, true, false, Option, none, some, List, [], ◌∷◌, ◌++◌, ℤ, pos,
  increment, decrement, ◌==ℤ◌, ltb, ◌==◌, if◌then◌else◌, length, get_elem?, set, take, replicate,
  Outcome, crash, done, ◌>>=◌,
}
use spartan_x.Object.{sx_weak_object}

pub record Vector (A : Type 0) : Type 0 where
  pub count : ℕ
  pub osize : ℕ
  pub mem_loca : List (Option A)
  pub ref_count : ℤ
  pub dealloc : Bool

module _ {A : Type 0} where
  unfoldable pub create_vector : ℕ → ℕ → Bool → Vector A
  create_vector obj_size reserve_capacity dealloc = record {
    count = 0;
    osize = obj_size;
    mem_loca = replicate reserve_capacity none;
    ref_count = pos 1;
    dealloc = dealloc;
  }

  -- The loop of `memcpy` over the items of an array.
  unfoldable pub copy_items : ℕ → List A → Outcome (List (Option A))
  copy_items zero array = done []
  copy_items (suc n) [] = crash
  copy_items (suc n) (a ∷ array) = copy_items n array >>= λ items. done (some a ∷ items)

  unfoldable pub create_vector_with_array : List A → ℕ → ℕ → Bool → Outcome (Vector A)
  unfolding copy_items
  create_vector_with_array array obj_size n_items dealloc = copy_items n_items array >>= λ items.
      done (record {
        count = n_items;
        osize = obj_size;
        mem_loca = items;
        ref_count = pos 1;
        dealloc = dealloc;
      })

  -- A read through `SXVectorObjectPtrAtIndex`, by the slots.
  unfoldable pub read_slot : List (Option A) → ℕ → Outcome A
  read_slot [] i = crash
  read_slot (none ∷ slots) zero = crash
  read_slot (some a ∷ slots) zero = done a
  read_slot (slot ∷ slots) (suc i) = read_slot slots i

  unfoldable pub object_at : Vector A → ℕ → Outcome A
  unfolding read_slot
  object_at v index = read_slot v.mem_loca index

  -- `realloc` to a number of slots.
  abbrev pub reallocated : List (Option A) → ℕ → List (Option A)
  reallocated slots n = take n slots ++ replicate (n - length slots) none

  -- `SXVectorPushBack` drops the result of `realloc`, so the write goes to memory that was given back
  -- if the block moved.
  unfoldable pub push_back : (moved : Bool) → Vector A → A → Outcome (Vector A × ℕ)
  push_back true v item = crash
  push_back false v item =
      let grown = reallocated v.mem_loca (v.count + 1) in
      done (record v { count = v.count + 1; mem_loca = set grown v.count (some item) }, v.count + 1)

  -- `rounds` calls of the deallocator, from slot `i` on.
  unfoldable pub dealloc_from : ℕ → ℕ → Vector A → Outcome (List A)
  unfolding object_at
  dealloc_from zero i v = done []
  dealloc_from (suc rounds) i v =
      object_at v i >>= λ a. (dealloc_from rounds (i + 1) v >>= λ later. done (a ∷ later))

  -- `SXVectorResize`: its loop begins at the old count and ends at the new one.
  unfoldable pub resize : Vector A → ℕ → Outcome (Vector A × List A)
  unfolding dealloc_from
  resize v count =
      if count == v.count
      then done (v, [])
      else ((if ltb count v.count
            then (if v.dealloc then dealloc_from (count - v.count) v.count v else done [])
            else done [])
          >>= λ gone. done (record v { mem_loca = reallocated v.mem_loca count }, gone))

  unfoldable pub pop_back : Vector A → Outcome (Vector A × List A)
  pop_back v =
      if v.count == 0
      then done (v, [])
      else ((if v.dealloc then (object_at v (v.count - 1) >>= λ a. done (a ∷ [])) else done [])
          >>= λ gone. done (record v { count = v.count - 1 }, gone))

  unfoldable pub retain_vector : Vector A → Vector A
  retain_vector v =
      if v.ref_count ==ℤ sx_weak_object then v else record v { ref_count = increment v.ref_count }

  -- `SXFreeVector`: the objects that are deallocated; the memory is given back.
  unfoldable pub free_vector : Vector A → Outcome (List A)
  unfolding dealloc_from
  free_vector v = if v.dealloc then dealloc_from v.count 0 v else done []

  -- `SXReleaseVector`: the vector, if it is still there, and the objects that are deallocated.
  unfoldable pub release_vector : Vector A → Outcome (Option (Vector A) × List A)
  release_vector v =
      if v.ref_count ==ℤ sx_weak_object
      then done (some v, [])
      else (let left = record v { ref_count = decrement v.ref_count } in
          if left.ref_count ==ℤ pos 0
          then (free_vector left >>= λ gone. done (none, gone))
          else done (some left, []))
