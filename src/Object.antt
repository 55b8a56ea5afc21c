-- ===== src/Object.antt =====
-- Reference counting, src/sx_object.c and `sx_object_t` of src/sx_object.h. A deallocator is a
-- function pointer, and the four that the program installs are named.
pub mod Owners
pub mod Sentinel
pub mod Witness
use spartan_x.Prelude.{
  ℕ, Bool, Option, none, some, ℤ, pos, increment, decrement, ◌==ℤ◌, if◌then◌else◌, Outcome, crash,
  done, ◌>>=◌, List, [], ◌∷◌,
}

-- The functions that are installed as `dealloc`.
pub data Deallocator : Type 0 where
  free_socket free_queue free_client free_server : Deallocator

pub record Object : Type 0 where
  pub ref_count : ℤ
  pub dealloc : Option Deallocator

-- The count that marks a weak object.
abbrev pub sx_weak_object : ℤ
sx_weak_object = pos 410

-- What a release leaves: the object, or a call of its deallocator on it.
pub data Released (A : Type 0) : Type 0 where
  kept : A → Released A
  deallocates : Deallocator → A → Released A

unfoldable pub obj_init : Object → Deallocator → Object
obj_init obj dealloc = record obj { ref_count = pos 1; dealloc = some dealloc }

unfoldable pub retain : Object → Object
retain obj =
    if obj.ref_count ==ℤ sx_weak_object
    then obj
    else record obj { ref_count = increment obj.ref_count }

-- A call through a null `dealloc` crashes.
unfoldable pub free : Object → Outcome (Released Object)
free obj = elim obj.dealloc [ none ↦ crash | some d ↦ done (deallocates d obj) ]

unfoldable pub release : Object → Outcome (Released Object)
unfolding free
release obj =
    if obj.ref_count ==ℤ sx_weak_object
    then done (kept obj)
    else (let left = record obj { ref_count = decrement obj.ref_count } in
        if left.ref_count ==ℤ pos 0 then free left else done (kept left))

-- The two calls that an owner makes.
pub data Call : Type 0 where
  retains releases : Call

unfoldable pub apply : Call → Object → Outcome (Released Object)
unfolding retain release
apply retains obj = done (kept (retain obj))
apply releases obj = release obj

-- A history of calls. A call on an object that was deallocated is a use after free.
unfoldable pub run : Object → List Call → Outcome (Released Object)
unfolding apply
run obj [] = done (kept obj)
run obj (call ∷ calls) = apply call obj >>= λ r. (elim r [
  | kept left ↦ run left calls
  | deallocates d left ↦ (elim calls [ [] ↦ done (deallocates d left) | _ ∷ _ ↦ crash ])
])
