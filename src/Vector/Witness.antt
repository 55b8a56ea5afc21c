-- ===== src/Vector/Witness.antt =====
-- Concrete vectors.
use spartan_x.Prelude.{
  ℕ, ◌≡◌, refl, true, false, none, some, List, [], ◌∷◌, ◌++◌, ◌<◌, arith, pos, crash, done,
}
use spartan_x.Vector.{Vector, object_at, push_back, resize, pop_back, free_vector}
use spartan_x.Vector.Holding.{
  Holds, object_at-Holds, push_back-Holds, free_vector-Holds, pop_back-Holds, deallocated,
  pop_back-push_back,
}
use spartan_x.Vector.Resizing.{resize-shrinks, resize-loses}

abbrev three : Vector ℕ
three = record {
  count = 3;
  osize = 4;
  mem_loca = some 10 ∷ some 20 ∷ some 30 ∷ none ∷ [];
  ref_count = pos 1;
  dealloc = true;
}

abbrev items : List ℕ
items = 10 ∷ 20 ∷ 30 ∷ []

three-Holds : Holds three items
three-Holds = record { rest = none ∷ []; counted = refl; stored = refl }

object_at-Holds_test : object_at three 1 ≡ done 20
object_at-Holds_test = object_at-Holds three items 1 three-Holds refl

push_back-Holds_example :
    ((w : Vector ℕ) × (push_back false three 40 ≡ done (w, 4)) × Holds w (items ++ 40 ∷ []))
    × (push_back true three 40 ≡ crash)
push_back-Holds_example = push_back-Holds three items 40 three-Holds

free_vector-Holds_test : free_vector three ≡ done items
free_vector-Holds_test = free_vector-Holds three items three-Holds refl

pop_back-Holds_test : (w : Vector ℕ) × (pop_back three ≡ done (w, 30 ∷ [])) × Holds w (10 ∷ 20 ∷ [])
pop_back-Holds_test = pop_back-Holds three (10 ∷ 20 ∷ []) 30 three-Holds

abbrev shrunk : Vector ℕ
shrunk = record three { mem_loca = some 10 ∷ [] }

shrinks : resize three 1 ≡ done (shrunk, [])
shrinks = resize-shrinks three 1 (omega arith)

resize-loses_example : (2 < shrunk.count) × (object_at shrunk 2 ≡ crash)
resize-loses_example =
    resize-loses three shrunk items [] 1 2 three-Holds (omega arith) (omega arith) (omega arith)
      shrinks

pop_back-push_back_test :
    (w : Vector ℕ) × (u : Vector ℕ) × (push_back false three 40 ≡ done (w, 4))
    × (pop_back w ≡ done (u, deallocated w.dealloc 40))
    × Holds u items
pop_back-push_back_test = pop_back-push_back three items 40 three-Holds
