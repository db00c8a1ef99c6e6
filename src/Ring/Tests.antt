-- ===== src/Ring/Tests.antt =====
-- The theorems about include/simplix/list.h at a ring of three elements.
use simplix.Base.{refl, some, [], ◌∷◌, arith, ◌==◌, if◌then◌else◌}
use simplix.Ring.{Ring, list_remove}
use simplix.Ring.Chain.{IsRing}
use simplix.Ring.Remove.{list_remove-IsRing}

abbrev three : Ring
three = record {
  prev = λ i. if i == 4 then 9 else if i == 7 then 4 else 7;
  next = λ i. if i == 4 then 7 else if i == 7 then 9 else 4;
  head = some 4;
}

three-IsRing : IsRing three (4 ∷ 7 ∷ 9 ∷ [])
three-IsRing = ground arith

list_remove-IsRing_example : IsRing (list_remove 4 three) (7 ∷ 9 ∷ [])
list_remove-IsRing_example = list_remove-IsRing three 4 (4 ∷ 7 ∷ 9 ∷ []) three-IsRing refl
