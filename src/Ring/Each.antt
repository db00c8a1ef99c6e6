-- ===== src/Ring/Each.antt =====
-- list_for_each with an early exit visits the elements of the ring in order, and ends.
use simplix.Base.{
  ℕ, zero, suc, ◌+◌, ◌<◌, ◌≡◌, Bool, true, false, ◌||◌, not, Option, none, some, List, [], ◌∷◌,
  arith, ◌==◌, if◌then◌else◌, length,
}
use simplix.Ring.{Ring, list_find, list_find_first}
use simplix.Ring.Chain.{has, Chain, IsRing}

-- The first element that passes the test.
abbrev pub find : (ℕ → Bool) → List ℕ → Option ℕ
find test [] = none
find test (x ∷ xs) = if test x then some x else find test xs

list_find-find :
    (fuel : ℕ) (test : ℕ → Bool) (r : Ring) (z a : ℕ) (xs : List ℕ) (index : ℕ)
    → Chain r a xs z
    → has z xs ≡ false
    → (not (a == z) || index == 0) ≡ true
    → length xs + 1 < fuel
    → list_find fuel test r z a index ≡ some (find test (a ∷ xs))
unfolding list_find
list_find-find zero test r z a xs index p e c f = absurd (omega arith)
list_find-find (suc zero) test r z a xs index p e c f = absurd (omega arith)
list_find-find (suc (suc fuel)) test r z a [] index p e c f = ground arith
list_find-find (suc (suc fuel)) test r z a (x ∷ xs) index (e1, e2, p) e c f =
    ground (arith, list_find-find (suc fuel) test r z x xs (index + 1) p)

-- With more fuel than elements, the loop ends at the first element that passes the test.
pub list_find_first-find :
    (fuel : ℕ) (test : ℕ → Bool) (r : Ring) (xs : List ℕ)
    → IsRing r xs
    → length xs < fuel
    → list_find_first fuel test r ≡ some (find test xs)
unfolding list_find_first
list_find_first-find fuel test r [] e f = rw e
list_find_first-find fuel test r (a ∷ xs) (e, p, d) f = rw e (
    list_find-find fuel test (record r { head = some a }) a a xs 0 p d.0 (ground arith)
      (omega arith))
