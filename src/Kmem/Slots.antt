-- ===== src/Kmem/Slots.antt =====
-- The objects of a new cache of kernel/kmem.c.
use simplix.Base.{
  ℕ, zero, suc, ◌+◌, ◌*◌, ◌^◌, ◌≤◌, ◌<◌, ◌≡◌, refl, true, false, List, [], ◌∷◌, ◌++◌, arith, ltb,
  ap, sym,
}
use simplix.Ring.{list_append}
use simplix.Ring.Chain.{has, IsRing, has-append}
use simplix.Ring.Insert.{list_append-IsRing}
use simplix.PhysMem.{done, wrap}
use simplix.Kmem.{Kmem, objects, add_object, add_objects}

-- `n` slots of `size` bytes, from address `o` on.
abbrev pub slots : ℕ → ℕ → ℕ → List ℕ
slots zero o size = []
slots (suc n) o size = o ∷ slots n (o + size) size

-- The state after the loop has run through the slots.
abbrev pub with_slots : ℕ → ℕ → ℕ → ℕ → Kmem → Kmem
with_slots zero c o size k = k
with_slots (suc n) c o size k = with_slots n c (o + size) size (add_object c o k)

-- With more fuel than slots, the loop ends after the last slot that begins before the end.
pub add_objects-with_slots :
    (n fuel c o end size : ℕ) (k : Kmem)
    → n < fuel
    → end ≤ o + n * size
    → o + n * size < end + size
    → end + size < 2 ^ 32
    → add_objects fuel c o end size k ≡ done (with_slots n c o size k)
unfolding add_objects
add_objects-with_slots n zero c o end size k f a b l = absurd (omega arith)
add_objects-with_slots zero (suc fuel) c o end size k f a b l = ground arith
add_objects-with_slots (suc n) (suc fuel) c o end size k f a b l =
    let step : o + suc n * size ≡ o + size + n * size = omega arith in
    let at : wrap (o + size) ≡ o + size = omega arith in
    let inside : ltb o end ≡ true = ground arith in
    rw inside (
      rw at (
        add_objects-with_slots n fuel c (o + size) end size (add_object c o k) (omega arith)
          (omega arith) (omega arith) l))

objects-add_object :
    (c o : ℕ) (k : Kmem) → objects c (add_object c o k) ≡ list_append o (objects c k)
unfolding add_object
objects-add_object c o k = ground arith

not-has-slots : (n i o size : ℕ) → i < o → has i (slots n o size) ≡ false
not-has-slots zero i o size l = refl
not-has-slots (suc n) i o size l = ground (arith, not-has-slots n i (o + size) size)

append-nil : (xs : List ℕ) → xs ++ [] ≡ xs
append-nil [] = refl
append-nil (x ∷ xs) = ap (λ (ys : List ℕ). x ∷ ys) (append-nil xs)

append_assoc : (xs ys zs : List ℕ) → (xs ++ ys) ++ zs ≡ xs ++ (ys ++ zs)
append_assoc [] ys zs = refl
append_assoc (x ∷ xs) ys zs = ap (λ (l : List ℕ). x ∷ l) (append_assoc xs ys zs)

-- No element is at or behind `o`.
abbrev pub Below : ℕ → List ℕ → Type 0
Below o xs = (i : ℕ) → o ≤ i → has i xs ≡ false

-- The loop puts the slots into the list of free objects, in the order of their addresses.
pub with_slots-IsRing :
    (n c o size : ℕ) (xs : List ℕ) (k : Kmem)
    → 0 < size
    → IsRing (objects c k) xs
    → Below o xs
    → IsRing (objects c (with_slots n c o size k)) (xs ++ slots n o size)
with_slots-IsRing zero c o size xs k p r b = rw (append-nil xs) r
with_slots-IsRing (suc n) c o size xs k p r b =
    rw (sym (append_assoc xs (o ∷ []) (slots n (o + size) size))) (
      with_slots-IsRing n c (o + size) size (xs ++ o ∷ []) (add_object c o k) p
        (rw (objects-add_object c o k)
          (list_append-IsRing (objects c k) o xs r (b o (omega arith))))
        (λ i l. ground (arith, has-append i xs (o ∷ []), b i)))

-- The loop writes no field of the caches but the head of the list.
pub with_slots-caches :
    (n c o size : ℕ) (k : Kmem)
    → ((with_slots n c o size k).nr_free_objects ≡ k.nr_free_objects)
      × ((with_slots n c o size k).cache_slab ≡ k.cache_slab)
unfolding add_object
with_slots-caches zero c o size k = (refl, refl)
with_slots-caches (suc n) c o size k = with_slots-caches n c (o + size) size (add_object c o k)
