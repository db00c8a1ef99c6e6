-- ===== src/Ring/Remove.antt =====
-- list_remove, list_pop_head and list_replace on rings.
use mathlib.Core.Path.{subst, sym}
use simplix.Base.{
  ℕ, ◌≡◌, refl, inl, inr, true, false, some, List, [], ◌∷◌, ◌++◌, arith, ◌==◌, if◌then◌else◌,
  Bool-cases,
}
use simplix.Ring.{Ring, list_remove, list_pop_head, is_head}
use simplix.Ring.Chain.{
  has, Distinct, Chain, IsRing, Chain-frame, Chain-append, next-mem, prev-mem_inner, next_ne_self,
  prev_ne_self, has-append, Distinct-snoc,
}

-- The list without the element.
abbrev pub erase : ℕ → List ℕ → List ℕ
erase item [] = []
erase item (x ∷ xs) = if item == x then xs else x ∷ erase item xs

has-erase : (i item : ℕ) (xs : List ℕ) → has i xs ≡ false → has i (erase item xs) ≡ false
has-erase i item [] h = refl
has-erase i item (x ∷ xs) h = ground (arith, has-erase i item xs)

Distinct-erase : (item : ℕ) (xs : List ℕ) → Distinct xs → Distinct (erase item xs)
Distinct-erase item [] d = tt
Distinct-erase item (x ∷ xs) d = elim (Bool-cases (item == x)) [
  | inl e ↦ rw e d.1
  | inr e ↦ rw e (has-erase x item xs d.0, Distinct-erase item xs d.1)
]

-- The links that `list_remove` leaves, if the element is not alone.
pub next-remove :
    (r : Ring) (item i : ℕ)
    → (r.next item == item) ≡ false
    → (r.prev item == item) ≡ false
    → (list_remove item r).next i ≡ (if r.prev item == i then r.next item else r.next i)
unfolding list_remove
next-remove r item i h k = ground arith

pub prev-remove :
    (r : Ring) (item i : ℕ)
    → (r.next item == item) ≡ false
    → (list_remove item r).prev i ≡ (if r.next item == i then r.prev item else r.prev i)
unfolding list_remove
prev-remove r item i h = ground arith

pub head-remove :
    (r : Ring) (item : ℕ)
    → (r.next item == item) ≡ false
    → (list_remove item r).head ≡ (if is_head item r.head then some (r.next item) else r.head)
unfolding list_remove
head-remove r item h = ground arith

module _ (r : Ring) (item : ℕ) (ne : (r.next item == item) ≡ false)
    (ne' : (r.prev item == item) ≡ false) where
  -- The element is the first behind `a`.
  Chain-unlink :
      (a : ℕ) (xs : List ℕ) (z : ℕ)
      → Chain r a (item ∷ xs) z
      → Distinct (a ∷ item ∷ xs)
      → has z xs ≡ false
      → Chain (list_remove item r) a xs z
  Chain-unlink a [] z p d e = ground (arith, next-remove r item a ne ne', prev-remove r item z ne)
  Chain-unlink a (y ∷ ys) z p d e = (
    ground (arith, next-remove r item a ne ne'),
    ground (arith, prev-remove r item y ne),
    Chain-frame r (list_remove item r) y ys z p.2.2
        (λ i u. ground (arith, next-remove r item i ne ne'))
        (λ i u. ground (arith, prev-remove r item i ne)),
  )

  Chain-remove :
      (a : ℕ) (xs : List ℕ) (z : ℕ)
      → Chain r a xs z
      → Distinct (a ∷ xs)
      → has z xs ≡ false
      → has item xs ≡ true
      → Chain (list_remove item r) a (erase item xs) z
  Chain-remove a [] z p d e h = cc
  Chain-remove a (x ∷ xs) z p d e h = elim (Bool-cases (item == x)) [
    | inl k ↦
        let q : item ≡ x = ground arith in
        rw k (
          Chain-unlink a xs z (subst (λ y. Chain r a (y ∷ xs) z) (sym q) p)
            (subst (λ y. Distinct (a ∷ y ∷ xs)) (sym q) d) (ground arith))
    | inr k ↦ rw k (
      ground (arith, next-remove r item a ne ne', prev-mem_inner r x xs z item p.2 (ground arith)),
      ground (arith, prev-remove r item x ne, next-mem r x xs z item p.2 (ground arith)),
      Chain-remove x xs z p.2 d.1 (ground arith) (ground arith),
    )
  ]

erase-append : (a : ℕ) (xs : List ℕ) → has a xs ≡ false → erase a (xs ++ a ∷ []) ≡ xs
erase-append a [] h = ground arith
erase-append a (x ∷ xs) h = ground (arith, erase-append a xs)

-- The head is an inner element of the ring as it is seen from its second element.
list_remove-head :
    (r : Ring) (a : ℕ) (xs : List ℕ)
    → r.head ≡ some a
    → Chain r a xs a
    → Distinct (a ∷ xs)
    → IsRing (list_remove a r) xs
unfolding list_remove
list_remove-head r a [] e p d = ground arith
list_remove-head r a (x ∷ xs) e p d =
    let around = Chain-append r x xs a x p.2 p.0 p.1 in
    let d' = Distinct-snoc (x ∷ xs) a d.1 d.0 in
    let inner : has a (xs ++ a ∷ []) ≡ true = ground (arith, has-append a xs (a ∷ [])) in
    let ne : (r.next a == a) ≡ false = ground arith in
    let ne' = prev_ne_self r x (xs ++ a ∷ []) x a around d' inner in
    (
      ground (arith, head-remove r a ne),
      subst (λ ys. Chain (list_remove a r) x ys x) (erase-append a xs (ground arith))
          (Chain-remove r a ne ne' x (xs ++ a ∷ []) x around d' d'.0 inner),
      d.1,
    )

-- `list_remove` takes the element out, also if it is the head or alone.
pub list_remove-IsRing :
    (r : Ring) (item : ℕ) (xs : List ℕ)
    → IsRing r xs
    → has item xs ≡ true
    → IsRing (list_remove item r) (erase item xs)
list_remove-IsRing r item [] g h = cc
list_remove-IsRing r item (a ∷ xs) (e, p, d) h = elim (Bool-cases (item == a)) [
  | inl k ↦ let q : item ≡ a = ground arith in rw (k, q) (list_remove-head r a xs e p d)
  | inr k ↦
      let inner : has item xs ≡ true = ground arith in
      let ne = next_ne_self r a xs a item p d d.0 inner in
      let ne' = prev_ne_self r a xs a item p d inner in
      rw k (
        ground (arith, head-remove r item ne),
        Chain-remove r item ne ne' a xs a p d d.0 inner,
        (has-erase a item xs d.0, Distinct-erase item xs d.1),
      )
]

-- `list_pop_head` returns the first element and leaves the others in order.
pub list_pop_head-IsRing :
    (r : Ring) (a : ℕ) (xs : List ℕ)
    → IsRing r (a ∷ xs)
    → ((list_pop_head r).0 ≡ some a) × IsRing (list_pop_head r).1 xs
unfolding list_pop_head
list_pop_head-IsRing r a xs (e, p, d) =
    rw e (refl, list_remove-head (record r { head = some a }) a xs refl p d)
