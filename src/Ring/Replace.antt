-- ===== src/Ring/Replace.antt =====
-- list_replace on rings, for an element behind the head.
use mathlib.Core.Path.{subst, sym}
use simplix.Base.{
  ℕ, ◌≡◌, refl, inl, inr, true, false, some, List, [], ◌∷◌, arith, ◌==◌, if◌then◌else◌, Bool-cases,
}
use simplix.Ring.{Ring, list_replace, is_head}
use simplix.Ring.Chain.{
  has, Distinct, Chain, IsRing, Chain-frame, next-mem, prev-mem_inner, next_ne_self, prev_ne_self,
  ne_of_has,
}

-- The list with `new` in the place of `old`.
abbrev pub replace : ℕ → ℕ → List ℕ → List ℕ
replace old new [] = []
replace old new (x ∷ xs) = if old == x then new ∷ xs else x ∷ replace old new xs

module _ (r : Ring) (old new : ℕ) (ne : (r.next old == old) ≡ false)
    (ne' : (r.prev old == old) ≡ false) (ne_new : (new == old) ≡ false)
    (out : (new == r.prev old) ≡ false) where
  pub next-replace :
      (i : ℕ)
      → (list_replace old new r).next i
        ≡ (if r.prev old == i then new else if new == i then r.next old else r.next i)
  unfolding list_replace
  next-replace i = ground arith

  pub prev-replace :
      (i : ℕ)
      → (list_replace old new r).prev i
        ≡ (if r.next old == i then new else if new == i then r.prev old else r.prev i)
  unfolding list_replace
  prev-replace i = ground arith

  pub head-replace :
      (list_replace old new r).head ≡ (if is_head old r.head then some new else r.head)
  unfolding list_replace
  head-replace = ground arith

  -- The element is the first behind `a`.
  Chain-replace_first :
      (a : ℕ) (xs : List ℕ) (z : ℕ)
      → Chain r a (old ∷ xs) z
      → Distinct (a ∷ old ∷ xs)
      → has z xs ≡ false
      → has new (a ∷ xs) ≡ false
      → (new == z) ≡ false
      → Chain (list_replace old new r) a (new ∷ xs) z
  Chain-replace_first a [] z p d e n m = (
    ground (arith, next-replace a),
    ground (arith, prev-replace new),
    (ground (arith, next-replace new), ground (arith, prev-replace z)),
  )
  Chain-replace_first a (y ∷ ys) z p d e n m = (
    ground (arith, next-replace a),
    ground (arith, prev-replace new),
    (
      ground (arith, next-replace new),
      ground (arith, prev-replace y),
      Chain-frame r (list_replace old new r) y ys z p.2.2 (λ i u. ground (arith, next-replace i))
          (λ i u. ground (arith, prev-replace i)),
    ),
  )

  Chain-replace :
      (a : ℕ) (xs : List ℕ) (z : ℕ)
      → Chain r a xs z
      → Distinct (a ∷ xs)
      → has z xs ≡ false
      → has new (a ∷ xs) ≡ false
      → (new == z) ≡ false
      → has old xs ≡ true
      → Chain (list_replace old new r) a (replace old new xs) z
  Chain-replace a [] z p d e n m h = cc
  Chain-replace a (x ∷ xs) z p d e n m h = elim (Bool-cases (old == x)) [
    | inl k ↦
        let q : old ≡ x = ground arith in
        rw k (
          Chain-replace_first a xs z (subst (λ y. Chain r a (y ∷ xs) z) (sym q) p)
            (subst (λ y. Distinct (a ∷ y ∷ xs)) (sym q) d) (ground arith) (ground arith) m)
    | inr k ↦ rw k (
      ground (arith, next-replace a, prev-mem_inner r x xs z old p.2 (ground arith)),
      ground (arith, prev-replace x, next-mem r x xs z old p.2 (ground arith)),
      Chain-replace x xs z p.2 d.1 (ground arith) (ground arith) m (ground arith),
    )
  ]

has-replace :
    (i old new : ℕ) (xs : List ℕ)
    → (i == new) ≡ false
    → has i xs ≡ false
    → has i (replace old new xs) ≡ false
has-replace i old new [] n h = refl
has-replace i old new (x ∷ xs) n h = ground (arith, has-replace i old new xs n)

Distinct-replace :
    (old new : ℕ) (xs : List ℕ) → has new xs ≡ false → Distinct xs → Distinct (replace old new xs)
Distinct-replace old new [] n d = tt
Distinct-replace old new (x ∷ xs) n d = elim (Bool-cases (old == x)) [
  | inl e ↦ rw e (ground arith, d.1)
  | inr e ↦
      rw e (
        has-replace x old new xs (ground arith) d.0,
        Distinct-replace old new xs (ground arith) d.1,
      )
]

-- `list_replace` puts the new element in the place of one that is not the head.
pub list_replace-IsRing :
    (r : Ring) (old new a : ℕ) (xs : List ℕ)
    → IsRing r (a ∷ xs)
    → has old xs ≡ true
    → has new (a ∷ xs) ≡ false
    → IsRing (list_replace old new r) (a ∷ replace old new xs)
list_replace-IsRing r old new a xs (e, p, d) h n =
    let ne = next_ne_self r a xs a old p d d.0 h in
    let ne' = prev_ne_self r a xs a old p d h in
    let apart : (new == old) ≡ false = ne_of_has new old xs (ground arith) h in
    let out : (new == r.prev old) ≡ false =
      ne_of_has new (r.prev old) (a ∷ xs) n (prev-mem_inner r a xs a old p h) in
    (
      ground (arith, head-replace r old new ne ne' apart out),
      Chain-replace r old new ne ne' apart out a xs a p d d.0 n (ground arith) h,
      (has-replace a old new xs (ground arith) d.0, Distinct-replace old new xs (ground arith) d.1),
    )
