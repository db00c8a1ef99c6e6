-- ===== src/Ring/Chain.antt =====
-- What a ring of list.h stands for: the list of its elements, from the head on.
use simplix.Base.{
  ℕ, ◌≡◌, refl, Bool, true, false, ◌||◌, none, some, List, [], ◌∷◌, ◌++◌, arith, ◌==◌,
}
use simplix.Ring.{Ring}

abbrev pub has : ℕ → List ℕ → Bool
has a [] = false
has a (x ∷ xs) = (a == x) || has a xs

abbrev pub Distinct : List ℕ → Type 0
Distinct [] = Unit {0}
Distinct (x ∷ xs) = (has x xs ≡ false) × Distinct xs

-- `next` leads from `a` through `xs` to `z`, and `prev` back.
abbrev pub Chain : Ring → ℕ → List ℕ → ℕ → Type 0
Chain r a [] z = (r.next a ≡ z) × (r.prev z ≡ a)
Chain r a (x ∷ xs) z = (r.next a ≡ x) × (r.prev x ≡ a) × Chain r x xs z

-- The ring holds exactly the elements `xs`, each once, in this order from the head.
abbrev pub IsRing : Ring → List ℕ → Type 0
IsRing r [] = r.head ≡ none
IsRing r (a ∷ xs) = (r.head ≡ some a) × Chain r a xs a × Distinct (a ∷ xs)

pub Chain-frame :
    (r s : Ring) (a : ℕ) (xs : List ℕ) (z : ℕ)
    → Chain r a xs z
    → ((i : ℕ) → has i (a ∷ xs) ≡ true → s.next i ≡ r.next i)
    → ((i : ℕ) → has i (z ∷ xs) ≡ true → s.prev i ≡ r.prev i)
    → Chain s a xs z
Chain-frame r s a [] z p n q = ground (arith, n a, q z)
Chain-frame r s a (x ∷ xs) z (e, f, p) n q = (
  ground (arith, n a),
  ground (arith, q x),
  Chain-frame r s x xs z p (λ i h. n i (ground arith)) (λ i h. q i (ground arith)),
)

-- The element before the end of a path is on it.
pub prev-mem :
    (r : Ring) (a : ℕ) (xs : List ℕ) (z : ℕ) → Chain r a xs z → has (r.prev z) (a ∷ xs) ≡ true
prev-mem r a [] z p = ground arith
prev-mem r a (x ∷ xs) z p = ground (arith, prev-mem r x xs z p.2)

pub has-append : (a : ℕ) (xs ys : List ℕ) → has a (xs ++ ys) ≡ (has a xs || has a ys)
has-append a [] ys = refl
has-append a (x ∷ xs) ys = ground (arith, has-append a xs ys)

pub Chain-append :
    (r : Ring) (a : ℕ) (xs : List ℕ) (b z : ℕ)
    → Chain r a xs b
    → r.next b ≡ z
    → r.prev z ≡ b
    → Chain r a (xs ++ b ∷ []) z
Chain-append r a [] b z p n q = (p.0, p.1, (n, q))
Chain-append r a (x ∷ xs) b z p n q = (p.0, p.1, Chain-append r x xs b z p.2 n q)

pub Distinct-snoc : (xs : List ℕ) (b : ℕ) → Distinct xs → has b xs ≡ false → Distinct (xs ++ b ∷ [])
Distinct-snoc [] b d h = (refl, tt)
Distinct-snoc (x ∷ xs) b d h =
    (ground (arith, has-append x xs (b ∷ [])), Distinct-snoc xs b d.1 (ground arith))

-- The successor of an element of a path lies behind its start.
pub next-mem :
    (r : Ring) (a : ℕ) (xs : List ℕ) (z i : ℕ)
    → Chain r a xs z
    → has i (a ∷ xs) ≡ true
    → has (r.next i) (z ∷ xs) ≡ true
next-mem r a [] z i p h = ground arith
next-mem r a (x ∷ xs) z i p h = ground (arith, next-mem r x xs z i p.2)

pub prev-mem_inner :
    (r : Ring) (a : ℕ) (xs : List ℕ) (z i : ℕ)
    → Chain r a xs z
    → has i xs ≡ true
    → has (r.prev i) (a ∷ xs) ≡ true
prev-mem_inner r a [] z i p h = cc
prev-mem_inner r a (x ∷ xs) z i p h = ground (arith, prev-mem_inner r x xs z i p.2)

-- An inner element of a path is linked to others than itself.
pub next_ne_self :
    (r : Ring) (a : ℕ) (xs : List ℕ) (z i : ℕ)
    → Chain r a xs z
    → Distinct (a ∷ xs)
    → has z xs ≡ false
    → has i xs ≡ true
    → (r.next i == i) ≡ false
next_ne_self r a [] z i p d e h = cc
next_ne_self r a (x ∷ []) z i p d e h = ground arith
next_ne_self r a (x ∷ y ∷ ys) z i p d e h = ground (arith, next_ne_self r x (y ∷ ys) z i p.2 d.1)

pub prev_ne_self :
    (r : Ring) (a : ℕ) (xs : List ℕ) (z i : ℕ)
    → Chain r a xs z
    → Distinct (a ∷ xs)
    → has i xs ≡ true
    → (r.prev i == i) ≡ false
prev_ne_self r a [] z i p d h = cc
prev_ne_self r a (x ∷ xs) z i p d h = ground (arith, prev_ne_self r x xs z i p.2 d.1)

-- Two numbers of which one is on the list and one is not.
pub ne_of_has : (i j : ℕ) (xs : List ℕ) → has i xs ≡ false → has j xs ≡ true → (i == j) ≡ false
ne_of_has i j [] h k = cc
ne_of_has i j (x ∷ xs) h k = ground (arith, ne_of_has i j xs)
