-- ===== src/Ring/Insert.antt =====
-- list_append and list_insert_after on rings.
use simplix.Base.{
  ℕ, ◌≡◌, refl, inl, inr, true, false, ◌||◌, List, [], ◌∷◌, ◌++◌, arith, ◌==◌, if◌then◌else◌,
  Bool-cases,
}
use simplix.Ring.{Ring, list_insert_before, list_insert_after, list_append}
use simplix.Ring.Chain.{
  has, Distinct, Chain, IsRing, Chain-frame, prev-mem, next-mem, Distinct-snoc,
}

-- The list with `new` put behind each occurrence of `item`.
abbrev pub insert_after : ℕ → ℕ → List ℕ → List ℕ
insert_after item new [] = []
insert_after item new (x ∷ xs) = x ∷ (if item == x then new ∷ xs else insert_after item new xs)

has-insert_after :
    (i item new : ℕ) (xs : List ℕ)
    → has item xs ≡ true
    → has i (insert_after item new xs) ≡ ((i == new) || has i xs)
has-insert_after i item new [] h = ground arith
has-insert_after i item new (x ∷ xs) h = ground (arith, has-insert_after i item new xs)

Distinct-insert_after :
    (item new : ℕ) (xs : List ℕ)
    → has new xs ≡ false
    → has item xs ≡ true
    → Distinct xs
    → Distinct (insert_after item new xs)
Distinct-insert_after item new [] n h d = tt
Distinct-insert_after item new (x ∷ xs) n h d = elim (Bool-cases (item == x)) [
  | inl e ↦ rw e (ground arith, (ground arith, d.1))
  | inr e ↦ rw e (
    ground (arith, has-insert_after x item new xs),
    Distinct-insert_after item new xs (ground arith) (ground arith) d.1,
  )
]

-- Linking a new element before the end of a path puts it last on the path.
Chain-insert_before :
    (r : Ring) (a : ℕ) (xs : List ℕ) (z new : ℕ)
    → Chain r a xs z
    → Distinct (a ∷ xs)
    → has z xs ≡ false
    → has new (a ∷ xs) ≡ false
    → (new == z) ≡ false
    → Chain (list_insert_before z new r) a (xs ++ new ∷ []) z
unfolding list_insert_before
Chain-insert_before r a [] z new p d e n m = ground arith
Chain-insert_before r a (x ∷ xs) z new p d e n m =
    let ih = Chain-insert_before r x xs z new p.2 d.1 (ground arith) (ground arith) m in
    let last = prev-mem r x xs z p.2 in (ground arith, ground arith, ih)

-- `list_append` adds the element at the end.
pub list_append-IsRing :
    (r : Ring) (item : ℕ) (xs : List ℕ)
    → IsRing r xs
    → has item xs ≡ false
    → IsRing (list_append item r) (xs ++ item ∷ [])
unfolding list_append
list_append-IsRing r item [] h n = ground arith
list_append-IsRing r item (a ∷ xs) (e, p, d) n = rw e (
  refl,
  Chain-insert_before r a xs a item p d d.0 n (ground arith),
  Distinct-snoc (a ∷ xs) item d n,
)

-- The links that `list_insert_after` leaves.
pub next-insert_after :
    (r : Ring) (item new i : ℕ)
    → (new == item) ≡ false
    → (list_insert_after item new r).next i
      ≡ (if item == i then new else if new == i then r.next item else r.next i)
unfolding list_insert_after
next-insert_after r item new i h = ground arith

pub prev-insert_after :
    (r : Ring) (item new i : ℕ)
    → (new == item) ≡ false
    → (list_insert_after item new r).prev i
      ≡ (if r.next item == i then new else if new == i then item else r.prev i)
unfolding list_insert_after
prev-insert_after r item new i h = ground arith

Chain-insert_after :
    (r : Ring) (a : ℕ) (xs : List ℕ) (z item new : ℕ)
    → Chain r a xs z
    → Distinct (a ∷ xs)
    → has z xs ≡ false
    → has new (a ∷ xs) ≡ false
    → (new == z) ≡ false
    → has item (a ∷ xs) ≡ true
    → Chain
        (list_insert_after item new r)
        a
        (if item == a then new ∷ xs else insert_after item new xs)
        z
Chain-insert_after r a [] z item new p d e n m h =
    let nx = λ (i : ℕ). next-insert_after r item new i in
    let pv = λ (i : ℕ). prev-insert_after r item new i in ground (arith, nx a, nx new, pv new, pv z)
Chain-insert_after r a (x ∷ xs) z item new p d e n m h =
    let nx = λ (i : ℕ). next-insert_after r item new i (ground arith) in
    let pv = λ (i : ℕ). prev-insert_after r item new i (ground arith) in
    elim (Bool-cases (item == a)) [
      | inl k ↦ rw k (
        ground (arith, nx a),
        ground (arith, pv new),
        (
          ground (arith, nx new),
          ground (arith, pv x),
          Chain-frame r (list_insert_after item new r) x xs z p.2 (λ i u. ground (arith, nx i))
              (λ i u. ground (arith, pv i)),
        ),
      )
      | inr k ↦ rw k (
        ground (arith, nx a),
        ground (arith, pv x, next-mem r x xs z item p.2 (ground arith)),
        Chain-insert_after r x xs z item new p.2 d.1 (ground arith) (ground arith) m (ground arith),
      )
    ]

-- `list_insert_after` puts a new element right behind the one that is named.
pub list_insert_after-IsRing :
    (r : Ring) (item new : ℕ) (xs : List ℕ)
    → IsRing r xs
    → has item xs ≡ true
    → has new xs ≡ false
    → IsRing (list_insert_after item new r) (insert_after item new xs)
unfolding list_insert_after
list_insert_after-IsRing r item new [] g h n = ground arith
list_insert_after-IsRing r item new (a ∷ xs) (e, p, d) h n = (
  e,
  Chain-insert_after r a xs a item new p d d.0 n (ground arith) h,
  Distinct-insert_after item new (a ∷ xs) n h d,
)
