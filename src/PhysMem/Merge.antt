-- ===== src/PhysMem/Merge.antt =====
-- A block that is given back and the holes around it, on lists of blocks.
use simplix.Base.{
  ℕ, ◌+◌, ◌<◌, ◌≡◌, refl, inl, inr, Bool, true, false, ◌&&◌, List, [], ◌∷◌, arith, ltb, ◌==◌,
  if◌then◌else◌, Bool-cases, ap,
}
use native.Mathlib.Nat.{add_assoc}
use simplix.Ring.Chain.{has}
use simplix.PhysMem.{PhysMem, merge_prev}
use simplix.PhysMem.Layout.{
  Block, block, starts, Holds, Apart, Apart-false, Coalesced, allocated, has-bound,
}
use simplix.PhysMem.Free.{mark, fuse, merge}

-- A block in front of others, merged if both it and the first of them are holes.
abbrev pub join : Block → List Block → List Block
join b [] = b ∷ []
join b (c ∷ cs) =
    if b.available && c.available then block (b.pages + c.pages) true ∷ cs else b ∷ c ∷ cs

-- The block that begins at page `i` becomes a hole, merged with a hole behind it.
abbrev pub release_next : ℕ → ℕ → List Block → List Block
release_next i p [] = []
release_next i p (b ∷ bs) =
    if p == i then join (block b.pages true) bs else b ∷ release_next i (p + b.pages) bs

-- The same, and merged with a hole in front of it.
abbrev pub release : ℕ → ℕ → List Block → List Block
release i p [] = []
release i p (b ∷ bs) =
    if p == i then join (block b.pages true) bs else join b (release i (p + b.pages) bs)

-- Whether a hole begins at page `k`.
abbrev hole_at : ℕ → ℕ → List Block → Bool
hole_at k p [] = false
hole_at k p (b ∷ bs) = if p == k then b.available else hole_at k (p + b.pages) bs

pub hole_at-available :
    (m : PhysMem) (k p : ℕ) (bs : List Block)
    → Holds m p bs
    → has k (starts p bs) ≡ true
    → hole_at k p bs ≡ m.available k
hole_at-available m k p [] h u = cc
hole_at-available m k p (b ∷ bs) h u = ground (arith, hole_at-available m k (p + b.pages) bs h.3)

pub hole_at-none :
    (k p : ℕ) (bs : List Block) → has k (starts p bs) ≡ false → hole_at k p bs ≡ false
hole_at-none k p [] u = refl
hole_at-none k p (b ∷ bs) u = ground (arith, hole_at-none k (p + b.pages) bs)

pub release_next-fuse :
    (m : PhysMem) (i p : ℕ) (bs : List Block)
    → Holds m p bs
    → has i (starts p bs) ≡ true
    → hole_at (i + m.pages i) p bs ≡ true
    → fuse i p (mark i p bs) ≡ release_next i p bs
release_next-fuse m i p [] h k e = refl
release_next-fuse m i p (b ∷ []) h k e = ground arith
release_next-fuse m i p (b ∷ c ∷ bs) h k e = ground (
  arith,
  release_next-fuse m i (p + b.pages) (c ∷ bs) h.3,
  has-bound m i (p + b.pages) (c ∷ bs) h.3,
)

pub release_next-mark :
    (m : PhysMem) (i p : ℕ) (bs : List Block)
    → Holds m p bs
    → has i (starts p bs) ≡ true
    → hole_at (i + m.pages i) p bs ≡ false
    → mark i p bs ≡ release_next i p bs
release_next-mark m i p [] h k e = refl
release_next-mark m i p (b ∷ []) h k e = ground arith
release_next-mark m i p (b ∷ c ∷ bs) h k e = ground (
  arith,
  release_next-mark m i (p + b.pages) (c ∷ bs) h.3,
  has-bound m i (p + b.pages) (c ∷ bs) h.3,
)

-- `j` is the block in front of the one at `i`, and a hole.
pub release-fuse :
    (m : PhysMem) (i j p : ℕ) (a : Bool) (bs : List Block)
    → Holds m p bs
    → Apart a bs
    → has j (starts p bs) ≡ true
    → j + m.pages j ≡ i
    → has i (starts p bs) ≡ true
    → m.available i ≡ false
    → m.available j ≡ true
    → fuse j p (release_next i p bs) ≡ release i p bs
release-fuse m i j p a [] h co k e u v w = refl
release-fuse m i j p a (b ∷ []) h co k e u v w = ground arith
release-fuse m i j p a (b ∷ c ∷ bs) h co k e u v w = ground (
  arith,
  release-fuse m i j (p + b.pages) b.available (c ∷ bs) h.3 co.1,
  has-bound m j (p + b.pages) (c ∷ bs) h.3,
)

-- The block in front is allocated.
pub release-keep :
    (m : PhysMem) (i j p : ℕ) (a : Bool) (bs : List Block)
    → Holds m p bs
    → Apart a bs
    → has j (starts p bs) ≡ true
    → j + m.pages j ≡ i
    → m.available j ≡ false
    → release_next i p bs ≡ release i p bs
release-keep m i j p a [] h co k e v = refl
release-keep m i j p a (b ∷ []) h co k e v = ground arith
release-keep m i j p a (b ∷ c ∷ bs) h co k e v = ground (
  arith,
  release-keep m i j (p + b.pages) b.available (c ∷ bs) h.3 co.1,
  has-bound m j (p + b.pages) (c ∷ bs) h.3,
)

-- The first block has none in front.
pub release_first : (i : ℕ) (bs : List Block) → i ≡ 0 → release_next i 0 bs ≡ release i 0 bs
release_first i [] e = refl
release_first i (b ∷ bs) e = ground arith

pub merge_prev_hole :
    (m : PhysMem) (i : ℕ)
    → ltb (m.block_list.prev i) i ≡ true
    → m.available (m.block_list.prev i) ≡ true
    → merge_prev i m ≡ merge (m.block_list.prev i) i m
unfolding merge_prev
merge_prev_hole m i l h = ground arith

Coalesced-join : (b : Block) (bs : List Block) → Coalesced bs → Coalesced (join b bs)
Coalesced-join b [] co = ground arith
Coalesced-join b (c ∷ cs) co = elim (Bool-cases (b.available && c.available)) [
  | inl e ↦ let hole : c.available ≡ true = ground arith in rw e (refl, rw hole at co.1)
  | inr e ↦ rw e (refl, (e, co.1))
]

-- Whatever the blocks, a release leaves no hole behind a hole.
pub Coalesced-release : (i p : ℕ) (bs : List Block) → Coalesced bs → Coalesced (release i p bs)
Coalesced-release i p [] co = tt
Coalesced-release i p (b ∷ bs) co = elim (Bool-cases (p == i)) [
  | inl e ↦ rw e (Coalesced-join (block b.pages true) bs (Apart-false b.available bs co.1))
  | inr e ↦ rw e (
      Coalesced-join b (release i (p + b.pages) bs)
        (Coalesced-release i (p + b.pages) bs (Apart-false b.available bs co.1)))
]

allocated_cong : (p q : ℕ) (bs : List Block) → p ≡ q → allocated p bs ≡ allocated q bs
allocated_cong p q bs e = rw e

allocated-join :
    (p : ℕ) (b : Block) (bs : List Block) → allocated p (join b bs) ≡ allocated p (b ∷ bs)
allocated-join p b [] = refl
allocated-join p b (c ∷ cs) =
    ground (arith, allocated_cong (p + (b.pages + c.pages)) (p + b.pages + c.pages) cs)

-- The blocks without the one that begins at page `i`.
abbrev pub drop_block : ℕ → List (ℕ × ℕ) → List (ℕ × ℕ)
drop_block i [] = []
drop_block i ((j, k) ∷ xs) = if j == i then xs else (j, k) ∷ drop_block i xs

drop_block_below :
    (i p : ℕ) (bs : List Block) → i < p → drop_block i (allocated p bs) ≡ allocated p bs
drop_block_below i p [] l = refl
drop_block_below i p (b ∷ bs) l = ground (arith, drop_block_below i (p + b.pages) bs)

pub allocated-release :
    (m : PhysMem) (i p : ℕ) (bs : List Block)
    → Holds m p bs
    → allocated p (release i p bs) ≡ drop_block i (allocated p bs)
allocated-release m i p [] h = refl
allocated-release m i p (b ∷ bs) h = ground (
  arith,
  allocated-release m i (p + b.pages) bs h.3,
  allocated-join p (block b.pages true) bs,
  allocated-join p b (release i (p + b.pages) bs),
  drop_block_below i (p + b.pages) bs,
)

pub has-release_next :
    (k i p : ℕ) (bs : List Block)
    → has k (starts p (release_next i p bs)) ≡ true
    → has k (starts p bs) ≡ true
has-release_next k i p [] h = h
has-release_next k i p (b ∷ []) h = ground arith
has-release_next k i p (b ∷ c ∷ bs) h = ground (
  arith,
  has-release_next k i (p + b.pages) (c ∷ bs),
  ap (λ (q : ℕ). has k (starts q bs)) (add_assoc p b.pages c.pages),
)

pub has-release_next_self :
    (i p : ℕ) (bs : List Block)
    → has i (starts p bs) ≡ true
    → has i (starts p (release_next i p bs)) ≡ true
has-release_next_self i p [] h = h
has-release_next_self i p (b ∷ []) h = ground arith
has-release_next_self i p (b ∷ c ∷ bs) h =
    ground (arith, has-release_next_self i (p + b.pages) (c ∷ bs))
