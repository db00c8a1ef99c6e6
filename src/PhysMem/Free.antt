-- ===== src/PhysMem/Free.antt =====
-- free_physmem_block: the block becomes a hole, which is merged with the holes beside it.
use simplix.Base.{
  ℕ, ◌+◌, ◌<◌, ◌≡◌, refl, inl, inr, true, List, [], ◌∷◌, arith, ◌==◌, if◌then◌else◌, update,
  Bool-cases, ap,
}
use simplix.Ring.{Ring, list_remove}
use simplix.Ring.Chain.{has, Chain}
use simplix.Ring.Remove.{erase, list_remove-IsRing}
use simplix.PhysMem.{PhysMem}
use simplix.PhysMem.Layout.{
  Block, block, starts, total, Holds, IsLayout, not-has_below, has-bound, Holds-frame,
}

-- The block that begins at page `i` becomes a hole.
abbrev pub mark : ℕ → ℕ → List Block → List Block
mark i p [] = []
mark i p (b ∷ bs) = if p == i then block b.pages true ∷ bs else b ∷ mark i (p + b.pages) bs

abbrev pub absorb : Block → List Block → List Block
absorb b [] = b ∷ []
absorb b (c ∷ cs) = block (b.pages + c.pages) b.available ∷ cs

-- The block that begins at page `i` takes over its successor.
abbrev pub fuse : ℕ → ℕ → List Block → List Block
fuse i p [] = []
fuse i p (b ∷ bs) = if p == i then absorb b bs else b ∷ fuse i (p + b.pages) bs

pub has_next :
    (m : PhysMem) (i p : ℕ) (bs : List Block)
    → Holds m p bs
    → has i (starts p bs) ≡ true
    → i + m.pages i < p + total bs
    → has (i + m.pages i) (starts p bs) ≡ true
has_next m i p [] h k l = cc
has_next m i p (b ∷ []) h k l = ground arith
has_next m i p (b ∷ c ∷ bs) h k l = ground (arith, has_next m i (p + b.pages) (c ∷ bs) h.3)

pub starts-mark : (i p : ℕ) (bs : List Block) → starts p (mark i p bs) ≡ starts p bs
starts-mark i p [] = refl
starts-mark i p (b ∷ bs) = ground (arith, starts-mark i (p + b.pages) bs)

pub total-mark : (i p : ℕ) (bs : List Block) → total (mark i p bs) ≡ total bs
total-mark i p [] = refl
total-mark i p (b ∷ bs) = ground (arith, total-mark i (p + b.pages) bs)

total-fuse : (i p : ℕ) (bs : List Block) → total (fuse i p bs) ≡ total bs
total-fuse i p [] = refl
total-fuse i p (b ∷ []) = ground arith
total-fuse i p (b ∷ c ∷ bs) = ground (arith, total-fuse i (p + b.pages) (c ∷ bs))

pub starts_cong : (p q : ℕ) (bs : List Block) → p ≡ q → starts p bs ≡ starts q bs
starts_cong p q bs e = rw e

starts-fuse :
    (m : PhysMem) (i p : ℕ) (bs : List Block)
    → Holds m p bs
    → has i (starts p bs) ≡ true
    → i + m.pages i < p + total bs
    → starts p (fuse i p bs) ≡ erase (i + m.pages i) (starts p bs)
starts-fuse m i p [] h k l = refl
starts-fuse m i p (b ∷ []) h k l = ground arith
starts-fuse m i p (b ∷ c ∷ bs) h k l = ground (
  arith,
  starts-fuse m i (p + b.pages) (c ∷ bs) h.3,
  has-bound m i (p + b.pages) (c ∷ bs) h.3,
  starts_cong (p + (b.pages + c.pages)) (p + b.pages + c.pages) bs,
)

-- The two writes of a merge.
abbrev pub merge : ℕ → ℕ → PhysMem → PhysMem
merge i j m = record m {
  pages = update m.pages i (m.pages i + m.pages j);
  block_list = list_remove j m.block_list;
}

Holds-merge :
    (m : PhysMem) (i p : ℕ) (bs : List Block)
    → Holds m p bs
    → has i (starts p bs) ≡ true
    → i + m.pages i < p + total bs
    → Holds (merge i (i + m.pages i) m) p (fuse i p bs)
Holds-merge m i p [] h k l = tt
Holds-merge m i p (b ∷ bs) h k l = elim (Bool-cases (p == i)) [
  | inl e ↦ rw e (at_start bs h k l (ground arith))
  | inr e ↦
      let bound = has-bound m i (p + b.pages) bs h.3 (ground arith) in
      rw e (
        ground arith,
        ground arith,
        h.2,
        Holds-merge m i (p + b.pages) bs h.3 (ground arith) (omega arith),
      )
]
  where
    at_start :
        (bs : List Block)
        → Holds m p (b ∷ bs)
        → has i (starts p (b ∷ bs)) ≡ true
        → i + m.pages i < p + total (b ∷ bs)
        → p ≡ i
        → Holds (merge i (i + m.pages i) m) p (absorb b bs)
    at_start [] h k l e = absurd (omega (arith, ap m.pages e))
    at_start (c ∷ cs) h k l e =
        let here : i + m.pages i ≡ p + b.pages = omega (arith, ap m.pages e) in
        let rest =
          Holds-frame m (merge i (i + m.pages i) m) (p + b.pages + c.pages) cs h.3.3
            (λ x u. (ground (arith, not-has_below x (p + b.pages + c.pages) cs), refl)) in
        let behind : p + (b.pages + c.pages) ≡ p + b.pages + c.pages = omega arith in
        (ground (arith, ap m.pages here), ground arith, omega arith, rw behind rest)

pub merge-IsLayout :
    (m : PhysMem) (i : ℕ) (bs : List Block)
    → IsLayout m bs
    → has i (starts 0 bs) ≡ true
    → i + m.pages i < total bs
    → IsLayout (merge i (i + m.pages i) m) (fuse i 0 bs)
merge-IsLayout m i bs lay k l = record {
  linked = rw (starts-fuse m i 0 bs lay.holds k (omega arith)) (
      list_remove-IsRing m.block_list (i + m.pages i) (starts 0 bs) lay.linked
        (has_next m i 0 bs lay.holds k (omega arith)));
  holds = Holds-merge m i 0 bs lay.holds k (omega arith);
  filled = rw total-fuse lay.filled;
  small = rw total-fuse lay.small;
}

Holds-mark :
    (m : PhysMem) (i p : ℕ) (bs : List Block)
    → Holds m p bs
    → Holds (record m { available = update m.available i true }) p (mark i p bs)
Holds-mark m i p [] h = tt
Holds-mark m i p (b ∷ bs) h = elim (Bool-cases (p == i)) [
  | inl e ↦ rw e (
    ground arith,
    ground arith,
    h.2,
    Holds-frame m (record m { available = update m.available i true }) (p + b.pages) bs h.3
        (λ x u. (refl, ground (arith, not-has_below x (p + b.pages) bs))),
  )
  | inr e ↦ rw e (ground arith, ground arith, h.2, Holds-mark m i (p + b.pages) bs h.3)
]

pub mark-IsLayout :
    (m : PhysMem) (i : ℕ) (bs : List Block)
    → IsLayout m bs
    → IsLayout (record m { available = update m.available i true }) (mark i 0 bs)
mark-IsLayout m i bs lay = record {
  linked = rw starts-mark lay.linked;
  holds = Holds-mark m i 0 bs lay.holds;
  filled = rw total-mark lay.filled;
  small = rw total-mark lay.small;
}

-- Where the links of a block lead.
pub next-starts :
    (m : PhysMem) (r : Ring) (i p z : ℕ) (b : Block) (bs : List Block)
    → Chain r p (starts (p + b.pages) bs) z
    → Holds m p (b ∷ bs)
    → has i (starts p (b ∷ bs)) ≡ true
    → r.next i ≡ (if i + m.pages i == p + total (b ∷ bs) then z else i + m.pages i)
next-starts m r i p z b [] l h k = ground arith
next-starts m r i p z b (c ∷ bs) l h k = ground (
  arith,
  next-starts m r i (p + b.pages) z c bs l.2 h.3,
  has-bound m i (p + b.pages) (c ∷ bs) h.3,
)

pub prev-starts :
    (m : PhysMem) (r : Ring) (i p z : ℕ) (b : Block) (bs : List Block)
    → Chain r p (starts (p + b.pages) bs) z
    → Holds m p (b ∷ bs)
    → has i (starts (p + b.pages) bs) ≡ true
    → (has (r.prev i) (starts p (b ∷ bs)) ≡ true) × (r.prev i + m.pages (r.prev i) ≡ i)
prev-starts m r i p z b [] l h k = cc
prev-starts m r i p z b (c ∷ bs) l h k = elim (Bool-cases (i == (p + b.pages))) [
  | inl e ↦ let q : r.prev i ≡ p = ground (arith, ap r.prev) in rw q (ground arith, ground arith)
  | inr e ↦ ground (arith, prev-starts m r i (p + b.pages) z c bs l.2 h.3)
]
