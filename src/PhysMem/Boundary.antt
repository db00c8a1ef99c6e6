-- ===== src/PhysMem/Boundary.antt =====
-- Two ways to move the end of a block, on descriptors and on lists of blocks: into the hole that
-- follows it, or with a new hole behind it.
use simplix.Base.{
  ℕ, ◌+◌, ◌-◌, ◌≤◌, ◌<◌, ◌≡◌, refl, inl, inr, true, List, [], ◌∷◌, arith, ◌==◌, if◌then◌else◌,
  update, Bool-cases,
}
use simplix.Ring.{list_replace, list_insert_after}
use simplix.Ring.Chain.{has}
use simplix.Ring.Insert.{insert_after, list_insert_after-IsRing}
use simplix.PhysMem.{PhysMem}
use simplix.PhysMem.Layout.{
  Block, block, starts, total, Holds, IsLayout, has-bound, not-has_inside, Holds-frame,
}
use simplix.PhysMem.Free.{starts_cong}

-- The block and what follows it, with `n` pages for the block and the rest for the hole.
abbrev pub shift_head : ℕ → Block → List Block → List Block
shift_head n b [] = b ∷ []
shift_head n b (c ∷ cs) = block n b.available ∷ block (b.pages + c.pages - n) true ∷ cs

-- The block that begins at page `i` gets `n` pages, and the hole that follows it gets the rest.
abbrev pub shift : ℕ → ℕ → ℕ → List Block → List Block
shift i n p [] = []
shift i n p (b ∷ bs) = if p == i then shift_head n b bs else b ∷ shift i n (p + b.pages) bs

-- The block that begins at page `i` keeps `n` pages, and a new hole behind it gets the rest.
abbrev pub split : ℕ → ℕ → ℕ → List Block → List Block
split i n p [] = []
split i n p (b ∷ bs) =
    if p == i
    then block n b.available ∷ block (b.pages - n) true ∷ bs
    else b ∷ split i n (p + b.pages) bs

-- The writes that the code makes.
abbrev pub shifted : ℕ → ℕ → PhysMem → PhysMem
shifted i n m =
    let j = i + m.pages i in
    record m {
      available = update m.available (i + n) true;
      pages = update (update m.pages (i + n) (m.pages i + m.pages j - n)) i n;
      block_list = list_replace j (i + n) m.block_list;
    }

abbrev pub splitted : ℕ → ℕ → PhysMem → PhysMem
splitted i n m = record m {
  available = update m.available (i + n) true;
  pages = update (update m.pages (i + n) (m.pages i - n)) i n;
  block_list = list_insert_after i (i + n) m.block_list;
}

pub pages_at :
    (m : PhysMem) (i p : ℕ) (b : Block) (bs : List Block)
    → Holds m p (b ∷ bs)
    → (p == i) ≡ true
    → (p ≡ i) × (m.pages i ≡ b.pages)
pages_at m i p b bs h e = let q : p ≡ i = ground arith in (q, rw q at h.0)

-- A block that ends before the memory does is not the last.
pub alone :
    (m : PhysMem) (i p : ℕ) (b : Block)
    → Holds m p (b ∷ [])
    → has i (starts p (b ∷ [])) ≡ true
    → i + m.pages i < p + total (b ∷ [])
    → ⊥
alone m i p b h k l =
    let (q, size) = pages_at m i p b [] h (ground arith) in omega (arith, size, q, l)

total-split :
    (m : PhysMem) (i n p : ℕ) (bs : List Block)
    → Holds m p bs
    → n ≤ m.pages i
    → total (split i n p bs) ≡ total bs
total-split m i n p [] h l = refl
total-split m i n p (b ∷ bs) h l =
    ground (arith, total-split m i n (p + b.pages) bs h.3, pages_at m i p b bs h)

starts-split :
    (m : PhysMem) (i n p : ℕ) (bs : List Block)
    → Holds m p bs
    → 0 < n
    → n < m.pages i
    → starts p (split i n p bs) ≡ insert_after i (i + n) (starts p bs)
starts-split m i n p [] h pos l = refl
starts-split m i n p (b ∷ bs) h pos l = ground (
  arith,
  starts-split m i n (p + b.pages) bs h.3,
  pages_at m i p b bs h,
  starts_cong (p + n + (b.pages - n)) (p + b.pages) bs,
)

-- The blocks behind the block that is changed are as before.
module _ (m m' : PhysMem) (i : ℕ) where
  pub Holds-behind :
      (p : ℕ) (bs : List Block)
      → Holds m p bs
      → ((k : ℕ) → p ≤ k → (m'.pages k ≡ m.pages k) × (m'.available k ≡ m.available k))
      → Holds m' p bs
  Holds-behind p bs h same = Holds-frame m m' p bs h (λ k u. same k (has-bound m k p bs h u).0)

Holds-split :
    (m : PhysMem) (i n p : ℕ) (bs : List Block)
    → Holds m p bs
    → has i (starts p bs) ≡ true
    → 0 < n
    → n < m.pages i
    → Holds (splitted i n m) p (split i n p bs)
Holds-split m i n p [] h k pos l = tt
Holds-split m i n p (b ∷ bs) h k pos l = elim (Bool-cases (p == i)) [
  | inl e ↦
      let (q, size) = pages_at m i p b bs h e in
      let behind : p + n + (b.pages - n) ≡ p + b.pages = omega arith in
      rw e (
        ground arith,
        ground arith,
        pos,
        (
          ground arith,
          ground arith,
          omega arith,
          rw behind (
              Holds-behind m (splitted i n m) i (p + b.pages) bs h.3
                (λ j u. (ground arith, ground arith))),
        ),
      )
  | inr e ↦
      let bound = has-bound m i (p + b.pages) bs h.3 (ground arith) in
      rw e (
        ground arith,
        ground arith,
        h.2,
        Holds-split m i n (p + b.pages) bs h.3 (ground arith) pos l,
      )
]

-- A new hole behind a block that gives up its last pages.
pub split-IsLayout :
    (m : PhysMem) (i n : ℕ) (bs : List Block)
    → IsLayout m bs
    → has i (starts 0 bs) ≡ true
    → 0 < n
    → n < m.pages i
    → IsLayout (splitted i n m) (split i n 0 bs)
split-IsLayout m i n bs lay k pos l = record {
  linked = rw (starts-split m i n 0 bs lay.holds pos l) (
      list_insert_after-IsRing m.block_list i (i + n) (starts 0 bs) lay.linked k
        (not-has_inside m i (i + n) 0 bs lay.holds k (omega arith) (omega arith)));
  holds = Holds-split m i n 0 bs lay.holds k pos l;
  filled = rw (total-split m i n 0 bs lay.holds (omega arith)) lay.filled;
  small = rw (total-split m i n 0 bs lay.holds (omega arith)) lay.small;
}
