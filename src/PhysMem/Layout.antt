-- ===== src/PhysMem/Layout.antt =====
-- What the descriptors of kernel/physmem.c stand for: the blocks of physical memory in the order
-- of their addresses, which tile the memory from page 0 on.
use simplix.Base.{
  ℕ, ◌+◌, ◌*◌, ◌^◌, ◌≤◌, ◌<◌, ◌≡◌, refl, Bool, true, false, ◌&&◌, List, [], ◌∷◌, arith,
  if◌then◌else◌, length,
}
use simplix.Ring.Chain.{has, IsRing}
use simplix.PhysMem.{PhysMem, page_size}

pub record Block : Type 0 where
  pub pages : ℕ
  pub available : Bool

abbrev pub block : ℕ → Bool → Block
block n a = record { pages = n; available = a }

-- The first pages of the blocks, if the first block begins at page `p`.
abbrev pub starts : ℕ → List Block → List ℕ
starts p [] = []
starts p (b ∷ bs) = p ∷ starts (p + b.pages) bs

abbrev pub total : List Block → ℕ
total [] = 0
total (b ∷ bs) = b.pages + total bs

-- The descriptors hold the blocks, and no block is empty.
abbrev pub Holds : PhysMem → ℕ → List Block → Type 0
Holds m p [] = Unit {0}
Holds m p (b ∷ bs) =
    (m.pages p ≡ b.pages) × (m.available p ≡ b.available) × (0 < b.pages) × Holds m (p + b.pages) bs

-- The well-formed states: the ring of list.h links the blocks in order, and they fill the memory.
pub record IsLayout (m : PhysMem) (bs : List Block) : Type 0 where
  pub linked : IsRing m.block_list (starts 0 bs)
  pub holds : Holds m 0 bs
  pub filled : m.physmem_size ≡ total bs * page_size
  pub small : total bs < 2 ^ 20

-- No hole is followed by a hole.
abbrev pub Apart : Bool → List Block → Type 0
Apart a [] = Unit {0}
Apart a (b ∷ bs) = ((a && b.available) ≡ false) × Apart b.available bs

abbrev pub Coalesced : List Block → Type 0
Coalesced bs = Apart false bs

-- The allocated blocks, as their first pages and sizes: the state that a client sees.
abbrev pub allocated : ℕ → List Block → List (ℕ × ℕ)
allocated p [] = []
allocated p (b ∷ bs) =
    if b.available then allocated (p + b.pages) bs else (p, b.pages) ∷ allocated (p + b.pages) bs

pub not-has_below : (i p : ℕ) (bs : List Block) → i < p → has i (starts p bs) ≡ false
not-has_below i p [] h = refl
not-has_below i p (b ∷ bs) h = ground (arith, not-has_below i (p + b.pages) bs)

pub has-bound :
    (m : PhysMem) (i p : ℕ) (bs : List Block)
    → Holds m p bs
    → has i (starts p bs) ≡ true
    → (p ≤ i) × (0 < m.pages i) × (i + m.pages i ≤ p + total bs)
has-bound m i p [] h k = cc
has-bound m i p (b ∷ bs) h k = ground (arith, has-bound m i (p + b.pages) bs h.3)

-- A page inside a block begins no block.
pub not-has_inside :
    (m : PhysMem) (i j p : ℕ) (bs : List Block)
    → Holds m p bs
    → has i (starts p bs) ≡ true
    → i < j
    → j < i + m.pages i
    → has j (starts p bs) ≡ false
not-has_inside m i j p [] h k l u = refl
not-has_inside m i j p (b ∷ bs) h k l u = ground (
  arith,
  not-has_inside m i j (p + b.pages) bs h.3,
  not-has_below j (p + b.pages) bs,
  has-bound m i (p + b.pages) bs h.3,
)

pub Holds-frame :
    (m m' : PhysMem) (p : ℕ) (bs : List Block)
    → Holds m p bs
    → ((i : ℕ)
        → has i (starts p bs) ≡ true
        → (m'.pages i ≡ m.pages i) × (m'.available i ≡ m.available i))
    → Holds m' p bs
Holds-frame m m' p [] h s = tt
Holds-frame m m' p (b ∷ bs) h s = (
  ground (arith, s p),
  ground (arith, s p),
  h.2,
  Holds-frame m m' (p + b.pages) bs h.3 (λ i k. s i (ground arith)),
)

pub length-starts-le :
    (m : PhysMem) (p : ℕ) (bs : List Block) → Holds m p bs → length (starts p bs) ≤ total bs
length-starts-le m p [] h = omega arith
length-starts-le m p (b ∷ bs) h = omega (arith, length-starts-le m (p + b.pages) bs h.3)

pub Apart-false : (a : Bool) (bs : List Block) → Apart a bs → Apart false bs
Apart-false a [] h = tt
Apart-false a (b ∷ bs) h = (refl, h.1)

-- Where the links of a block lead in a well-formed state.
pub has-total :
    (m : PhysMem) (k p : ℕ) (bs : List Block)
    → Holds m p bs
    → p + total bs ≤ k
    → has k (starts p bs) ≡ false
has-total m k p [] h l = refl
has-total m k p (b ∷ bs) h l = ground (arith, has-total m k (p + b.pages) bs h.3)
