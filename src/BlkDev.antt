-- ===== src/BlkDev.antt =====
-- Block devices, kernel/blkdev.c: reference counts and unregistration.
-- An instance is named by its address; `dev` is the memory that holds the instances, and a class is
-- the list of the instances of its ring, in order. A count has 32 bits. The entry behind the end of
-- the array of classes, which the code can read, is whatever `classes` gives for it.
pub mod Count
pub mod Register
pub mod Io
pub mod Reader
pub mod Read
pub mod Serve
pub mod Put
pub mod Writer
pub mod Write
mod Tests
use simplix.Base.{
  ℕ, ◌+◌, ◌-◌, ◌%◌, ◌^◌, Bool, true, false, Option, none, some, List, [], ◌∷◌, ltb, ◌==◌,
  if◌then◌else◌, update,
}
use simplix.PhysMem.{Ret, s_ok, e_invalidarg, e_busy, Run, done, panic}

pub record Instance : Type 0 where
  pub minor : ℕ
  pub block_size : ℕ
  pub capacity : ℕ
  pub refcnt : ℕ

pub record BlkDev : Type 0 where
  pub classes : ℕ → Option (List ℕ)
  pub dev : ℕ → Instance

abbrev pub nr_blkdev_major_types : ℕ
nr_blkdev_major_types = 2

abbrev pub set_refcnt : ℕ → ℕ → BlkDev → BlkDev
set_refcnt d n b = record b { dev = update b.dev d (record (b.dev d) { refcnt = n }) }

-- The instance that is found, and the state with its count incremented.
unfoldable pub get_blkdev_instance : ℕ → List ℕ → BlkDev → Option ℕ × BlkDev
get_blkdev_instance minor [] b = (none, b)
get_blkdev_instance minor (d ∷ ds) b =
    if (b.dev d).minor == minor
    then (some d, set_refcnt d (((b.dev d).refcnt + 1) % 2 ^ 32) b)
    else get_blkdev_instance minor ds b

unfoldable pub release_blkdev_instance : ℕ → BlkDev → Run BlkDev
release_blkdev_instance d b =
    if ltb 0 (b.dev d).refcnt then done (set_refcnt d ((b.dev d).refcnt - 1) b) else panic

abbrev pub without : ℕ → List ℕ → List ℕ
without d [] = []
without d (x ∷ xs) = if d == x then xs else x ∷ without d xs

-- The critical section of `unregister_blkdev_instance`; the memory of the instance goes back to the
-- heap.
abbrev pub drop_instance : ℕ → List ℕ → Option ℕ × BlkDev → Ret × BlkDev
drop_instance major ds (none, b) = (e_invalidarg, b)
drop_instance major ds (some d, b) =
    if ltb 1 (b.dev d).refcnt
    then (e_busy, b)
    else (s_ok, record b { classes = λ i. if i == major then some (without d ds) else b.classes i })

unfoldable pub unregister_blkdev_instance : ℕ → ℕ → BlkDev → Ret × BlkDev
unfolding get_blkdev_instance
unregister_blkdev_instance major minor b =
    if ltb nr_blkdev_major_types major then (e_invalidarg, b) else elim (b.classes major) [
      | none ↦ (e_invalidarg, b)
      | some ds ↦ drop_instance major ds (get_blkdev_instance minor ds b)
    ]
