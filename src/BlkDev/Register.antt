-- ===== src/BlkDev/Register.antt =====
-- The registration of classes and instances, kernel/blkdev.c.
-- The answer of the heap is a parameter: the address of the new structure, or `none`.
-- Descriptions, which nothing else reads, are left out.
use simplix.Base.{
  ℕ, ◌≤◌, ◌<◌, ◌≡◌, refl, inl, inr, false, ◌||◌, Option, none, some, List, [], ◌∷◌, ◌++◌, arith,
  ltb, ◌==◌, if◌then◌else◌, update, Bool-cases, Option-cases,
}
use simplix.Ring.Chain.{has}
use simplix.PhysMem.{Ret, s_ok, e_fail, e_invalidarg, e_nomem, Run, done, panic, out_of_fuel}
use simplix.BlkDev.{
  BlkDev, Instance, nr_blkdev_major_types, get_blkdev_instance, release_blkdev_instance,
}
use simplix.BlkDev.Count.{find_minor}

unfoldable pub register_blkdev_class : ℕ → Option ℕ → BlkDev → Ret × BlkDev
register_blkdev_class major new b =
    if ltb nr_blkdev_major_types major then (e_invalidarg, b) else elim (b.classes major) [
      | some _ ↦ (e_fail, b)
      | none ↦ elim new [
        | none ↦ (e_nomem, b)
        | some _ ↦ (s_ok, record b { classes = update b.classes major (some []) })
      ]
    ]

abbrev pub new_instance : ℕ → ℕ → ℕ → Instance
new_instance minor block_size capacity = record {
  minor = minor;
  block_size = block_size;
  capacity = capacity;
  refcnt = 0;
}

-- The new instance at the end of the list of its class.
abbrev pub add_instance : ℕ → List ℕ → ℕ → Instance → BlkDev → BlkDev
add_instance major ds d i b = record {
  classes = update b.classes major (some (ds ++ d ∷ []));
  dev = update b.dev d i;
}

-- An instance that is registered already is released again.
abbrev pub release_found : ℕ → BlkDev → Run (Ret × BlkDev)
release_found d b = elim (release_blkdev_instance d b) [
  | done b' ↦ done (s_ok, b')
  | panic ↦ panic
  | out_of_fuel ↦ out_of_fuel
]

unfoldable pub register_blkdev_instance : ℕ → ℕ → ℕ → ℕ → Option ℕ → BlkDev → Run (Ret × BlkDev)
register_blkdev_instance major minor block_size capacity new b =
    if ltb nr_blkdev_major_types major || block_size == 0 || capacity == 0
    then done (e_invalidarg, b)
    else elim (b.classes major) [
      | none ↦ done (e_invalidarg, b)
      | some ds ↦
          (let (found, b1) = get_blkdev_instance minor ds b in
            elim found [
              | some d ↦ release_found d b1
              | none ↦ elim new [
                | none ↦ done (e_nomem, b)
                | some d ↦
                    done (s_ok, add_instance major ds d (new_instance minor block_size capacity) b)
              ]
            ])
    ]

get_none :
    (minor : ℕ) (ds : List ℕ) (b : BlkDev)
    → find_minor minor ds b ≡ none
    → (get_blkdev_instance minor ds b).0 ≡ none
unfolding get_blkdev_instance
get_none minor [] b e = refl
get_none minor (x ∷ ds) b e = elim (Bool-cases ((b.dev x).minor == minor)) [
  | inl k ↦ absurd (ground arith)
  | inr k ↦ rw k (get_none minor ds b (ground arith))
]

-- The search finds the new instance where it finds no other.
find_minor-add_instance :
    (m major d : ℕ) (i : Instance) (ds es : List ℕ) (b : BlkDev)
    → has d ds ≡ false
    → find_minor m (ds ++ d ∷ []) (add_instance major es d i b)
      ≡ elim (find_minor m ds b) [ some x ↦ some x | none ↦ if i.minor == m then some d else none ]
find_minor-add_instance m major d i [] es b h = ground arith
find_minor-add_instance m major d i (x ∷ ds) es b h = elim (Bool-cases ((b.dev x).minor == m)) [
  | inl k ↦ ground arith
  | inr k ↦ rw k (ground (arith, find_minor-add_instance m major d i ds es b (ground arith)))
]

registered :
    (major minor block_size capacity d : ℕ) (ds : List ℕ) (b : BlkDev)
    → major ≤ nr_blkdev_major_types
    → 0 < block_size
    → 0 < capacity
    → b.classes major ≡ some ds
    → find_minor minor ds b ≡ none
    → register_blkdev_instance major minor block_size capacity (some d) b
      ≡ done (s_ok, add_instance major ds d (new_instance minor block_size capacity) b)
unfolding register_blkdev_instance
registered major minor block_size capacity d ds b l p q e f =
    let ok : (ltb nr_blkdev_major_types major || block_size == 0 || capacity == 0) ≡ false =
      ground arith in
    rw ok (rw e (rw (get_none minor ds b f) refl))

-- For a registered class, nonzero sizes, a minor number that no instance of the class has and a new
-- structure from the heap that is not on the list of the class, register_blkdev_instance returns S_OK.
-- Then the minor number leads to the new instance, which has that minor number, the given block size
-- and capacity and the reference count 0, and every other minor number leads to
-- the instance it led to before.
pub register_blkdev_instance-find_minor :
    (major minor block_size capacity d : ℕ) (ds : List ℕ) (b : BlkDev)
    → major ≤ nr_blkdev_major_types
    → 0 < block_size
    → 0 < capacity
    → b.classes major ≡ some ds
    → find_minor minor ds b ≡ none
    → has d ds ≡ false
    → (b' : BlkDev) × (ds' : List ℕ) × (register_blkdev_instance major minor block_size capacity
          (some d)
          b
        ≡ done (s_ok, b'))
      × (b'.classes major ≡ some ds')
      × (find_minor minor ds' b' ≡ some d)
      × ((b'.dev d).minor ≡ minor)
      × ((b'.dev d).block_size ≡ block_size)
      × ((b'.dev d).capacity ≡ capacity)
      × ((b'.dev d).refcnt ≡ 0)
      × ((m : ℕ) → (minor == m) ≡ false → find_minor m ds' b' ≡ find_minor m ds b)
register_blkdev_instance-find_minor major minor block_size capacity d ds b l p q e f h =
    let i = new_instance minor block_size capacity in
    let found = λ (m : ℕ). find_minor-add_instance m major d i ds ds b h in
    (
      add_instance major ds d i b,
      ds ++ d ∷ [],
      registered major minor block_size capacity d ds b l p q e f,
      ground arith,
      ground (arith, found minor, f),
      ground arith,
      ground arith,
      ground arith,
      ground arith,
      λ m n. elim (Option-cases (find_minor m ds b)) [
        | inl z ↦ ground (arith, found m, z)
        | inr (x, z) ↦ ground (arith, found m, z)
      ],
    )
