-- ===== src/BlkDev/Count.antt =====
-- Reference counts of kernel/blkdev.c.
use simplix.Base.{
  ℕ, ◌+◌, ◌-◌, ◌%◌, ◌^◌, ◌<◌, ◌≡◌, refl, ap, ◌∙◌, inl, inr, true, false, Option, none, some, List,
  [], ◌∷◌, arith, ltb, ◌==◌, if◌then◌else◌, Bool-cases,
}
use simplix.PhysMem.{s_ok, e_busy, done}
use simplix.BlkDev.{
  BlkDev, nr_blkdev_major_types, set_refcnt, get_blkdev_instance, release_blkdev_instance,
  unregister_blkdev_instance, without, drop_instance,
}

-- The first instance on the list with the minor number.
abbrev pub find_minor : ℕ → List ℕ → BlkDev → Option ℕ
find_minor minor [] b = none
find_minor minor (d ∷ ds) b = if (b.dev d).minor == minor then some d else find_minor minor ds b

pub get_found :
    (minor d : ℕ) (ds : List ℕ) (b : BlkDev)
    → find_minor minor ds b ≡ some d
    → get_blkdev_instance minor ds b ≡ (some d, set_refcnt d (((b.dev d).refcnt + 1) % 2 ^ 32) b)
unfolding get_blkdev_instance
get_found minor d [] b e = cc
get_found minor d (x ∷ ds) b e = elim (Bool-cases ((b.dev x).minor == minor)) [
  | inl k ↦ let q : x ≡ d = ground arith in rw k (rw q refl)
  | inr k ↦ rw k (get_found minor d ds b (ground arith))
]

pub release_at :
    (d n : ℕ) (b : BlkDev)
    → (b.dev d).refcnt ≡ n + 1
    → release_blkdev_instance d b ≡ done (set_refcnt d n b)
unfolding release_blkdev_instance
release_at d n b e =
    let p : ltb 0 (b.dev d).refcnt ≡ true = ground arith in
    let q : (b.dev d).refcnt - 1 ≡ n = omega (arith, e) in rw (p, q) refl

-- An instance that is found by its minor number and released again has its old count, and so has
-- every other instance, unless the count wraps around; the assertion of the release holds.
pub release_blkdev_instance-get_blkdev_instance :
    (minor d : ℕ) (ds : List ℕ) (b : BlkDev)
    → find_minor minor ds b ≡ some d
    → (b.dev d).refcnt + 1 < 2 ^ 32
    → (b1 b2 : BlkDev) × (get_blkdev_instance minor ds b ≡ (some d, b1))
      × (release_blkdev_instance d b1 ≡ done b2)
      × ((b1.dev d).refcnt ≡ (b.dev d).refcnt + 1)
      × ((i : ℕ) → (b2.dev i).refcnt ≡ (b.dev i).refcnt)
release_blkdev_instance-get_blkdev_instance minor d ds b found small =
    let n : (((b.dev d).refcnt + 1) % 2 ^ 32) ≡ (b.dev d).refcnt + 1 = omega arith in
    let self : (d == d) ≡ true = ground arith in
    let b1 = set_refcnt d ((b.dev d).refcnt + 1) b in
    (
      b1,
      set_refcnt d (b.dev d).refcnt b1,
      get_found minor d ds b found ∙ rw n refl,
      release_at d (b.dev d).refcnt b1 (rw self refl),
      rw self refl,
      λ i. elim (Bool-cases (d == i)) [
        | inl e ↦ let q : d ≡ i = ground arith in rw e (rw q refl)
        | inr e ↦ rw e refl
      ],
    )

unregister_found :
    (major minor d : ℕ) (ds : List ℕ) (b : BlkDev)
    → major < nr_blkdev_major_types + 1
    → b.classes major ≡ some ds
    → find_minor minor ds b ≡ some d
    → (b.dev d).refcnt + 1 < 2 ^ 32
    → unregister_blkdev_instance major minor b
      ≡ drop_instance major ds (some d, set_refcnt d ((b.dev d).refcnt + 1) b)
unfolding unregister_blkdev_instance
unregister_found major minor d ds b range known found small =
    let ok : ltb nr_blkdev_major_types major ≡ false = ground arith in
    let n : (((b.dev d).refcnt + 1) % 2 ^ 32) ≡ (b.dev d).refcnt + 1 = omega arith in
    let got : get_blkdev_instance minor ds b ≡ (some d, set_refcnt d ((b.dev d).refcnt + 1) b) =
      get_found minor d ds b found ∙ rw n refl in
    rw (unregister_blkdev_instance, ok, known) (ap (drop_instance major ds) got)

-- Unregistering an instance that is in use is refused, and its count stays one higher: the
-- reference that the call took for itself is not given back.
pub unregister_blkdev_instance-busy :
    (major minor d : ℕ) (ds : List ℕ) (b : BlkDev)
    → major < nr_blkdev_major_types + 1
    → b.classes major ≡ some ds
    → find_minor minor ds b ≡ some d
    → (b.dev d).refcnt + 1 < 2 ^ 32
    → 0 < (b.dev d).refcnt
    → unregister_blkdev_instance major minor b ≡ (e_busy, set_refcnt d ((b.dev d).refcnt + 1) b)
unregister_blkdev_instance-busy major minor d ds b range known found small used =
    let self : (d == d) ≡ true = ground arith in
    let busy : ltb 1 ((b.dev d).refcnt + 1) ≡ true = ground arith in
    unregister_found major minor d ds b range known found small ∙ rw (self, busy) refl

-- Unregistering an instance that is not in use succeeds and takes exactly this instance off the
-- list of its class.
pub unregister_blkdev_instance-unused :
    (major minor d : ℕ) (ds : List ℕ) (b : BlkDev)
    → major < nr_blkdev_major_types + 1
    → b.classes major ≡ some ds
    → find_minor minor ds b ≡ some d
    → (b.dev d).refcnt ≡ 0
    → (b' : BlkDev) × (unregister_blkdev_instance major minor b ≡ (s_ok, b'))
      × ((i : ℕ) → b'.classes i ≡ (if i == major then some (without d ds) else b.classes i))
unregister_blkdev_instance-unused major minor d ds b range known found unused =
    let self : (d == d) ≡ true = ground arith in
    let free : ltb 1 ((b.dev d).refcnt + 1) ≡ false = ground arith in
    (
      record (set_refcnt d ((b.dev d).refcnt + 1) b) {
        classes = λ i. if i == major then some (without d ds) else b.classes i;
      },
      unregister_found major minor d ds b range known found (omega arith) ∙ rw (self, free) refl,
      λ i. refl,
    )
