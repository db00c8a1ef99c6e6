-- ===== src/Ksync/Queue.antt =====
-- The wait queue of a semaphore and the global task list, which share their links.
use simplix.Base.{
  ℕ, zero, suc, ◌+◌, ◌≡◌, refl, true, false, ◌||◌, not, none, some, List, [], ◌∷◌, ◌++◌, arith,
  ◌==◌, if◌then◌else◌, ◌∙◌,
}
use simplix.Ring.{Ring, list_find, list_find_first, list_append, list_init}
use simplix.Ring.Chain.{has, has-append, Distinct, Chain, IsRing}
use simplix.Sched.{uninterruptible}
use simplix.Ksync.{Ksema, Tasks, ring, ksema_wait, ksema_down}

-- The first task that waits is linked to itself.
next-ksema_wait :
    (s : Ksema) (t : Tasks) (i : ℕ)
    → s.waiting ≡ none
    → (ksema_wait s t).1.next i ≡ (if t.current == i then t.current else t.next i)
unfolding ksema_wait list_append list_init
next-ksema_wait s t i h = rw h (ground arith)

-- The elements before one that occurs once.
Distinct-before : (c : ℕ) (xs ys : List ℕ) → Distinct (xs ++ c ∷ ys) → has c xs ≡ false
Distinct-before c [] ys d = refl
Distinct-before c (x ∷ xs) ys d =
    ground (arith, has-append x xs (c ∷ ys), Distinct-before c xs ys d.1)

-- A loop over a list that comes to an element that is linked to itself, not the head, never ends.
module _ (r s : Ring) (h c : ℕ) (away : (c == h) ≡ false) (self : s.next c ≡ c)
    (same : (i : ℕ) → (i == c) ≡ false → s.next i ≡ r.next i) where
  list_find_self : (fuel index : ℕ) → list_find fuel (λ _. false) s h c index ≡ none
  unfolding list_find
  list_find_self zero index = refl
  list_find_self (suc fuel) index = ground (arith, list_find_self fuel (index + 1))

  list_find-before :
      (fuel a index : ℕ) (xs ys : List ℕ)
      → Chain r a (xs ++ c ∷ ys) h
      → (a == c) ≡ false
      → has c xs ≡ false
      → has h xs ≡ false
      → (not (a == h) || index == 0) ≡ true
      → list_find fuel (λ _. false) s h a index ≡ none
  unfolding list_find
  list_find-before zero a index xs ys p n m k e = refl
  list_find-before (suc fuel) a index [] ys p n m k e =
      let to : s.next a ≡ c = same a n ∙ p.0 in rw to (rw e (list_find_self fuel (index + 1)))
  list_find-before (suc fuel) a index (x ∷ xs) ys p n m k e =
      let to : s.next a ≡ x = same a n ∙ p.0 in
      rw to (
        rw e (
          list_find-before fuel x (index + 1) xs ys p.2 (ground arith) (ground arith) (ground arith)
            (ground arith)))

task_list-ksema_wait :
    (s : Ksema) (t : Tasks)
    → ((ksema_wait s t).1.task_list ≡ t.task_list)
      × ((ksema_wait s t).1.state t.current ≡ uninterruptible)
unfolding ksema_wait
task_list-ksema_wait s t = (refl, ground arith)

waits :
    (s : Ksema) (t : Tasks)
    → s.value ≡ 0
    → ksema_down s t ≡ (true, (ksema_wait s t).0, (ksema_wait s t).1)
unfolding ksema_down
waits s t z = rw z refl

endless :
    (r s : Ring) (h c fuel : ℕ) (xs ys : List ℕ)
    → IsRing r (h ∷ xs ++ c ∷ ys)
    → s.head ≡ some h
    → s.next c ≡ c
    → ((i : ℕ) → (i == c) ≡ false → s.next i ≡ r.next i)
    → list_find_first fuel (λ _. false) s ≡ none
unfolding list_find_first
endless r s h c fuel xs ys (e, p, (n, d)) g self same = rw g (
    list_find-before r (record s { head = some h }) h c (ground (arith, has-append h xs (c ∷ ys)))
      self same fuel h 0 xs ys p (ground (arith, has-append h xs (c ∷ ys)))
      (Distinct-before c xs ys d) (ground (arith, has-append h xs (c ∷ ys))) (ground arith))

-- If the current task is not the first of the global task list and waits for a semaphore that no
-- task waits for, its links to the other tasks are lost: the loops of the scheduler over the
-- global task list come to the task again and again, and end on no number of rounds.
pub ksema_down-endless :
    (s : Ksema) (t : Tasks) (h : ℕ) (xs ys : List ℕ) (fuel : ℕ)
    → IsRing (ring t.task_list t) (h ∷ xs ++ t.current ∷ ys)
    → s.value ≡ 0
    → s.waiting ≡ none
    → let (sleeps, s', t') = ksema_down s t in
      (sleeps ≡ true)
      × (t'.state t.current ≡ uninterruptible)
      × (list_find_first fuel (λ _. false) (ring t'.task_list t') ≡ none)
ksema_down-endless s t h xs ys fuel chain z e =
    let (list, state) = task_list-ksema_wait s t in
    rw (waits s t z) (
      refl,
      state,
      endless (ring t.task_list t) (ring (ksema_wait s t).1.task_list (ksema_wait s t).1) h
          t.current fuel xs ys chain (list ∙ chain.0)
          (next-ksema_wait s t t.current e ∙ ground arith)
          (λ i n. next-ksema_wait s t i e ∙ ground arith),
    )
