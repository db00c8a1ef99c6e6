-- ===== src/Ide/Guard.antt =====
-- The mutex of a controller of drivers/ide.c, as kernel/ksync.c has it: what takes it, what keeps it
-- and what gives it back.
use simplix.Base.{
  ℕ, ◌≡◌, refl, ◌∙◌, inl, inr, arith, true, false, List, [], ◌∷◌, ◌==◌, if◌then◌else◌, update,
  Bool-cases, Option-cases,
}
use simplix.Ksync.{
  Ksema, Tasks, ring, ksema_down, ksema_wait, ksema_take, ksema_resume, ksema_up, kmutex_lock,
  kmutex_unlock,
}
use simplix.Ring.{list_pop_head}
use simplix.Ide.Sync.{
  World, Event, Call, in_kmutex_lock, in_ksema_down, switch, lock, unlock, resume, interrupt,
  change, happen, happen_all, sleep, set_mutex, lock_mutex, unlock_mutex, down_sema, spares,
  all_spare, IsTaken,
}

-- A semaphore that is 0 stays 0 where a task waits for it.
lock_zero : (s : Ksema) (t : Tasks) → s.value ≡ 0 → (kmutex_lock s t).1.value ≡ 0
unfolding kmutex_lock ksema_down ksema_wait
lock_zero s t e = let z : (s.value == 0) ≡ true = ground (arith, e) in rw z e

lock_asleep : (s : Ksema) (t : Tasks) → s.value ≡ 0 → (kmutex_lock s t).0 ≡ true
unfolding kmutex_lock ksema_down
lock_asleep s t e = let z : (s.value == 0) ≡ true = ground (arith, e) in rw z refl

lock_one : (s : Ksema) (t : Tasks) → s.value ≡ 1 → (kmutex_lock s t).0 ≡ false
unfolding kmutex_lock ksema_down
lock_one s t e = let z : (s.value == 0) ≡ false = ground (arith, e) in rw z refl

take_one : (s : Ksema) → s.value ≡ 1 → (ksema_take s).value ≡ 0
unfolding ksema_take
take_one s e = rw e refl

lock_taken : (s : Ksema) (t : Tasks) → s.value ≡ 1 → (kmutex_lock s t).1.value ≡ 0
unfolding kmutex_lock ksema_down
lock_taken s t e = let z : (s.value == 0) ≡ false = ground (arith, e) in rw z (take_one s e)

unlock_one : (s : Ksema) (t : Tasks) → s.value ≡ 0 → (kmutex_unlock s t).0.value ≡ 1
unfolding kmutex_unlock ksema_up list_pop_head
unlock_one s t e = elim (Option-cases (list_pop_head (ring s.waiting t)).0) [
  | inl z ↦ rw z (rw e refl)
  | inr (x, z) ↦ rw z (rw e refl)
]

module _ {H : Type 0} (c n : ℕ) where
  happen-IsTaken :
      (e : Event H) (w : World H) → spares c e ≡ true → IsTaken c n w → IsTaken c n (happen e w)
  unfolding happen
  happen-IsTaken (switch t) w s taken = taken
  happen-IsTaken (lock d) w s (zero_value, same) = elim (Bool-cases (d == c)) [
    | inl k ↦
        let q : d ≡ c = ground arith in
        (rw q (ground (arith, lock_zero (w.mutex c) w.tasks zero_value)), same)
    | inr k ↦ (ground arith, same)
  ]
  happen-IsTaken (unlock d) w s (zero_value, same) = (ground arith, same)
  happen-IsTaken (resume d) w s (zero_value, same) = (ground arith, same)
  happen-IsTaken (interrupt d) w s taken = taken
  happen-IsTaken (change f) w s taken = taken

  happen_all-IsTaken :
      (es : List (Event H)) (w : World H)
      → all_spare c es ≡ true
      → IsTaken c n w
      → IsTaken c n (happen_all es w)
  unfolding happen_all all_spare
  happen_all-IsTaken [] w s taken = taken
  happen_all-IsTaken (e ∷ es) w s taken =
      happen_all-IsTaken es (happen e w) (ground arith) (happen-IsTaken e w (ground arith) taken)

  module _ (meanwhile : Call → World H → List (Event H))
      (spared : (v : World H)
        → (v.mutex c).value ≡ 0
        → all_spare c (meanwhile in_ksema_down v) ≡ true) where
    pub down_sema-IsTaken :
        (d : ℕ) (w : World H) → IsTaken c n w → IsTaken c n (down_sema meanwhile d w)
    unfolding down_sema
    down_sema-IsTaken d w taken =
        let r = ksema_down (w.io_sema d) w.tasks in
        let w1 : World H = record w { io_sema = update w.io_sema d r.1; tasks = r.2 } in
        let slept = happen_all-IsTaken (meanwhile in_ksema_down w1) w1 (spared w1 taken.0) taken in
        elim (Bool-cases r.0) [ inl e ↦ rw e slept | inr e ↦ rw e taken ]

-- The world in which a task that waits for a mutex calls schedule.
abbrev pub before_sleep : {H : Type 0} → ℕ → World H → World H
before_sleep c w =
    set_mutex c (kmutex_lock (w.mutex c) w.tasks).1 (kmutex_lock (w.mutex c) w.tasks).2 w

-- The world in which kmutex_lock goes on: at once if the mutex is free, and behind its sleep if not.
abbrev pub at_lock : {H : Type 0} → (Call → World H → List (Event H)) → ℕ → World H → World H
at_lock meanwhile c w =
    if (w.mutex c).value == 0 then sleep meanwhile in_kmutex_lock (before_sleep c w) else w

resume_one :
    {H : Type 0} (c : ℕ) (v : World H)
    → (v.mutex c).value ≡ 1
    → ((set_mutex c (ksema_resume (v.mutex c)) v.tasks v).mutex c).value ≡ 0
resume_one c v e = ground (arith, take_one (v.mutex c) e)

pub lock_mutex-IsTaken :
    {H : Type 0} (c : ℕ) (meanwhile : Call → World H → List (Event H)) (w : World H)
    → ((at_lock meanwhile c w).mutex c).value ≡ 1
    → ((lock_mutex meanwhile c w).mutex c).value ≡ 0
unfolding lock_mutex
lock_mutex-IsTaken c meanwhile w free = elim (Bool-cases ((w.mutex c).value == 0)) [
  | inl z ↦
      let asleep = lock_asleep (w.mutex c) w.tasks (ground arith) in
      rw asleep (resume_one c (sleep meanwhile in_kmutex_lock (before_sleep c w)) (rw z at free))
  | inr z ↦
      let one : (w.mutex c).value ≡ 1 = rw z at free in
      rw (lock_one (w.mutex c) w.tasks one) (ground (arith, lock_taken (w.mutex c) w.tasks one))
]

happen-strays : {H : Type 0} (e : Event H) (w : World H) → (happen e w).strays ≡ w.strays
unfolding happen
happen-strays (switch t) w = refl
happen-strays (lock d) w = refl
happen-strays (unlock d) w = refl
happen-strays (resume d) w = refl
happen-strays (interrupt d) w = refl
happen-strays (change f) w = refl

happen_all-strays :
    {H : Type 0} (es : List (Event H)) (w : World H) → (happen_all es w).strays ≡ w.strays
unfolding happen_all
happen_all-strays [] w = refl
happen_all-strays (e ∷ es) w = happen_all-strays es (happen e w) ∙ happen-strays e w

pub lock_mutex-strays :
    {H : Type 0} (c : ℕ) (meanwhile : Call → World H → List (Event H)) (w : World H)
    → (lock_mutex meanwhile c w).strays ≡ w.strays
unfolding lock_mutex
lock_mutex-strays c meanwhile w = elim (Bool-cases (kmutex_lock (w.mutex c) w.tasks).0) [
  | inl e ↦ rw e (happen_all-strays (meanwhile in_kmutex_lock _) _)
  | inr e ↦ rw e refl
]

pub unlock_mutex-value :
    {H : Type 0} (c : ℕ) (w : World H)
    → (w.mutex c).value ≡ 0
    → ((unlock_mutex c w).mutex c).value ≡ 1
unlock_mutex-value c w e = ground (arith, unlock_one (w.mutex c) w.tasks e)
