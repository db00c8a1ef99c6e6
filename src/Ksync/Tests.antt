-- ===== src/Ksync/Tests.antt =====
-- The theorems about kernel/ksync.c at three tasks, of which the second runs.
use simplix.Base.{◌-◌, ◌^◌, ◌≡◌, refl, true, false, none, some, [], ◌∷◌, arith, ◌==◌, if◌then◌else◌}
use simplix.Ring.{list_find_first}
use simplix.Sched.{runnable, uninterruptible}
use simplix.Ksync.{Ksema, Tasks, ring, ksema_down, ksema_resume, ksema_up}
use simplix.Ksync.Queue.{ksema_down-endless}
use simplix.Ksync.Overtake.{ksema_up-overtaken}

-- The global task list 1, 2, 3; and another list of 5 and 6.
abbrev tasks : Tasks
tasks = record {
  prev = λ i.
      if i == 1 then 3 else if i == 2 then 1 else if i == 3 then 2 else if i == 5 then 6 else 5;
  next = λ i.
      if i == 1 then 2 else if i == 2 then 3 else if i == 3 then 1 else if i == 5 then 6 else 5;
  task_list = some 1;
  state = λ i. if i == 5 then uninterruptible else runnable;
  current = 2;
}

abbrev locked : Ksema
locked = record { value = 0; waiting = none }

abbrev awaited : Ksema
awaited = record { value = 0; waiting = some 5 }

abbrev free : Ksema
free = record { value = 1; waiting = none }

ksema_down-endless_example :
    let (sleeps, s', t') = ksema_down locked tasks in
    (sleeps ≡ true)
    × (t'.state 2 ≡ uninterruptible)
    × (list_find_first 1000 (λ _. false) (ring t'.task_list t') ≡ none)
ksema_down-endless_example =
    ksema_down-endless locked tasks 1 [] (3 ∷ []) 1000 (ground arith) refl refl

ksema_up-overtaken_example :
    let (s1, t1) = ksema_up awaited tasks in
    let (sleeps, s2, t2) = ksema_down s1 (record t1 { current = 3 }) in
    (t1.state 5 ≡ runnable) × (sleeps ≡ false) × ((ksema_resume s2).value ≡ 2 ^ 32 - 1)
ksema_up-overtaken_example = ksema_up-overtaken awaited tasks 5 3 refl refl
